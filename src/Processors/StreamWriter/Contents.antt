-- ===== src/Processors/StreamWriter/Contents.antt =====
-- What the file holds in the end, where neither creating it nor writing to it fails.
use bilirec.Prelude.{
  ℕ, ◌≤◌, ◌<◌, ◌≡◌, refl, sym, ap, ◌∙◌, subst, inl, Option, none, some, List, [], ◌++◌, if_cases,
  length, ltb, ◌==◌, ltb→lt, arith, append-nil, EndsIn, concat,
}
use bilirec.Rw.{Sink, WriteError, BufferedWriter, new_buffered_writer, flush}
use bilirec.Rw.Flushes.{IsSteady, accepted, Flushed, flush-Flushed}
use bilirec.Processors.StreamWriter.{
  BufferedStreamWriter, Event, deferred_file_creation, open_writer, create_file_and_writer,
  handle_all, close_file, finish, close_pending, close,
}
use bilirec.Processors.StreamWriter.Opening.{
  total, total-append, not_below, Accounts, HasAccounts, chunks_of,
}
use bilirec.Processors.StreamWriter.Accounts.{IsFresh, AreFresh, handle_all-HasAccounts}

module _ (w : Sink) where
  close_after :
      Option (BufferedStreamWriter w)
      → Option w.State
      → Option (BufferedStreamWriter w × Option w.State)
  close_after none last = none
  close_after (some s) last = close w s last s.writer

  -- `Open`, a run, and `Close`.
  unfoldable pub record_chunks :
      BufferedStreamWriter w
      → Option w.State
      → List (Event w)
      → Option w.State
      → Option (BufferedStreamWriter w × Option w.State)
  unfolding close_after open_writer handle_all close
  record_chunks s created events last =
      close_after (handle_all w (open_writer w s created) events) last

  -- A processor that was not opened yet.
  abbrev pub IsNew : ℕ → BufferedStreamWriter w → Type 0
  IsNew threshold s =
      (s.writer ≡ none)
      × (s.put_back ≡ [])
      × (s.pending_chunks ≡ [])
      × (s.pending_bytes ≡ 0)
      × (s.bytes_written ≡ 0)
      × (s.skip_small_flush_threshold ≡ threshold)

  -- The file of some chunks; there is none exactly where they are below the threshold.
  abbrev pub FileOf : ℕ → List (List ℕ) → Option w.State → Type 0
  FileOf threshold chunks none = total chunks < threshold
  FileOf threshold chunks (some file) =
      (threshold ≤ total chunks) × (w.content file ≡ concat chunks)

  module _ (steady : IsSteady w) (threshold : ℕ) where
    abbrev pub sure : Unit {0} → IsSteady w
    sure u = steady

    abbrev Ready : List (List ℕ) → BufferedStreamWriter w → Type 0
    Ready = HasAccounts w (Unit {0}) sure threshold

    abbrev EndsWith : List (List ℕ) → BufferedStreamWriter w × Option w.State → Type 0
    EndsWith chunks r = FileOf threshold chunks r.1

    open_writer-Ready :
        (s : BufferedStreamWriter w) (created : Option w.State)
        → IsNew threshold s
        → IsFresh w (Unit {0}) sure threshold created
        → EndsIn (Ready []) (open_writer w s created)
    unfolding open_writer deferred_file_creation create_file_and_writer new_buffered_writer
    open_writer-Ready s none new fresh = absurd (fresh tt)
    open_writer-Ready s (some file) (shut, put, kept, zero_pending, none_yet, same) fresh =
        if_cases (EndsIn (Ready [])) (ltb 0 s.skip_small_flush_threshold)
          (λ pos.
            let opened : BufferedStreamWriter w = record s {
              pending_chunks = [];
              pending_bytes = 0;
            } in
            subst
              (λ (wr : Option (BufferedWriter w)).
                Accounts w (Unit {0}) sure threshold [] wr opened)
              (sym shut)
              (
                append-nil s.put_back ∙ put,
                refl,
                none_yet,
                same,
                omega (arith, ltb→lt _ _ pos),
                inl (omega (arith, ltb→lt _ _ pos)),
                λ q. (put, omega (arith, ltb→lt _ _ pos)),
              ))
          (λ zero_threshold. (
            (
              put,
              kept,
              zero_pending,
              ground arith,
              omega arith,
              none_yet ∙ sym (ap length (append-nil (w.content file) ∙ fresh)),
              λ q. append-nil (w.content file) ∙ fresh,
              same,
            ),
            omega (arith, not_below 0 s.skip_small_flush_threshold zero_threshold),
          ))

    close_file-EndsWith :
        (chunks : List (List ℕ)) (s : BufferedStreamWriter w) (b : BufferedWriter w)
        (r : Option (BufferedWriter w × Option WriteError))
        → threshold ≤ total chunks
        → accepted w b ≡ concat chunks
        → Flushed w b r
        → EndsIn (EndsWith chunks) (close_file w s r)
    unfolding close_file
    close_file-EndsWith chunks s b none le whole flushed = flushed
    close_file-EndsWith chunks s b (some (after, e)) le whole flushed =
        let empty : after.buf ≡ [] = flushed.3 (flushed.4 steady) in
        (
          le,
          sym (append-nil (w.content after.sink))
              ∙ (ap (λ (t : List ℕ). w.content after.sink ++ t) (sym empty) ∙ (flushed.0 ∙ whole)),
        )

    close-EndsWith :
        (chunks : List (List ℕ)) (s : BufferedStreamWriter w) (last : Option w.State)
        (wr : Option (BufferedWriter w))
        → Accounts w (Unit {0}) sure threshold chunks wr s
        → EndsIn (EndsWith chunks) (close w s last wr)
    unfolding close deferred_file_creation close_pending finish
    close-EndsWith chunks s last (some b) h =
        close_file-EndsWith chunks s b (flush w b) h.1 (h.0.6 tt) (flush-Flushed w b)
    close-EndsWith chunks s last none h =
        let lost_none = (h.6 tt).0 in
        let few : total chunks < threshold = omega (
          arith,
          (h.6 tt).1,
          h.1,
          ap total h.0,
          total-append s.put_back s.pending_chunks,
          ap total lost_none,
        ) in
        if_cases (EndsIn (EndsWith chunks)) (ltb 0 s.skip_small_flush_threshold)
          (λ _.
            if_cases (EndsIn (EndsWith chunks)) (s.pending_bytes == 0) (λ _. few)
              (λ _.
                if_cases (EndsIn (EndsWith chunks))
                  (ltb s.pending_bytes s.skip_small_flush_threshold) (λ _. few)
                  (λ z. absurd (
                    omega (
                      arith,
                      (h.6 tt).1,
                      h.3,
                      not_below s.pending_bytes s.skip_small_flush_threshold z,
                    )))))
          (λ _. few)

    close_after-EndsWith :
        (chunks : List (List ℕ)) (r : Option (BufferedStreamWriter w)) (last : Option w.State)
        → EndsIn (Ready chunks) r
        → EndsIn (EndsWith chunks) (close_after r last)
    unfolding close_after
    close_after-EndsWith chunks none last h = h
    close_after-EndsWith chunks (some s) last h = close-EndsWith chunks s last s.writer h

    -- Open, any chunks with flushes and cache releases between them, and Close end with the file that holds
    -- the bytes of the chunks in order, if they reach the threshold, and with no file otherwise. The
    -- processor is new. No write and no creation of the (empty) file fails.
    pub record_chunks-FileOf :
        (s : BufferedStreamWriter w) (created last : Option w.State) (events : List (Event w))
        → IsNew threshold s
        → IsFresh w (Unit {0}) sure threshold created
        → AreFresh w (Unit {0}) sure threshold events
        → EndsIn
            (λ (r : BufferedStreamWriter w × Option w.State).
              FileOf threshold (chunks_of w events) r.1)
            (record_chunks s created events last)
    unfolding record_chunks
    record_chunks-FileOf s created last events new fresh all_fresh =
        close_after-EndsWith (chunks_of w events) (handle_all w (open_writer w s created) events)
          last
          (handle_all-HasAccounts w (Unit {0}) sure threshold [] (open_writer w s created) events
            all_fresh (open_writer-Ready s created new fresh))
