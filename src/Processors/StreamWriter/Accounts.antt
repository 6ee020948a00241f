-- ===== src/Processors/StreamWriter/Accounts.antt =====
-- Every chunk is kept or put back once, whatever the file system answers, and the counts are right.
use bilirec.Prelude.{
  ℕ, ◌+◌, ◌-◌, ◌≤◌, ◌<◌, ◌≡◌, inl, inr, Bool, true, false, ltb→lt, leb→le, refl, sym, ap, ◌∙◌,
  subst, Option, none, some, List, [], ◌∷◌, ◌++◌, if_cases, length, ltb, leb, arith, append_assoc,
  append-nil, EndsIn,
}
use bilirec.Rw.{Sink, WriteError, BufferedWriter, new_buffered_writer, flush, buffered}
use bilirec.Rw.Flushes.{IsSteady, accepted, Flushed, flush-Flushed}
use bilirec.Processors.StreamWriter.{
  BufferedStreamWriter, max_pending_bytes_before_drop, deferred_file_creation,
  release_pending_chunks, create_file_and_writer, write_chunk, write_pending_chunks_to_writer,
  created_or_kept, defer_chunk, handle_data_chunk, after_periodic_flush, do_periodic_flush,
  ColdReleasePlan, release_planned, release_cold_prefix, plan_cold_release, Event, chunk, periodic,
  cold, handle, handle_all,
}
use bilirec.Processors.StreamWriter.Opening.{
  total, total-append, not_below, chunks_of, Opened, Accounts, HasAccounts, IsOpened-ends,
  write_chunk-IsOpened, write_pending-IsOpened,
}

-- `Reliable` stands for the case that neither a creation nor a write fails; it is `⊥` where they may.
module _ (w : Sink) (Reliable : Type 0) (steady : Reliable → IsSteady w) (threshold : ℕ) where
  -- What `os.Create` makes is empty; it fails only where this may be.
  abbrev pub IsFresh : Option w.State → Type 0
  IsFresh none = Reliable → ⊥
  IsFresh (some file) = w.content file ≡ []

  created_or_kept-HasAccounts :
      (chunks : List (List ℕ)) (s : BufferedStreamWriter w) (created : Option w.State)
      → s.put_back ++ s.pending_chunks ≡ chunks
      → s.pending_bytes ≡ total s.pending_chunks
      → s.bytes_written ≡ 0
      → s.skip_small_flush_threshold ≡ threshold
      → 0 < threshold
      → threshold ≤ total chunks
      → (Reliable → s.put_back ≡ [])
      → s.writer ≡ none
      → IsFresh created
      → EndsIn
          (HasAccounts w Reliable steady threshold chunks)
          (created_or_kept w s (create_file_and_writer w s created))
  unfolding created_or_kept create_file_and_writer release_pending_chunks
  created_or_kept-HasAccounts chunks s none all counted none_yet same pos le kept shut fresh =
      if_cases (EndsIn (HasAccounts w Reliable steady threshold chunks))
        (leb s.pending_bytes max_pending_bytes_before_drop)
        (λ few.
          subst
            (λ (wr : Option (BufferedWriter w)). Accounts w Reliable steady threshold chunks wr s)
            (sym shut)
            (all, counted, none_yet, same, pos, inr (leb→le _ _ few), λ q. absurd (fresh q)))
        (λ _.
          let dropped : BufferedStreamWriter w = release_pending_chunks w s in
          subst
            (λ (wr : Option (BufferedWriter w)).
              Accounts w Reliable steady threshold chunks wr dropped)
            (sym shut)
            (
              append-nil (s.put_back ++ s.pending_chunks) ∙ all,
              refl,
              none_yet,
              same,
              pos,
              inr (omega arith),
              λ q. absurd (fresh q),
            ))
  created_or_kept-HasAccounts chunks s (some file) all counted none_yet same pos le kept shut
        fresh =
      subst
        (λ (cs : List (List ℕ)). EndsIn (HasAccounts w Reliable steady threshold cs) (
          write_pending_chunks_to_writer w
            (record s { writer = some (new_buffered_writer w file s.buffer_size) })))
        all
        (IsOpened-ends w Reliable steady threshold (s.put_back ++ s.pending_chunks)
          (write_pending_chunks_to_writer w
            (record s { writer = some (new_buffered_writer w file s.buffer_size) }))
          (omega (arith, ap total all))
          (write_pending-IsOpened w Reliable steady threshold s file none_yet fresh same kept))

  handle_data_chunk-HasAccounts :
      (chunks : List (List ℕ)) (s : BufferedStreamWriter w) (c : List ℕ) (created : Option w.State)
      (wr : Option (BufferedWriter w))
      → s.writer ≡ wr
      → Accounts w Reliable steady threshold chunks wr s
      → IsFresh created
      → EndsIn
          (HasAccounts w Reliable steady threshold (chunks ++ (c ∷ [])))
          (handle_data_chunk w s c created wr)
  unfolding handle_data_chunk deferred_file_creation defer_chunk
  handle_data_chunk-HasAccounts chunks s c created none shut h fresh =
      let waiting : BufferedStreamWriter w = record s {
        pending_chunks = s.pending_chunks ++ (c ∷ []);
        pending_bytes = s.pending_bytes + length c;
      } in
      let all : s.put_back ++ (s.pending_chunks ++ (c ∷ [])) ≡ chunks ++ (c ∷ []) =
        sym (append_assoc s.put_back s.pending_chunks (c ∷ []))
        ∙ ap (λ (t : List (List ℕ)). t ++ (c ∷ [])) h.0 in
      let counted : s.pending_bytes + length c ≡ total (s.pending_chunks ++ (c ∷ [])) =
        omega (arith, h.1, total-append s.pending_chunks (c ∷ [])) in
      let grown : total (s.put_back ++ (s.pending_chunks ++ (c ∷ [])))
          ≡ total (chunks ++ (c ∷ [])) =
        ap total all in
      if_cases (EndsIn (HasAccounts w Reliable steady threshold (chunks ++ (c ∷ []))))
        (ltb 0 s.skip_small_flush_threshold)
        (λ _.
          if_cases (EndsIn (HasAccounts w Reliable steady threshold (chunks ++ (c ∷ []))))
            (ltb (s.pending_bytes + length c) s.skip_small_flush_threshold)
            (λ lt.
              subst
                (λ (wr : Option (BufferedWriter w)).
                  Accounts w Reliable steady threshold (chunks ++ (c ∷ [])) wr waiting)
                (sym shut)
                (
                  all,
                  counted,
                  h.2,
                  h.3,
                  h.4,
                  inl (omega (arith, h.3, ltb→lt _ _ lt)),
                  λ q. ((h.6 q).0, omega (arith, h.3, ltb→lt _ _ lt)),
                ))
            (λ reached.
              created_or_kept-HasAccounts (chunks ++ (c ∷ [])) waiting created all counted h.2 h.3
                h.4
                (omega (
                  arith,
                  h.3,
                  not_below (s.pending_bytes + length c) s.skip_small_flush_threshold reached,
                  counted,
                  grown,
                  total-append s.put_back (s.pending_chunks ++ (c ∷ [])),
                ))
                (λ q. (h.6 q).0) shut fresh))
        (λ z. absurd (omega (arith, h.3, h.4, not_below 0 s.skip_small_flush_threshold z)))
  handle_data_chunk-HasAccounts chunks s c created (some b) shut h fresh =
      IsOpened-ends w Reliable steady threshold (chunks ++ (c ∷ [])) (write_chunk w s c (some b))
        (omega (arith, h.1, total-append chunks (c ∷ [])))
        (write_chunk-IsOpened w Reliable steady threshold chunks s c (some b) h.0)

  flushed_Opened :
      (chunks : List (List ℕ)) (s : BufferedStreamWriter w) (b after : BufferedWriter w)
      → Opened w Reliable steady threshold chunks (some b) s
      → accepted w after ≡ accepted w b
      → after.size ≡ b.size
      → length after.buf ≤ length b.buf
      → Opened w Reliable steady threshold chunks (some after) s
  flushed_Opened chunks s b after h same size le = (
    h.0,
    h.1,
    h.2,
    omega (arith, h.3),
    omega (arith, h.4),
    h.5 ∙ ap length (sym same),
    λ q. same ∙ h.6 q,
    h.7,
  )

  after_periodic_flush-HasAccounts :
      (chunks : List (List ℕ)) (s : BufferedStreamWriter w) (b : BufferedWriter w)
      (r : Option (BufferedWriter w × Option WriteError))
      → Opened w Reliable steady threshold chunks (some b) s
      → threshold ≤ total chunks
      → Flushed w b r
      → EndsIn (HasAccounts w Reliable steady threshold chunks) (after_periodic_flush w s r)
  unfolding after_periodic_flush
  after_periodic_flush-HasAccounts chunks s b none h le flushed = flushed
  after_periodic_flush-HasAccounts chunks s b (some (after, some e)) h le flushed =
      (flushed_Opened chunks s b after h flushed.0 flushed.1 flushed.2, le)
  after_periodic_flush-HasAccounts chunks s b (some (after, none)) h le flushed =
      (flushed_Opened chunks s b after h flushed.0 flushed.1 flushed.2, le)

  do_periodic_flush-HasAccounts :
      (chunks : List (List ℕ)) (s : BufferedStreamWriter w) (wr : Option (BufferedWriter w))
      → s.writer ≡ wr
      → Accounts w Reliable steady threshold chunks wr s
      → EndsIn (HasAccounts w Reliable steady threshold chunks) (do_periodic_flush w s wr)
  unfolding do_periodic_flush
  do_periodic_flush-HasAccounts chunks s none same h =
      subst (λ (wr : Option (BufferedWriter w)). Accounts w Reliable steady threshold chunks wr s)
        (sym same) h
  do_periodic_flush-HasAccounts chunks s (some b) same h =
      if_cases (EndsIn (HasAccounts w Reliable steady threshold chunks))
        (ltb (buffered w b) s.min_periodic_flush_bytes)
        (λ _.
          subst
            (λ (wr : Option (BufferedWriter w)). Accounts w Reliable steady threshold chunks wr s)
            (sym same) h)
        (λ _. after_periodic_flush-HasAccounts chunks s b (flush w b) h.0 h.1 (flush-Flushed w b))

  release_planned-Accounts :
      (chunks : List (List ℕ)) (s : BufferedStreamWriter w) (dropped : Bool)
      (plan : Option ColdReleasePlan) (wr : Option (BufferedWriter w))
      → Accounts w Reliable steady threshold chunks wr s
      → Accounts w Reliable steady threshold chunks wr (release_planned w s dropped plan)
  unfolding release_planned
  release_planned-Accounts chunks s dropped none wr h = h
  release_planned-Accounts chunks s true (some plan) none h = h
  release_planned-Accounts chunks s true (some plan) (some b) h = h
  release_planned-Accounts chunks s false (some plan) wr h = h

  writer-release_planned :
      (s : BufferedStreamWriter w) (dropped : Bool) (plan : Option ColdReleasePlan)
      → (release_planned w s dropped plan).writer ≡ s.writer
  unfolding release_planned
  writer-release_planned s dropped none = refl
  writer-release_planned s true (some plan) = refl
  writer-release_planned s false (some plan) = refl

  release_cold_prefix-HasAccounts :
      (chunks : List (List ℕ)) (s : BufferedStreamWriter w) (dropped : Bool)
      (wr : Option (BufferedWriter w))
      → HasAccounts w Reliable steady threshold chunks s
      → HasAccounts w Reliable steady threshold chunks (release_cold_prefix w s dropped wr)
  unfolding release_cold_prefix
  release_cold_prefix-HasAccounts chunks s dropped none h = h
  release_cold_prefix-HasAccounts chunks s dropped (some b) h =
      let plan =
        plan_cold_release (s.bytes_written - buffered w b) s.released_through s.buffer_size in
      subst
        (λ (wr : Option (BufferedWriter w)).
          Accounts w Reliable steady threshold chunks wr (release_planned w s dropped plan))
        (sym (writer-release_planned s dropped plan))
        (release_planned-Accounts chunks s dropped plan s.writer h)

  -- The files that a run is given are new.
  abbrev pub AreFresh : List (Event w) → Type 0
  AreFresh [] = Unit {0}
  AreFresh (chunk c created ∷ events) = IsFresh created × AreFresh events
  AreFresh (periodic ∷ events) = AreFresh events
  AreFresh (cold dropped ∷ events) = AreFresh events

  -- From a state that has its accounts, a run never fails, and at its end every chunk was put back or is
  -- pending, in order; the pending bytes are counted and within the limit, and the written bytes are those
  -- in the file and its buffer. Created files are empty. Where neither creations nor writes fail, the file
  -- and its buffer hold the bytes of the chunks, or there is no file and they are below the threshold.
  pub handle_all-HasAccounts :
      (chunks : List (List ℕ)) (r : Option (BufferedStreamWriter w)) (events : List (Event w))
      → AreFresh events
      → EndsIn (HasAccounts w Reliable steady threshold chunks) r
      → EndsIn
          (HasAccounts w Reliable steady threshold (chunks ++ chunks_of w events))
          (handle_all w r events)
  unfolding handle_all handle
  handle_all-HasAccounts chunks none events fresh h = absurd h
  handle_all-HasAccounts chunks (some s) [] fresh h =
      subst (λ (t : List (List ℕ)). HasAccounts w Reliable steady threshold t s)
        (sym (append-nil chunks)) h
  handle_all-HasAccounts chunks (some s) (chunk c created ∷ events) fresh h =
      let r = handle_data_chunk w s c created s.writer in
      subst
        (λ (t : List (List ℕ)).
          EndsIn (HasAccounts w Reliable steady threshold t) (handle_all w r events))
        (append_assoc chunks (c ∷ []) (chunks_of w events))
        (handle_all-HasAccounts (chunks ++ (c ∷ [])) r events fresh.1
          (handle_data_chunk-HasAccounts chunks s c created s.writer refl h fresh.0))
  handle_all-HasAccounts chunks (some s) (periodic ∷ events) fresh h =
      handle_all-HasAccounts chunks (do_periodic_flush w s s.writer) events fresh
        (do_periodic_flush-HasAccounts chunks s s.writer refl h)
  handle_all-HasAccounts chunks (some s) (cold dropped ∷ events) fresh h =
      handle_all-HasAccounts chunks (some (release_cold_prefix w s dropped s.writer)) events fresh
        (release_cold_prefix-HasAccounts chunks s dropped s.writer h)
