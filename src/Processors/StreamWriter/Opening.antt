-- ===== src/Processors/StreamWriter/Opening.antt =====
-- The accounts of a buffered stream writer, and what the opening of its file makes of them.
use bilirec.Prelude.{
  ℕ, ◌+◌, ◌≤◌, ◌<◌, ◌≡◌, ◌⊎◌, false, refl, sym, ap, ◌∙◌, subst, Option, none, some, List, [], ◌∷◌,
  ◌++◌, length, ltb, arith, append_assoc, append-nil, length-append, length-take, take, take_all,
  EndsIn, concat, concat-append,
}
use bilirec.Rw.{Sink, BufferedWriter, Written, new_buffered_writer, write}
use bilirec.Rw.Flushes.{IsSteady, accepted}
use bilirec.Rw.Contents.{Wrote, write-Wrote}
use bilirec.Processors.StreamWriter.{
  BufferedStreamWriter, max_pending_bytes_before_drop, after_write, write_chunk, write_chunks,
  write_pending_chunks_to_writer, Event, chunk, periodic, cold,
}

abbrev pub total : List (List ℕ) → ℕ
total [] = 0
total (c ∷ cs) = length c + total cs

pub total-append : (xs ys : List (List ℕ)) → total (xs ++ ys) ≡ total xs + total ys
total-append [] ys = omega arith
total-append (x ∷ xs) ys = omega (arith, total-append xs ys)

concat_one : (xs : List (List ℕ)) (c : List ℕ) → concat (xs ++ (c ∷ [])) ≡ concat xs ++ c
concat_one xs c = concat-append xs (c ∷ []) ∙ ap (λ (t : List ℕ). concat xs ++ t) (append-nil c)

pub not_below : (a b : ℕ) → ltb a b ≡ false → b ≤ a
not_below a b h = ground arith

-- The chunks of a run.
module _ (w : Sink) where
  abbrev pub chunks_of : List (Event w) → List (List ℕ)
  chunks_of [] = []
  chunks_of (chunk c created ∷ events) = c ∷ chunks_of events
  chunks_of (periodic ∷ events) = chunks_of events
  chunks_of (cold dropped ∷ events) = chunks_of events

-- `Reliable` stands for the case that neither a creation nor a write fails; it is `⊥` where they may.
module _ (w : Sink) (Reliable : Type 0) (steady : Reliable → IsSteady w) (threshold : ℕ) where
  -- With a file: all chunks were put back, the bytes that were taken are counted, and in the reliable case
  -- they are those of the chunks.
  abbrev pub Opened : List (List ℕ) → Option (BufferedWriter w) → BufferedStreamWriter w → Type 0
  Opened chunks none s = ⊥
  Opened chunks (some b) s =
      (s.put_back ≡ chunks)
      × (s.pending_chunks ≡ [])
      × (s.pending_bytes ≡ 0)
      × (0 < b.size)
      × (length b.buf ≤ b.size)
      × (s.bytes_written ≡ length (accepted w b))
      × (Reliable → accepted w b ≡ concat chunks)
      × (s.skip_small_flush_threshold ≡ threshold)

  -- Without one: the chunks that were not put back are pending, within the limit; in the reliable case
  -- these are all, below the threshold.
  abbrev pub Accounts : List (List ℕ) → Option (BufferedWriter w) → BufferedStreamWriter w → Type 0
  Accounts chunks none s =
      (s.put_back ++ s.pending_chunks ≡ chunks)
      × (s.pending_bytes ≡ total s.pending_chunks)
      × (s.bytes_written ≡ 0)
      × (s.skip_small_flush_threshold ≡ threshold)
      × (0 < threshold)
      × ((s.pending_bytes < threshold) ⊎ (s.pending_bytes ≤ max_pending_bytes_before_drop))
      × (Reliable → (s.put_back ≡ []) × (s.pending_bytes < threshold))
  Accounts chunks (some b) s = Opened chunks (some b) s × (threshold ≤ total chunks)

  abbrev pub HasAccounts : List (List ℕ) → BufferedStreamWriter w → Type 0
  HasAccounts chunks s = Accounts chunks s.writer s

  abbrev pub IsOpened : List (List ℕ) → BufferedStreamWriter w → Type 0
  IsOpened chunks s = Opened chunks s.writer s

  Opened-Accounts :
      (chunks : List (List ℕ)) (wr : Option (BufferedWriter w)) (s : BufferedStreamWriter w)
      → threshold ≤ total chunks
      → Opened chunks wr s
      → Accounts chunks wr s
  Opened-Accounts chunks none s le h = absurd h
  Opened-Accounts chunks (some b) s le h = (h, le)

  pub IsOpened-ends :
      (chunks : List (List ℕ)) (r : Option (BufferedStreamWriter w))
      → threshold ≤ total chunks
      → EndsIn (IsOpened chunks) r
      → EndsIn (HasAccounts chunks) r
  IsOpened-ends chunks none le h = h
  IsOpened-ends chunks (some s) le h = Opened-Accounts chunks s.writer s le h

  after_write-IsOpened :
      (chunks : List (List ℕ)) (s : BufferedStreamWriter w) (c : List ℕ) (b : BufferedWriter w)
      (r : Option (Written w))
      → Opened chunks (some b) s
      → Wrote w b c 0 r
      → EndsIn (IsOpened (chunks ++ (c ∷ []))) (after_write w s c r)
  unfolding after_write
  after_write-IsOpened chunks s c b none h wrote = wrote
  after_write-IsOpened chunks s c b (some (after, n, e)) h
        (k, took, within, acc, sized, room, all, sure) =
      (
        ap (λ (t : List (List ℕ)). t ++ (c ∷ [])) h.0,
        h.1,
        h.2,
        omega (arith, h.3),
        omega arith,
        omega (arith, h.5, ap length acc, length-append (accepted w b) (take k c), length-take k c),
        λ q.
            acc
            ∙ (ap (λ (t : List ℕ). t ++ take k c) (h.6 q)
                ∙ (ap (λ (t : List ℕ). concat chunks ++ t)
                      (take_all k c (omega (arith, all (sure (steady q)))))
                    ∙ sym (concat_one chunks c))),
        h.7,
      )

  pub write_chunk-IsOpened :
      (chunks : List (List ℕ)) (s : BufferedStreamWriter w) (c : List ℕ)
      (wr : Option (BufferedWriter w))
      → Opened chunks wr s
      → EndsIn (IsOpened (chunks ++ (c ∷ []))) (write_chunk w s c wr)
  unfolding write_chunk
  write_chunk-IsOpened chunks s c none h = absurd h
  write_chunk-IsOpened chunks s c (some b) h =
      after_write-IsOpened chunks s c b (write w b c) h (write-Wrote w b c h.3 h.4)

  write_chunks-IsOpened :
      (chunks : List (List ℕ)) (r : Option (BufferedStreamWriter w)) (cs : List (List ℕ))
      → EndsIn (IsOpened chunks) r
      → EndsIn (IsOpened (chunks ++ cs)) (write_chunks w r cs)
  unfolding write_chunks
  write_chunks-IsOpened chunks none cs h = absurd h
  write_chunks-IsOpened chunks (some s) [] h =
      subst (λ (t : List (List ℕ)). IsOpened t s) (sym (append-nil chunks)) h
  write_chunks-IsOpened chunks (some s) (c ∷ cs) h =
      subst
        (λ (t : List (List ℕ)).
          EndsIn (IsOpened t) (write_chunks w (write_chunk w s c s.writer) cs))
        (append_assoc chunks (c ∷ []) cs)
        (write_chunks-IsOpened (chunks ++ (c ∷ [])) (write_chunk w s c s.writer) cs
          (write_chunk-IsOpened chunks s c s.writer h))

  -- The writes that a new file begins with.
  pub write_pending-IsOpened :
      (s : BufferedStreamWriter w) (file : w.State)
      → s.bytes_written ≡ 0
      → w.content file ≡ []
      → s.skip_small_flush_threshold ≡ threshold
      → (Reliable → s.put_back ≡ [])
      → EndsIn (IsOpened (s.put_back ++ s.pending_chunks)) (
          write_pending_chunks_to_writer w
            (record s { writer = some (new_buffered_writer w file s.buffer_size) }))
  unfolding write_pending_chunks_to_writer new_buffered_writer
  write_pending-IsOpened s file none_yet fresh same none_lost =
      write_chunks-IsOpened s.put_back
        (some (record s {
          writer = some (new_buffered_writer w file s.buffer_size);
          pending_chunks = [];
          pending_bytes = 0;
        }))
        s.pending_chunks
        (
          refl,
          refl,
          refl,
          ground arith,
          omega arith,
          none_yet ∙ sym (ap length (append-nil (w.content file) ∙ fresh)),
          λ q. append-nil (w.content file) ∙ (fresh ∙ sym (ap concat (none_lost q))),
          same,
        )
