-- ===== src/Rw/Flushes.antt =====
-- What a flush of the buffered writer leaves.
use bilirec.Prelude.{
  ℕ, zero, suc, ◌≤◌, ◌<◌, ◌≡◌, ◌≢◌, refl, ap, ◌∙◌, Option, none, some, List, [], ◌++◌, if_cases,
  length, take, drop, ◌==◌, ==_iff, arith, append_assoc, append-nil, length-drop, take-append-drop,
  nil_of_length,
}
use bilirec.Rw.{Sink, WriteError, BufferedWriter, flush_round, flush_loop, flush}

module _ (w : Sink) where
  -- No write to the sink fails.
  abbrev pub IsSteady : Type 0
  IsSteady = (s : w.State) (p : List ℕ) → (w.write_to s p).2 ≡ none

  abbrev pub accepted : BufferedWriter w → List ℕ
  accepted b = w.content b.sink ++ b.buf

  -- `Flush` loses and reorders nothing; without an error the buffer is empty.
  abbrev pub Flushed : BufferedWriter w → Option (BufferedWriter w × Option WriteError) → Type 0
  Flushed b none = ⊥
  Flushed b (some (after, e)) =
      (accepted after ≡ accepted b)
      × (after.size ≡ b.size)
      × (length after.buf ≤ length b.buf)
      × (e ≡ none → after.buf ≡ [])
      × (IsSteady → e ≡ none)

  Flushed-trans :
      (b c : BufferedWriter w) (r : Option (BufferedWriter w × Option WriteError))
      → accepted c ≡ accepted b
      → c.size ≡ b.size
      → length c.buf ≤ length b.buf
      → Flushed c r
      → Flushed b r
  Flushed-trans b c none same size le h = h
  Flushed-trans b c (some (after, e)) same size le h =
      (h.0 ∙ same, h.1 ∙ size, omega (arith, h.2), h.3, h.4)

  accepted-take :
      (s : w.State) (front buf : List ℕ) (n : ℕ)
      → w.content s ≡ front ++ take n buf
      → w.content s ++ drop n buf ≡ front ++ buf
  accepted-take s front buf n e =
      ap (λ (t : List ℕ). t ++ drop n buf) e
      ∙ (append_assoc front (take n buf) (drop n buf)
          ∙ ap (λ (t : List ℕ). front ++ t) (take-append-drop n buf))

  flush_round-Flushed :
      (more : BufferedWriter w → Option (BufferedWriter w × Option WriteError))
      (b : BufferedWriter w) (r : w.State × ℕ × Option ℕ)
      → w.content r.0 ≡ w.content b.sink ++ take r.1 b.buf
      → (r.1 < length b.buf → r.2 ≢ none)
      → (IsSteady → r.2 ≡ none)
      → 0 < length b.buf
      → ((c : BufferedWriter w) → length c.buf < length b.buf → Flushed c (more c))
      → Flushed b (flush_round w more b r)
  unfolding flush_round
  flush_round-Flushed more b (s, n, some e) took short steady some_left go = (
    accepted-take s (w.content b.sink) b.buf n took,
    refl,
    omega (arith, length-drop n b.buf),
    λ x. cc,
    λ st. absurd (let no : some e ≡ none = steady st in cc),
  )
  flush_round-Flushed more b (s, n, none) took short steady some_left go =
      if_cases (Flushed b) (n == 0)
        (λ z.
          let nothing : take n b.buf ≡ [] = ap (λ (k : ℕ). take k b.buf) ((==_iff n 0).0 z) in
          (
            ap (λ (t : List ℕ). t ++ b.buf)
                (took
                  ∙ (ap (λ (t : List ℕ). w.content b.sink ++ t) nothing
                      ∙ append-nil (w.content b.sink))),
            refl,
            omega arith,
            λ x. cc,
            λ st. absurd (short (ground arith) refl),
          ))
        (λ z.
          let c : BufferedWriter w = record b { sink = s; buf = drop n b.buf } in
          let fewer : length c.buf < length b.buf = ground (arith, length-drop n b.buf) in
          Flushed-trans b c (more c) (accepted-take s (w.content b.sink) b.buf n took) refl
            (omega arith) (go c fewer))

  flush_loop-Flushed :
      (fuel : ℕ) (b : BufferedWriter w) → length b.buf ≤ fuel → Flushed b (flush_loop w fuel b)
  unfolding flush_loop
  flush_loop-Flushed zero b enough =
      if_cases (Flushed b) (length b.buf == 0)
        (λ z. (refl, refl, omega arith, λ _. nil_of_length b.buf ((==_iff _ 0).0 z), λ _. refl))
        (λ z. absurd (ground arith))
  flush_loop-Flushed (suc fuel) b enough =
      if_cases (Flushed b) (length b.buf == 0)
        (λ z. (refl, refl, omega arith, λ _. nil_of_length b.buf ((==_iff _ 0).0 z), λ _. refl))
        (λ z.
          flush_round-Flushed (flush_loop w fuel) b (w.write_to b.sink b.buf)
            (w.content-write_to b.sink b.buf) (w.write_to_short b.sink b.buf)
            (λ st. st b.sink b.buf) (ground arith)
            (λ c fewer. flush_loop-Flushed fuel c (omega arith)))

  -- `Flush` ends, loses and reorders nothing, and leaves an empty buffer unless it returns an error, which
  -- it does not where no write to the sink fails.
  pub flush-Flushed : (b : BufferedWriter w) → Flushed b (flush w b)
  unfolding flush
  flush-Flushed b = flush_loop-Flushed (length b.buf) b (omega arith)
  -- `Write` takes the first bytes of `p`, behind what was accepted before, and all unless it fails.
