-- ===== src/Rw/Contents.antt =====
-- What a buffered writer has accepted: the bytes that reached the sink, then those in the buffer.
use bilirec.Prelude.{
  ℕ, zero, suc, ◌+◌, ◌-◌, ◌≤◌, ◌<◌, ◌≡◌, ◌≢◌, refl, sym, ap, ◌∙◌, subst, ◌&&◌, Option, none, some,
  List, [], ◌++◌, min, if_cases, length, take, drop, ltb, leb, ◌==◌, ==_iff, ltb→lt, Bool-cases,
  inl, inr, arith, append_assoc, append-nil, length-append, length-take, length-drop,
  take-append-take, nil_of_length,
}
use bilirec.Rw.{
  Sink, WriteError, BufferedWriter, flush, Written, write_direct, accept, after_flush, write_loop,
  write,
}
use bilirec.Rw.Flushes.{IsSteady, accepted, Flushed, flush-Flushed}

module _ (w : Sink) where
  abbrev pub Wrote : BufferedWriter w → List ℕ → ℕ → Option (Written w) → Type 0
  Wrote b p before none = ⊥
  Wrote b p before (some (after, n, e)) =
      (k : ℕ) × (n ≡ before + k)
      × (k ≤ length p)
      × (accepted w after ≡ accepted w b ++ take k p)
      × (after.size ≡ b.size)
      × (length after.buf ≤ b.size)
      × (e ≡ none → k ≡ length p)
      × (IsSteady w → e ≡ none)

  -- A round that takes the first `j` bytes, and then a write of the others.
  Wrote-drop :
      (b c : BufferedWriter w) (p : List ℕ) (before j : ℕ) (r : Option (Written w))
      → j ≤ length p
      → accepted w c ≡ accepted w b ++ take j p
      → c.size ≡ b.size
      → Wrote c (drop j p) (before + j) r
      → Wrote b p before r
  Wrote-drop b c p before j none le same size h = h
  Wrote-drop b c p before j (some (after, n, e)) le same size
        (k, took, within, acc, sized, room, all, sure) =
      (
        j + k,
        omega arith,
        omega (arith, length-drop j p),
        acc
            ∙ (ap (λ (t : List ℕ). t ++ take k (drop j p)) same
                ∙ (append_assoc (accepted w b) (take j p) (take k (drop j p))
                    ∙ ap (λ (t : List ℕ). accepted w b ++ t) (take-append-take j k p))),
        sized ∙ size,
        omega arith,
        λ z. omega (arith, all z, length-drop j p),
        sure,
      )

  direct :
      (b : BufferedWriter w) (s : w.State) (p : List ℕ) (n : ℕ)
      → w.content s ≡ w.content b.sink ++ take n p
      → b.buf ≡ []
      → w.content s ++ b.buf ≡ accepted w b ++ take n p
  direct b s p n took empty =
      ap (λ (t : List ℕ). w.content s ++ t) empty
      ∙ (append-nil (w.content s)
          ∙ (took
              ∙ ap (λ (t : List ℕ). t ++ take n p)
                  (sym (append-nil (w.content b.sink))
                    ∙ ap (λ (t : List ℕ). w.content b.sink ++ t) (sym empty))))

  write_direct-Wrote :
      (more : BufferedWriter w → List ℕ → ℕ → Option (Written w)) (b : BufferedWriter w)
      (p : List ℕ) (written : ℕ) (r : w.State × ℕ × Option ℕ)
      → w.content r.0 ≡ w.content b.sink ++ take r.1 p
      → r.1 ≤ length p
      → (r.1 < length p → r.2 ≢ none)
      → (IsSteady w → r.2 ≡ none)
      → b.buf ≡ []
      → 0 < length p
      → ((c : BufferedWriter w) (q : List ℕ) (m : ℕ)
          → length q < length p
          → c.size ≡ b.size
          → length c.buf ≤ c.size
          → Wrote c q m (more c q m))
      → Wrote b p written (write_direct w more b p written r)
  unfolding write_direct
  write_direct-Wrote more b p written (s, n, some e) took le short steady empty nonempty go = (
    n,
    refl,
    le,
    direct b s p n took empty,
    refl,
    omega (arith, ap length empty),
    λ x. cc,
    λ st. absurd (let no : some e ≡ none = steady st in cc),
  )
  write_direct-Wrote more b p written (s, n, none) took le short steady empty nonempty go =
      elim (Bool-cases (ltb n (length p))) [
        | inl less ↦ absurd (short (ltb→lt n (length p) less) refl)
        | inr all ↦
            (let c : BufferedWriter w = record b { sink = s } in
              Wrote-drop b c p written n (more c (drop n p) (written + n)) le
                (direct b s p n took empty) refl
                (go c (drop n p) (written + n) (ground (arith, length-drop n p)) refl
                  (omega (arith, ap length empty))))
      ]

  accept-Wrote :
      (more : BufferedWriter w → List ℕ → ℕ → Option (Written w)) (p : List ℕ) (written : ℕ)
      (b : BufferedWriter w)
      → length b.buf < b.size
      → 0 < length p
      → ((c : BufferedWriter w) (q : List ℕ) (m : ℕ)
          → length q < length p
          → c.size ≡ b.size
          → length c.buf ≤ c.size
          → Wrote c q m (more c q m))
      → Wrote b p written (accept w more p written b)
  unfolding accept
  accept-Wrote more p written b room nonempty go =
      let n = min (b.size - length b.buf) (length p) in
      let c : BufferedWriter w = record b { buf = b.buf ++ take n p } in
      if_cases (Wrote b p written) (length b.buf == 0 && leb b.size (length p))
        (λ z.
          write_direct-Wrote more b p written (w.write_to b.sink p) (w.content-write_to b.sink p)
            (w.write_to_le b.sink p) (w.write_to_short b.sink p) (λ st. st b.sink p)
            (nil_of_length b.buf (ground arith)) nonempty go)
        (λ _.
          Wrote-drop b c p written n (more c (drop n p) (written + n)) (omega arith)
            (sym (append_assoc (w.content b.sink) b.buf (take n p))) refl
            (go c (drop n p) (written + n) (omega (arith, length-drop n p)) refl
              (omega (arith, length-append b.buf (take n p), length-take n p))))

  Wrote-none :
      (b : BufferedWriter w) (p : List ℕ) (written : ℕ)
      → length b.buf ≤ b.size
      → length p ≡ 0
      → Wrote b p written (some (b, written, none))
  Wrote-none b p written room empty = (
    0,
    omega arith,
    omega arith,
    sym (append-nil (accepted w b)),
    refl,
    room,
    λ _. sym empty,
    λ _. refl,
  )

  after_flush-Wrote :
      (go : BufferedWriter w → Option (Written w)) (b : BufferedWriter w) (p : List ℕ) (written : ℕ)
      (r : Option (BufferedWriter w × Option WriteError))
      → length b.buf ≤ b.size
      → Flushed w b r
      → ((c : BufferedWriter w) → c.size ≡ b.size → c.buf ≡ [] → Wrote c p written (go c))
      → Wrote b p written (after_flush w go written r)
  unfolding after_flush
  after_flush-Wrote go b p written none room h next = h
  after_flush-Wrote go b p written (some (c, some e)) room h next = (
    0,
    omega arith,
    omega arith,
    h.0 ∙ sym (append-nil (accepted w b)),
    h.1,
    omega (arith, h.2),
    λ z. cc,
    λ st. absurd (let no : some e ≡ none = h.4 st in cc),
  )
  after_flush-Wrote go b p written (some (c, none)) room h next =
      Wrote-drop b c p written 0 (go c) (omega arith) (h.0 ∙ sym (append-nil (accepted w b))) h.1
        (subst (λ (m : ℕ). Wrote c p m (go c)) (omega arith) (next c h.1 (h.3 refl)))

  write_loop-Wrote :
      (fuel : ℕ) (b : BufferedWriter w) (p : List ℕ) (written : ℕ)
      → length p ≤ fuel
      → 0 < b.size
      → length b.buf ≤ b.size
      → Wrote b p written (write_loop w fuel b p written)
  unfolding write_loop
  write_loop-Wrote zero b p written enough pos room =
      if_cases (Wrote b p written) (length p == 0)
        (λ z. Wrote-none b p written room ((==_iff _ 0).0 z)) (λ z. absurd (ground arith))
  write_loop-Wrote (suc fuel) b p written enough pos room =
      let again =
        λ (c : BufferedWriter w) (q : List ℕ) (m : ℕ) (fewer : length q < length p)
            (same : c.size ≡ b.size) (fits : length c.buf ≤ c.size).
          write_loop-Wrote fuel c q m (omega arith) (omega arith) fits in
      let go = accept w (write_loop w fuel) p written in
      if_cases (Wrote b p written) (length p == 0)
        (λ z. Wrote-none b p written room ((==_iff _ 0).0 z))
        (λ z.
          if_cases (Wrote b p written) (length b.buf == b.size)
            (λ full.
              after_flush-Wrote go b p written (flush w b) room (flush-Flushed w b) (λ c same empty.
                accept-Wrote (write_loop w fuel) p written c (omega (arith, ap length empty))
                  (ground arith) (λ d q m fewer sized fits. again d q m fewer (sized ∙ same) fits)))
            (λ open_room.
              accept-Wrote (write_loop w fuel) p written b (ground arith) (ground arith) again))

  -- `Write` ends, where the buffer has room for a byte at least and is not overrun; it takes the first bytes
  -- of `p`, in order behind what was accepted before, and reports how many; without an error it takes all of
  -- them; the buffer keeps its size and is still not overrun; there is no error where no write to the sink
  -- fails.
  pub write-Wrote :
      (b : BufferedWriter w) (p : List ℕ)
      → 0 < b.size
      → length b.buf ≤ b.size
      → Wrote b p 0 (write w b p)
  unfolding write
  write-Wrote b p pos room = write_loop-Wrote (length p) b p 0 (omega arith) pos room
