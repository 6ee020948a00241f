-- ===== src/Processors/SegmentDedup/Copies.antt =====
-- Copies of a segment in a row.
use bilirec.Prelude.{
  ℕ, zero, suc, ◌-◌, ◌≤◌, min, ◌≡◌, refl, sym, ap, ◌∙◌, Bool, true, false, ◌&&◌, not, Option, none,
  some, List, [], ◌∷◌, if◌then◌else◌, if_true, if_false, length, take, drop, ◌==◌, arith,
  length-append, length-take, length-drop, take-append_self, Bool-cases, ◌⊎◌, inl, inr,
}
use bilirec.Prelude.Bytes.{bytes_equal, bytes_equal_refl}
use bilirec.Processors.SegmentDedup.{
  SegmentDedup, copy_into, head_of, tail_of, fingerprint_matches, update_fingerprint,
  process_segment,
}

-- The arrays of eight bytes.
unfoldable pub IsSized : SegmentDedup → Type 0
IsSized p = (length p.last_head ≡ 8) × (length p.last_tail ≡ 8)

length-head_of : (bytes : List ℕ) → length (head_of bytes) ≡ min (length bytes) 8
unfolding head_of
length-head_of bytes = omega (arith, length-take (min (length bytes) 8) bytes)

length-tail_of : (bytes : List ℕ) → length (tail_of bytes) ≡ min (length bytes) 8
unfolding tail_of
length-tail_of bytes = omega (arith, length-drop (length bytes - min (length bytes) 8) bytes)

take_whole : (n : ℕ) (xs : List ℕ) → length xs ≤ n → take n xs ≡ xs
take_whole zero [] h = refl
take_whole zero (x ∷ xs) h = absurd (omega arith)
take_whole (suc n) [] h = refl
take_whole (suc n) (x ∷ xs) h = ap (λ (t : List ℕ). x ∷ t) (take_whole n xs (omega arith))

copied :
    (dst src : List ℕ) (n : ℕ)
    → length src ≡ n
    → length src ≤ length dst
    → take n (copy_into dst src) ≡ src
unfolding copy_into
copied dst src n e h =
    rw (take_whole (length dst) src h, ← e) (take-append_self src (drop (length src) dst))

length-copy_into :
    (dst src : List ℕ) → length src ≤ length dst → length (copy_into dst src) ≡ length dst
unfolding copy_into
length-copy_into dst src h = omega (
  arith,
  length-append (take (length dst) src) (drop (length src) dst),
  length-take (length dst) src,
  length-drop (length src) dst,
)

update-IsSized :
    (p : SegmentDedup) (bytes : List ℕ) → IsSized p → IsSized (update_fingerprint p bytes)
unfolding IsSized update_fingerprint
update-IsSized p bytes (h, t) = (
  length-copy_into p.last_head (head_of bytes) (omega (arith, length-head_of bytes)) ∙ h,
  length-copy_into p.last_tail (tail_of bytes) (omega (arith, length-tail_of bytes)) ∙ t,
)

fingerprint_matches-update :
    (p : SegmentDedup) (bytes : List ℕ)
    → IsSized p
    → fingerprint_matches (update_fingerprint p bytes) bytes ≡ true
unfolding IsSized fingerprint_matches update_fingerprint
fingerprint_matches-update p bytes (h, t) =
    let head =
      copied p.last_head (head_of bytes) _ (length-head_of bytes)
        (omega (arith, length-head_of bytes)) in
    let tail =
      copied p.last_tail (tail_of bytes) _ (length-tail_of bytes)
        (omega (arith, length-tail_of bytes)) in
    rw (head, tail, bytes_equal_refl (head_of bytes), bytes_equal_refl (tail_of bytes))
      (ground arith)

-- The state has the fingerprint of a segment.
Knows : SegmentDedup → List ℕ → Type 0
Knows p bytes = (p.has_last ≡ true) × (fingerprint_matches p bytes ≡ true)

module _ (sha : List ℕ → List ℕ) (p : SegmentDedup) (bytes : List ℕ)
    (some_bytes : (length bytes == 0) ≡ false) where
  -- A segment that differs in its fingerprint is passed on, and its hash is not taken.
  passes_changed :
      p.has_last ≡ true
      → fingerprint_matches p bytes ≡ false
      → process_segment sha p bytes ≡ (update_fingerprint p bytes, some bytes)
  unfolding process_segment
  passes_changed h f =
      let changed : (p.has_last && not (fingerprint_matches p bytes)) ≡ true =
        ground (arith, h, f) in
      if_false _ _ some_bytes ∙ if_true _ _ changed

  unchanged :
      (p.has_last ≡ false) ⊎ (fingerprint_matches p bytes ≡ true)
      → (p.has_last && not (fingerprint_matches p bytes)) ≡ false
  unchanged h = ground (arith, h)

  passes_hashed :
      (p.has_last ≡ false) ⊎ (fingerprint_matches p bytes ≡ true)
      → (p.has_last && bytes_equal (sha bytes) p.last_hash) ≡ false
      → process_segment sha p bytes
        ≡ (update_fingerprint (record p { last_hash = sha bytes }) bytes, some bytes)
  unfolding process_segment
  passes_hashed h e = if_false _ _ some_bytes ∙ if_false _ _ (unchanged h) ∙ if_false _ _ e

  drops :
      Knows p bytes
      → bytes_equal (sha bytes) p.last_hash ≡ true
      → process_segment sha p bytes ≡ (p, none)
  unfolding process_segment Knows
  drops (h, f) e =
      let same : (p.has_last && bytes_equal (sha bytes) p.last_hash) ≡ true =
        ground (arith, h, e) in
      if_false _ _ some_bytes ∙ if_false _ _ (unchanged (inr f)) ∙ if_true _ _ same

Knows-update :
    (p : SegmentDedup) (bytes : List ℕ) → IsSized p → Knows (update_fingerprint p bytes) bytes
unfolding Knows update_fingerprint
Knows-update p bytes sized = (refl, fingerprint_matches-update p bytes sized)

-- The hash of a first copy is not taken, and the one that was taken last is another one.
abbrev pub misses_hash : (List ℕ → List ℕ) → List ℕ → SegmentDedup → Bool
misses_hash sha bytes p =
    p.has_last && not (fingerprint_matches p bytes) && not (bytes_equal (sha bytes) p.last_hash)

-- A known segment whose hash is not the remembered one gets its hash remembered.
module _ (sha : List ℕ → List ℕ) (bytes : List ℕ) (some_bytes : (length bytes == 0) ≡ false) where
  hashed : SegmentDedup → SegmentDedup
  hashed p = update_fingerprint (record p { last_hash = sha bytes }) bytes

  hashed_drops :
      (p : SegmentDedup) → IsSized p → process_segment sha (hashed p) bytes ≡ (hashed p, none)
  unfolding hashed IsSized
  hashed_drops p sized =
      drops sha (hashed p) bytes some_bytes
        (Knows-update (record p { last_hash = sha bytes }) bytes sized)
        (unfold update_fingerprint in bytes_equal_refl (sha bytes))

  -- The answer to a known segment, and to the same segment after it.
  known_twice :
      (p : SegmentDedup)
      → IsSized p
      → Knows p bytes
      → ((process_segment sha p bytes).1
          ≡ (if bytes_equal (sha bytes) p.last_hash then none else some bytes))
        × ((process_segment sha (process_segment sha p bytes).0 bytes).1 ≡ none)
  unfolding Knows hashed
  known_twice p sized (h, f) = elim (Bool-cases (bytes_equal (sha bytes) p.last_hash)) [
    | inl e ↦
        let gone = drops sha p bytes some_bytes (h, f) e in
        (
          ap (λ (r : SegmentDedup × Option (List ℕ)). r.1) gone ∙ sym (if_true _ _ e),
          rw gone (ap (λ (r : SegmentDedup × Option (List ℕ)). r.1) gone),
        )
    | inr e ↦
        let kept = passes_hashed sha p bytes some_bytes (inr f) (ground (arith, h, e)) in
        (
          ap (λ (r : SegmentDedup × Option (List ℕ)). r.1) kept ∙ sym (if_false _ _ e),
          rw kept (ap (λ (r : SegmentDedup × Option (List ℕ)). r.1) (hashed_drops p sized)),
        )
  ]

  new_hash : (p : SegmentDedup) → IsSized p → Knows (hashed p) bytes × IsSized (hashed p)
  unfolding hashed IsSized
  new_hash p sized =
      let q : SegmentDedup = record p { last_hash = sha bytes } in
      (Knows-update q bytes sized, update-IsSized q bytes sized)

  -- After any state the first copy leaves its fingerprint.
  first_copy :
      (p : SegmentDedup)
      → IsSized p
      → Knows (process_segment sha p bytes).0 bytes × IsSized (process_segment sha p bytes).0
  unfolding Knows hashed
  first_copy p sized = elim (Bool-cases p.has_last) [
    | inl h ↦ elim (Bool-cases (fingerprint_matches p bytes)) [
      | inl f ↦ elim (Bool-cases (bytes_equal (sha bytes) p.last_hash)) [
        | inl e ↦ rw (drops sha p bytes some_bytes (h, f) e) ((h, f), sized)
        | inr e ↦
            rw (passes_hashed sha p bytes some_bytes (inr f) (ground (arith, h, e)))
              (new_hash p sized)
      ]
      | inr f ↦
          rw (passes_changed sha p bytes some_bytes h f)
            (Knows-update p bytes sized, update-IsSized p bytes sized)
    ]
    | inr h ↦
        rw (passes_hashed sha p bytes some_bytes (inl h) (ground (arith, h))) (new_hash p sized)
  ]

  second_copy :
      (p : SegmentDedup)
      → IsSized p
      → (process_segment sha (process_segment sha p bytes).0 bytes).1
        ≡ (if misses_hash sha bytes p then some bytes else none)
  unfolding Knows hashed
  second_copy p sized = elim (Bool-cases p.has_last) [
    | inl h ↦ elim (Bool-cases (fingerprint_matches p bytes)) [
      | inl f ↦
          let takes : misses_hash sha bytes p ≡ false = ground (arith, f) in
          (known_twice p sized (h, f)).1 ∙ sym (if_false _ _ takes)
      | inr f ↦
          let same : misses_hash sha bytes p ≡ not (bytes_equal (sha bytes) p.last_hash) =
            ground (arith, h, f) in
          let kept : (update_fingerprint p bytes).last_hash ≡ p.last_hash =
            unfold update_fingerprint in refl in
          let twice =
            (known_twice (update_fingerprint p bytes) (update-IsSized p bytes sized)
              (Knows-update p bytes sized)).0 in
          rw (passes_changed sha p bytes some_bytes h f)
            (twice ∙ ground (arith, same, ap (bytes_equal (sha bytes)) kept))
    ]
    | inr h ↦
        let takes : misses_hash sha bytes p ≡ false = ground (arith, h) in
        rw (passes_hashed sha p bytes some_bytes (inl h) (ground (arith, h))) (
          ap (λ (r : SegmentDedup × Option (List ℕ)). r.1) (hashed_drops p sized)
          ∙ sym (if_false _ _ takes))
  ]

  -- Of copies in a row of a segment that is not empty the third is dropped, in any state whose head and tail
  -- have eight bytes, as their arrays do. The second is passed on if the first one differed in its
  -- fingerprint from the segment before it, because its hash was not taken, unless the hash that was taken
  -- before is the same; otherwise it is dropped.
  pub copies_lem :
      (p : SegmentDedup)
      → IsSized p
      → ((process_segment sha (process_segment sha p bytes).0 bytes).1
          ≡ (if misses_hash sha bytes p then some bytes else none))
        × ((process_segment sha
              (process_segment sha (process_segment sha p bytes).0 bytes).0
              bytes).1
            ≡ none)
  copies_lem p sized =
      let (known, sized') = first_copy p sized in
      (second_copy p sized, (known_twice (process_segment sha p bytes).0 sized' known).1)
