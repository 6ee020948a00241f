-- ===== src/Hls/TsContinuity/Continuity.antt =====
-- A second reading of a repaired segment finds nothing to patch.
use bilirec.Prelude.{
  ℕ, zero, suc, ◌+◌, ◌≤◌, ◌≡◌, refl, ap, sym, ◌∙◌, inl, inr, true, false, List, [], ◌∷◌, ◌++◌,
  length, take, drop, leb, arith, Bool-cases, All, length-append, take-append_self,
  drop-append_self, leb→le, length-take, length-drop,
}
use bilirec.Prelude.Words.{IsByte}
use bilirec.Hls.TsContinuity.{
  ts_packet_size, TsContinuityFixer, TsContinuityFixResult, fix_packet, fix_loop, fix_segment,
}
use bilirec.Hls.TsContinuity.Packet.{again, fix_packet-fix_packet, length-fix_packet}

All-take : (n : ℕ) (xs : List ℕ) → All IsByte xs → All IsByte (take n xs)
All-take zero xs h = tt
All-take (suc n) [] h = tt
All-take (suc n) (x ∷ xs) (h, hs) = (h, All-take n xs hs)

All-drop : (n : ℕ) (xs : List ℕ) → All IsByte xs → All IsByte (drop n xs)
All-drop zero xs h = h
All-drop (suc n) [] h = tt
All-drop (suc n) (x ∷ xs) (h, hs) = All-drop n xs hs

take-append_length : (n : ℕ) (xs ys : List ℕ) → length xs ≡ n → take n (xs ++ ys) ≡ xs
take-append_length n xs ys h = rw (← h) (take-append_self xs ys)

drop-append_length : (n : ℕ) (xs ys : List ℕ) → length xs ≡ n → drop n (xs ++ ys) ≡ ys
drop-append_length n xs ys h = rw (← h) (drop-append_self xs ys)

-- One round of the loop, where a whole packet is left.
join : TsContinuityFixResult → TsContinuityFixResult → TsContinuityFixResult
join first rest = record {
  fixer = rest.fixer;
  bytes = first.bytes ++ rest.bytes;
  patched = first.patched + rest.patched;
}

round : ℕ → TsContinuityFixer → List ℕ → List ℕ → TsContinuityFixResult
round fuel s packet rest =
    join (fix_packet s packet) (fix_loop fuel (fix_packet s packet).fixer rest)

fix_loop_packet :
    (fuel : ℕ) (s : TsContinuityFixer) (bytes : List ℕ)
    → leb ts_packet_size (length bytes) ≡ true
    → fix_loop (suc fuel) s bytes
      ≡ round fuel s (take ts_packet_size bytes) (drop ts_packet_size bytes)
unfolding fix_loop round join
fix_loop_packet fuel s bytes h = rw h refl

fix_loop_short :
    (fuel : ℕ) (s : TsContinuityFixer) (bytes : List ℕ)
    → leb ts_packet_size (length bytes) ≡ false
    → fix_loop (suc fuel) s bytes ≡ record { fixer = s; bytes = bytes; patched = 0 }
unfolding fix_loop
fix_loop_short fuel s bytes h = rw h refl

fix_loop_written :
    (fuel : ℕ) (s : TsContinuityFixer) (packet rest : List ℕ)
    → length packet ≡ ts_packet_size
    → fix_loop (suc fuel) s (packet ++ rest) ≡ round fuel s packet rest
fix_loop_written fuel s packet rest h =
    let more : leb ts_packet_size (length (packet ++ rest)) ≡ true =
      ground (arith, length-append packet rest) in
    fix_loop_packet fuel s (packet ++ rest) more
    ∙ ap (λ x. round fuel s x (drop ts_packet_size (packet ++ rest)))
        (take-append_length ts_packet_size packet rest h)
    ∙ ap (λ x. round fuel s packet x) (drop-append_length ts_packet_size packet rest h)

loop_again_of :
    (fuel : ℕ) (s : TsContinuityFixer) (bytes : List ℕ) (r : TsContinuityFixResult)
    → fix_loop fuel s bytes ≡ r
    → fix_loop fuel s r.bytes ≡ again s r
    → fix_loop fuel s (fix_loop fuel s bytes).bytes ≡ again s (fix_loop fuel s bytes)
loop_again_of fuel s bytes r e h = rw e h

fix_loop-fix_loop :
    (fuel : ℕ) (s : TsContinuityFixer) (bytes : List ℕ)
    → All IsByte bytes
    → fix_loop fuel s (fix_loop fuel s bytes).bytes ≡ again s (fix_loop fuel s bytes)
unfolding again round join fix_loop
fix_loop-fix_loop zero s bytes h = refl
fix_loop-fix_loop (suc fuel) s bytes h =
    let first : TsContinuityFixResult = fix_packet s (take ts_packet_size bytes) in
    let rest : TsContinuityFixResult = fix_loop fuel first.fixer (drop ts_packet_size bytes) in
    elim (Bool-cases (leb ts_packet_size (length bytes))) [
      | inr short ↦
          loop_again_of (suc fuel) s bytes _ (fix_loop_short fuel s bytes short)
            (fix_loop_short fuel s bytes short)
      | inl whole ↦ loop_again_of (suc fuel) s bytes _ (fix_loop_packet fuel s bytes whole) (
          fix_loop_written fuel s first.bytes rest.bytes (
            omega (
              arith,
              length-fix_packet s (take ts_packet_size bytes),
              length-take ts_packet_size bytes,
              leb→le ts_packet_size (length bytes) whole,
            ))
          ∙ ap (λ (x : TsContinuityFixResult). join x (fix_loop fuel x.fixer rest.bytes))
              (fix_packet-fix_packet s (take ts_packet_size bytes)
                (All-take ts_packet_size bytes h))
          ∙ ap (join (again s first)) (
              fix_loop-fix_loop fuel first.fixer (drop ts_packet_size bytes)
                (All-drop ts_packet_size bytes h))
          ∙ refl)
    ]

-- The length of a segment does not change.
length-fix_loop :
    (fuel : ℕ) (s : TsContinuityFixer) (bytes : List ℕ)
    → length (fix_loop fuel s bytes).bytes ≡ length bytes
unfolding fix_loop
length-fix_loop zero s bytes = refl
length-fix_loop (suc fuel) s bytes = elim (Bool-cases (leb ts_packet_size (length bytes))) [
  | inr short ↦ rw short refl
  | inl whole ↦ rw whole (
      omega (
        arith,
        length-append (fix_packet s (take ts_packet_size bytes)).bytes
            (fix_loop fuel (fix_packet s (take ts_packet_size bytes)).fixer
              (drop ts_packet_size bytes)).bytes,
        length-fix_packet s (take ts_packet_size bytes),
        length-fix_loop fuel (fix_packet s (take ts_packet_size bytes)).fixer
            (drop ts_packet_size bytes),
        length-take ts_packet_size bytes,
        length-drop ts_packet_size bytes,
      ))
]

-- Read again from the same counters, a segment that `FixSegment` repaired has the same length, needs no patch, is left as it is, and leads to the same counters.
pub fix_segment-fix_segment :
    (s : TsContinuityFixer) (bytes : List ℕ)
    → All IsByte bytes
    → (length (fix_segment s bytes).bytes ≡ length bytes)
      × (fix_segment s (fix_segment s bytes).bytes ≡ record {
        fixer = (fix_segment s bytes).fixer;
        bytes = (fix_segment s bytes).bytes;
        patched = 0;
      })
unfolding fix_segment again
fix_segment-fix_segment s bytes h =
    let same : length (fix_loop (length bytes) s bytes).bytes ≡ length bytes =
      length-fix_loop (length bytes) s bytes in
    (same, rw same (fix_loop-fix_loop (length bytes) s bytes h))

-- Fuel beyond the length changes nothing.
fix_loop_fuel :
    (f g : ℕ) (s : TsContinuityFixer) (bytes : List ℕ)
    → length bytes ≤ f
    → length bytes ≤ g
    → fix_loop f s bytes ≡ fix_loop g s bytes
unfolding fix_loop round
fix_loop_fuel zero zero s bytes hf hg = refl
fix_loop_fuel zero (suc g) s bytes hf hg =
    let short : leb ts_packet_size (length bytes) ≡ false = ground arith in
    sym (fix_loop_short g s bytes short)
fix_loop_fuel (suc f) zero s bytes hf hg =
    let short : leb ts_packet_size (length bytes) ≡ false = ground arith in
    fix_loop_short f s bytes short
fix_loop_fuel (suc f) (suc g) s bytes hf hg =
    elim (Bool-cases (leb ts_packet_size (length bytes))) [
      | inr short ↦ fix_loop_short f s bytes short ∙ sym (fix_loop_short g s bytes short)
      | inl whole ↦
          fix_loop_packet f s bytes whole
          ∙ ap (join (fix_packet s (take ts_packet_size bytes))) (
              fix_loop_fuel f g (fix_packet s (take ts_packet_size bytes)).fixer
                (drop ts_packet_size bytes) (omega (arith, length-drop ts_packet_size bytes))
                (omega (arith, length-drop ts_packet_size bytes)))
          ∙ sym (fix_loop_packet g s bytes whole)
    ]

-- `FixSegment` on a packet with further bytes behind it repairs the packet, and then does with the further
-- bytes what it does with them as a segment of their own, from the state after the packet.
pub fix_segment-append :
    (s : TsContinuityFixer) (packet rest : List ℕ)
    → length packet ≡ ts_packet_size
    → fix_segment s (packet ++ rest) ≡ record {
      fixer = (fix_segment (fix_packet s packet).fixer rest).fixer;
      bytes = (fix_packet s packet).bytes ++ (fix_segment (fix_packet s packet).fixer rest).bytes;
      patched =
          (fix_packet s packet).patched + (fix_segment (fix_packet s packet).fixer rest).patched;
    }
unfolding fix_segment round join
fix_segment-append s packet rest h =
    let more : length (packet ++ rest) ≡ suc (187 + length rest) =
      omega (arith, length-append packet rest) in
    ap (λ n. fix_loop n s (packet ++ rest)) more
    ∙ fix_loop_written (187 + length rest) s packet rest h
    ∙ ap (join (fix_packet s packet)) (
        fix_loop_fuel (187 + length rest) (length rest) (fix_packet s packet).fixer rest
          (omega arith) (omega arith))
