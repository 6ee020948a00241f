-- ===== src/Flv/VideoTag/Layouts.antt =====
-- Which payloads count as sequence headers and keyframes, in plain arithmetic on the first byte.
use bilirec.Prelude.{
  ℕ, ◌%◌, ◌≤◌, ◌<◌, ◌≡◌, ◌⊎◌, ◌↔◌, subst, inl, inr, true, List, [], ◌∷◌, arith, ltb, length, take,
  Bool-cases,
}
use bilirec.Prelude.Words.{IsByte}
use bilirec.Prelude.Bits.{mask_top_bit, mask_low_4}
use bilirec.Prelude.Bytes.{bytes_equal, bytes_equal→eq, bytes_equal_refl}
use bilirec.Flv.VideoTag.{
  classify_video_tag, classify_enhanced, classify_legacy, four_cc_hvc1, four_cc_hev1,
}

-- An enhanced payload that starts an HEVC sequence: packet type 0 and the code hvc1 or hev1.
abbrev pub EnhancedStart : ℕ → List ℕ → Type 0
EnhancedStart b rest =
    (128 ≤ b)
    × (b % 16 ≡ 0)
    × (4 ≤ length rest)
    × ((take 4 rest ≡ four_cc_hvc1) ⊎ (take 4 rest ≡ four_cc_hev1))

-- A legacy payload that starts an AVC or HEVC sequence: codec 7 or 12, and packet type 0.
abbrev pub LegacyStart : ℕ → List ℕ → Type 0
LegacyStart b [] = ⊥
LegacyStart b (packet_type ∷ rest) = (b < 128) × ((b % 16 ≡ 7) ⊎ (b % 16 ≡ 12)) × (packet_type ≡ 0)

classify_high :
    (b : ℕ) (rest : List ℕ)
    → IsByte b
    → 128 ≤ b
    → classify_video_tag (b ∷ rest) ≡ classify_enhanced b rest
unfolding classify_video_tag
classify_high b rest hb h = ground (arith, mask_top_bit b hb)

classify_low :
    (b : ℕ) (rest : List ℕ)
    → IsByte b
    → b < 128
    → classify_video_tag (b ∷ rest) ≡ classify_legacy b rest
unfolding classify_video_tag
classify_low b rest hb h = ground (arith, mask_top_bit b hb)

four_cc_equal : (xs ys : List ℕ) → (bytes_equal xs ys ≡ true) ↔ (xs ≡ ys)
four_cc_equal xs ys =
    (bytes_equal→eq xs ys, λ e. subst (λ z. bytes_equal xs z ≡ true) e (bytes_equal_refl xs))

enhanced_header :
    (b : ℕ) (rest : List ℕ)
    → IsByte b
    → 128 ≤ b
    → ((classify_enhanced b rest).is_header ≡ true) ↔ EnhancedStart b rest
unfolding classify_enhanced
enhanced_header b rest hb h =
    let low = mask_low_4 b hb in
    let hvc1 = four_cc_equal (take 4 rest) four_cc_hvc1 in
    let hev1 = four_cc_equal (take 4 rest) four_cc_hev1 in (λ e. ground arith, λ e. ground arith)

legacy_header :
    (b : ℕ) (rest : List ℕ)
    → IsByte b
    → b < 128
    → ((classify_legacy b rest).is_header ≡ true) ↔ LegacyStart b rest
unfolding classify_legacy
legacy_header b [] hb h = (λ e. cc, λ e. absurd e)
legacy_header b (p ∷ rest) hb h =
    let low = mask_low_4 b hb in (λ e. ground arith, λ e. ground arith)

legacy_only :
    (b : ℕ) (rest : List ℕ)
    → EnhancedStart b rest ⊎ LegacyStart b rest
    → b < 128
    → LegacyStart b rest
legacy_only b rest (inl e) h = absurd (omega arith)
legacy_only b rest (inr l) h = l

enhanced_only :
    (b : ℕ) (rest : List ℕ)
    → EnhancedStart b rest ⊎ LegacyStart b rest
    → 128 ≤ b
    → EnhancedStart b rest
enhanced_only b rest (inl e) h = e
enhanced_only b [] (inr l) h = absurd l
enhanced_only b (p ∷ rest) (inr l) h = absurd (omega arith)

-- A payload of bytes is classified as a sequence header exactly if it starts an AVC or HEVC sequence,
-- in the enhanced layout (bit 7 of the first byte set) or in the legacy one.
pub classify_video_tag-is_header :
    (b : ℕ) (rest : List ℕ)
    → IsByte b
    → ((classify_video_tag (b ∷ rest)).is_header ≡ true)
      ↔ (EnhancedStart b rest ⊎ LegacyStart b rest)
classify_video_tag-is_header b rest hb = elim (Bool-cases (ltb b 128)) [
  | inl low ↦
      let hl : b < 128 = ground arith in
      let same = classify_low b rest hb hl in
      let (to, from) = legacy_header b rest hb hl in
      (λ e. inr (to (rw same at e)), λ e. rw same (from (legacy_only b rest e hl)))
  | inr high ↦
      let hh : 128 ≤ b = ground arith in
      let same = classify_high b rest hb hh in
      let (to, from) = enhanced_header b rest hb hh in
      (λ e. inl (to (rw same at e)), λ e. rw same (from (enhanced_only b rest e hh)))
]
