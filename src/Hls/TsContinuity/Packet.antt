-- ===== src/Hls/TsContinuity/Packet.antt =====
-- One packet: what the first pass writes is what a second one expects.
use bilirec.Prelude.{
  ℕ, ◌+◌, ◌*◌, ◌/◌, ◌%◌, ◌<◌, ◌≡◌, ◌⊎◌, refl, ap, ◌∙◌, inl, inr, true, false, ◌||◌, some, List, [],
  ◌∷◌, ◌==◌, length, lookup, insert, bit_or, arith, Bool-cases, Option-cases, All,
}
use bilirec.Prelude.Words.{IsByte}
use bilirec.Prelude.Bits.{bit_or_disjoint, mask_high_4}
use bilirec.Prelude.Bytes.{uint32_be, uint32_be_lem}
use bilirec.Hls.TsContinuity.{
  ts_sync_byte, TsContinuityFixer, TsContinuityFixResult, patch, fix_counter, is_discontinuity,
  fix_fields, fix_packet,
}

pub patch_lem : (b want : ℕ) → b < 256 → want < 16 → patch b want ≡ b / 16 * 16 + want
unfolding patch
patch_lem b want hb hw =
    ap (λ (t : ℕ). bit_or t want) (mask_high_4 b hb)
    ∙ bit_or_disjoint 4 (b / 16) want (b / 16 * 16) (omega arith) (omega arith)

-- What the first pass leaves of the header.
fields :
    (b0 b1 b2 b3 : ℕ)
    → IsByte b1
    → IsByte b2
    → IsByte b3
    → (uint32_be b0 b1 b2 b3 / 256 % 8192 ≡ (b1 * 256 + b2) % 8192)
      × (uint32_be b0 b1 b2 b3 / 16 % 4 ≡ b3 / 16 % 4)
      × (uint32_be b0 b1 b2 b3 % 16 ≡ b3 % 16)
fields b0 b1 b2 b3 h1 h2 h3 = (
  omega (arith, uint32_be_lem b0 b1 b2 b3 h1 h2 h3),
  omega (arith, uint32_be_lem b0 b1 b2 b3 h1 h2 h3),
  omega (arith, uint32_be_lem b0 b1 b2 b3 h1 h2 h3),
)

-- The second pass over the packet that the first one wrote.
unfoldable pub again : TsContinuityFixer → TsContinuityFixResult → TsContinuityFixResult
again s r = record { fixer = r.fixer; bytes = r.bytes; patched = 0 }

pub fix_packet_fields :
    (s : TsContinuityFixer) (b0 b1 b2 b3 : ℕ) (rest : List ℕ)
    → IsByte b1
    → IsByte b2
    → IsByte b3
    → fix_packet s (b0 ∷ b1 ∷ b2 ∷ b3 ∷ rest)
      ≡ fix_fields s b0 b1 b2 b3 rest ((b1 * 256 + b2) % 8192) (b3 / 16 % 4) (b3 % 16)
unfolding fix_packet
fix_packet_fields s b0 b1 b2 b3 rest h1 h2 h3 =
    let (p, a, c) = fields b0 b1 b2 b3 h1 h2 h3 in rw (p, a, c) refl

-- A packet is left alone, or its counter is replaced by the one that is due.
fix_fields_cases :
    (s : TsContinuityFixer) (b0 b1 b2 b3 : ℕ) (rest : List ℕ) (pid a cnt : ℕ)
    → (fix_fields s b0 b1 b2 b3 rest pid a cnt
        ≡ again s (record {
          fixer = (fix_fields s b0 b1 b2 b3 rest pid a cnt).fixer;
          bytes = b0 ∷ b1 ∷ b2 ∷ b3 ∷ rest;
          patched = 0;
        }))
      ⊎ ((e : ℕ) × ((b0 == ts_sync_byte) ≡ true)
          × ((a == 0 || a == 2) ≡ false)
          × (is_discontinuity a rest ≡ false)
          × (lookup pid s ≡ some e)
          × (fix_fields s b0 b1 b2 b3 rest pid a cnt ≡ record {
            fixer = insert pid ((e + 1) % 16) s;
            bytes = b0 ∷ b1 ∷ b2 ∷ patch b3 ((e + 1) % 16) ∷ rest;
            patched = 1;
          }))
unfolding fix_fields fix_counter again
fix_fields_cases s b0 b1 b2 b3 rest pid a cnt = elim (Bool-cases (b0 == ts_sync_byte)) [
  | inr h ↦ rw h (inl refl)
  | inl h ↦ elim (Bool-cases (a == 0 || a == 2)) [
    | inl h2 ↦ rw (h, h2) (inl refl)
    | inr h2 ↦ elim (Bool-cases (is_discontinuity a rest)) [
      | inl h3 ↦ rw (h, h2, h3) (inl refl)
      | inr h3 ↦ elim (Option-cases (lookup pid s)) [
        | inl h4 ↦ rw (h, h2, h3, h4) (inl refl)
        | inr (e, h4) ↦ elim (Bool-cases (cnt == (e + 1) % 16)) [
          | inl h5 ↦ rw (h, h2, h3, h4, h5) (inl refl)
          | inr h5 ↦ rw (h, h2, h3, h4, h5) (inr (e, refl, refl, refl, refl, refl))
        ]
      ]
    ]
  ]
]

-- A counter that is the due one is not patched.
fix_fields_due :
    (s : TsContinuityFixer) (b0 b1 b2 b3 : ℕ) (rest : List ℕ) (pid a cnt e : ℕ)
    → (b0 == ts_sync_byte) ≡ true
    → (a == 0 || a == 2) ≡ false
    → is_discontinuity a rest ≡ false
    → lookup pid s ≡ some e
    → cnt ≡ (e + 1) % 16
    → fix_fields s b0 b1 b2 b3 rest pid a cnt ≡ record {
      fixer = insert pid ((e + 1) % 16) s;
      bytes = b0 ∷ b1 ∷ b2 ∷ b3 ∷ rest;
      patched = 0;
    }
unfolding fix_fields fix_counter
fix_fields_due s b0 b1 b2 b3 rest pid a cnt e h h2 h3 h4 q =
    let due : (cnt == (e + 1) % 16) ≡ true = ground arith in rw (h, h2, h3, h4, due, q) refl

again_of :
    (s : TsContinuityFixer) (packet : List ℕ) (r : TsContinuityFixResult)
    → fix_packet s packet ≡ r
    → fix_packet s r.bytes ≡ again s r
    → fix_packet s (fix_packet s packet).bytes ≡ again s (fix_packet s packet)
again_of s packet r e h = rw e h

fix_packet_patched :
    (s : TsContinuityFixer) (b0 b1 b2 b3 : ℕ) (rest : List ℕ) (e : ℕ)
    → IsByte b1
    → IsByte b2
    → IsByte b3
    → (b0 == ts_sync_byte) ≡ true
    → (b3 / 16 % 4 == 0 || b3 / 16 % 4 == 2) ≡ false
    → is_discontinuity (b3 / 16 % 4) rest ≡ false
    → lookup ((b1 * 256 + b2) % 8192) s ≡ some e
    → fix_packet s (b0 ∷ b1 ∷ b2 ∷ patch b3 ((e + 1) % 16) ∷ rest) ≡ record {
      fixer = insert ((b1 * 256 + b2) % 8192) ((e + 1) % 16) s;
      bytes = b0 ∷ b1 ∷ b2 ∷ patch b3 ((e + 1) % 16) ∷ rest;
      patched = 0;
    }
fix_packet_patched s b0 b1 b2 b3 rest e h1 h2 h3 g0 g1 g2 g3 =
    let w : ℕ = (e + 1) % 16 in
    let value : patch b3 w ≡ b3 / 16 * 16 + w = patch_lem b3 w h3 (omega arith) in
    let a : patch b3 w / 16 % 4 ≡ b3 / 16 % 4 = omega (arith, value) in
    let c : patch b3 w % 16 ≡ w = omega (arith, value) in
    fix_packet_fields s b0 b1 b2 (patch b3 w) rest h1 h2 (omega (arith, value))
    ∙ ap (λ x. fix_fields s b0 b1 b2 (patch b3 w) rest ((b1 * 256 + b2) % 8192) x (patch b3 w % 16))
        a
    ∙ fix_fields_due s b0 b1 b2 (patch b3 w) rest ((b1 * 256 + b2) % 8192) (b3 / 16 % 4)
        (patch b3 w % 16) e g0 g1 g2 g3 c

fix_packet-fix_fields :
    (s : TsContinuityFixer) (b0 b1 b2 b3 : ℕ) (rest : List ℕ)
    → IsByte b1
    → IsByte b2
    → IsByte b3
    → fix_packet s (fix_packet s (b0 ∷ b1 ∷ b2 ∷ b3 ∷ rest)).bytes
      ≡ again s (fix_packet s (b0 ∷ b1 ∷ b2 ∷ b3 ∷ rest))
unfolding again
fix_packet-fix_fields s b0 b1 b2 b3 rest h1 h2 h3 =
    let e = fix_packet_fields s b0 b1 b2 b3 rest h1 h2 h3 in
    elim (fix_fields_cases s b0 b1 b2 b3 rest ((b1 * 256 + b2) % 8192) (b3 / 16 % 4) (b3 % 16)) [
      | inl same ↦ again_of s (b0 ∷ b1 ∷ b2 ∷ b3 ∷ rest) _ (e ∙ same) (e ∙ same)
      | inr (x, g0, g1, g2, g3, patched) ↦
          again_of s (b0 ∷ b1 ∷ b2 ∷ b3 ∷ rest) _ (e ∙ patched)
            (fix_packet_patched s b0 b1 b2 b3 rest x h1 h2 h3 g0 g1 g2 g3)
    ]

pub fix_packet-fix_packet :
    (s : TsContinuityFixer) (packet : List ℕ)
    → All IsByte packet
    → fix_packet s (fix_packet s packet).bytes ≡ again s (fix_packet s packet)
unfolding again fix_packet
fix_packet-fix_packet s [] h = refl
fix_packet-fix_packet s (b0 ∷ []) h = refl
fix_packet-fix_packet s (b0 ∷ b1 ∷ []) h = refl
fix_packet-fix_packet s (b0 ∷ b1 ∷ b2 ∷ []) h = refl
fix_packet-fix_packet s (b0 ∷ b1 ∷ b2 ∷ b3 ∷ rest) (h0, (h1, (h2, (h3, h)))) =
    fix_packet-fix_fields s b0 b1 b2 b3 rest h1 h2 h3

length-fix_fields :
    (s : TsContinuityFixer) (b0 b1 b2 b3 : ℕ) (rest : List ℕ) (pid a cnt : ℕ)
    → length (fix_fields s b0 b1 b2 b3 rest pid a cnt).bytes ≡ length (b0 ∷ b1 ∷ b2 ∷ b3 ∷ rest)
unfolding again
length-fix_fields s b0 b1 b2 b3 rest pid a cnt =
    elim (fix_fields_cases s b0 b1 b2 b3 rest pid a cnt) [
      | inl same ↦ ap (λ (r : TsContinuityFixResult). length r.bytes) same
      | inr (x, g0, g1, g2, g3, patched) ↦
          ap (λ (r : TsContinuityFixResult). length r.bytes) patched
    ]

pub length-fix_packet :
    (s : TsContinuityFixer) (packet : List ℕ) → length (fix_packet s packet).bytes ≡ length packet
unfolding fix_packet
length-fix_packet s [] = refl
length-fix_packet s (b0 ∷ []) = refl
length-fix_packet s (b0 ∷ b1 ∷ []) = refl
length-fix_packet s (b0 ∷ b1 ∷ b2 ∷ []) = refl
length-fix_packet s (b0 ∷ b1 ∷ b2 ∷ b3 ∷ rest) =
    let header : ℕ = uint32_be b0 b1 b2 b3 in
    length-fix_fields s b0 b1 b2 b3 rest (header / 256 % 8192) (header / 16 % 4) (header % 16)
