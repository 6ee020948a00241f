-- ===== src/Hls/TsContinuity/Repair.antt =====
-- What a repaired segment is, told from its packets.
use bilirec.Prelude.{
  ℕ, ◌+◌, ◌*◌, ◌/◌, ◌%◌, ◌<◌, ◌≡◌, ◌⊎◌, Bool, true, false, ◌||◌, ◌&&◌, not, some, List, ◌∷◌, ◌++◌,
  ◌==◌, length, lookup, insert,
}
use bilirec.Hls.TsContinuity.{
  ts_packet_size, TsContinuityFixer, TsContinuityFixResult, is_discontinuity,
}

-- Does a packet carry a payload, from its first byte and its adaptation field control?
abbrev pub has_payload : ℕ → ℕ → Bool
has_payload b0 adaptation = b0 == 0x47 && not (adaptation == 0 || adaptation == 2)

-- How the last counters go on behind a written packet: the counter of a packet with payload becomes the
-- last one of its stream, and is the next one behind the last unless the packet says that it breaks off.
abbrev pub Follows : TsContinuityFixer → ℕ → ℕ → ℕ → ℕ → List ℕ → TsContinuityFixer → Type 0
Follows s b0 pid adaptation counter rest t =
    ((has_payload b0 adaptation ≡ false) × (t ≡ s))
    ⊎ ((has_payload b0 adaptation ≡ true)
        × (t ≡ insert pid counter s)
        × ((is_discontinuity adaptation rest ≡ true)
            ⊎ ((last : ℕ) → lookup pid s ≡ some last → counter ≡ (last + 1) % 16)))

-- A packet and what is written for it: only the counter in the low half of the fourth byte may differ.
abbrev pub IsRepaired : TsContinuityFixer → List ℕ → List ℕ → TsContinuityFixer → Type 0
IsRepaired s packet out t =
    (b0 : ℕ) × (b1 : ℕ) × (b2 : ℕ) × (b3 : ℕ) × (c : ℕ) × (rest : List ℕ) × (packet
      ≡ b0 ∷ b1 ∷ b2 ∷ b3 ∷ rest)
    × (out ≡ b0 ∷ b1 ∷ b2 ∷ c ∷ rest)
    × (c / 16 ≡ b3 / 16)
    × Follows s b0 ((b1 * 256 + b2) % 8192) (c / 16 % 4) (c % 16) rest t

-- A segment, what is written for it, and the counters before and behind it; what is left behind the last
-- whole packet is passed on.
pub data Continues : TsContinuityFixer → List ℕ → List ℕ → TsContinuityFixer → Type 0 where
  ends :
      (s : TsContinuityFixer) (bytes : List ℕ)
      → length bytes < ts_packet_size
      → Continues s bytes bytes s
  goes_on :
      (s t u : TsContinuityFixer) (packet fixed rest out : List ℕ)
      → length packet ≡ ts_packet_size
      → IsRepaired s packet fixed t
      → Continues t rest out u
      → Continues s (packet ++ rest) (fixed ++ out) u

-- The same for a result.
abbrev Fixed : TsContinuityFixer → ℕ → ℕ → ℕ → ℕ → List ℕ → TsContinuityFixResult → Type 0
Fixed s b0 b1 b2 b3 rest r = IsRepaired s (b0 ∷ b1 ∷ b2 ∷ b3 ∷ rest) r.bytes r.fixer
