-- ===== src/Hls/TsContinuity.antt =====
-- pkg/hls/ts_continuity_fixer.go. `lastCC` and `seen` together are a map from the seen packet
-- identifiers to their last counter. Masks of the header word are written as remainders.
pub mod Packet
pub mod Continuity
pub mod Repair
use bilirec.Prelude.{
  ℕ, zero, suc, ◌+◌, ◌/◌, ◌%◌, Bool, true, false, ◌||◌, ◌&&◌, not, Option, none, some, List, [],
  ◌∷◌, ◌++◌, ◌==◌, if◌then◌else◌, length, take, drop, get_or, leb, ltb, lookup, insert, bit_and,
  bit_or,
}
use bilirec.Prelude.Bytes.{uint32_be}

abbrev pub ts_packet_size : ℕ
ts_packet_size = 188

abbrev pub ts_sync_byte : ℕ
ts_sync_byte = 0x47

abbrev pub TsContinuityFixer : Type 0
TsContinuityFixer = List (ℕ × ℕ)

-- `Reset`, with which `NewTsContinuityFixer` starts.
abbrev pub reset_fixer : TsContinuityFixer → TsContinuityFixer
reset_fixer s = []

-- The fixer, the bytes and the count of patches after a packet or a segment.
pub record TsContinuityFixResult : Type 0 where
  pub fixer : TsContinuityFixer
  pub bytes : List ℕ
  pub patched : ℕ

-- `pkt[3] & 0xF0 | want`
unfoldable pub patch : ℕ → ℕ → ℕ
patch b3 want = bit_or (bit_and b3 0xF0) want

-- The counter of a packet with payload, against the last one of its stream.
unfoldable pub fix_counter :
    TsContinuityFixer → ℕ → ℕ → ℕ → ℕ → List ℕ → ℕ → ℕ → Option ℕ → TsContinuityFixResult
unfolding patch
fix_counter s b0 b1 b2 b3 rest pid cc none = record {
  fixer = insert pid cc s;
  bytes = b0 ∷ b1 ∷ b2 ∷ b3 ∷ rest;
  patched = 0;
}
fix_counter s b0 b1 b2 b3 rest pid cc (some expected) =
    let want = (expected + 1) % 16 in
    if cc == want
    then record { fixer = insert pid cc s; bytes = b0 ∷ b1 ∷ b2 ∷ b3 ∷ rest; patched = 0 }
    else record {
      fixer = insert pid want s;
      bytes = b0 ∷ b1 ∷ b2 ∷ patch b3 want ∷ rest;
      patched = 1;
    }

-- discontinuity_indicator in an adaptation field
unfoldable pub is_discontinuity : ℕ → List ℕ → Bool
is_discontinuity adaptation rest =
    adaptation == 3 && ltb 0 (get_or rest 0 0) && leb 128 (get_or rest 1 0 % 256)

-- The body of the loop, from the fields of the header.
unfoldable pub fix_fields :
    TsContinuityFixer → ℕ → ℕ → ℕ → ℕ → List ℕ → ℕ → ℕ → ℕ → TsContinuityFixResult
unfolding fix_counter is_discontinuity
fix_fields s b0 b1 b2 b3 rest pid adaptation cc =
    if not (b0 == ts_sync_byte)
    then record { fixer = s; bytes = b0 ∷ b1 ∷ b2 ∷ b3 ∷ rest; patched = 0 }
    else if adaptation == 0 || adaptation == 2
    then record { fixer = s; bytes = b0 ∷ b1 ∷ b2 ∷ b3 ∷ rest; patched = 0 }
    else if is_discontinuity adaptation rest
    then record { fixer = insert pid cc s; bytes = b0 ∷ b1 ∷ b2 ∷ b3 ∷ rest; patched = 0 }
    else fix_counter s b0 b1 b2 b3 rest pid cc (lookup pid s)

-- A packet has 188 bytes, so that the last clause is not reached.
unfoldable pub fix_packet : TsContinuityFixer → List ℕ → TsContinuityFixResult
unfolding fix_fields
fix_packet s (b0 ∷ b1 ∷ b2 ∷ b3 ∷ rest) =
    let header = uint32_be b0 b1 b2 b3 in
    fix_fields s b0 b1 b2 b3 rest (header / 256 % 8192) (header / 16 % 4) (header % 16)
fix_packet s short = record { fixer = s; bytes = short; patched = 0 }

-- The loop of `FixSegment`; the fuel is the length of the segment.
unfoldable pub fix_loop : ℕ → TsContinuityFixer → List ℕ → TsContinuityFixResult
unfolding fix_packet
fix_loop zero s bytes = record { fixer = s; bytes = bytes; patched = 0 }
fix_loop (suc fuel) s bytes =
    let first = fix_packet s (take ts_packet_size bytes) in
    let rest = fix_loop fuel first.fixer (drop ts_packet_size bytes) in
    if leb ts_packet_size (length bytes)
    then record {
      fixer = rest.fixer;
      bytes = first.bytes ++ rest.bytes;
      patched = first.patched + rest.patched;
    }
    else record { fixer = s; bytes = bytes; patched = 0 }

-- `FixSegment`
unfoldable pub fix_segment : TsContinuityFixer → List ℕ → TsContinuityFixResult
unfolding fix_loop
fix_segment s bytes = fix_loop (length bytes) s bytes
