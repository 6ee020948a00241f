-- ===== src/Wire/Writer.antt =====
-- pkg/protowire/writer.go. The 64-bit numbers are kept by `% 2 ^ 64`; an int is a field number or a
-- wire type, which are not negative.
use native.Mathlib.Decide.{dec_lt}
use bilirec.Prelude.Descent.{lt_wf}
use mathlib.Core.Logic.{dite}
use mathlib.Core.WellFounded.{Acc}
use bilirec.Prelude.{
  ℕ, zero, suc, ◌*◌, ◌/◌, ◌%◌, ◌<◌, bit_or, Bool, List, [], ◌∷◌, ◌++◌, if◌then◌else◌, length, arith,
}

abbrev pub wire_varint : ℕ
wire_varint = 0

abbrev pub wire_fixed64 : ℕ
wire_fixed64 = 1

abbrev pub wire_bytes : ℕ
wire_bytes = 2

abbrev pub wire_start_group : ℕ
wire_start_group = 3

abbrev pub wire_end_group : ℕ
wire_end_group = 4

abbrev pub wire_fixed32 : ℕ
wire_fixed32 = 5

pub seventh_smaller : (v : ℕ) → 127 < v → v / 128 < v
seventh_smaller v h = omega arith

-- `for v >= 0x80 { ... }`
unfoldable pub write_varint_loop : List ℕ → (v : ℕ) → Acc ◌<◌ v → List ℕ
write_varint_loop buf v (Acc.intro _ below) =
    dite (dec_lt 127 v)
      (λ long.
        write_varint_loop (buf ++ (bit_or (v % 256) 0x80 ∷ [])) (v / 128)
          (below _ (seventh_smaller v long)))
      (λ _. buf ++ (v % 256 ∷ []))

unfoldable pub write_varint : List ℕ → ℕ → List ℕ
write_varint buf v = write_varint_loop buf v (lt_wf.apply v)

unfoldable pub write_tag : List ℕ → ℕ → ℕ → List ℕ
write_tag buf field_num wire_type =
    write_varint buf (bit_or (field_num * 8 % 0x1_0000_0000_0000_0000) wire_type)

unfoldable pub write_varint_field : List ℕ → ℕ → ℕ → List ℕ
write_varint_field buf field_num v = write_varint (write_tag buf field_num wire_varint) v

unfoldable pub write_bool_field : List ℕ → ℕ → Bool → List ℕ
write_bool_field buf field_num v =
    if v then write_varint_field buf field_num 1 else write_varint_field buf field_num 0

unfoldable pub write_bytes_field : List ℕ → ℕ → List ℕ → List ℕ
write_bytes_field buf field_num b =
    write_varint (write_tag buf field_num wire_bytes) (length b) ++ b

-- The first `n` bytes of a number, lowest first.
unfoldable pub little_endian : ℕ → ℕ → List ℕ
little_endian zero v = []
little_endian (suc n) v = v % 256 ∷ little_endian n (v / 256)

unfoldable pub write_fixed64_field : List ℕ → ℕ → ℕ → List ℕ
write_fixed64_field buf field_num v = write_tag buf field_num wire_fixed64 ++ little_endian 8 v

unfoldable pub write_fixed32_field : List ℕ → ℕ → ℕ → List ℕ
write_fixed32_field buf field_num v = write_tag buf field_num wire_fixed32 ++ little_endian 4 v
