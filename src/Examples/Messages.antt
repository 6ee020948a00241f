-- ===== src/Examples/Messages.antt =====
-- Runs of the wire format and of the gift messages.
use bilirec.Prelude.{ℕ, ◌≡◌, refl, true, some, List, [], ◌∷◌, ◌++◌, length, All, arith}
use bilirec.Wire.Reader.{read_varint, try_read_tag, skip_field}
use native.Mathlib.Decide.{dec_lt}
use bilirec.Prelude.Descent.{lt_wf}
use bilirec.Wire.Writer.{
  write_varint, write_varint_loop, write_tag, write_varint_field, write_bytes_field,
  write_fixed32_field, little_endian,
}
use bilirec.Wire.Varints.{IsU64, read_varint-write_varint}
use bilirec.Wire.Fields.{
  Field, varint_field, bool_field, bytes_field, fixed64_field, fixed32_field, write_field,
  skip_field-write_field,
}
use bilirec.Danmaku.GiftPb.{parse_broadcast}
use bilirec.Danmaku.GiftPb.Messages.{write_message}
use bilirec.Danmaku.GiftPb.Broadcast.{
  Part, gift, other, IsPart, part_field, broadcast_of, parse_broadcast-write_message,
}

read_varint-write_varint_example :
    read_varint (write_varint [] 300 ++ (7 ∷ [])) ≡ (some 300, 7 ∷ [])
read_varint-write_varint_example = read_varint-write_varint 300 (7 ∷ []) (omega arith)

skip_field-write_field_example :
    (r : List ℕ) × (try_read_tag (write_field [] 9 (bytes_field (b'h' ∷ b'i' ∷ [])) ++ (8 ∷ []))
      ≡ (some (9, 2), r))
    × (skip_field 2 r ≡ (true, 8 ∷ []))
skip_field-write_field_example =
    skip_field-write_field 9 (bytes_field (b'h' ∷ b'i' ∷ [])) (8 ∷ []) (omega arith) (omega arith)

abbrev item_fields : List (ℕ × Field)
item_fields = (1, varint_field 7) ∷ (2, bytes_field (b'r' ∷ [])) ∷ (6, fixed32_field 5) ∷ []

-- A sender, a gift with a number nobody knows, an unknown field, and the switch.
abbrev parts : List Part
parts =
    other 1 (varint_field 42)
    ∷ gift item_fields
    ∷ other 99 (fixed64_field 1)
    ∷ other 11 (bool_field true)
    ∷ []

item_bytes : length (write_message (λ p. p) [] item_fields) ≡ 10
unfolding write_message write_field write_varint_field write_bytes_field write_fixed32_field
    write_tag write_varint write_varint_loop lt_wf little_endian dec_lt
item_bytes = refl

item_size : IsU64 (length (write_message (λ p. p) [] item_fields))
item_size = omega (arith, item_bytes)

parts-IsPart : All IsPart parts
parts-IsPart = (
  ((omega arith, omega arith), refl),
  ((
    (
      ((omega arith, omega arith), ((omega arith, omega arith), ((omega arith, omega arith), tt))),
      (refl, (refl, (refl, tt))),
      item_size,
    ),
    (((omega arith, omega arith), refl), (((omega arith, tt), refl), tt)),
  )),
)

parse_broadcast-write_message_example :
    parse_broadcast (write_message part_field [] parts) ≡ some (broadcast_of parts)
parse_broadcast-write_message_example = parse_broadcast-write_message parts parts-IsPart

-- The gift is there.
gift_read : length (broadcast_of parts).gift_list ≡ 1
gift_read = refl
