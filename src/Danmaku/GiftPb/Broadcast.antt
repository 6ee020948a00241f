-- ===== src/Danmaku/GiftPb/Broadcast.antt =====
-- What `parseSendGiftBroadcast` makes of the parts that a broadcast was written with.
use mathlib.Core.List.{foldl}
use bilirec.Prelude.{
  ℕ, Bool, true, false, ◌||◌, not, some, List, [], ◌∷◌, ◌++◌, if◌then◌else◌, length, ◌==◌, ◌≡◌,
  refl, arith, All,
}
use bilirec.Wire.Reader.{read_bool, bool_of}
use bilirec.Wire.Varints.{IsU64, read_varint-sevens}
use bilirec.Wire.Fields.{
  Field, varint_field, bool_field, bytes_field, fixed64_field, fixed32_field, wire_type, IsField,
  payload, skip_field_lem, read_bytes_lem,
}
use bilirec.Danmaku.GiftPb.{
  SendGiftBroadcast, empty_broadcast, store_read, skipped, add_gift, apply_gift,
  apply_broadcast_field, parse_broadcast,
}
use bilirec.Danmaku.GiftPb.Messages.{IsNumbered, write_message, message_loop-write_message}
use bilirec.Danmaku.GiftPb.Items.{IsItemField, item_of, parse_item-write_message}

-- A part of a broadcast: a gift with the fields of its item, or another field.
pub data Part : Type 0 where
  gift : List (ℕ × Field) → Part
  other : ℕ → Field → Part

abbrev is_broadcast_string : ℕ → Bool
is_broadcast_string n = n == 2 || n == 3 || n == 4

abbrev is_broadcast_number : ℕ → Bool
is_broadcast_number n = n == 1 || n == 5

-- The field 10 holds items only, and the switch is the field 11.
abbrev IsBroadcastField : ℕ → Field → Type 0
IsBroadcastField n (varint_field v) = (is_broadcast_string n || n == 10 || n == 11) ≡ false
IsBroadcastField n (bytes_field s) = (is_broadcast_number n || n == 10 || n == 11) ≡ false
IsBroadcastField n (bool_field v) =
    (is_broadcast_number n || is_broadcast_string n || n == 10) ≡ false
IsBroadcastField n f =
    (is_broadcast_number n || is_broadcast_string n || n == 10 || n == 11) ≡ false

abbrev pub IsPart : Part → Type 0
IsPart (gift fields) =
    All IsNumbered fields
    × All IsItemField fields
    × IsU64 (length (write_message (λ p. p) [] fields))
IsPart (other n f) = IsNumbered (n, f) × IsBroadcastField n f

abbrev pub store_part : SendGiftBroadcast → Part → SendGiftBroadcast
store_part b (gift fields) = record b { gift_list = b.gift_list ++ (item_of fields ∷ []) }
store_part b (other n (varint_field v)) =
    if n == 1 then record b { uid = v } else if n == 5 then record b { guard_level = v } else b
store_part b (other n (bytes_field s)) =
    if n == 2
    then record b { uname = s }
    else if n == 3
    then record b { face = s }
    else if n == 4
    then record b { name_color = s }
    else b
store_part b (other n (bool_field v)) =
    if n == 11 then record b { switch_present = true; switch_on = v } else b
store_part b (other n f) = b

abbrev pub broadcast_of : List Part → SendGiftBroadcast
broadcast_of = foldl store_part empty_broadcast

unfoldable pub part_field : Part → ℕ × Field
part_field (gift fields) = (10, bytes_field (write_message (λ p. p) [] fields))
part_field (other n f) = (n, f)

bool_back : (v : Bool) → not ((if v then 1 else 0) == 0) ≡ v
bool_back true = refl
bool_back false = refl

read_bool_lem :
    (v : Bool) (rest : List ℕ) → read_bool (payload (bool_field v) ++ rest) ≡ (some v, rest)
unfolding read_bool bool_of
read_bool_lem true rest = rw (read_varint-sevens 1 rest (omega arith)) refl
read_bool_lem false rest = rw (read_varint-sevens 0 rest (omega arith)) refl

apply_broadcast_field_lem :
    (out : SendGiftBroadcast) (p : Part) (rest : List ℕ)
    → IsField (part_field p).1
    → IsPart p
    → apply_broadcast_field out
        (payload (part_field p).1 ++ rest)
        (part_field p).0
        (wire_type (part_field p).1)
      ≡ some (store_part out p, rest)
unfolding part_field apply_broadcast_field store_read skipped apply_gift add_gift
apply_broadcast_field_lem out (gift fields) rest hf (h, k, fits) =
    rw (read_bytes_lem (write_message (λ p. p) [] fields) rest fits)
      (rw (parse_item-write_message fields h k) refl)
apply_broadcast_field_lem out (other n (varint_field v)) rest hf (h, k) =
    rw (skip_field_lem (varint_field v) rest hf) (rw (read_varint-sevens v rest hf) (ground arith))
apply_broadcast_field_lem out (other n (bytes_field v)) rest hf (h, k) =
    rw (skip_field_lem (bytes_field v) rest hf) (rw (read_bytes_lem v rest hf) (ground arith))
apply_broadcast_field_lem out (other n (bool_field v)) rest hf (h, k) =
    rw (skip_field_lem (bool_field v) rest hf) (rw (read_bool_lem v rest) (ground arith))
apply_broadcast_field_lem out (other n (fixed64_field v)) rest hf (h, k) =
    rw (skip_field_lem (fixed64_field v) rest hf) (ground arith)
apply_broadcast_field_lem out (other n (fixed32_field v)) rest hf (h, k) =
    rw (skip_field_lem (fixed32_field v) rest hf) (ground arith)

numbered : (p : Part) → IsPart p → IsNumbered (part_field p)
unfolding part_field
numbered (gift fields) (h, k, fits) = (omega arith, fits)
numbered (other n f) (h, k) = h

All-IsNumbered : (parts : List Part) → All IsPart parts → All (λ p. IsNumbered (part_field p)) parts
All-IsNumbered [] h = tt
All-IsNumbered (p ∷ parts) (h, hs) = (numbered p h, All-IsNumbered parts hs)

-- A broadcast that was written part by part, fields of the sender, gifts and unknown fields in any order
-- and any number, is read as the broadcast that the parts give one after the other, every gift included.
pub parse_broadcast-write_message :
    (parts : List Part)
    → All IsPart parts
    → parse_broadcast (write_message part_field [] parts) ≡ some (broadcast_of parts)
unfolding parse_broadcast
parse_broadcast-write_message parts h =
    message_loop-write_message part_field apply_broadcast_field store_part IsPart
      apply_broadcast_field_lem empty_broadcast parts (All-IsNumbered parts h) h
