-- ===== src/Danmaku/GiftPb/Items.antt =====
-- What `parseSendGiftV2Item` makes of the fields that an item was written with.
use mathlib.Core.List.{foldl}
use bilirec.Prelude.{
  ℕ, Bool, false, ◌||◌, some, List, [], ◌++◌, if◌then◌else◌, ◌==◌, ◌≡◌, arith, All,
}
use bilirec.Wire.Varints.{read_varint-sevens}
use bilirec.Wire.Fields.{
  Field, varint_field, bool_field, bytes_field, fixed64_field, fixed32_field, wire_type, IsField,
  payload, skip_field_lem, read_bytes_lem,
}
use bilirec.Danmaku.GiftPb.{
  SendGiftV2Item, empty_item, store_read, skipped, apply_item_field, parse_item,
}
use bilirec.Danmaku.GiftPb.Messages.{IsNumbered, write_message, message_loop-write_message}

-- The numbers of the fields of an item that are read as numbers and as strings.
abbrev is_item_number : ℕ → Bool
is_item_number n = n == 1 || n == 3 || n == 4 || n == 5 || n == 7 || n == 10

abbrev is_item_string : ℕ → Bool
is_item_string n = n == 2 || n == 8 || n == 9 || n == 18

abbrev pub IsItemField : ℕ × Field → Type 0
IsItemField (n, varint_field v) = is_item_string n ≡ false
IsItemField (n, bytes_field b) = is_item_number n ≡ false
IsItemField (n, f) = (is_item_number n || is_item_string n) ≡ false

-- What a field of an item means: a later field replaces an earlier one.
abbrev pub store_item : SendGiftV2Item → ℕ × Field → SendGiftV2Item
store_item i (n, varint_field v) =
    if n == 1
    then record i { gift_id = v }
    else if n == 3
    then record i { num = v }
    else if n == 4
    then record i { gift_type = v }
    else if n == 5
    then record i { price = v }
    else if n == 7
    then record i { total_coin = v }
    else if n == 10
    then record i { timestamp = v }
    else i
store_item i (n, bytes_field b) =
    if n == 2
    then record i { gift_name = b }
    else if n == 8
    then record i { coin_type = b }
    else if n == 9
    then record i { tid = b }
    else if n == 18
    then record i { action = b }
    else i
store_item i (n, f) = i

abbrev pub item_of : List (ℕ × Field) → SendGiftV2Item
item_of = foldl store_item empty_item

apply_item_field_lem :
    (out : SendGiftV2Item) (n : ℕ) (f : Field) (rest : List ℕ)
    → IsField f
    → IsItemField (n, f)
    → apply_item_field out (payload f ++ rest) n (wire_type f) ≡ some (store_item out (n, f), rest)
unfolding apply_item_field store_read skipped
apply_item_field_lem out n (varint_field v) rest hf k =
    rw (skip_field_lem (varint_field v) rest hf) (rw (read_varint-sevens v rest hf) (ground arith))
apply_item_field_lem out n (bytes_field v) rest hf k =
    rw (skip_field_lem (bytes_field v) rest hf) (rw (read_bytes_lem v rest hf) (ground arith))
apply_item_field_lem out n (bool_field v) rest hf k =
    rw (skip_field_lem (bool_field v) rest hf) (ground arith)
apply_item_field_lem out n (fixed64_field v) rest hf k =
    rw (skip_field_lem (fixed64_field v) rest hf) (ground arith)
apply_item_field_lem out n (fixed32_field v) rest hf k =
    rw (skip_field_lem (fixed32_field v) rest hf) (ground arith)

-- A written item of fields of the right kinds, in any order and any number, is read as the item that the
-- fields give one after the other.
pub parse_item-write_message :
    (fields : List (ℕ × Field))
    → All IsNumbered fields
    → All IsItemField fields
    → parse_item (write_message (λ p. p) [] fields) ≡ some (item_of fields)
unfolding parse_item
parse_item-write_message fields h k =
    message_loop-write_message (λ p. p) apply_item_field store_item IsItemField
      (λ out p. apply_item_field_lem out p.0 p.1) empty_item fields h k
