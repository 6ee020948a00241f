-- ===== src/Wire/Reader.antt =====
-- pkg/protowire/reader.go.
use Prim.Native.Nat.{◌^◌}
use bilirec.Prelude.{
  ℕ, zero, suc, ◌+◌, ◌*◌, ◌/◌, ◌%◌, bit_and, bit_or, Bool, true, false, not, Option, none, some,
  List, [], ◌∷◌, if◌then◌else◌, length, take, drop, ltb, ◌==◌,
}
use bilirec.Wire.Writer.{wire_varint, wire_fixed64, wire_bytes, wire_fixed32}

-- `result |= uint64(b&0x7f) << shift`
unfoldable pub add_group : ℕ → ℕ → ℕ → ℕ
add_group result b shift = bit_or result (bit_and b 0x7f * 2 ^ shift % 0x1_0000_0000_0000_0000)

-- The loop of `ReadVarint`, from the round that has `rounds` left. A read that fails keeps what it took.
unfoldable pub read_varint_loop : ℕ → List ℕ → ℕ → ℕ → Option ℕ × List ℕ
unfolding add_group
read_varint_loop zero r result shift = (none, r)
read_varint_loop (suc rounds) [] result shift = (none, [])
read_varint_loop (suc rounds) (b ∷ r) result shift =
    let next = add_group result b shift in
    let more = read_varint_loop rounds r next (shift + 7) in
    if bit_and b 0x80 == 0 then (some next, r) else more

unfoldable pub read_varint : List ℕ → Option ℕ × List ℕ
read_varint r = read_varint_loop 10 r 0 0

unfoldable pub tag_of : Option ℕ × List ℕ → Option (ℕ × ℕ) × List ℕ
tag_of (none, r) = (none, r)
tag_of (some tag, r) = (some (tag / 8, bit_and tag 7), r)

unfoldable pub try_read_tag : List ℕ → Option (ℕ × ℕ) × List ℕ
unfolding read_varint tag_of
try_read_tag [] = (none, [])
try_read_tag (b ∷ r) = tag_of (read_varint (b ∷ r))

unfoldable pub bool_of : Option ℕ × List ℕ → Option Bool × List ℕ
bool_of (none, r) = (none, r)
bool_of (some v, r) = (some (not (v == 0)), r)

unfoldable pub read_bool : List ℕ → Option Bool × List ℕ
unfolding read_varint bool_of
read_bool r = bool_of (read_varint r)

unfoldable pub take_bytes : Option ℕ × List ℕ → Option (List ℕ) × List ℕ
take_bytes (none, r) = (none, r)
take_bytes (some n, r) = if ltb (length r) n then (none, r) else (some (take n r), drop n r)

-- `ReadBytes`, and `ReadString` on the bytes of the string
unfoldable pub read_bytes : List ℕ → Option (List ℕ) × List ℕ
unfolding read_varint take_bytes
read_bytes r = take_bytes (read_varint r)

unfoldable pub is_ok {ℓ} : {A : Type ℓ} → Option A × List ℕ → Bool × List ℕ
is_ok (none, r) = (false, r)
is_ok (some a, r) = (true, r)

-- `if r.Remaining() < n { return false }; r.pos += n; return true`
unfoldable pub skip_bytes : ℕ → List ℕ → Bool × List ℕ
skip_bytes n r = if ltb (length r) n then (false, r) else (true, drop n r)

unfoldable pub skip_field : ℕ → List ℕ → Bool × List ℕ
unfolding is_ok skip_bytes read_varint read_bytes
skip_field wire_type r =
    if wire_type == wire_varint
    then is_ok (read_varint r)
    else if wire_type == wire_fixed64
    then skip_bytes 8 r
    else if wire_type == wire_bytes
    then is_ok (read_bytes r)
    else if wire_type == wire_fixed32
    then skip_bytes 4 r
    else (false, r)
