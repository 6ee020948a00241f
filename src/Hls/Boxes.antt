-- ===== src/Hls/Boxes.antt =====
-- pkg/hls/fmp4_fragment.go: the headers of MP4 boxes in a segment. `int` has 64 bits.
use bilirec.Prelude.{
  ℕ, ◌+◌, ◌-◌, ◌*◌, ◌||◌, Option, none, some, List, [], ◌∷◌, if◌then◌else◌, length, take, drop, ltb,
  ◌==◌,
}

-- `binary.BigEndian.Uint32` and `Uint64`: the number that bytes spell.
unfoldable pub big_endian_from : ℕ → List ℕ → ℕ
big_endian_from n [] = n
big_endian_from n (b ∷ bs) = big_endian_from (n * 256 + b) bs

unfoldable pub big_endian : List ℕ → ℕ
unfolding big_endian_from
big_endian bs = big_endian_from 0 bs

-- `data[offset : offset+n]` as a number
unfoldable pub uint_at : List ℕ → ℕ → ℕ → ℕ
unfolding big_endian
uint_at bytes offset n = big_endian (take n (drop offset bytes))

pub record BoxHeader : Type 0 where
  pub size : ℕ
  pub box_type : ℕ
  pub header_len : ℕ

-- The last check: the box has room for its header and ends within the data.
unfoldable pub within : ℕ → BoxHeader → Option BoxHeader
within room h = if ltb h.size h.header_len || ltb room h.size then none else some h

-- `readBoxHeaderCode`, and `ReadBoxHeader`, which spells the type out.
unfoldable pub read_box_header : List ℕ → ℕ → Option BoxHeader
unfolding uint_at within
read_box_header bytes offset =
    let size32 = uint_at bytes offset 4 in
    let box_type = uint_at bytes (offset + 4) 4 in
    let size64 = uint_at bytes (offset + 8) 8 in
    let room = length bytes - offset in
    if ltb (length bytes) (offset + 8)
    then none
    else if size32 == 0
    then within room (record { size = room; box_type = box_type; header_len = 8 })
    else if size32 == 1
    then if ltb (length bytes) (offset + 16) || ltb room size64
      then none
      else within room (record { size = size64; box_type = box_type; header_len = 16 })
    else within room (record { size = size32; box_type = box_type; header_len = 8 })
