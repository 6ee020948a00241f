-- ===== src/Mp4.antt =====
-- pkg/mp4/box.go: the walk over the top-level boxes of a file. The file is behind an `io.ReaderAt`, a
-- parameter: it answers a read of `n` bytes at an offset with the bytes, with the end of the file, or with
-- another error. Sizes are int64 and not negative, and a sum of two does not leave 64 bits.
pub mod Walk
use bilirec.Prelude.{
  ℕ, zero, suc, ◌+◌, ◌-◌, Bool, true, false, ◌||◌, Option, none, some, List, [], ◌∷◌, if◌then◌else◌,
  length, take, drop, ltb, leb, ◌==◌,
}
use bilirec.Hls.Boxes.{big_endian}

abbrev pub box_header_len : ℕ
box_header_len = 8

abbrev pub box_header_len64 : ℕ
box_header_len64 = 16

abbrev pub box_size_use64 : ℕ
box_size_use64 = 1

abbrev pub box_size_until_eof : ℕ
box_size_until_eof = 0

abbrev pub box_type_moov : ℕ
box_type_moov = 0x6d6f6f76

-- An error of a read other than the end of the file has a number.
pub data Read {ℓ} (A : Type ℓ) : Type ℓ where
  got : A → Read A
  eof : Read A
  failed : ℕ → Read A

-- The size of a box, 0 for a malformed one, and its type.
pub record Box : Type 0 where
  pub box_size : ℕ
  pub typ : ℕ

-- The checks at the end of `readBoxHeader`.
unfoldable pub fitting : ℕ → ℕ → ℕ → ℕ → Box
fitting size typ header_len remain =
    if ltb size header_len || ltb remain size
    then record { box_size = 0; typ = 0 }
    else record { box_size = size; typ = typ }

unfoldable pub read_large : Read (List ℕ) → ℕ → ℕ → Read Box
unfolding fitting big_endian
read_large (got large) typ remain = got (fitting (big_endian large) typ box_header_len64 remain)
read_large eof typ remain = eof
read_large (failed e) typ remain = failed e

-- A round of the loop of `HasTopLevelBox` behind the read; `more` is the loop from the next offset.
unfoldable pub visit_box : ℕ → ℕ → (ℕ → Option (Read Bool)) → Read Box → Option (Read Bool)
visit_box box_type offset more eof = some (got false)
visit_box box_type offset more (failed e) = some (failed e)
visit_box box_type offset more (got box) =
    let next = offset + box.box_size in
    if box.box_size == 0
    then some (got false)
    else if box.typ == box_type
    then some (got true)
    else if leb next offset
    then some (got false)
    else more next

module _ (read_at : ℕ → ℕ → Read (List ℕ)) (size : ℕ) where
  unfoldable pub after_header : ℕ → Read (List ℕ) → Read Box
  unfolding read_large fitting big_endian
  after_header offset eof = eof
  after_header offset (failed e) = failed e
  after_header offset (got hdr) =
      let size32 = big_endian (take 4 hdr) in
      let typ = big_endian (drop 4 hdr) in
      let large = read_large (read_at (offset + 8) 8) typ (size - offset) in
      if size32 == box_size_until_eof
      then got (fitting (size - offset) typ box_header_len (size - offset))
      else if size32 == box_size_use64
      then if ltb size (offset + box_header_len64) then eof else large
      else got (fitting size32 typ box_header_len (size - offset))

  unfoldable pub read_box_header : ℕ → Read Box
  unfolding after_header
  read_box_header offset =
      if ltb size (offset + box_header_len)
      then eof
      else after_header offset (read_at offset box_header_len)

  -- The loop of `HasTopLevelBox`; `none` is no Go value: the fuel is used up.
  unfoldable pub walk_boxes : ℕ → ℕ → ℕ → Option (Read Bool)
  unfolding read_box_header visit_box
  walk_boxes zero box_type offset = none
  walk_boxes (suc fuel) box_type offset =
      if ltb offset size
      then visit_box box_type offset (walk_boxes fuel box_type) (read_box_header offset)
      else some (got false)

  unfoldable pub has_top_level_box : ℕ → Option (Read Bool)
  unfolding walk_boxes
  has_top_level_box box_type =
      if ltb size box_header_len then some (got false) else walk_boxes (suc size) box_type 0
