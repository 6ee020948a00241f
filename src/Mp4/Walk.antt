-- ===== src/Mp4/Walk.antt =====
-- The walk ends, and finds the box.
use bilirec.Prelude.{
  ℕ, zero, suc, ◌+◌, ◌-◌, ◌<◌, ◌≡◌, ◌≢◌, refl, sym, ap, ◌∙◌, subst, Bool, true, false, ◌||◌, Option,
  none, some, List, [], ◌∷◌, ◌++◌, if◌then◌else◌, if_true, if_false, if_cases, length, take, drop,
  All, ltb, leb, ltb→lt, ◌==◌, arith, append_assoc, length-append, drop-append_self,
}
use bilirec.Prelude.Words.{IsU32}
use bilirec.Flv.Tag.{put_uint32}
use bilirec.Hls.Boxes.{big_endian}
use bilirec.Mp4
use bilirec.Mp4.{
  Read, got, eof, failed, Box, walk_boxes, visit_box, has_top_level_box, after_header, fitting,
  box_header_len,
}

visit_has :
    (box_type offset : ℕ) (more : ℕ → Option (Read Bool)) (r : Read Box)
    → ((next : ℕ) → offset < next → more next ≢ none)
    → visit_box box_type offset more r ≢ none
unfolding visit_box
visit_has box_type offset more eof h e = cc
visit_has box_type offset more (failed x) h e = cc
visit_has box_type offset more (got box) h e =
    if_cases (λ (o : Option (Read Bool)). o ≢ none) (box.box_size == 0) (λ z e. cc)
      (λ z.
        if_cases (λ (o : Option (Read Bool)). o ≢ none) (box.typ == box_type) (λ t e. cc)
          (λ t.
            if_cases (λ (o : Option (Read Bool)). o ≢ none) (leb (offset + box.box_size) offset)
              (λ l e. cc) (λ l. h (offset + box.box_size) (ground arith))))
      e

module _ (read_at : ℕ → ℕ → Read (List ℕ)) (size : ℕ) where
  -- The loop has a result while its fuel is more than what is left of the file.
  walk_enough :
      (fuel box_type offset : ℕ)
      → size - offset < fuel
      → walk_boxes read_at size fuel box_type offset ≢ none
  unfolding walk_boxes
  walk_enough zero box_type offset h = absurd (omega arith)
  walk_enough (suc fuel) box_type offset h =
      if_cases (λ (o : Option (Read Bool)). o ≢ none) (ltb offset size)
        (λ inside.
          visit_has box_type offset (walk_boxes read_at size fuel box_type)
            (Mp4.read_box_header read_at size offset)
            (λ next further.
              walk_enough fuel box_type next (omega (arith, ltb→lt offset size inside))))
        (λ over e. cc)

  -- The walk ends on every file, however its bytes look and whatever the reads answer.
  pub has_top_level_box_ends : (box_type : ℕ) → has_top_level_box read_at size box_type ≢ none
  unfolding has_top_level_box
  has_top_level_box_ends box_type =
      if_cases (λ (o : Option (Read Bool)). o ≢ none) (ltb size box_header_len) (λ e x. cc)
        (λ e. walk_enough (suc size) box_type 0 (omega arith))

-- A file in memory.
unfoldable pub read_bytes_at : List ℕ → ℕ → ℕ → Read (List ℕ)
read_bytes_at file offset n =
    if leb (offset + n) (length file) then got (take n (drop offset file)) else eof

-- A box with a size of 32 bits, and a file of such boxes.
pub record TopBox : Type 0 where
  pub typ : ℕ
  pub payload : List ℕ

abbrev pub IsTopBox : TopBox → Type 0
IsTopBox b = IsU32 b.typ × IsU32 (8 + length b.payload)

abbrev pub box_bytes : TopBox → List ℕ
box_bytes b = put_uint32 (8 + length b.payload) ++ (put_uint32 b.typ ++ b.payload)

abbrev pub file_of : List TopBox → List ℕ
file_of [] = []
file_of (b ∷ bs) = box_bytes b ++ file_of bs

abbrev pub has_type : ℕ → List TopBox → Bool
has_type t [] = false
has_type t (b ∷ bs) = b.typ == t || has_type t bs

big_endian-put_uint32 : (v : ℕ) → IsU32 v → big_endian (put_uint32 v) ≡ v
unfolding big_endian
big_endian-put_uint32 v h = omega arith

module _ (front : List ℕ) (b : TopBox) (back : List ℕ) (h : IsTopBox b) where
  whole : List ℕ
  whole = front ++ (box_bytes b ++ back)

  length-whole : length whole ≡ length front + (8 + length b.payload) + length back
  unfolding whole
  length-whole =
      omega (arith, length-append front (box_bytes b ++ back), length-append (box_bytes b) back)

  decodes :
      after_header
        (read_bytes_at whole)
        (length whole)
        (length front)
        (got (put_uint32 (8 + length b.payload) ++ put_uint32 b.typ))
      ≡ got (record { box_size = 8 + length b.payload; typ = b.typ })
  unfolding after_header fitting
  decodes =
      rw (big_endian-put_uint32 b.typ h.0)
        (rw (big_endian-put_uint32 (8 + length b.payload) h.1) (ground (arith, length-whole)))

  reads_whole :
      Mp4.read_box_header (read_bytes_at whole) (length whole) (length front)
      ≡ got (record { box_size = 8 + length b.payload; typ = b.typ })
  unfolding Mp4.read_box_header after_header read_bytes_at fitting
  reads_whole =
      let hdr : List ℕ = put_uint32 (8 + length b.payload) ++ put_uint32 b.typ in
      let enough : ltb (length whole) (length front + 8) ≡ false = ground (arith, length-whole) in
      let there : leb (length front + 8) (length whole) ≡ true = ground (arith, length-whole) in
      let found : take 8 (drop (length front) whole) ≡ hdr =
        unfold whole in ap (take 8) (drop-append_self front (box_bytes b ++ back)) in
      if_false _ _ enough
      ∙ ap (after_header (read_bytes_at whole) (length whole) (length front))
          (if_true _ _ there ∙ ap got found)
      ∙ decodes

walk_inside :
    (file : List ℕ) (fuel box_type offset : ℕ) (r : Read Box)
    → ltb offset (length file) ≡ true
    → Mp4.read_box_header (read_bytes_at file) (length file) offset ≡ r
    → walk_boxes (read_bytes_at file) (length file) (suc fuel) box_type offset
      ≡ visit_box box_type offset (walk_boxes (read_bytes_at file) (length file) fuel box_type) r
unfolding walk_boxes
walk_inside file fuel box_type offset r inside e =
    if_true _ _ inside
    ∙ ap (visit_box box_type offset (walk_boxes (read_bytes_at file) (length file) fuel box_type)) e

visit_lem :
    (file : List ℕ) (fuel box_type offset : ℕ) (b : TopBox)
    → visit_box box_type offset
        (walk_boxes (read_bytes_at file) (length file) fuel box_type)
        (got (record { box_size = 8 + length b.payload; typ = b.typ }))
      ≡ (if b.typ == box_type
          then some (got true)
          else walk_boxes
              (read_bytes_at file)
              (length file)
              fuel
              box_type
              (offset + (8 + length b.payload)))
unfolding visit_box
visit_lem file fuel box_type offset b = ground arith

-- The loop at the offset behind `front`, with the boxes `bs` still to come.
walk_from :
    (bs : List TopBox) (front file : List ℕ) (fuel box_type : ℕ)
    → file ≡ front ++ file_of bs
    → All IsTopBox bs
    → length (file_of bs) < fuel
    → walk_boxes (read_bytes_at file) (length file) fuel box_type (length front)
      ≡ some (got (has_type box_type bs))
unfolding whole
walk_from bs front file zero box_type e h enough = absurd (omega arith)
walk_from [] front file (suc fuel) box_type e h enough =
    unfold walk_boxes in
    let over : ltb (length front) (length file) ≡ false =
      ground (arith, ap length e, length-append front []) in
    if_false _ _ over
walk_from (b ∷ bs) front file (suc fuel) box_type e (hb, h) enough =
    let read =
      subst
        (λ (f : List ℕ).
          Mp4.read_box_header (read_bytes_at f) (length f) (length front)
          ≡ got (record { box_size = 8 + length b.payload; typ = b.typ }))
        (sym e) (reads_whole front b (file_of bs) hb) in
    let size : length (box_bytes b) ≡ 8 + length b.payload = omega arith in
    let inside : ltb (length front) (length file) ≡ true = ground (
      arith,
      ap length e,
      length-append front (file_of (b ∷ bs)),
      length-append (box_bytes b) (file_of bs),
    ) in
    let next : length (front ++ box_bytes b) ≡ length front + (8 + length b.payload) =
      omega (arith, length-append front (box_bytes b), size) in
    let rest =
      walk_from bs (front ++ box_bytes b) file fuel box_type
        (e ∙ sym (append_assoc front (box_bytes b) (file_of bs))) h
        (omega (arith, length-append (box_bytes b) (file_of bs))) in
    walk_inside file fuel box_type (length front) _ inside read
    ∙ visit_lem file fuel box_type (length front) b
    ∙ if_cases (λ (o : Option (Read Bool)). o ≡ some (got (has_type box_type (b ∷ bs))))
        (b.typ == box_type) (λ this. rw this refl)
        (λ other.
          ap (walk_boxes (read_bytes_at file) (length file) fuel box_type) (sym next)
          ∙ rest
          ∙ rw other refl)

-- In a file that is a row of boxes of less than 4 GiB the box is found exactly if one of them has the type.
pub has_top_level_box-file_of :
    (bs : List TopBox) (box_type : ℕ)
    → All IsTopBox bs
    → has_top_level_box (read_bytes_at (file_of bs)) (length (file_of bs)) box_type
      ≡ some (got (has_type box_type bs))
unfolding has_top_level_box
has_top_level_box-file_of [] box_type h = refl
has_top_level_box-file_of (b ∷ bs) box_type h =
    let enough : ltb (length (file_of (b ∷ bs))) box_header_len ≡ false =
      ground (arith, length-append (box_bytes b) (file_of bs)) in
    if_false _ _ enough
    ∙ walk_from (b ∷ bs) [] (file_of (b ∷ bs)) (suc (length (file_of (b ∷ bs)))) box_type refl h
        (omega arith)
