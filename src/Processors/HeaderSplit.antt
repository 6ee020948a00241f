-- ===== src/Processors/HeaderSplit.antt =====
-- internal/processors/flv_header_split_detector.go: a segment of an FLV recording ends where the video
-- sequence header changes. The log line is left out.
use bilirec.Prelude.{
  ℕ, ◌+◌, ◌-◌, ◌<◌, ◌≡◌, ◌⊎◌, refl, sym, ap, ◌∙◌, subst, inl, inr, true, false, Option, none, some,
  List, [], ◌∷◌, ◌++◌, if◌then◌else◌, if_true, if_false, length, take, drop, All, leb, ◌==◌, arith,
  append_assoc, length-append, take-append_self, drop-append_self,
}
use bilirec.Flv.VideoTag.{classify_video_tag}
use bilirec.Flv.Tag.{Tag, write_tag, tag_header, put_uint32}
use bilirec.Flv.Realtime.Framing.{IsWritable, write_all}
use bilirec.Flv.Detector.{
  HeaderChangeDetector, FlvHeaderChangedError, Checked, same, changed, detect_change,
  reset_detector, seed_video_header, starts_file,
}
use bilirec.Flv.Detector.Stream.{length-write_tag}
use bilirec.Flv.Detector.FirstChange.{IsHeaderTag, Quiet, Stopped, detect_change_cases}

pub record FlvHeaderSplitDetector : Type 0 where
  pub detector : HeaderChangeDetector
  pub seed_video_header : List ℕ

-- `Open`
unfoldable pub open_split : FlvHeaderSplitDetector → FlvHeaderSplitDetector
unfolding seed_video_header
open_split p = record p {
  detector =
      if length p.seed_video_header == 0
      then reset_detector
      else bilirec.Flv.Detector.seed_video_header reset_detector p.seed_video_header;
}

-- The bytes returned and the error, if any; `none` is nil.
pub record SplitResult : Type 0 where
  pub bytes : Option (List ℕ)
  pub error : Option FlvHeaderChangedError

unfoldable pub carried : ℕ → List ℕ → Option (List ℕ)
carried tag_end bytes =
    let after = drop tag_end bytes in
    if leb tag_end (length bytes)
    then if length after == 0 then none else some (0 ∷ 0 ∷ 0 ∷ 0 ∷ after)
    else none

unfoldable pub split_result :
    FlvHeaderSplitDetector → List ℕ → Checked → FlvHeaderSplitDetector × SplitResult
unfolding carried
split_result p bytes (same d) =
    (record p { detector = d }, record { bytes = some bytes; error = none })
split_result p bytes (changed d e) =
    (record p { detector = d }, record { bytes = carried e.tag_end bytes; error = some e })

-- `Process`
unfoldable pub process_split :
    FlvHeaderSplitDetector → List ℕ → FlvHeaderSplitDetector × SplitResult
unfolding split_result
process_split p bytes =
    if length bytes == 0
    then (p, record { bytes = some bytes; error = none })
    else split_result p bytes (detect_change p.detector bytes)

write_all-append : (ts us : List Tag) → write_all (ts ++ us) ≡ write_all ts ++ write_all us
write_all-append [] us = refl
write_all-append (t ∷ ts) us =
    ap (λ (b : List ℕ). write_tag t ++ b) (write_all-append ts us)
    ∙ sym (append_assoc (write_tag t) (write_all ts) (write_all us))

-- What a segment that ends in front of the tags `post` hands to the next one.
abbrev pub replay : List Tag → Option (List ℕ)
replay [] = none
replay (t ∷ post) = some (put_uint32 0 ++ write_all (t ∷ post))

carried-append :
    (front back : List ℕ)
    → carried (length front) (front ++ back)
      ≡ (if length back == 0 then none else some (put_uint32 0 ++ back))
unfolding carried
carried-append front back =
    let fits : leb (length front) (length (front ++ back)) ≡ true =
      rw length-append (ground arith) in
    if_true _ none fits ∙ rw (drop-append_self front back) refl

replay_lem :
    (post : List Tag)
    → All IsWritable post
    → (if length (write_all post) == 0 then none else some (put_uint32 0 ++ write_all post))
      ≡ replay post
replay_lem [] h = refl
replay_lem (t ∷ post) (w, h) =
    let more : (length (write_all (t ∷ post)) == 0) ≡ false =
      let some_tag = length-write_tag t [] w in rw length-append (ground (arith, some_tag)) in
    if_false none _ more

module _ (pre : List Tag) (t : Tag) (post : List Tag) where
  front : List ℕ
  front = write_all pre ++ write_tag t

  carried-write_all :
      (tag_end : ℕ)
      → tag_end ≡ length (write_all pre) + length (write_tag t)
      → All IsWritable post
      → carried tag_end (write_all (pre ++ t ∷ post)) ≡ replay post
  unfolding front
  carried-write_all tag_end e h =
      let ends : tag_end ≡ length front =
        omega (arith, length-append (write_all pre) (write_tag t)) in
      let split : write_all (pre ++ t ∷ post) ≡ front ++ write_all post =
        write_all-append pre (t ∷ post)
        ∙ sym (append_assoc (write_all pre) (write_tag t) (write_all post)) in
      rw (ends, split) (carried-append front (write_all post)) ∙ replay_lem post h

-- A detector that is seeded with a header tag knows the header.
header_bytes : (b : List ℕ) → (classify_video_tag b).is_header ≡ true → 0 < length b
unfolding classify_video_tag
header_bytes [] h = cc
header_bytes (x ∷ b) h = omega arith

All-behind :
    (pre : List Tag) (t : Tag) (post : List Tag)
    → All IsWritable (pre ++ t ∷ post)
    → IsWritable t × All IsWritable post
All-behind [] t post h = h
All-behind (p ∷ pre) t post (w, h) = All-behind pre t post h

seed_knows :
    (t : Tag)
    → IsWritable t
    → IsHeaderTag t
    → (seed_video_header reset_detector (write_tag t)).last_video_header ≡ some t.payload
unfolding seed_video_header write_tag tag_header
seed_knows t w (video, header) =
    let full = write_tag t in
    let size : length full - 4 - 11 ≡ length t.payload = omega (arith, length-write_tag t [] w) in
    let tag_data : take (length full - 4 - 11) (drop 11 full) ≡ t.payload =
      ap (λ (n : ℕ). take n (drop 11 full)) size
      ∙ take-append_self t.payload (put_uint32 (11 + length t.payload)) in
    let long : leb (length full) 15 ≡ false =
      ground (arith, length-write_tag t [] w, header_bytes t.payload header) in
    let is_one : (classify_video_tag (take (length full - 4 - 11) (drop 11 full))).is_header
        ≡ true =
      ap (λ (b : List ℕ). (classify_video_tag b).is_header) tag_data ∙ header in
    ap (λ (d : HeaderChangeDetector). d.last_video_header) (if_false _ _ long ∙ if_true _ _ is_one)
    ∙ ap some tag_data

-- Whole tags that do not start like a file go through a splitter with nothing carried over. Either the
-- bytes are passed on, and every video sequence header among them is the one remembered then; or the
-- segment ends at the first header that differs from the one before it: the bytes returned for the next
-- segment are four zeros and exactly the tags behind that header, or nothing where there are none, and a
-- detector seeded with the header tag of the error knows the new header.
pub process_split-write_all :
    (p : FlvHeaderSplitDetector) (ts : List Tag)
    → p.detector.pending ≡ []
    → All IsWritable ts
    → starts_file (write_all ts) ≡ false
    → (length (write_all ts) == 0) ≡ false
    → ((d : HeaderChangeDetector) × (process_split p (write_all ts)
          ≡ (record p { detector = d }, record { bytes = some (write_all ts); error = none }))
        × Quiet p.detector d ts)
      ⊎ ((d : HeaderChangeDetector) × (e : FlvHeaderChangedError) × (pre : List Tag) × (t : Tag)
          × (post : List Tag) × (process_split p (write_all ts)
              ≡ (record p { detector = d }, record { bytes = replay post; error = some e }))
          × Stopped p.detector e 0 ts pre t post
          × ((seed_video_header reset_detector e.video_header_tag).last_video_header
              ≡ some t.payload))
unfolding process_split split_result
process_split-write_all p ts nothing h no_file some_bytes =
    elim (detect_change_cases p.detector ts nothing h no_file) [
      | inl (d, e, quiet) ↦
          inl (d, if_false _ _ some_bytes ∙ ap (split_result p (write_all ts)) e, quiet)
      | inr (d, x, pre, t, post, e, stop) ↦
          let (w, hs) = All-behind pre t post (subst (All IsWritable) stop.split h) in
          inr (
            d,
            x,
            pre,
            t,
            post,
            if_false _ _ some_bytes
                ∙ ap (split_result p (write_all ts)) e
                ∙ ap
                    (λ (b : Option (List ℕ)).
                      (record p { detector = d }, record { bytes = b; error = some x }))
                    (ap (λ (l : List Tag). carried x.tag_end (write_all l)) stop.split
                      ∙ carried-write_all pre t post x.tag_end (omega (arith, stop.ends)) hs),
            stop,
            ap (λ (b : List ℕ). (seed_video_header reset_detector b).last_video_header)
                  stop.tag_bytes
                ∙ seed_knows t w stop.new_header,
          )
    ]
