-- ===== src/Flv/Detector.antt =====
-- pkg/flv/header_change_detector.go: `HeaderChangeDetector`. The two scratch buffers hold nothing
-- between calls. A nil slice is `none` where the source tells nil from empty.
pub mod Stream
pub mod FirstChange
use bilirec.Prelude.{
  ℕ, zero, suc, ◌+◌, ◌-◌, Bool, true, false, ◌&&◌, Option, none, some, List, [], ◌∷◌, ◌++◌, ltb,
  leb, ◌==◌, if◌then◌else◌, length, take, drop, get_or,
}
use bilirec.Prelude.Bytes.{uint24, bytes_equal}
use bilirec.Flv.VideoTag.{classify_video_tag}
use bilirec.Flv.Tag.{put_uint32, is_aac_header, tag_type_audio, tag_type_video, flv_header_size}

pub record HeaderChangeDetector : Type 0 where
  pub last_video_header : Option (List ℕ)
  pub last_video_tag : Option (List ℕ)
  pub last_audio_header : Option (List ℕ)
  pub last_audio_tag : Option (List ℕ)
  pub pending : List ℕ

pub record FlvHeaderChangedError : Type 0 where
  pub video_header_tag : List ℕ
  pub audio_header_tag : Option (List ℕ)
  pub tag_offset : ℕ
  pub tag_end : ℕ

-- The detector after a check, and the error if there is one.
pub data Checked : Type 0 where
  same : HeaderChangeDetector → Checked
  changed : HeaderChangeDetector → FlvHeaderChangedError → Checked

-- `Reset`, also the state of `NewHeaderChangeDetector`.
unfoldable pub reset_detector : HeaderChangeDetector
reset_detector = record {
  last_video_header = none;
  last_video_tag = none;
  last_audio_header = none;
  last_audio_tag = none;
  pending = [];
}

-- `SeedVideoHeader`
unfoldable pub seed_video_header : HeaderChangeDetector → List ℕ → HeaderChangeDetector
seed_video_header d full_tag =
    let tag_data = take (length full_tag - 4 - 11) (drop 11 full_tag) in
    if leb (length full_tag) 15
    then d
    else if (classify_video_tag tag_data).is_header
    then record d { last_video_header = some tag_data; last_video_tag = some full_tag }
    else d

-- `tagWithPrevSize`
unfoldable pub tag_with_prev_size : List ℕ → List ℕ
tag_with_prev_size src = src ++ put_uint32 (length src)

-- `checkVideoHeader` at a sequence header.
compare_header : HeaderChangeDetector → List ℕ → List ℕ → ℕ → ℕ → Option (List ℕ) → Checked
compare_header d tag_data tag_bytes tag_offset tag_end none =
    same (record d { last_video_header = some tag_data; last_video_tag = some tag_bytes })
compare_header d tag_data tag_bytes tag_offset tag_end (some last) =
    if bytes_equal last tag_data
    then same d
    else changed (record d { last_video_header = some tag_data; last_video_tag = some tag_bytes })
        (record {
          video_header_tag = tag_bytes;
          audio_header_tag = d.last_audio_tag;
          tag_offset = tag_offset;
          tag_end = tag_end + 4;
        })

unfoldable pub check_video_header : HeaderChangeDetector → List ℕ → List ℕ → ℕ → ℕ → Checked
unfolding compare_header
check_video_header d tag_data tag_bytes tag_offset tag_end =
    if (classify_video_tag tag_data).is_header
    then compare_header d tag_data tag_bytes tag_offset tag_end d.last_video_header
    else same d

-- `checkAudioHeader`, which returns no error.
unfoldable pub check_audio_header : HeaderChangeDetector → List ℕ → List ℕ → HeaderChangeDetector
check_audio_header d tag_data tag_bytes =
    if is_aac_header tag_data
    then record d { last_audio_header = some tag_data; last_audio_tag = some tag_bytes }
    else d

-- The `switch` on the tag's type.
unfoldable pub check_tag : HeaderChangeDetector → ℕ → List ℕ → List ℕ → ℕ → ℕ → Checked
check_tag d tag_type tag_data tag_bytes tag_offset tag_end =
    if tag_type == tag_type_video
    then check_video_header d tag_data tag_bytes tag_offset tag_end
    else if tag_type == tag_type_audio
    then same (check_audio_header d tag_data tag_bytes)
    else same d

abbrev pub tag_size_at : List ℕ → ℕ
tag_size_at b = uint24 (get_or b 1 0) (get_or b 2 0) (get_or b 3 0)

-- Is a complete tag, with PreviousTagSize behind it, at the front of `buf[offset:]`.
unfoldable pub complete_tag : List ℕ → Bool
complete_tag b = ltb 11 (length b) && leb (tag_size_at b + 15) (length b)

-- `changed.TagOffset -= carryLen`, and 0 where that is negative.
abbrev pub shift_error : ℕ → FlvHeaderChangedError → FlvHeaderChangedError
shift_error carry e = record e { tag_offset = e.tag_offset - carry; tag_end = e.tag_end - carry }

-- One round of the loop at `buf[offset:]`, which starts with a complete tag.
unfoldable pub check_at : HeaderChangeDetector → ℕ → List ℕ → Checked
check_at d offset b =
    let size = tag_size_at b in
    check_tag d (get_or b 0 0) (take size (drop 11 b)) (tag_with_prev_size (take (11 + size) b))
      offset (offset + 11 + size)

-- The loop, at `buf[offset:]`, with what stands behind it.
detect_loop : ℕ → ℕ → HeaderChangeDetector → ℕ → List ℕ → Checked
detect_loop zero carry d offset b = same (record d { pending = b })
detect_loop (suc fuel) carry d offset b = elim (complete_tag b) [
  | false ↦ same (record d { pending = b })
  | true ↦ elim (check_at d offset b) [
    | changed d' e ↦ changed (record d' { pending = [] }) (shift_error carry e)
    | same d' ↦
        detect_loop fuel carry d' (offset + (tag_size_at b + 15)) (drop (tag_size_at b + 15) b)
  ]
]

-- Does the chunk start with a file header.
abbrev pub starts_file : List ℕ → Bool
starts_file b = leb flv_header_size (length b) && bytes_equal (take 3 b) (b'F' ∷ b'L' ∷ b'V' ∷ [])

detect_from : HeaderChangeDetector → List ℕ → List ℕ → Checked
detect_from d carried chunk =
    let buf = carried ++ chunk in
    let skip = if length carried == 0 && starts_file buf then 13 else 0 in
    detect_loop (length buf) (length carried) d skip (drop skip buf)

-- `DetectChange`. Every round takes fifteen bytes, so the buffer's length is enough fuel.
unfoldable pub detect_change : HeaderChangeDetector → List ℕ → Checked
unfolding detect_loop detect_from
detect_change d chunk = detect_from d d.pending chunk
