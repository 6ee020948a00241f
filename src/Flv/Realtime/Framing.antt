-- ===== src/Flv/Realtime/Framing.antt =====
-- The parsing loop on the bytes of written tags.
use bilirec.Prelude.{
  ℕ, suc, ◌+◌, ◌<◌, ◌≡◌, refl, ap, ◌∙◌, Bool, false, none, some, List, [], ◌∷◌, ◌++◌, ◌==◌,
  if◌then◌else◌, length, drop, map, All, arith, append_assoc, length-append, take-append_self,
  drop-append_self,
}
use bilirec.Prelude.Words.{IsU32}
use bilirec.Prelude.Bytes.{uint24, uint32_be, byte_at}
use bilirec.Flv.VideoTag.{classify_video_tag}
use bilirec.Flv.Tag.{
  Tag, tag_header, write_tag, put_uint32, make_tag, is_aac_header, tag_type_video, tag_type_audio,
}
use bilirec.Flv.Tag.RoundTrip.{uint24-byte_at, uint32_be-byte_at}
use bilirec.Flv.Realtime.{Scan, scan_tag, scan, parse_tag, tag_at}
use bilirec.Flv.Realtime.Parsing.{scan_more, scan_end}

-- The fields fit their places in the header.
pub record IsWritable (t : Tag) : Type 0 where
  pub size_matches : t.data_size ≡ length t.payload
  pub size_fits : length t.payload < 16777216
  pub time_word : IsU32 t.timestamp

-- The tag with its flags as the fixer detects them.
abbrev pub detect : Tag → Tag
detect t = record t {
  is_header =
      if t.type == tag_type_video
      then (classify_video_tag t.payload).is_header
      else if t.type == tag_type_audio
      then is_aac_header t.payload
      else false;
  is_keyframe =
      if t.type == tag_type_video then (classify_video_tag t.payload).is_keyframe else false;
}

fifteen :
    (n : ℕ)
    → 15 + n
      ≡ suc (suc (suc (suc (suc (suc (suc (suc (suc (suc (suc (suc (suc (suc (suc n))))))))))))))
fifteen n = omega arith

module _ (p0 p1 p2 p3 h0 h1 h2 h3 h4 h5 h6 h7 h8 h9 h10 : ℕ) (payload more : List ℕ) where
  abbrev framed : List ℕ
  framed =
      p0 ∷ p1 ∷ p2 ∷ p3 ∷ h0 ∷ h1 ∷ h2 ∷ h3 ∷ h4 ∷ h5 ∷ h6 ∷ h7 ∷ h8 ∷ h9 ∷ h10 ∷ (payload ++ more)

  drop-framed : drop (15 + length payload) framed ≡ more
  drop-framed = rw (fifteen (length payload)) (drop-append_self payload more)

  -- The fifteen bytes and the data are taken apart again.
  parse_tag-framed :
      uint24 h1 h2 h3 ≡ length payload
      → parse_tag framed ≡ some (make_tag h0 h1 h2 h3 h4 h5 h6 h7 h8 h9 h10 payload, more)
  unfolding parse_tag tag_at
  parse_tag-framed size =
      rw size
        (ground (arith, drop-framed, take-append_self payload more, length-append payload more))

-- The tag behind any four bytes is read back as it was written.
parse_tag-tag_header :
    (prev : ℕ) (t : Tag) (more : List ℕ)
    → IsWritable t
    → parse_tag (put_uint32 prev ++ (tag_header t ++ (t.payload ++ more))) ≡ some (detect t, more)
unfolding tag_header make_tag
parse_tag-tag_header prev t more w =
    let size : uint24 (byte_at t.data_size 2) (byte_at t.data_size 1) (byte_at t.data_size 0)
        ≡ t.data_size =
      uint24-byte_at t.data_size (omega (arith, w)) in
    let time : uint32_be (byte_at t.timestamp 3) (byte_at t.timestamp 2) (byte_at t.timestamp 1)
          (byte_at t.timestamp 0)
        ≡ t.timestamp =
      uint32_be-byte_at t.timestamp w.time_word in
    parse_tag-framed (byte_at prev 3) (byte_at prev 2) (byte_at prev 1) (byte_at prev 0) t.type
      (byte_at t.data_size 2) (byte_at t.data_size 1) (byte_at t.data_size 0)
      (byte_at t.timestamp 2) (byte_at t.timestamp 1) (byte_at t.timestamp 0)
      (byte_at t.timestamp 3) t.stream_id.s0 t.stream_id.s1 t.stream_id.s2 t.payload more
      (size ∙ w.size_matches)
    ∙ rw (size, time)

-- The bytes of several tags, and PreviousTagSize behind them.
abbrev pub write_all : List Tag → List ℕ
write_all [] = []
write_all (t ∷ ts) = write_tag t ++ write_all ts

unfoldable pub last_size : ℕ → List Tag → ℕ
last_size prev [] = prev
last_size prev (t ∷ ts) = last_size (11 + length t.payload) ts

unfoldable pub scan_tags : Bool → Scan → List Tag → Scan
scan_tags rotation s [] = s
scan_tags rotation s (t ∷ ts) = scan_tags rotation (scan_tag rotation s t) ts

parse_tag-put_uint32 : (prev : ℕ) → parse_tag (put_uint32 prev) ≡ none
unfolding parse_tag
parse_tag-put_uint32 prev = refl

regroup :
    (t : Tag) (more : List ℕ)
    → write_tag t ++ more
      ≡ tag_header t ++ (t.payload ++ (put_uint32 (11 + length t.payload) ++ more))
unfolding write_tag
regroup t more =
    append_assoc (tag_header t) (t.payload ++ put_uint32 (11 + length t.payload)) more
    ∙ ap (λ (x : List ℕ). tag_header t ++ x)
        (append_assoc t.payload (put_uint32 (11 + length t.payload)) more)

pub scan-write_all :
    (rotation : Bool) (s : Scan) (prev : ℕ) (ts : List Tag)
    → All IsWritable ts
    → scan rotation s (put_uint32 prev ++ write_all ts)
      ≡ (scan_tags rotation s (map detect ts), put_uint32 (last_size prev ts))
unfolding scan_tags last_size
scan-write_all rotation s prev [] h =
    scan_end rotation s (put_uint32 prev) (parse_tag-put_uint32 prev)
scan-write_all rotation s prev (t ∷ ts) (w, h) =
    let rest = put_uint32 (11 + length t.payload) ++ write_all ts in
    ap (λ (x : List ℕ). scan rotation s (put_uint32 prev ++ x)) (regroup t (write_all ts))
    ∙ scan_more rotation s (put_uint32 prev ++ (tag_header t ++ (t.payload ++ rest))) (detect t)
        rest (parse_tag-tag_header prev t rest w)
    ∙ scan-write_all rotation (scan_tag rotation s (detect t)) (11 + length t.payload) ts h
