-- ===== src/Flv/VideoTag.antt =====
-- pkg/flv/video_tag.go: the layout of a video tag's payload.
pub mod Layouts
use bilirec.Prelude.{
  ℕ, ◌+◌, ◌/◌, ◌%◌, ◌≤◌, ◌<◌, ◌≡◌, ◌≢◌, ◌⊎◌, ◌↔◌, Bool, true, false, ◌&&◌, ◌||◌, not, List, [], ◌∷◌,
  arith, ltb, ◌==◌, if◌then◌else◌, length, take, bit_and,
}
use bilirec.Prelude.Bytes.{bytes_equal}

pub data VideoKind : Type 0 where
  kind_none avc hevc_legacy hevc_enhanced : VideoKind

pub record VideoClass : Type 0 where
  pub kind : VideoKind
  pub is_header : Bool
  pub is_keyframe : Bool

abbrev video_ex_header : ℕ
video_ex_header = 0x80

abbrev codec_avc : ℕ
codec_avc = 7

abbrev codec_hevc : ℕ
codec_hevc = 12

abbrev packet_type_sequence_start : ℕ
packet_type_sequence_start = 0

abbrev pub four_cc_hvc1 : List ℕ
four_cc_hvc1 = b'h' ∷ b'v' ∷ b'c' ∷ b'1' ∷ []

abbrev pub four_cc_hev1 : List ℕ
four_cc_hev1 = b'h' ∷ b'e' ∷ b'v' ∷ b'1' ∷ []

abbrev no_class : Bool → VideoClass
no_class key = record { kind = kind_none; is_header = false; is_keyframe = key }

-- The payload from its first byte `b` on, where bit 7 of `b` is set.
classify_enhanced : ℕ → List ℕ → VideoClass
classify_enhanced b rest =
    let key = bit_and b 0x70 == 0x10 in
    let four_cc = take 4 rest in
    if ltb (length rest) 4
    then no_class false
    else if not (bytes_equal four_cc four_cc_hvc1) && not (bytes_equal four_cc four_cc_hev1)
    then no_class key
    else record {
      kind = hevc_enhanced;
      is_header = bit_and b 0x0F == packet_type_sequence_start;
      is_keyframe = key;
    }

classify_legacy : ℕ → List ℕ → VideoClass
classify_legacy b [] = no_class false
classify_legacy b (packet_type ∷ rest) =
    let key = bit_and b 0xF0 == 0x10 in
    let header = packet_type == packet_type_sequence_start in
    if bit_and b 0x0F == codec_avc
    then record { kind = avc; is_header = header; is_keyframe = key }
    else if bit_and b 0x0F == codec_hevc
    then record { kind = hevc_legacy; is_header = header; is_keyframe = key }
    else no_class key

unfoldable pub classify_video_tag : List ℕ → VideoClass
unfolding classify_enhanced classify_legacy
classify_video_tag [] = no_class false
classify_video_tag (b ∷ rest) =
    if not (bit_and b video_ex_header == 0)
    then classify_enhanced b rest
    else classify_legacy b rest
