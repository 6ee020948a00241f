-- ===== src/Flv/Tag.antt =====
-- A tag and its bytes: `Tag`, `writeTagOptimized` (pkg/flv/fixer.go), the reading of a tag header in
-- `RealtimeFixer.Fix` (pkg/flv/realtime_fixer.go), pkg/flv/header_bytes.go and header_writer.go.
pub mod RoundTrip
use bilirec.Prelude.{
  ℕ, ◌+◌, ◌*◌, ◌/◌, ◌%◌, ◌≤◌, ◌<◌, ◌≡◌, ◌⊎◌, Bool, true, false, List, [], ◌∷◌, ◌++◌, arith, ltb,
  leb, ◌==◌, ◌&&◌, if◌then◌else◌, length, get_or, drop,
}
use bilirec.Prelude.Words.{IsByte, IsU32}
use bilirec.Prelude.Bytes.{byte_at, uint24, uint32_be}
use bilirec.Flv.VideoTag.{classify_video_tag}

abbrev pub tag_type_audio : ℕ
tag_type_audio = 0x08

abbrev pub tag_type_video : ℕ
tag_type_video = 0x09

abbrev pub tag_header_size : ℕ
tag_header_size = 11

abbrev pub flv_header_size : ℕ
flv_header_size = 9

abbrev pub prev_tag_size_bytes : ℕ
prev_tag_size_bytes = 4

-- `[3]byte`
pub record StreamId : Type 0 where
  pub s0 : ℕ
  pub s1 : ℕ
  pub s2 : ℕ

-- `timestamp` is an int32, held as its bit pattern; `payload` is the field Data.
pub record Tag : Type 0 where
  pub type : ℕ
  pub data_size : ℕ
  pub timestamp : ℕ
  pub stream_id : StreamId
  pub payload : List ℕ
  pub is_header : Bool
  pub is_keyframe : Bool

-- `binary.BigEndian.PutUint32`
abbrev pub put_uint32 : ℕ → List ℕ
put_uint32 v = byte_at v 3 ∷ byte_at v 2 ∷ byte_at v 1 ∷ byte_at v 0 ∷ []

-- The eleven bytes of `header`.
unfoldable pub tag_header : Tag → List ℕ
tag_header t =
    t.type
    ∷ byte_at t.data_size 2
    ∷ byte_at t.data_size 1
    ∷ byte_at t.data_size 0
    ∷ byte_at t.timestamp 2
    ∷ byte_at t.timestamp 1
    ∷ byte_at t.timestamp 0
    ∷ byte_at t.timestamp 3
    ∷ t.stream_id.s0
    ∷ t.stream_id.s1
    ∷ t.stream_id.s2
    ∷ []

-- What one call writes: the header, the data and PreviousTagSize. The writer is a buffer, whose
-- `Write` returns no error.
unfoldable pub write_tag : Tag → List ℕ
unfolding tag_header
write_tag t = tag_header t ++ (t.payload ++ put_uint32 (11 + length t.payload))

-- `len(tagData) >= 2 && tagData[0]>>4 == 10 && tagData[1] == 0`
unfoldable pub is_aac_header : List ℕ → Bool
is_aac_header d = leb 2 (length d) && (get_or d 0 0 / 16 == 10 && get_or d 1 0 == 0)

-- The fields of a tag with the header bytes `h0` to `h10` and the data `d`, and the detection of
-- sequence headers and keyframes.
unfoldable pub make_tag : (h0 h1 h2 h3 h4 h5 h6 h7 h8 h9 h10 : ℕ) → List ℕ → Tag
unfolding is_aac_header
make_tag h0 h1 h2 h3 h4 h5 h6 h7 h8 h9 h10 d = record {
  type = h0;
  data_size = uint24 h1 h2 h3;
  timestamp = uint32_be h7 h4 h5 h6;
  stream_id = record { s0 = h8; s1 = h9; s2 = h10 };
  payload = d;
  is_header =
      if h0 == tag_type_video
      then (classify_video_tag d).is_header
      else if h0 == tag_type_audio
      then is_aac_header d
      else false;
  is_keyframe = if h0 == tag_type_video then (classify_video_tag d).is_keyframe else false;
}

-- `NewTagBytes`: a tag at time 0 on stream 0.
unfoldable pub new_tag_bytes : ℕ → List ℕ → List ℕ
new_tag_bytes tag_type d =
    tag_type
    ∷ byte_at (length d) 2
    ∷ byte_at (length d) 1
    ∷ byte_at (length d) 0
    ∷ 0
    ∷ 0
    ∷ 0
    ∷ 0
    ∷ 0
    ∷ 0
    ∷ 0
    ∷ (d ++ put_uint32 (tag_header_size + length d))

abbrev pub flv_header : List ℕ
flv_header = b'F' ∷ b'L' ∷ b'V' ∷ 0x01 ∷ 0x05 ∷ 0 ∷ 0 ∷ 0 ∷ 0x09 ∷ []

-- `NewFileHeaderBytes`
unfoldable pub new_file_header_bytes : List ℕ
new_file_header_bytes = flv_header ++ (0 ∷ 0 ∷ 0 ∷ 0 ∷ [])

-- Bytes 4 to 7 are the timestamp. A tag shorter than a header is copied.
unfoldable pub normalize_tag_timestamp : List ℕ → List ℕ
normalize_tag_timestamp (b0 ∷ b1 ∷ b2 ∷ b3 ∷ b4 ∷ b5 ∷ b6 ∷ b7 ∷ b8 ∷ b9 ∷ b10 ∷ rest) =
    b0 ∷ b1 ∷ b2 ∷ b3 ∷ 0 ∷ 0 ∷ 0 ∷ 0 ∷ b8 ∷ b9 ∷ b10 ∷ rest
normalize_tag_timestamp short = short

pub record FlvHeaderWriter : Type 0 where
  pub video_header_tag : List ℕ
  pub audio_header_tag : List ℕ

unfoldable pub prepend : FlvHeaderWriter → List ℕ → List ℕ
unfolding new_file_header_bytes normalize_tag_timestamp
prepend w d =
    new_file_header_bytes
    ++ (normalize_tag_timestamp w.video_header_tag
        ++ (normalize_tag_timestamp w.audio_header_tag ++ d))
