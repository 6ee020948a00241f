-- ===== src/Flv/Timestamps.antt =====
-- `TimestampStore`, `CalculateNextTarget` (pkg/flv/fixer.go) and `RealtimeFixer.fixTimestamp`
-- (pkg/flv/realtime_fixer.go). An int32 is its bit pattern.
pub mod Steady
use bilirec.Prelude.{
  ℕ, ◌+◌, ◌*◌, ◌≤◌, ◌<◌, ◌≡◌, Bool, true, false, ◌&&◌, ◌||◌, not, Option, none, some, List, [], ◌∷◌,
  ltb, ◌==◌, if◌then◌else◌,
}
use bilirec.Prelude.Words.{add32, sub32, neg32, lt_i32}
use bilirec.Flv.Tag.{Tag, tag_type_audio}

abbrev pub jump_threshold : ℕ
jump_threshold = 500

abbrev pub audio_duration_fallback : ℕ
audio_duration_fallback = 22

abbrev pub video_duration_fallback : ℕ
video_duration_fallback = 33

pub record TimestampStore : Type 0 where
  pub first_chunk : Bool
  pub last_original : ℕ
  pub current_offset : ℕ
  pub next_timestamp_target : ℕ

pub record TimestampJumpWarning : Type 0 where
  pub current_timestamp : ℕ
  pub previous_timestamp : ℕ
  pub delta : ℕ
  pub applied_offset : ℕ
  pub previous_offset : ℕ
  pub is_rotation_segment : Bool
  pub tag_type : ℕ

unfoldable pub reset_store : TimestampStore
reset_store = record {
  first_chunk = true;
  last_original = 0;
  current_offset = 0;
  next_timestamp_target = 0;
}

unfoldable pub calculate_next_target : Tag → ℕ
calculate_next_target tag =
    add32 tag.timestamp
      (if tag.type == tag_type_audio then audio_duration_fallback else video_duration_fallback)

-- The store after the tag, the tag with its new timestamp, and the warning that is queued, if any.
pub record Fixed : Type 0 where
  pub store : TimestampStore
  pub tag : Tag
  pub warning : Option TimestampJumpWarning

-- Does the timestamp jump: `diff` beyond the threshold, or backwards from 0.
abbrev pub jumps : ℕ → ℕ → Bool
jumps diff last =
    (lt_i32 diff (neg32 jump_threshold) || (last == 0 && lt_i32 diff 0))
    || lt_i32 jump_threshold diff

-- `isRotationSegment` is the first argument.
unfoldable pub fix_timestamp : Bool → TimestampStore → Tag → Fixed
unfolding calculate_next_target
fix_timestamp rotation ts tag =
    let current = tag.timestamp in
    let first_offset = if ts.first_chunk then current else ts.current_offset in
    let diff = sub32 current ts.last_original in
    let has_jump = jumps diff ts.last_original in
    let offset = if has_jump then sub32 current ts.next_timestamp_target else first_offset in
    let transient = rotation && (ts.last_original == 0 && lt_i32 0 ts.next_timestamp_target) in
    let moved = sub32 current offset in
    let fixed = record tag { timestamp = if lt_i32 moved 0 then 0 else moved } in
    record {
      store = record {
        first_chunk = false;
        last_original = current;
        current_offset = offset;
        next_timestamp_target = calculate_next_target fixed;
      };
      tag = fixed;
      warning =
          if has_jump && (not ts.first_chunk && not transient)
          then some (record {
            current_timestamp = current;
            previous_timestamp = ts.last_original;
            delta = diff;
            applied_offset = offset;
            previous_offset = ts.current_offset;
            is_rotation_segment = rotation;
            tag_type = tag.type;
          })
          else none;
    }
