-- ===== src/Flv/Accumulate.antt =====
-- pkg/flv/accumulate_fixer.go: `AccumulateFixer`, which repairs a stream in batches, and
-- `CalculateNextTargetAdvanced` of pkg/flv/fixer.go. The pools and the cache of tag pointers are memory
-- management; writing to the output buffer returns no error.
pub mod Batch
use bilirec.Prelude.{
  ℕ, zero, suc, ◌+◌, ◌-◌, ◌*◌, Bool, true, false, ◌&&◌, ◌||◌, not, Option, none, some, List, [],
  ◌∷◌, ◌++◌, ltb, leb, ◌==◌, if◌then◌else◌, length, take, drop, get_or, map,
}
use mathlib.Core.Option
use bilirec.Prelude.Words.{add32, sub32, lt_i32}
use bilirec.Prelude.Bytes.{bytes_equal}
use bilirec.Flv.Tag.{Tag, write_tag, flv_header_size, tag_type_audio, tag_type_video}
use bilirec.Flv.Timestamps.{
  TimestampStore, TimestampJumpWarning, reset_store, jumps, audio_duration_fallback,
  video_duration_fallback,
}
use bilirec.Flv.Dedup.{DedupCache, new_dedup_cache, is_duplicate, clean_old, get_stats}
use bilirec.Flv.Realtime.{parse_tag, max_dedup_cache_size, dedup_window_ms, add_warning}

pub record AccumulateFixer : Type 0 where
  pub ts_store : TimestampStore
  pub buffer : List ℕ
  pub chunk_size_bytes : ℕ
  pub header_written : Bool
  pub total_processed : ℕ
  pub dedup_cache : DedupCache
  pub dup_count : ℕ

unfoldable pub new_accumulate_fixer : ℕ → AccumulateFixer
new_accumulate_fixer chunk_size_mb = record {
  ts_store = reset_store;
  buffer = [];
  chunk_size_bytes = chunk_size_mb * 1024 * 1024;
  header_written = false;
  total_processed = 0;
  dedup_cache = new_dedup_cache max_dedup_cache_size dedup_window_ms;
  dup_count = 0;
}

-- `Accumulate`: is the batch ready to be flushed.
unfoldable pub accumulate : AccumulateFixer → List ℕ → AccumulateFixer × Bool
accumulate af input =
    let buffer = af.buffer ++ input in
    (record af { buffer = buffer }, leb af.chunk_size_bytes (length buffer))

-- The tags of one type.
unfoldable pub of_type : ℕ → List Tag → List Tag
of_type type [] = []
of_type type (tag ∷ tags) =
    let rest = of_type type tags in if tag.type == type then tag ∷ rest else rest

last_timestamp : Tag → List Tag → ℕ
last_timestamp tag [] = tag.timestamp
last_timestamp tag (next ∷ tags) = last_timestamp next tags

-- The end of a group of tags: the duration of the first interval is taken where it is plausible.
unfoldable pub group_end : ℕ → ℕ → ℕ → List Tag → ℕ
unfolding last_timestamp
group_end low high fallback [] = 0
group_end low high fallback (tag ∷ []) = add32 tag.timestamp fallback
group_end low high fallback (tag ∷ next ∷ tags) =
    let duration = sub32 next.timestamp tag.timestamp in
    let end = last_timestamp next tags in
    if not (lt_i32 duration low) && not (lt_i32 high duration)
    then add32 end duration
    else add32 end fallback

-- `CalculateNextTargetAdvanced`. A float64 holds every int32, so that the maximum is exact.
unfoldable pub calculate_next_target_advanced : List Tag → ℕ
unfolding group_end of_type
calculate_next_target_advanced tags =
    let video = group_end 15 50 video_duration_fallback (of_type tag_type_video tags) in
    let audio = group_end 20 24 audio_duration_fallback (of_type tag_type_audio tags) in
    if lt_i32 video audio then audio else video

-- The least timestamp, as signed numbers.
min_timestamp : ℕ → List Tag → ℕ
min_timestamp least [] = least
min_timestamp least (tag ∷ tags) =
    min_timestamp (if lt_i32 tag.timestamp least then tag.timestamp else least) tags

-- A round of the loop of `fixTimestamps`: the store, the tag, and the warning that is reported.
pub record FixedBatch : Type 0 where
  pub store : TimestampStore
  pub tags : List Tag
  pub warnings : List TimestampJumpWarning

-- The store after a tag: only the offset and the last timestamp change.
unfoldable pub batch_store : TimestampStore → Tag → TimestampStore
batch_store ts tag =
    let current = tag.timestamp in
    let offset =
      if jumps (sub32 current ts.last_original) ts.last_original
      then sub32 current ts.next_timestamp_target
      else ts.current_offset in
    record ts { current_offset = offset; last_original = current }

unfoldable pub batch_warning : TimestampStore → Tag → Option TimestampJumpWarning
unfolding batch_store
batch_warning ts tag =
    let current = tag.timestamp in
    let diff = sub32 current ts.last_original in
    if jumps diff ts.last_original
    then some (record {
      current_timestamp = current;
      previous_timestamp = ts.last_original;
      delta = diff;
      applied_offset = (batch_store ts tag).current_offset;
      previous_offset = ts.current_offset;
      is_rotation_segment = false;
      tag_type = tag.type;
    })
    else none

unfoldable pub batch_tag : TimestampStore → Tag → Tag
unfolding batch_store
batch_tag ts tag = record tag {
  timestamp = sub32 tag.timestamp (batch_store ts tag).current_offset;
}

unfoldable pub batch_loop : TimestampStore → List TimestampJumpWarning → List Tag → FixedBatch
unfolding batch_warning batch_tag
batch_loop ts warnings [] = record { store = ts; tags = []; warnings = warnings }
batch_loop ts warnings (tag ∷ tags) =
    let rest = batch_loop (batch_store ts tag) (add_warning warnings (batch_warning ts tag)) tags in
    record rest { tags = batch_tag ts tag ∷ rest.tags }

-- The offset of the first chunk is the least timestamp.
unfoldable pub first_offset : TimestampStore → Tag → List Tag → TimestampStore
unfolding min_timestamp
first_offset ts tag tags =
    if ts.first_chunk
    then record ts {
      first_chunk = false;
      current_offset = min_timestamp tag.timestamp (tag ∷ tags);
    }
    else ts

-- `fixTimestamps`
unfoldable pub fix_timestamps : TimestampStore → List Tag → FixedBatch
unfolding batch_loop first_offset calculate_next_target_advanced
fix_timestamps ts [] = record { store = ts; tags = []; warnings = [] }
fix_timestamps ts (tag ∷ tags) =
    let fixed = batch_loop (first_offset ts tag tags) [] (tag ∷ tags) in
    record fixed {
      store = record fixed.store {
        next_timestamp_target = calculate_next_target_advanced fixed.tags;
      };
    }

-- What the parsing loop of `flushInternal` collects.
pub record Collected : Type 0 where
  pub tags : List Tag
  pub dedup_cache : DedupCache
  pub dup_count : ℕ

unfoldable pub collect_tag : Collected → Tag → Collected
collect_tag c tag =
    let (duplicate, cache) = is_duplicate c.dedup_cache tag in
    if duplicate
    then record c { dedup_cache = cache; dup_count = c.dup_count + 1 }
    else record c { dedup_cache = cache; tags = c.tags ++ (tag ∷ []) }

-- `for af.buffer.Len() >= 15`; an incomplete tag is put back.
unfoldable pub collect_loop : ℕ → Collected → List ℕ → Collected × List ℕ
unfolding collect_tag
collect_loop zero c b = (c, b)
collect_loop (suc fuel) c b = elim (parse_tag b) [
  | none ↦ (c, b)
  | some (tag, rest) ↦ collect_loop fuel (collect_tag c tag) rest
]

pub write_tags : List Tag → List ℕ
write_tags [] = []
write_tags (tag ∷ tags) = write_tag tag ++ write_tags tags

-- `none` is `ErrNotFlvFile`, `waiting` an empty result.
pub data Flushed : Type 0 where
  flushed : List ℕ → List TimestampJumpWarning → Flushed
  waiting : Flushed
  flush_not_flv_file : Flushed

-- The periodic cleaning after a batch that has tags. `none` is a read through a nil pointer.
unfoldable pub clean_batch : List Tag → DedupCache → Option DedupCache
unfolding last_timestamp
clean_batch [] cache = some cache
clean_batch (tag ∷ tags) cache = clean_old (last_timestamp tag tags) cache

-- The rest of `flushInternal`, from the header that is written and the bytes behind it.
unfoldable pub flush_tags : AccumulateFixer → List ℕ → List ℕ → Option (AccumulateFixer × Flushed)
unfolding collect_loop fix_timestamps write_tags clean_batch
flush_tags af header b =
    let collected =
      collect_loop (length b)
        (record { tags = []; dedup_cache = af.dedup_cache; dup_count = af.dup_count }) b in
    let fixed = fix_timestamps af.ts_store collected.0.tags in
    let output = header ++ write_tags fixed.tags in
    Option.map
      (λ cache. (
        record af {
          ts_store = fixed.store;
          buffer = collected.1;
          header_written = true;
          total_processed = af.total_processed + length output;
          dedup_cache = cache;
          dup_count = collected.0.dup_count;
        },
        flushed output fixed.warnings,
      ))
      (clean_batch fixed.tags collected.0.dedup_cache)

-- `flushInternal`, which is `Flush` and `FlushRemaining`. `none` is a panic.
unfoldable pub flush : AccumulateFixer → Option (AccumulateFixer × Flushed)
unfolding flush_tags
flush af =
    if length af.buffer == 0
    then some (af, waiting)
    else if af.header_written
    then flush_tags af [] af.buffer
    else if ltb (length af.buffer) flv_header_size
    then some (af, waiting)
    else if not (bytes_equal (take 3 af.buffer) (b'F' ∷ b'L' ∷ b'V' ∷ []))
    then some (af, flush_not_flv_file)
    else flush_tags af (take flv_header_size af.buffer ++ (0 ∷ 0 ∷ 0 ∷ 0 ∷ []))
        (drop flv_header_size af.buffer)

-- `GetStats` and `GetDedupStats`
pub accumulate_stats : AccumulateFixer → (ℕ × ℕ) × (ℕ × ℕ × ℕ)
accumulate_stats af =
    let (size, capacity) = get_stats af.dedup_cache in
    ((length af.buffer, af.total_processed), (af.dup_count, size, capacity))
