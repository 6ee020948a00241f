-- ===== src/Flv/Realtime.antt =====
-- pkg/flv/realtime_fixer.go: `RealtimeFixer`. The buffers' capacities, their pools and the shrinking of
-- buffers are memory management with no effect on the bytes, and the mutex serialises the calls.
pub mod Framing
pub mod Parsing
pub mod Safety
pub mod EndToEnd
use bilirec.Prelude.{
  ℕ, zero, suc, ◌+◌, ◌-◌, ◌*◌, Bool, true, false, ◌&&◌, ◌||◌, not, Option, none, some, List, [],
  ◌∷◌, ◌++◌, ltb, leb, ◌==◌, if◌then◌else◌, length, take, drop, get_or,
}
use mathlib.Core.Option
use bilirec.Prelude.Words.{sub32, lt_i32}
use bilirec.Prelude.Bytes.{uint24, bytes_equal}
use bilirec.Flv.Tag.{Tag, make_tag, write_tag, flv_header_size}
use bilirec.Flv.Timestamps.{TimestampStore, TimestampJumpWarning, reset_store, fix_timestamp}
use bilirec.Flv.Dedup.{
  DedupCache, new_dedup_cache, is_duplicate, is_above_high_water, clean_high_water, clean_old,
  reset_cache, get_stats,
}

abbrev pub max_dedup_cache_size : ℕ
max_dedup_cache_size = 1000

abbrev pub dedup_window_ms : ℕ
dedup_window_ms = 5000

abbrev max_tag_data_size : ℕ
max_tag_data_size = 12 * 1024 * 1024

-- `PrevTagSizeBytes + TagHeaderSize`
abbrev tag_start : ℕ
tag_start = 15

-- The `dataSize` of the header that starts behind the four bytes of PreviousTagSize.
abbrev pub data_size_at : List ℕ → ℕ
data_size_at b = uint24 (get_or b 5 0) (get_or b 6 0) (get_or b 7 0)

-- The tag with the header at bytes 4 to 14 and the data behind it.
unfoldable pub tag_at : List ℕ → Tag
tag_at b =
    make_tag (get_or b 4 0) (get_or b 5 0) (get_or b 6 0) (get_or b 7 0) (get_or b 8 0)
      (get_or b 9 0) (get_or b 10 0) (get_or b 11 0) (get_or b 12 0) (get_or b 13 0) (get_or b 14 0)
      (take (data_size_at b) (drop tag_start b))

-- The complete tag at the front of the buffer, and the bytes behind it.
unfoldable pub parse_tag : List ℕ → Option (Tag × List ℕ)
parse_tag b =
    if ltb (length b) tag_start
    then none
    else if ltb (length b) (tag_start + data_size_at b)
    then none
    else some (tag_at b, drop (tag_start + data_size_at b) b)

-- What the loop over the buffer changes, and the number of tags parsed in this call.
pub record Scan : Type 0 where
  pub ts_store : TimestampStore
  pub dedup_cache : DedupCache
  pub dup_count : ℕ
  pub pending_jumps : List TimestampJumpWarning
  pub output : List ℕ
  pub parsed_tags : ℕ

abbrev pub add_warning :
    List TimestampJumpWarning → Option TimestampJumpWarning → List TimestampJumpWarning
add_warning ws none = ws
add_warning ws (some w) = ws ++ w ∷ []

-- One round of the loop, from the tag on. Writing to the output buffer returns no error.
unfoldable pub scan_tag : Bool → Scan → Tag → Scan
scan_tag rotation s tag =
    let (duplicate, cache) = is_duplicate s.dedup_cache tag in
    let fixed = fix_timestamp rotation s.ts_store tag in
    if duplicate
    then record s {
      dedup_cache = cache;
      dup_count = s.dup_count + 1;
      parsed_tags = s.parsed_tags + 1;
    }
    else record s {
      ts_store = fixed.store;
      dedup_cache = cache;
      pending_jumps = add_warning s.pending_jumps fixed.warning;
      output = s.output ++ write_tag fixed.tag;
      parsed_tags = s.parsed_tags + 1;
    }

-- `for { … }`: until no complete tag is left.
pub scan_loop : ℕ → Bool → Scan → List ℕ → Scan × List ℕ
scan_loop zero rotation s b = (s, b)
scan_loop (suc fuel) rotation s b = elim (parse_tag b) [
  | none ↦ (s, b)
  | some (tag, rest) ↦ scan_loop fuel rotation (scan_tag rotation s tag) rest
]

-- Every round takes fifteen bytes at least.
unfoldable pub scan : Bool → Scan → List ℕ → Scan × List ℕ
unfolding scan_loop
scan rotation s b = scan_loop (length b) rotation s b

-- `sourceHeaderOK`, `isRotationSegment` and the rest of the state between two calls of `Fix`.
-- `pending_jumps` is what the last call hands to the reporters.
pub record RealtimeFixer : Type 0 where
  pub ts_store : TimestampStore
  pub buffer : List ℕ
  pub max_buffer_size : ℕ
  pub source_header_ok : Bool
  pub is_rotation_segment : Bool
  pub dedup_cache : DedupCache
  pub dup_count : ℕ
  pub last_dedup_clean : ℕ
  pub pending_jumps : List TimestampJumpWarning

unfoldable pub new_realtime_fixer : ℕ → RealtimeFixer
new_realtime_fixer max_buffer_size = record {
  ts_store = reset_store;
  buffer = [];
  max_buffer_size = max_buffer_size;
  source_header_ok = false;
  is_rotation_segment = false;
  dedup_cache = new_dedup_cache max_dedup_cache_size dedup_window_ms;
  dup_count = 0;
  last_dedup_clean = 0;
  pending_jumps = [];
}

unfoldable pub is_waiting_for_partial_tag : List ℕ → Bool
is_waiting_for_partial_tag b =
    if ltb (length b) tag_start
    then false
    else if ltb max_tag_data_size (data_size_at b)
    then false
    else ltb (length b) (tag_start + data_size_at b)

trim_parse_buffer_to_tail : ℕ → List ℕ → List ℕ
trim_parse_buffer_to_tail keep b =
    if keep == 0 || leb (length b) keep then b else drop (length b - keep) b

-- The trimming of bytes that cannot become a tag.
after_scan : ℕ → Scan → List ℕ → List ℕ
after_scan max s b =
    if s.parsed_tags == 0 && (not (is_waiting_for_partial_tag b) && ltb max (length b))
    then trim_parse_buffer_to_tail max b
    else b

-- `shouldCleanByTime`, `shouldCleanByTagCount` and `shouldCleanByHighWater`, under `LastOriginal > 0`.
should_clean : Scan → ℕ → Bool
should_clean s last_clean =
    let now = s.ts_store.last_original in
    lt_i32 0 now
    && (lt_i32 500 (sub32 now last_clean)
        || (leb 128 s.parsed_tags || is_above_high_water s.dedup_cache))

clean_cache : Scan → Option DedupCache
clean_cache s =
    let now = s.ts_store.last_original in
    if is_above_high_water s.dedup_cache
    then clean_high_water now s.dedup_cache
    else clean_old now s.dedup_cache

-- The cleaning of the cache at the end of a call: the cache and `lastDedupClean`. `none` is a read
-- through a nil pointer.
unfoldable pub clean_dedup : Scan → ℕ → Option (DedupCache × ℕ)
unfolding should_clean clean_cache
clean_dedup s last_clean =
    if should_clean s last_clean
    then Option.map (λ c. (c, s.ts_store.last_original)) (clean_cache s)
    else some (s.dedup_cache, last_clean)

pub data Outcome : Type 0 where
  written : List ℕ → Outcome
  not_flv_file : Outcome

-- The file header of segment 0 is consumed; a rotation segment has none. `none` is the error.
pub check_header : RealtimeFixer → List ℕ → Option (List ℕ × Bool)
check_header rf b =
    if not rf.source_header_ok && leb flv_header_size (length b)
    then if bytes_equal (take 3 b) (b'F' ∷ b'L' ∷ b'V' ∷ [])
      then some (drop flv_header_size b, true)
      else if rf.is_rotation_segment
      then some (b, true)
      else none
    else some (b, rf.source_header_ok)

abbrev start_scan : RealtimeFixer → Scan
start_scan rf = record {
  ts_store = rf.ts_store;
  dedup_cache = rf.dedup_cache;
  dup_count = rf.dup_count;
  pending_jumps = [];
  output = [];
  parsed_tags = 0;
}

-- The state after a call that returns bytes.
finished : RealtimeFixer → Bool → Scan → List ℕ → DedupCache × ℕ → RealtimeFixer
unfolding after_scan trim_parse_buffer_to_tail
finished rf header_ok s b cleaned = record rf {
  ts_store = s.ts_store;
  buffer = after_scan rf.max_buffer_size s b;
  source_header_ok = header_ok;
  dedup_cache = cleaned.0;
  dup_count = s.dup_count;
  last_dedup_clean = cleaned.1;
  pending_jumps = s.pending_jumps;
}

finish_fix : RealtimeFixer → Bool → Scan → List ℕ → Option (RealtimeFixer × Outcome)
unfolding finished
finish_fix rf header_ok s b =
    Option.map (λ cleaned. (finished rf header_ok s b cleaned, written s.output))
      (clean_dedup s rf.last_dedup_clean)

-- The state after `ErrNotFlvFile`: the bytes stay in the buffer.
abbrev refused : RealtimeFixer → List ℕ → RealtimeFixer
refused rf b = record rf { buffer = b; pending_jumps = [] }

-- `Fix`: the new state and what is returned. `none` is a panic.
unfoldable pub fix : RealtimeFixer → List ℕ → Option (RealtimeFixer × Outcome)
unfolding check_header finish_fix
fix rf input = elim (check_header rf (rf.buffer ++ input)) [
  | none ↦ some (refused rf (rf.buffer ++ input), not_flv_file)
  | some (b, header_ok) ↦
      let scanned = scan rf.is_rotation_segment (start_scan rf) b in
      finish_fix rf header_ok scanned.0 scanned.1
]

unfoldable pub reset_timestamp_store : RealtimeFixer → RealtimeFixer
reset_timestamp_store rf = record rf {
  ts_store = reset_store;
  is_rotation_segment = true;
  source_header_ok = false;
}

unfoldable pub reset_dedup_cache : RealtimeFixer → RealtimeFixer
reset_dedup_cache rf = record rf { dedup_cache = reset_cache rf.dedup_cache }

pub get_dedup_stats : RealtimeFixer → ℕ × ℕ × ℕ
get_dedup_stats rf =
    let (size, capacity) = get_stats rf.dedup_cache in (rf.dup_count, size, capacity)
