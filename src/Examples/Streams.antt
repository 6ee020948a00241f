-- ===== src/Examples/Streams.antt =====
-- Runs of the stream repair.
use bilirec.Prelude.Bytes.{uint32_be}
use bilirec.Prelude.{
  ℕ, ◌≡◌, ◌⊎◌, refl, true, false, none, some, List, [], ◌∷◌, ◌++◌, arith, All, replicate, lookup,
}
use bilirec.Prelude.Words.{lt_i32}
use bilirec.Flv.Tag.{Tag, write_tag, tag_header, new_file_header_bytes}
use bilirec.Flv.Timestamps.{TimestampStore, reset_store}
use bilirec.Flv.Timestamps.Steady.{Tracks, fix_all, StartsNear, fix_all-StartsNear}
use bilirec.Flv.Dedup.{
  DedupCache, TagSignature, new_dedup_cache, is_duplicate, compute_signature, signature_of,
}
use bilirec.Flv.Dedup.Invariant.{IsConsistent}
use bilirec.Flv.Dedup.Detection.{Entry, is_duplicate_lem}
use bilirec.Flv.Realtime.{
  RealtimeFixer, new_realtime_fixer, Scan, scan, parse_tag, fix, Outcome, written,
}
use bilirec.Flv.Realtime.Parsing.{scan-append, scan-parse_tag}
use bilirec.Flv.Realtime.Safety.{IsSound, fix-IsSound}
use bilirec.Flv.Realtime.Framing.{IsWritable, write_all}
use bilirec.Flv.Realtime.EndToEnd.{repaired, fix-write_all}
use bilirec.Flv.Detector.{
  HeaderChangeDetector, FlvHeaderChangedError, same, changed, reset_detector, seed_video_header,
  detect_change, starts_file,
}
use bilirec.Flv.Detector.Stream.{watch, loop_result, detect_change-write_all}
use bilirec.Flv.Detector.FirstChange.{Quiet, Stopped, detect_change_cases}
use bilirec.Processors.HeaderSplit.{
  FlvHeaderSplitDetector, process_split, replay, process_split-write_all,
}
use bilirec.Flv.Accumulate.{AccumulateFixer, new_accumulate_fixer, accumulate, Flushed, flush}
use bilirec.Flv.Accumulate.Batch.{IsFlushed, flush_lem}
use bilirec.Hls.TsContinuity.{patch, fix_segment}

-- Two AVC sequence headers and an AAC frame.
abbrev video_tag : Tag
video_tag = record {
  type = 9;
  data_size = 3;
  timestamp = 90000;
  stream_id = record { s0 = 0; s1 = 0; s2 = 0 };
  payload = 0x17 ∷ 0 ∷ 1 ∷ [];
  is_header = true;
  is_keyframe = true;
}

abbrev other_video_tag : Tag
other_video_tag = record {
  type = 9;
  data_size = 3;
  timestamp = 90040;
  stream_id = record { s0 = 0; s1 = 0; s2 = 0 };
  payload = 0x17 ∷ 0 ∷ 2 ∷ [];
  is_header = true;
  is_keyframe = true;
}

abbrev audio_tag : Tag
audio_tag = record {
  type = 8;
  data_size = 2;
  timestamp = 5;
  stream_id = record { s0 = 0; s1 = 0; s2 = 0 };
  payload = 0xAF ∷ 1 ∷ [];
  is_header = false;
  is_keyframe = false;
}

abbrev some_tags : List Tag
some_tags = video_tag ∷ audio_tag ∷ other_video_tag ∷ []

some_tags-IsWritable : All IsWritable some_tags
some_tags-IsWritable = (
  record { size_matches = refl; size_fits = omega arith; time_word = omega arith },
  (
    record { size_matches = refl; size_fits = omega arith; time_word = omega arith },
    (record { size_matches = refl; size_fits = omega arith; time_word = omega arith }, tt),
  ),
)

fix-write_all_example :
    (rf : RealtimeFixer) × (fix
        (new_realtime_fixer 65536)
        (new_file_header_bytes ++ write_all some_tags)
      ≡ some (rf, written (write_all (repaired some_tags))))
    × StartsNear (repaired some_tags)
fix-write_all_example = fix-write_all 65536 some_tags some_tags-IsWritable (omega arith)

abbrev empty_scan : Scan
empty_scan = record {
  ts_store = record {
    first_chunk = true;
    last_original = 0;
    current_offset = 0;
    next_timestamp_target = 0;
  };
  dedup_cache = record { signatures = []; order = []; max_size = 1000; window_ms = 5000 };
  dup_count = 0;
  pending_jumps = [];
  output = [];
  parsed_tags = 0;
}

scan-append_example :
    scan false empty_scan ((0 ∷ 0 ∷ 0 ∷ []) ++ (0 ∷ 8 ∷ []))
    ≡ scan false
        (scan false empty_scan (0 ∷ 0 ∷ 0 ∷ [])).0
        ((scan false empty_scan (0 ∷ 0 ∷ 0 ∷ [])).1 ++ (0 ∷ 8 ∷ []))
scan-append_example = scan-append false empty_scan (0 ∷ 0 ∷ 0 ∷ []) (0 ∷ 8 ∷ [])

scan-parse_tag_example :
    parse_tag (scan false empty_scan (0 ∷ 0 ∷ 0 ∷ 0 ∷ write_all some_tags)).1 ≡ none
scan-parse_tag_example = scan-parse_tag false empty_scan (0 ∷ 0 ∷ 0 ∷ 0 ∷ write_all some_tags)

empty_cache-IsConsistent : IsConsistent empty_scan.dedup_cache
empty_cache-IsConsistent = record {
  same_hashes = refl;
  once = tt;
  room = omega arith;
  bounded = omega arith;
}

new_fixer-IsSound : IsSound (new_realtime_fixer 65536).dedup_cache 1000
unfolding new_realtime_fixer new_dedup_cache
new_fixer-IsSound = record { consistent = empty_cache-IsConsistent; capacity_kept = refl }

fix-IsSound_example :
    (rf' : RealtimeFixer) × (outcome : Outcome) × (fix
        (new_realtime_fixer 65536)
        (b'F' ∷ b'L' ∷ b'V' ∷ 1 ∷ [])
      ≡ some (rf', outcome))
    × IsSound rf'.dedup_cache 1000
fix-IsSound_example =
    fix-IsSound (new_realtime_fixer 65536) (b'F' ∷ b'L' ∷ b'V' ∷ 1 ∷ []) 1000 (omega arith)
      new_fixer-IsSound

fix_all-StartsNear_example : StartsNear (fix_all true reset_store some_tags)
fix_all-StartsNear_example =
    fix_all-StartsNear true some_tags (omega arith) (omega arith, (omega arith, (omega arith, tt)))

-- The store after a tag at 90000 that was written at 40.
abbrev running : TimestampStore
running = record {
  first_chunk = false;
  last_original = 90000;
  current_offset = 89960;
  next_timestamp_target = 73;
}

running-Tracks : Tracks running 40 40
running-Tracks = record {
  started = refl;
  last_word = omega arith;
  offset_word = omega arith;
  low = omega arith;
  high = omega arith;
  last_output = refl;
  target_low = omega arith;
  target_high = omega arith;
}

abbrev small_cache : DedupCache
small_cache = record { signatures = []; order = []; max_size = 20; window_ms = 5000 }

small_cache-IsConsistent : IsConsistent small_cache
small_cache-IsConsistent = record {
  same_hashes = refl;
  once = tt;
  room = omega arith;
  bounded = omega arith;
}

-- The cache behind a tag, in which the tag is a duplicate.
abbrev seen_cache : DedupCache
seen_cache = (is_duplicate small_cache audio_tag).1

seen_run : (is_duplicate seen_cache audio_tag).0 ≡ true
unfolding is_duplicate compute_signature
seen_run = refl

is_duplicate_lem_example :
    (((is_duplicate seen_cache audio_tag).0 ≡ true)
      × ((is_duplicate seen_cache audio_tag).1 ≡ seen_cache)
      × ((old : TagSignature) × Entry seen_cache audio_tag old))
    ⊎ (((is_duplicate seen_cache audio_tag).0 ≡ false)
        × ((old : TagSignature) → Entry seen_cache audio_tag old → ⊥)
        × (lookup (compute_signature audio_tag) (is_duplicate seen_cache audio_tag).1.signatures
            ≡ some (signature_of audio_tag))
        × (lt_i32 seen_cache.window_ms 0 ≡ false
            → (is_duplicate (is_duplicate seen_cache audio_tag).1 audio_tag).0 ≡ true))
is_duplicate_lem_example = is_duplicate_lem seen_cache audio_tag

abbrev old_entry : TagSignature
old_entry = record { hash = 77; timestamp = 5; type = 8; data_size = 2 }

abbrev used_cache : DedupCache
used_cache = record {
  signatures = (77, old_entry) ∷ [];
  order = 77 ∷ [];
  max_size = 20;
  window_ms = 5000;
}

used_cache-IsConsistent : IsConsistent used_cache
used_cache-IsConsistent = record {
  same_hashes = refl;
  once = (tt, tt);
  room = omega arith;
  bounded = omega arith;
}

no_file : starts_file (write_all some_tags) ≡ false
unfolding write_tag tag_header
no_file = refl

detect_change_cases_example :
    ((d' : HeaderChangeDetector) × (detect_change reset_detector (write_all some_tags) ≡ same d')
      × Quiet reset_detector d' some_tags)
    ⊎ ((d' : HeaderChangeDetector) × (e : FlvHeaderChangedError) × (pre : List Tag) × (t : Tag)
        × (post : List Tag) × (detect_change reset_detector (write_all some_tags) ≡ changed d' e)
        × Stopped reset_detector e 0 some_tags pre t post)
unfolding reset_detector
detect_change_cases_example =
    detect_change_cases reset_detector some_tags refl some_tags-IsWritable no_file

abbrev splitter : FlvHeaderSplitDetector
splitter = record { detector = reset_detector; seed_video_header = [] }

process_split-write_all_example :
    ((d : HeaderChangeDetector) × (process_split splitter (write_all some_tags) ≡ (
      record splitter { detector = d },
      record { bytes = some (write_all some_tags); error = none },
    ))
      × Quiet reset_detector d some_tags)
    ⊎ ((d : HeaderChangeDetector) × (e : FlvHeaderChangedError) × (pre : List Tag) × (t : Tag)
        × (post : List Tag) × (process_split splitter (write_all some_tags)
            ≡ (record splitter { detector = d }, record { bytes = replay post; error = some e }))
        × Stopped reset_detector e 0 some_tags pre t post
        × ((seed_video_header reset_detector e.video_header_tag).last_video_header
            ≡ some t.payload))
unfolding reset_detector write_tag tag_header
process_split-write_all_example =
    process_split-write_all splitter some_tags refl some_tags-IsWritable no_file refl

detect_change-write_all_example :
    detect_change reset_detector (write_all some_tags)
    ≡ loop_result 0 (watch reset_detector 0 some_tags)
unfolding reset_detector
detect_change-write_all_example =
    detect_change-write_all reset_detector some_tags refl some_tags-IsWritable no_file

abbrev full_batch : AccumulateFixer
full_batch =
    (accumulate (new_accumulate_fixer 1)
      (b'F' ∷ b'L' ∷ b'V' ∷ 1 ∷ 5 ∷ 0 ∷ 0 ∷ 0 ∷ 9 ∷ 0 ∷ 0 ∷ 0 ∷ 0 ∷ write_all some_tags)).0

full_batch-IsConsistent : IsConsistent full_batch.dedup_cache
unfolding accumulate new_accumulate_fixer new_dedup_cache
full_batch-IsConsistent = empty_cache-IsConsistent

flush_lem_example :
    (af' : AccumulateFixer) × (r : Flushed) × (flush full_batch ≡ some (af', r))
    × IsConsistent af'.dedup_cache
    × IsFlushed full_batch af' r
flush_lem_example = flush_lem full_batch full_batch-IsConsistent

-- A packet of stream 256 with counter 5.
abbrev packet : List ℕ
packet = 0x47 ∷ 1 ∷ 0 ∷ 0x15 ∷ replicate 184 0xFF

segment_run : (fix_segment ((256, 9) ∷ []) packet).bytes ≡ 0x47 ∷ 1 ∷ 0 ∷ 0x1A ∷ replicate 184 0xFF
unfolding fix_segment patch uint32_be
segment_run = refl
