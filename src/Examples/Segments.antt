-- ===== src/Examples/Segments.antt =====
-- Runs of the processors and of the walk over boxes.
use bilirec.Prelude.{
  ℕ, ◌≡◌, refl, true, false, none, some, List, [], ◌∷◌, ◌++◌, if◌then◌else◌, length, All, arith,
  EndsIn,
}
use bilirec.Processors.SegmentDedup.{SegmentDedup, open_dedup, process_segment}
use bilirec.Processors.SegmentDedup.Copies.{IsSized, misses_hash, copies_lem}
use bilirec.Processors.BoxGuard.{
  Fmp4BoxGuard, passed_segments, IsInit, IsMedia, passed_segments_lem,
}
use bilirec.Mp4.{got, has_top_level_box}
use bilirec.Mp4.Walk.{TopBox, IsTopBox, read_bytes_at, file_of, has_top_level_box-file_of}
use bilirec.Hls.Fragment.{normalize_fragment_timestamps}
use bilirec.Hls.Fragment.Rebasing.{IsRebased, normalize_fragment_timestamps-IsRebased}

-- A sum of the bytes in place of the hash.
abbrev checksum : List ℕ → List ℕ
checksum bytes = length bytes ∷ bytes

-- A state behind two segments that differ.
abbrev after_two : SegmentDedup
after_two = (process_segment checksum (process_segment checksum open_dedup (1 ∷ [])).0 (2 ∷ [])).0

copies_lem_example :
    ((process_segment checksum (process_segment checksum after_two (3 ∷ [])).0 (3 ∷ [])).1
      ≡ (if misses_hash checksum (3 ∷ []) after_two then some (3 ∷ []) else none))
    × ((process_segment checksum
          (process_segment checksum (process_segment checksum after_two (3 ∷ [])).0 (3 ∷ [])).0
          (3 ∷ [])).1
        ≡ none)
unfolding process_segment open_dedup IsSized
copies_lem_example = copies_lem checksum (3 ∷ []) refl after_two (refl, refl)

-- In that state the second copy is passed on.
second_copy_passes : misses_hash checksum (3 ∷ []) after_two ≡ true
unfolding process_segment open_dedup
second_copy_passes = refl

abbrev two_boxes : List TopBox
two_boxes = record { typ = 5; payload = 1 ∷ 2 ∷ [] } ∷ record { typ = 9; payload = [] } ∷ []

two_boxes-IsTopBox : All IsTopBox two_boxes
two_boxes-IsTopBox = ((omega arith, omega arith), ((omega arith, omega arith), tt))

has_top_level_box-file_of_example :
    has_top_level_box (read_bytes_at (file_of two_boxes)) (length (file_of two_boxes)) 9
    ≡ some (got true)
has_top_level_box-file_of_example = has_top_level_box-file_of two_boxes 9 two_boxes-IsTopBox

abbrev media_segment : List ℕ
media_segment = 0 ∷ 0 ∷ 0 ∷ 8 ∷ b'm' ∷ b'o' ∷ b'o' ∷ b'f' ∷ []

abbrev init_segment : List ℕ
init_segment = 0 ∷ 0 ∷ 0 ∷ 8 ∷ b'f' ∷ b't' ∷ b'y' ∷ b'p' ∷ []

abbrev new_guard : Fmp4BoxGuard
new_guard = record { seen_media = false; last_init = some [] }

abbrev segments : List (List ℕ)
segments = init_segment ∷ media_segment ∷ init_segment ∷ (1 ∷ []) ∷ media_segment ∷ []

-- The init segment that comes again is skipped, the short segment dropped.
guard_run : passed_segments new_guard segments ≡ init_segment ∷ media_segment ∷ media_segment ∷ []
unfolding passed_segments
guard_run = refl

passed_segments_lem_example :
    (inits : List (List ℕ)) × (media : List (List ℕ)) × (passed_segments new_guard segments
      ≡ inits ++ media)
    × All IsInit inits
    × All IsMedia media
passed_segments_lem_example =
    passed_segments_lem new_guard segments (refl, (refl, (refl, (refl, (refl, tt)))))

-- A fragment with the decode time `v` on track 1.
abbrev fragment_at : ℕ → List ℕ
fragment_at v =
    (0 ∷ 0 ∷ 0 ∷ 52 ∷ b'm' ∷ b'o' ∷ b'o' ∷ b'f' ∷ [])
    ++ ((0 ∷ 0 ∷ 0 ∷ 44 ∷ b't' ∷ b'r' ∷ b'a' ∷ b'f' ∷ [])
        ++ ((0 ∷ 0 ∷ 0 ∷ 16 ∷ b't' ∷ b'f' ∷ b'h' ∷ b'd' ∷ 0 ∷ 0 ∷ 0 ∷ 0 ∷ 0 ∷ 0 ∷ 0 ∷ 1 ∷ [])
            ++ (0 ∷ 0 ∷ 0 ∷ 20 ∷ b't' ∷ b'f' ∷ b'd' ∷ b't' ∷ 1 ∷ 0 ∷ 0 ∷ 0 ∷ 0 ∷ 0 ∷ 0 ∷ 0 ∷ 0 ∷ 0
                ∷ 0 ∷ v ∷ [])))

-- The base of the track is taken off; a time below it becomes the base.
fragment_run :
    normalize_fragment_timestamps (fragment_at 7) ((1, 5) ∷ [])
    ≡ some (record { data_bytes = fragment_at 2; bases = (1, 5) ∷ []; normalized = 1 })
unfolding normalize_fragment_timestamps
fragment_run = refl

fragment_below :
    normalize_fragment_timestamps (fragment_at 3) ((1, 5) ∷ [])
    ≡ some (record { data_bytes = fragment_at 0; bases = (1, 3) ∷ []; normalized = 1 })
unfolding normalize_fragment_timestamps
fragment_below = refl

normalize_fragment_timestamps-IsRebased_example :
    EndsIn
      (IsRebased (fragment_at 7) ((1, 5) ∷ []))
      (normalize_fragment_timestamps (fragment_at 7) ((1, 5) ∷ []))
normalize_fragment_timestamps-IsRebased_example =
    normalize_fragment_timestamps-IsRebased (fragment_at 7) ((1, 5) ∷ [])
