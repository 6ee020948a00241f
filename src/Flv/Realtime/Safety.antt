-- ===== src/Flv/Realtime/Safety.antt =====
-- `Fix` does not panic, and keeps the duplicate cache consistent.
use bilirec.Prelude.{
  ℕ, zero, suc, ◌<◌, ◌≡◌, ◌∙◌, inl, inr, Bool, some, List, ◌++◌, length, arith, Option-cases,
  Bool-cases,
}
use bilirec.Flv.Tag.{Tag}
use bilirec.Flv.Dedup.{DedupCache, is_above_high_water}
use bilirec.Flv.Dedup.Invariant.{IsConsistent, is_duplicate-IsConsistent}
use bilirec.Flv.Dedup.Detection.{is_duplicate_settings}
use bilirec.Flv.Dedup.Cleaning.{clean_old_lem, clean_high_water_lem}
use bilirec.Flv.Realtime.{
  Scan, scan_tag, scan_loop, scan, parse_tag, RealtimeFixer, fix, finish_fix, finished, refused,
  check_header, clean_dedup, clean_cache, should_clean, Outcome, written, not_flv_file, start_scan,
}

-- The invariant of the cache together with its capacity.
pub record IsSound (c : DedupCache) (capacity : ℕ) : Type 0 where
  pub consistent : IsConsistent c
  pub capacity_kept : c.max_size ≡ capacity

scan_tag-IsSound :
    (rotation : Bool) (s : Scan) (tag : Tag) (n : ℕ)
    → IsSound s.dedup_cache n
    → IsSound (scan_tag rotation s tag).dedup_cache n
unfolding scan_tag
scan_tag-IsSound rotation s tag n v = ground (
  arith,
  is_duplicate-IsConsistent s.dedup_cache tag v.consistent,
  is_duplicate_settings s.dedup_cache tag,
)

scan_loop-IsSound :
    (fuel : ℕ) (rotation : Bool) (s : Scan) (b : List ℕ) (n : ℕ)
    → IsSound s.dedup_cache n
    → IsSound (scan_loop fuel rotation s b).0.dedup_cache n
unfolding scan_loop
scan_loop-IsSound zero rotation s b n v = v
scan_loop-IsSound (suc fuel) rotation s b n v = elim (Option-cases (parse_tag b)) [
  | inl e ↦ rw (e, scan_loop) v
  | inr ((tag, rest), e) ↦
      rw (e, scan_loop)
        (scan_loop-IsSound fuel rotation (scan_tag rotation s tag) rest n
          (scan_tag-IsSound rotation s tag n v))
]

pub scan-IsSound :
    (rotation : Bool) (s : Scan) (b : List ℕ) (n : ℕ)
    → IsSound s.dedup_cache n
    → IsSound (scan rotation s b).0.dedup_cache n
unfolding scan
scan-IsSound rotation s b n v = scan_loop-IsSound (length b) rotation s b n v

clean_cache-IsSound :
    (s : Scan) (n : ℕ)
    → 1 < n
    → IsSound s.dedup_cache n
    → (c : DedupCache) × (clean_cache s ≡ some c) × IsSound c n
unfolding clean_cache
clean_cache-IsSound s n two v =
    let c = s.dedup_cache in
    let now = s.ts_store.last_original in
    let (aged, aged_result, aged_fine, aged_size, _, _) = clean_old_lem now c v.consistent in
    let (cut, cut_result, cut_fine, cut_size, _, _) =
      clean_high_water_lem now c v.consistent (omega (arith, v.capacity_kept)) in
    elim (Bool-cases (is_above_high_water c)) [
      | inl high ↦ (
        cut,
        rw high cut_result,
        record { consistent = cut_fine; capacity_kept = cut_size ∙ v.capacity_kept },
      )
      | inr low ↦ (
        aged,
        rw low aged_result,
        record { consistent = aged_fine; capacity_kept = aged_size ∙ v.capacity_kept },
      )
    ]

pub clean_dedup-IsSound :
    (s : Scan) (last_clean n : ℕ)
    → 1 < n
    → IsSound s.dedup_cache n
    → (c : DedupCache) × (clean : ℕ) × (clean_dedup s last_clean ≡ some (c, clean)) × IsSound c n
unfolding clean_dedup
clean_dedup-IsSound s last_clean n two v =
    let (c, result, fine) = clean_cache-IsSound s n two v in
    elim (Bool-cases (should_clean s last_clean)) [
      | inl due ↦ (c, s.ts_store.last_original, rw (due, result, clean_dedup), fine)
      | inr idle ↦ (s.dedup_cache, last_clean, rw (idle, clean_dedup), v)
    ]

finish_fix-IsSound :
    (rf : RealtimeFixer) (header_ok : Bool) (s : Scan) (b : List ℕ) (n : ℕ)
    → 1 < n
    → IsSound s.dedup_cache n
    → (rf' : RealtimeFixer) × (outcome : Outcome) × (finish_fix rf header_ok s b
        ≡ some (rf', outcome))
      × IsSound rf'.dedup_cache n
unfolding finish_fix finished
finish_fix-IsSound rf header_ok s b n two v =
    let (c, clean, result, fine) = clean_dedup-IsSound s rf.last_dedup_clean n two v in
    (finished rf header_ok s b (c, clean), written s.output, rw result, fine)

-- `Fix` never reads through a nil pointer: on a fixer whose cache is consistent it returns, with bytes
-- or with the error, and the cache stays consistent and within the same capacity.
pub fix-IsSound :
    (rf : RealtimeFixer) (input : List ℕ) (n : ℕ)
    → 1 < n
    → IsSound rf.dedup_cache n
    → (rf' : RealtimeFixer) × (outcome : Outcome) × (fix rf input ≡ some (rf', outcome))
      × IsSound rf'.dedup_cache n
unfolding fix
fix-IsSound rf input n two v = elim (Option-cases (check_header rf (rf.buffer ++ input))) [
  | inl e ↦ (refused rf (rf.buffer ++ input), not_flv_file, rw (e, fix), v)
  | inr ((b, header_ok), e) ↦
      rw (e, fix)
        (finish_fix-IsSound rf header_ok (scan rf.is_rotation_segment (start_scan rf) b).0
          (scan rf.is_rotation_segment (start_scan rf) b).1 n two
          (scan-IsSound rf.is_rotation_segment (start_scan rf) b n v))
]
