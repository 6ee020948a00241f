-- ===== src/Processors/StreamWriter/ColdRelease.antt =====
-- The ranges of the page cache that are released.
use bilirec.Prelude.{
  ℕ, ◌+◌, ◌-◌, ◌≤◌, ◌≡◌, Option, none, some, if_cases, ltb, leb, ◌==◌, arith, refl,
}
use bilirec.Processors.StreamWriter.{
  ColdReleasePlan, plan_cold_release, cold_release_hot_window, cold_release_min_release,
}

-- A plan goes on where the last one ended, ends its window before the end of what is on disk, and is not
-- small.
abbrev pub IsPlan : ℕ → ℕ → ℕ → Option ColdReleasePlan → Type 0
IsPlan on_disk released buffer_size none = Unit {0}
IsPlan on_disk released buffer_size (some plan) =
    (plan.offset ≡ released)
    × (plan.offset + plan.size ≡ plan.new_end)
    × (plan.new_end + cold_release_hot_window buffer_size ≤ on_disk)
    × (cold_release_min_release ≤ plan.size)

-- Every plan of `planColdRelease` begins where the last one ended, stays behind the hot window, and covers
-- 32 MiB or more.
pub plan_cold_release-IsPlan :
    (on_disk released buffer_size : ℕ)
    → IsPlan on_disk released buffer_size (plan_cold_release on_disk released buffer_size)
unfolding plan_cold_release
plan_cold_release-IsPlan on_disk released buffer_size =
    let window = cold_release_hot_window buffer_size in
    if_cases (IsPlan on_disk released buffer_size) (on_disk == 0) (λ _. tt)
      (λ _.
        if_cases (IsPlan on_disk released buffer_size) (leb (on_disk - window) released) (λ _. tt)
          (λ far.
            if_cases (IsPlan on_disk released buffer_size)
              (ltb (on_disk - window - released) cold_release_min_release) (λ _. tt)
              (λ big. (refl, ground arith, ground arith, ground arith))))
