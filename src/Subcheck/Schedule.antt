-- ===== src/Subcheck/Schedule.antt =====
-- internal/services/subcheck/schedule.go, and the shards of check.go. Durations are seconds; a setting that
-- is not positive is 0. `math.Ceil` on a quotient of two counts is the division that rounds up.
use bilirec.Prelude.{
  ℕ, ◌+◌, ◌-◌, ◌*◌, ◌/◌, ◌%◌, ◌≤◌, ◌<◌, ◌≡◌, Bool, true, false, if◌then◌else◌, if_cases, ltb,
  ltb→lt, ◌==◌, arith,
}

pub record ScheduleParams : Type 0 where
  pub rooms_per_shard : ℕ
  pub tick_secs : ℕ
  pub min_interval : ℕ
  pub max_interval : ℕ
  pub max_shards : ℕ

pub record Schedule : Type 0 where
  pub shards : ℕ
  pub interval : ℕ

abbrev pub default_rooms_per_shard : ℕ
default_rooms_per_shard = 50

abbrev pub default_tick_secs : ℕ
default_tick_secs = 10

abbrev pub default_min_interval_secs : ℕ
default_min_interval_secs = 60

abbrev pub default_max_interval_secs : ℕ
default_max_interval_secs = 300

abbrev pub default_max_shards : ℕ
default_max_shards = 32

unfoldable pub or_default : ℕ → ℕ → ℕ
or_default n default_value = if n == 0 then default_value else n

-- `scheduleParamsFromConfig`, and the same lines at the start of `computeSchedule`.
unfoldable pub with_defaults : ScheduleParams → ScheduleParams
unfolding or_default
with_defaults p = record {
  rooms_per_shard = or_default p.rooms_per_shard default_rooms_per_shard;
  tick_secs = or_default p.tick_secs default_tick_secs;
  min_interval = or_default p.min_interval default_min_interval_secs;
  max_interval = or_default p.max_interval default_max_interval_secs;
  max_shards = or_default p.max_shards default_max_shards;
}

unfoldable pub div_up : ℕ → ℕ → ℕ
div_up a b = (a + (b - 1)) / b

unfoldable pub shards_for : ℕ → ScheduleParams → ℕ
unfolding div_up
shards_for room_count p =
    let wanted = if ltb 0 room_count then div_up room_count p.rooms_per_shard else 1 in
    if ltb p.max_shards wanted then p.max_shards else wanted

unfoldable pub interval_for : ℕ → ScheduleParams → ℕ
interval_for shards p =
    let wanted = shards * p.tick_secs in
    let raised = if ltb wanted p.min_interval then p.min_interval else wanted in
    if ltb p.max_interval raised then p.max_interval else raised

unfoldable pub compute_schedule : ℕ → ScheduleParams → Schedule
unfolding with_defaults shards_for interval_for
compute_schedule room_count settings =
    let p = with_defaults settings in
    let shards = shards_for room_count p in
    record { shards = shards; interval = interval_for shards p }

-- `partitionShardRooms`: is a room of a shard?
unfoldable pub in_shard : ℕ → ℕ → ℕ → Bool
in_shard room shard count = if ltb 1 count then room % count == shard else true

or_default_pos : (n d : ℕ) → 0 < d → 0 < or_default n d
unfolding or_default
or_default_pos n d h = ground arith

div_up_le : (a b : ℕ) → 0 < b → a ≤ div_up a b * b
unfolding div_up
div_up_le a b h = grind arith

div_up_pos : (a b : ℕ) → 0 < b → 0 < a → 0 < div_up a b
unfolding div_up
div_up_pos a b h pos = grind arith

not_below : (a b : ℕ) → ltb a b ≡ false → b ≤ a
not_below a b h = ground arith

with_defaults_pos :
    (p : ScheduleParams)
    → (0 < (with_defaults p).rooms_per_shard) × (0 < (with_defaults p).max_shards)
unfolding with_defaults
with_defaults_pos p = (
  or_default_pos p.rooms_per_shard default_rooms_per_shard (omega arith),
  or_default_pos p.max_shards default_max_shards (omega arith),
)

-- Within the limits of the settings; the shards hold all rooms unless their number is at the limit.
abbrev pub IsSchedule : ℕ → ScheduleParams → Schedule → Type 0
IsSchedule room_count p r =
    (0 < r.shards)
    × (r.shards ≤ p.max_shards)
    × (r.interval ≤ p.max_interval)
    × (p.min_interval ≤ p.max_interval → p.min_interval ≤ r.interval)
    × (r.shards < p.max_shards → room_count ≤ r.shards * p.rooms_per_shard)

shards_for_bounds :
    (room_count : ℕ) (p : ScheduleParams)
    → 0 < p.rooms_per_shard
    → 0 < p.max_shards
    → (0 < shards_for room_count p)
      × (shards_for room_count p ≤ p.max_shards)
      × (shards_for room_count p < p.max_shards
          → room_count ≤ shards_for room_count p * p.rooms_per_shard)
unfolding shards_for
shards_for_bounds room_count p per max =
    let up = div_up room_count p.rooms_per_shard in
    let enough = div_up_le room_count p.rooms_per_shard per in
    let wanted_ok : (0 < (if ltb 0 room_count then up else 1))
        × (room_count ≤ (if ltb 0 room_count then up else 1) * p.rooms_per_shard) =
      if_cases (λ (k : ℕ). (0 < k) × (room_count ≤ k * p.rooms_per_shard)) (ltb 0 room_count)
        (λ some_rooms.
          (div_up_pos room_count p.rooms_per_shard per (ltb→lt _ _ some_rooms), enough))
        (λ no_rooms. (omega arith, ground arith)) in
    if_cases
      (λ (k : ℕ).
        (0 < k) × (k ≤ p.max_shards) × (k < p.max_shards → room_count ≤ k * p.rooms_per_shard))
      (ltb p.max_shards (if ltb 0 room_count then up else 1))
      (λ _. (max, omega arith, λ less. absurd (omega arith)))
      (λ few. (wanted_ok.0, not_below _ _ few, λ _. wanted_ok.1))

interval_for_bounds :
    (shards : ℕ) (p : ScheduleParams)
    → (interval_for shards p ≤ p.max_interval)
      × (p.min_interval ≤ p.max_interval → p.min_interval ≤ interval_for shards p)
unfolding interval_for
interval_for_bounds shards p = ground arith

-- Whatever the settings are, `computeSchedule` has at least one shard and at most the limit, and an interval
-- within its limits; below the limit the shards have a place for every room.
pub compute_schedule-IsSchedule :
    (room_count : ℕ) (settings : ScheduleParams)
    → IsSchedule room_count (with_defaults settings) (compute_schedule room_count settings)
unfolding compute_schedule
compute_schedule-IsSchedule room_count settings =
    let p = with_defaults settings in
    let positive = with_defaults_pos settings in
    let counted = shards_for_bounds room_count p positive.0 positive.1 in
    let timed = interval_for_bounds (shards_for room_count p) p in
    (counted.0, counted.1, timed.0, timed.1, counted.2)

-- A room belongs to exactly one of the active shards.
pub in_shard_lem :
    (room count : ℕ)
    → 0 < count
    → (in_shard room (room % count) count ≡ true)
      × (room % count < count)
      × ((shard : ℕ) → shard < count → in_shard room shard count ≡ true → shard ≡ room % count)
unfolding in_shard
in_shard_lem room count pos = (grind arith, grind arith, λ shard below e. grind arith)
