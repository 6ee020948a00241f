-- ===== src/RoundRobin.antt =====
-- pkg/coordinator/round_robin.go. A participant is known by its id; a duration is a number of
-- nanoseconds that is not negative, with 0 for what is not positive. What the functions `ready` answer
-- at a tick is an argument of the tick; the signal of a participant is a channel of capacity 1.
pub mod Targets
pub mod Fairness
pub mod Members
use bilirec.Prelude.{
  ℕ, zero, suc, ◌+◌, ◌-◌, ◌/◌, ◌%◌, Bool, true, false, ◌&&◌, ◌||◌, not, Option, none, some, List,
  [], ◌∷◌, ◌++◌, if◌then◌else◌, length, get_elem?, get_or, set, take, ltb, leb, ◌==◌,
}

-- Nanoseconds.
abbrev pub default_min_tick : ℕ
default_min_tick = 2000000000

-- `always` says that `ready` is nil, `signal` that a signal waits in the channel.
pub record Participant : Type 0 where
  pub id : ℕ
  pub signal : Bool
  pub always : Bool

pub record RoundRobin : Type 0 where
  pub cycle_period : ℕ
  pub min_tick : ℕ
  pub participants : List Participant
  pub next_id : ℕ
  pub rr : ℕ
  pub running : Bool

unfoldable pub new_round_robin : ℕ → RoundRobin
new_round_robin period = record {
  cycle_period = if period == 0 then 10000000000 else period;
  min_tick = default_min_tick;
  participants = [];
  next_id = 0;
  rr = 0;
  running = false;
}

unfoldable pub set_cycle_period : RoundRobin → ℕ → RoundRobin
set_cycle_period r d = if d == 0 then r else record r { cycle_period = d }

unfoldable pub set_min_tick : RoundRobin → ℕ → RoundRobin
set_min_tick r d = if ltb 0 d then record r { min_tick = d } else r

-- `Register`, with the id by which the participant is unregistered.
unfoldable pub register : RoundRobin → Bool → RoundRobin × ℕ
register r always =
    let id = suc r.next_id in
    (
      record r {
        next_id = id;
        participants = r.participants ++ (record { id = id; signal = false; always = always } ∷ []);
        running = true;
      },
      id,
    )

-- The place of the first participant with an id.
unfoldable pub index_of : ℕ → List Participant → Option ℕ
index_of id [] = none
index_of id (p ∷ ps) =
    let later = index_of id ps in
    if p.id == id then some 0 else elim later [ none ↦ none | some i ↦ some (suc i) ]

-- The last takes its place.
unfoldable pub swap_remove : List Participant → Option ℕ → List Participant
swap_remove ps none = ps
swap_remove ps (some i) = elim (get_elem? ps (length ps - 1)) [
  | none ↦ ps
  | some last ↦ take (length ps - 1) (set ps i last)
]

unfoldable pub in_range : ℕ → ℕ → ℕ
in_range rr n = if ltb 0 n && leb n rr then rr % n else rr

unfoldable pub unregister : RoundRobin → ℕ → RoundRobin
unfolding index_of swap_remove in_range
unregister r id =
    let rest = swap_remove r.participants (index_of id r.participants) in
    record r {
      participants = rest;
      rr = in_range r.rr (length rest);
      running = if length rest == 0 && r.running then false else r.running;
    }

unfoldable pub tick_interval : RoundRobin → ℕ
tick_interval r =
    let n = length r.participants in
    if leb n 1
    then r.cycle_period
    else let d = r.cycle_period / n in if ltb d r.min_tick then r.min_tick else d

unfoldable pub is_ready : (ℕ → Bool) → Option Participant → Bool
is_ready ready none = false
is_ready ready (some p) = p.always || ready p.id

-- The inner loop with its rounds left: the place of the target, and `rr` after it.
unfoldable pub find_target : ℕ → (ℕ → Bool) → List Participant → ℕ → ℕ → Option ℕ × ℕ
unfolding is_ready
find_target zero ready ps start rr = (none, rr)
find_target (suc i) ready ps start rr =
    let next = suc rr % length ps in
    let more = find_target i ready ps start next in
    if is_ready ready (get_elem? ps rr)
    then (some rr, next)
    else if next == start
    then (none, next)
    else more

unfoldable pub signalled : List Participant → Option ℕ → List Participant
signalled ps none = ps
signalled ps (some i) = elim (get_elem? ps i) [
  | none ↦ ps
  | some p ↦ set ps i (record p { signal = true })
]

-- A tick of `loop`, with the place of its target.
unfoldable pub tick : RoundRobin → (ℕ → Bool) → RoundRobin × Option ℕ
unfolding in_range find_target signalled
tick r ready =
    let n = length r.participants in
    let start = in_range r.rr n in
    let found = find_target n ready r.participants start start in
    if n == 0
    then (r, none)
    else (record r { participants = signalled r.participants found.0; rr = found.1 }, found.0)
