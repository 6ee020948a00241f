-- ===== src/RoundRobin/Fairness.antt =====
-- Who is signalled, and when.
use bilirec.Prelude.{
  ℕ, zero, suc, ◌%◌, ◌<◌, ◌≤◌, ◌≡◌, refl, ap, ◌∙◌, ◌⊎◌, inl, inr, Bool, true, false, ◌&&◌, ◌||◌,
  Option, none, some, List, [], ◌∷◌, if_cases, if_false, length, get_elem?, set, if◌then◌else◌, ltb,
  leb, ◌==◌, arith, length-set, Bool-cases, Option-cases, All, get_elem?-set_self, get_elem?-set_ne,
}
use native.Mathlib.Nat.{mod-lt}
use bilirec.RoundRobin.{RoundRobin, Participant, is_ready, in_range, signalled, tick}
use bilirec.RoundRobin.Targets.{ahead, next_of, Stops, find_target_ahead}

get_elem?_lt :
    (ps : List Participant) (j : ℕ) {p : Participant} → get_elem? ps j ≡ some p → j < length ps
get_elem?_lt [] j e = cc
get_elem?_lt (q ∷ ps) zero e = omega arith
get_elem?_lt (q ∷ ps) (suc j) e = omega (arith, get_elem?_lt ps j e)

get_elem?_some : (ps : List Participant) (i : ℕ) → i < length ps → get_elem? ps i ≡ none → ⊥
get_elem?_some [] i hi e = omega arith
get_elem?_some (p ∷ ps) zero hi e = cc
get_elem?_some (p ∷ ps) (suc i) hi e = get_elem?_some ps i (omega arith) e

signalled_cases :
    (ps : List Participant) (j : ℕ)
    → (signalled ps (some j) ≡ ps)
      ⊎ ((p : Participant) × (get_elem? ps j ≡ some p)
          × (signalled ps (some j) ≡ set ps j (record p { signal = true })))
unfolding signalled
signalled_cases ps j = elim (Option-cases (get_elem? ps j)) [
  | inl e ↦ inl (rw (signalled, e) refl)
  | inr (p, e) ↦ inr (p, e, rw (signalled, e) refl)
]

is_ready-signalled :
    (ready : ℕ → Bool) (ps : List Participant) (o : Option ℕ) (i : ℕ)
    → is_ready ready (get_elem? (signalled ps o) i) ≡ is_ready ready (get_elem? ps i)
unfolding signalled is_ready
is_ready-signalled ready ps none i = refl
is_ready-signalled ready ps (some j) i = elim (signalled_cases ps j) [
  | inl e ↦ rw e refl
  | inr (p, e, changed) ↦ elim (Bool-cases (j == i)) [
    | inl here ↦
        let this : j ≡ i = ground arith in
        let now = get_elem?-set_self ps j (record p { signal = true }) (get_elem?_lt ps j e) in
        rw (changed, ← this, now, e) refl
    | inr there ↦
        rw
          (changed, get_elem?-set_ne ps {i = j} {j = i} (record p { signal = true }) (ground arith))
          refl
  ]
]

length-signalled : (ps : List Participant) (o : Option ℕ) → length (signalled ps o) ≡ length ps
unfolding signalled
length-signalled ps none = refl
length-signalled ps (some i) = elim (signalled_cases ps i) [
  | inl e ↦ ap length e
  | inr (p, e, changed) ↦ ap length changed ∙ length-set ps i (record p { signal = true })
]

-- The place at which the next tick begins.
abbrev start_of : RoundRobin → ℕ
start_of r = in_range r.rr (length r.participants)

in_range_lt : (rr n : ℕ) → 0 < n → in_range rr n < n
unfolding in_range
in_range_lt rr n h =
    if_cases (λ (t : ℕ). t < n) (ltb 0 n && leb n rr) (λ e. mod-lt rr h) (λ e. ground arith)

in_range_self : (rr n : ℕ) → rr < n → in_range rr n ≡ rr
unfolding in_range
in_range_self rr n h =
    let inside : (ltb 0 n && leb n rr) ≡ false = ground arith in if_false (rr % n) rr inside

-- The state after a tick that signals the place `j`.
after_signal : RoundRobin → ℕ → RoundRobin
after_signal r j = record r {
  participants = signalled r.participants (some j);
  rr = next_of (length r.participants) j;
}

tick_served :
    (r : RoundRobin) (ready : ℕ → Bool) (i : ℕ)
    → i < length r.participants
    → is_ready ready (get_elem? r.participants i) ≡ true
    → (j : ℕ) × (tick r ready ≡ (after_signal r j, some j))
      × (is_ready ready (get_elem? r.participants j) ≡ true)
      × (j < length r.participants)
      × (ahead (length r.participants) (start_of r) j
          ≤ ahead (length r.participants) (start_of r) i)
unfolding tick Stops after_signal
tick_served r ready i hi ok =
    let n = length r.participants in
    let some_there : (n == 0) ≡ false = ground arith in
    let hs : start_of r < n = in_range_lt r.rr n (omega arith) in
    let (j, e, ready_j, hj, le) =
      find_target_ahead ready r.participants (start_of r) n (start_of r) i hs hi hs ok
        (ground arith) (ground arith) in
    (
      j,
      if_false _ _ some_there
          ∙ ap
              (λ (t : Option ℕ × ℕ).
                (record r { participants = signalled r.participants t.0; rr = t.1 }, t.0))
              e,
      ready_j,
      hj,
      le,
    )

-- Before a tick any participants take the signal out of their channel: those for which `takes` holds.
unfoldable pub take_signals : (ℕ → Bool) → List Participant → List Participant
take_signals takes [] = []
take_signals takes (p ∷ ps) =
    (if takes p.id then record p { signal = false } else p) ∷ take_signals takes ps

unfoldable pub taken : (ℕ → Bool) → RoundRobin → RoundRobin
unfolding take_signals
taken takes r = record r { participants = take_signals takes r.participants }

-- What the participants answer at a tick, and which of them took their signal before it.
abbrev pub Turn : Type 0
Turn = (ℕ → Bool) × (ℕ → Bool)

-- The states after each tick of a row.
unfoldable pub run_ticks : RoundRobin → List Turn → List RoundRobin
unfolding taken
run_ticks r [] = []
run_ticks r ((ready, takes) ∷ later) =
    let next = (tick (taken takes r) ready).0 in next ∷ run_ticks next later

abbrev has_signal : Option Participant → Bool
has_signal none = false
has_signal (some p) = p.signal

-- Is there a signal in the channel of the place `i` after one of the ticks?
abbrev pub was_signalled : ℕ → List RoundRobin → Bool
was_signalled i [] = false
was_signalled i (r ∷ rs) = has_signal (get_elem? r.participants i) || was_signalled i rs

-- The participant at the place `i` is ready at every tick of the row.
abbrev pub IsKeen : ℕ → List Participant → List Turn → Type 0
IsKeen i ps turns = All (λ (t : Turn). is_ready t.0 (get_elem? ps i) ≡ true) turns

length-take_signals :
    (takes : ℕ → Bool) (ps : List Participant) → length (take_signals takes ps) ≡ length ps
unfolding take_signals
length-take_signals takes [] = refl
length-take_signals takes (p ∷ ps) = ap suc (length-take_signals takes ps)

is_ready-take_signals :
    (ready takes : ℕ → Bool) (ps : List Participant) (i : ℕ)
    → is_ready ready (get_elem? (take_signals takes ps) i) ≡ is_ready ready (get_elem? ps i)
unfolding take_signals is_ready
is_ready-take_signals ready takes [] i = refl
is_ready-take_signals ready takes (p ∷ ps) zero =
    if_cases (λ (q : Participant). (q.always || ready q.id) ≡ (p.always || ready p.id)) (takes p.id)
      (λ e. refl) (λ e. refl)
is_ready-take_signals ready takes (p ∷ ps) (suc i) = is_ready-take_signals ready takes ps i

has_signal-signalled :
    (ps : List Participant) (i : ℕ)
    → i < length ps
    → has_signal (get_elem? (signalled ps (some i)) i) ≡ true
unfolding signalled
has_signal-signalled ps i hi = elim (Option-cases (get_elem? ps i)) [
  | inl e ↦ absurd (get_elem?_some ps i hi e)
  | inr (p, e) ↦
      rw (signalled, e) (ap has_signal (get_elem?-set_self ps i (record p { signal = true }) hi))
]

-- What is signalled is behind the place that waits, which comes nearer.
ahead_nearer :
    (n start j i : ℕ)
    → start < n
    → j < n
    → i < n
    → (j == i) ≡ false
    → ahead n start j ≤ ahead n start i
    → suc (ahead n (next_of n j) i) ≤ ahead n start i
ahead_nearer n start j i hs hj hi apart le = ground arith

IsKeen-later :
    (i : ℕ) (takes : ℕ → Bool) (ps : List Participant) (o : Option ℕ) (turns : List Turn)
    → IsKeen i ps turns
    → IsKeen i (signalled (take_signals takes ps) o) turns
IsKeen-later i takes ps o [] h = tt
IsKeen-later i takes ps o ((ready, t) ∷ later) (h, hs) = (
  is_ready-signalled ready (take_signals takes ps) o i
      ∙ (is_ready-take_signals ready takes ps i ∙ h),
  IsKeen-later i takes ps o later hs,
)

later_signalled : (b c : Bool) → c ≡ true → (b || c) ≡ true
later_signalled true c h = refl
later_signalled false c h = h

served_within :
    (turns : List Turn) (r : RoundRobin) (i : ℕ)
    → i < length r.participants
    → IsKeen i r.participants turns
    → ahead (length r.participants) (start_of r) i < length turns
    → was_signalled i (run_ticks r turns) ≡ true
unfolding run_ticks after_signal taken
served_within [] r i hi keen near = absurd (omega arith)
served_within ((ready, takes) ∷ later) r i hi (ok, keen) near =
    let t = taken takes r in
    let kept : length t.participants ≡ length r.participants =
      length-take_signals takes r.participants in
    let (j, e, ready_j, hj, le) =
      tick_served t ready i (omega (arith, kept))
        (is_ready-take_signals ready takes r.participants i ∙ ok) in
    let n = length t.participants in
    let next = after_signal t j in
    let same = length-signalled t.participants (some j) in
    let begun : start_of t ≡ start_of r = ap (in_range r.rr) kept in
    rw e (elim (Bool-cases (j == i)) [
      | inl here ↦
          let this : j ≡ i = ground arith in
          rw this (
            ap (λ (b : Bool). b || was_signalled i (run_ticks (after_signal t i) later))
              (has_signal-signalled t.participants i (omega (arith, kept))))
      | inr there ↦
          let begins : start_of next ≡ next_of n j =
            ap (in_range (next_of n j)) same ∙ in_range_self (next_of n j) n (ground arith) in
          let was : ahead n (start_of t) i < suc (length later) = rw (begun, kept) near in
          let nearer : ahead (length next.participants) (start_of next) i < length later =
            rw (begins, same)
              (omega (
                arith,
                ahead_nearer n (start_of t) j i (in_range_lt t.rr n (omega (arith, kept))) hj
                    (omega (arith, kept)) there le,
              )) in
          later_signalled _ _ (
            served_within later next i (omega (arith, same, kept))
              (IsKeen-later i takes r.participants (some j) later keen) nearer)
    ])

-- No participant is passed over: one that is ready at every tick finds a signal in its channel after one
-- of as many ticks as there are participants, from any state, whatever the others answer and whoever
-- takes the signals out before a tick.
pub run_ticks-was_signalled :
    (r : RoundRobin) (i : ℕ) (turns : List Turn)
    → i < length r.participants
    → IsKeen i r.participants turns
    → length r.participants ≤ length turns
    → was_signalled i (run_ticks r turns) ≡ true
run_ticks-was_signalled r i turns hi keen enough =
    let hs : start_of r < length r.participants = in_range_lt r.rr _ (omega arith) in
    served_within turns r i hi keen (ground arith)
