-- ===== src/RoundRobin/Targets.antt =====
-- Where the inner loop of a tick stops.
use bilirec.Prelude.{
  ℕ, zero, suc, ◌+◌, ◌-◌, ◌%◌, ◌<◌, ◌≤◌, ◌≡◌, ◌≢◌, ap, ◌∙◌, inl, inr, Bool, true, false, some, List,
  if◌then◌else◌, if_cases, if_true, if_false, length, get_elem?, leb, ◌==◌, arith, Bool-cases,
}
use native.Mathlib.Nat.{mod-eq_of_lt, mod_self}
use bilirec.RoundRobin.{Participant, is_ready, find_target}

-- How far the place `i` is ahead of `rr`, going round `n` places.
abbrev pub ahead : ℕ → ℕ → ℕ → ℕ
ahead n rr i = if leb rr i then i - rr else i + n - rr

-- The place after `rr`.
abbrev pub next_of : ℕ → ℕ → ℕ
next_of n rr = if suc rr == n then 0 else suc rr

next_mod : (n rr : ℕ) → rr < n → suc rr % n ≡ next_of n rr
next_mod n rr h =
    if_cases (λ (t : ℕ). suc rr % n ≡ t) (suc rr == n)
      (λ e. let whole : suc rr ≡ n = ground arith in ap (λ (t : ℕ). t % n) whole ∙ mod_self n)
      (λ e. mod-eq_of_lt (ground arith))

module _ (ready : ℕ → Bool) (ps : List Participant) (start : ℕ) where
  stops_here :
      (m rr : ℕ)
      → rr < length ps
      → is_ready ready (get_elem? ps rr) ≡ true
      → find_target (suc m) ready ps start rr ≡ (some rr, next_of (length ps) rr)
  unfolding find_target
  stops_here m rr hr yes_ready =
      if_true _ _ yes_ready ∙ ap (λ (t : ℕ). (some rr, t)) (next_mod (length ps) rr hr)

  goes_further :
      (m rr : ℕ)
      → rr < length ps
      → is_ready ready (get_elem? ps rr) ≡ false
      → next_of (length ps) rr ≢ start
      → find_target (suc m) ready ps start rr
        ≡ find_target m ready ps start (next_of (length ps) rr)
  unfolding find_target
  goes_further m rr hr not_ready apart =
      let later : (next_of (length ps) rr == start) ≡ false = ground (arith, apart) in
      if_false _ _ not_ready ∙ rw (next_mod (length ps) rr hr) (if_false _ _ later)

  -- The loop stops at a ready place, and not behind `i`.
  unfoldable pub Stops : ℕ → ℕ → ℕ → Type 0
  Stops m rr i =
      (j : ℕ) × (find_target m ready ps start rr ≡ (some j, next_of (length ps) j))
      × (is_ready ready (get_elem? ps j) ≡ true)
      × (j < length ps)
      × (ahead (length ps) rr j ≤ ahead (length ps) rr i)

  Stops-further :
      (m rr i : ℕ)
      → rr < length ps
      → i < length ps
      → rr ≢ i
      → is_ready ready (get_elem? ps rr) ≡ false
      → next_of (length ps) rr ≢ start
      → Stops m (next_of (length ps) rr) i
      → Stops (suc m) rr i
  unfolding Stops
  Stops-further m rr i hr hi other not_ready apart (j, e, ready_j, hj, le) =
      (j, goes_further m rr hr not_ready apart ∙ e, ready_j, hj, ground arith)

  -- A ready place that the loop reaches before it is round.
  pub find_target_ahead :
      (m rr i : ℕ)
      → rr < length ps
      → i < length ps
      → start < length ps
      → is_ready ready (get_elem? ps i) ≡ true
      → ahead (length ps) rr i < m
      → ahead (length ps) start rr + ahead (length ps) rr i < length ps
      → Stops m rr i
  unfolding Stops
  find_target_ahead zero rr i hr hi hs ok near round = absurd (omega arith)
  find_target_ahead (suc m) rr i hr hi hs ok near round =
      elim (Bool-cases (is_ready ready (get_elem? ps rr))) [
        | inl here ↦ (rr, stops_here m rr hr here, here, hr, ground arith)
        | inr not_here ↦
            let other : rr ≢ i = λ e. cc (ap (λ (k : ℕ). is_ready ready (get_elem? ps k)) e) in
            Stops-further m rr i hr hi other not_here (ground arith) (
              find_target_ahead m (next_of (length ps) rr) i (ground arith) hi hs ok (ground arith)
                (ground arith))
      ]
