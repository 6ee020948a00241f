-- ===== src/Webhook/Accounts.antt =====
-- Who owns the flag of a queue, and the events that are on their way, over all threads.
use bilirec.Prelude.{
  ℕ, suc, ◌+◌, ◌≤◌, ◌≡◌, refl, List, [], ◌∷◌, ◌++◌, ◌⊎◌, inl, inr, if◌then◌else◌, length, ◌==◌,
  arith, append_assoc,
}
use bilirec.Webhook.System.{
  Phase, RoomWork, Thread, threads_at, releasing, offering, retrying, scheduling, checked, claimed,
  working, finished, removing, starting, delivering,
}
use bilirec.Webhook.Balance.{owns, flying, owns_all, flying_all}

-- For the queue `k`: the owners of its flag among the threads, the events that threads have taken from
-- it, and its works that wait in `pending`.
abbrev pub held : ℕ → List Thread → ℕ
held k [] = 0
held k (t ∷ ts) = let rest = held k ts in if t.work.q == k then owns t.phase + rest else rest

abbrev pub flights : ℕ → List Thread → List ℕ
flights k [] = []
flights k (t ∷ ts) =
    let rest = flights k ts in if t.work.q == k then flying t.phase ++ rest else rest

abbrev pub waits : ℕ → List RoomWork → ℕ
waits k [] = 0
waits k (w ∷ ws) = let rest = waits k ws in if w.q == k then suc rest else rest

pub owns-cases : (p : Phase) → ((owns p ≡ 0) × (flying p ≡ [])) ⊎ (owns p ≡ 1)
owns-cases claimed = inr refl
owns-cases working = inr refl
owns-cases (starting e) = inr refl
owns-cases (delivering e) = inr refl
owns-cases (offering e a) = inl (refl, refl)
owns-cases (retrying e) = inl (refl, refl)
owns-cases scheduling = inl (refl, refl)
owns-cases checked = inl (refl, refl)
owns-cases finished = inl (refl, refl)
owns-cases releasing = inl (refl, refl)
owns-cases removing = inl (refl, refl)

pub length-flying : (p : Phase) → length (flying p) ≤ owns p
length-flying claimed = omega arith
length-flying working = omega arith
length-flying (starting e) = omega arith
length-flying (delivering e) = omega arith
length-flying (offering e a) = omega arith
length-flying (retrying e) = omega arith
length-flying scheduling = omega arith
length-flying checked = omega arith
length-flying finished = omega arith
length-flying releasing = omega arith
length-flying removing = omega arith

module _ (k : ℕ) where
  pub held-append : (ts us : List Thread) → held k (ts ++ us) ≡ held k ts + held k us
  held-append [] us = omega arith
  held-append (t ∷ ts) us = ground (arith, held-append ts us)

  pub flights-append : (ts us : List Thread) → flights k (ts ++ us) ≡ flights k ts ++ flights k us
  flights-append [] us = refl
  flights-append (t ∷ ts) us =
      ground
        (arith, flights-append ts us, append_assoc (flying t.phase) (flights k ts) (flights k us))

  pub waits-append : (vs ws : List RoomWork) → waits k (vs ++ ws) ≡ waits k vs + waits k ws
  waits-append [] ws = omega arith
  waits-append (v ∷ vs) ws = ground (arith, waits-append vs ws)

  -- The threads that go on with a work of this queue, or of another one.
  pub held-threads_at :
      (w : RoomWork) (ps : List Phase)
      → held k (threads_at w ps) ≡ (if w.q == k then owns_all ps else 0)
  unfolding threads_at
  held-threads_at w [] = ground arith
  held-threads_at w (p ∷ ps) = ground (arith, held-threads_at w ps)

  pub flights-threads_at :
      (w : RoomWork) (ps : List Phase)
      → flights k (threads_at w ps) ≡ (if w.q == k then flying_all ps else [])
  unfolding threads_at
  flights-threads_at w [] = ground arith
  flights-threads_at w (p ∷ ps) = ground (arith, flights-threads_at w ps)

  pub flights_none : (ts : List Thread) → held k ts ≡ 0 → flights k ts ≡ []
  flights_none [] h = refl
  flights_none (t ∷ ts) h = ground (arith, owns-cases t.phase, flights_none ts)
