-- ===== src/Webhook/Order.antt =====
-- What holds of every queue after any interleaving of the threads.
use bilirec.Prelude.{
  ℕ, ◌+◌, ◌≤◌, ◌≡◌, refl, sym, ap, ◌∙◌, subst, Bool, true, false, List, [], ◌∷◌, ◌++◌, inl, inr,
  if◌then◌else◌, ◌==◌, arith, append-nil, Bool-cases, if_cases,
}
use bilirec.Webhook.System.{Phase, Cell, RoomWork, Thread, Move, threads_at, update_cell}
use bilirec.Webhook.Balance.{owns, flying, owns_all, flying_all, bit, Fits, owner_Fits, other_Fits}
use bilirec.Webhook.Accounts.{
  held, flights, waits, held-append, flights-append, waits-append, held-threads_at,
  flights-threads_at, flights_none, owns-cases,
}

pub refit : (c : Cell) {n m : ℕ} {ts us : List ℕ} → n ≡ m → ts ≡ us → Fits c n ts → Fits c m us
unfolding Fits
refit c en et (flag, order, shut, small) = (
  sym en ∙ flag,
  ap (λ (ts : List ℕ). c.over ++ (ts ++ c.queue.ch)) (sym et) ∙ order,
  shut,
  small,
)

pub owners_le : (c : Cell) (n : ℕ) (ts : List ℕ) → Fits c n ts → n ≤ 1
unfolding Fits
owners_le c n ts fits = elim (Bool-cases c.queue.scheduled) [
  | inl h ↦ omega (arith, fits.0, ap bit h)
  | inr h ↦ omega (arith, fits.0, ap bit h)
]

module _ (k : ℕ) (before after : List Thread) (w : RoomWork) (this : (w.q == k) ≡ true) where
  held_around :
      (ps : List Phase)
      → held k (before ++ (threads_at w ps ++ after)) ≡ held k before + held k after + owns_all ps
  held_around ps =
      held-append k before (threads_at w ps ++ after)
      ∙ ground (arith, held-append k (threads_at w ps) after, held-threads_at k w ps)

  flights_around :
      (ps : List Phase)
      → flights k (before ++ (threads_at w ps ++ after))
        ≡ flights k before ++ (flying_all ps ++ flights k after)
  flights_around ps =
      flights-append k before (threads_at w ps ++ after)
      ∙ ap (λ (es : List ℕ). flights k before ++ es)
          (flights-append k (threads_at w ps) after ∙ ground (arith, flights-threads_at k w ps))

  waits_put :
      (put : Bool) (pending : List RoomWork)
      → waits k (if put then pending ++ (w ∷ []) else pending) ≡ waits k pending + bit put
  waits_put true pending = waits-append k pending (w ∷ []) ∙ ground arith
  waits_put false pending = omega arith

  module _ {waiting running : ℕ} where
    moved_other :
        (c : Cell) (p : Phase) (pending : List RoomWork) (r : Cell × List Phase) (put : Bool)
        {left : ℕ}
        → Move waiting running c p r put left
        → owns p ≡ 0
        → flying p ≡ []
        → Fits c
            (held k (before ++ (threads_at w (p ∷ []) ++ after)) + waits k pending)
            (flights k (before ++ (threads_at w (p ∷ []) ++ after)))
        → Fits r.0
            (held k (before ++ (threads_at w r.1 ++ after))
              + waits k (if put then pending ++ (w ∷ []) else pending))
            (flights k (before ++ (threads_at w r.1 ++ after)))
    moved_other c p pending r put m o f fits =
        let n = held k before + held k after + waits k pending in
        let taken = flights k before ++ flights k after in
        let first : Fits c n taken =
          refit c (omega (arith, held_around (p ∷ []))) (flights_around (p ∷ []) ∙ rw f refl)
            fits in
        let (next, none_taken) = other_Fits n taken m o first in
        refit r.0 (omega (arith, held_around r.1, waits_put put pending))
          (sym (flights_around r.1 ∙ rw none_taken refl)) next

    moved_owner :
        (c : Cell) (p : Phase) (pending : List RoomWork) (r : Cell × List Phase) (put : Bool)
        {left : ℕ}
        → Move waiting running c p r put left
        → owns p ≡ 1
        → Fits c
            (held k (before ++ (threads_at w (p ∷ []) ++ after)) + waits k pending)
            (flights k (before ++ (threads_at w (p ∷ []) ++ after)))
        → Fits r.0
            (held k (before ++ (threads_at w r.1 ++ after))
              + waits k (if put then pending ++ (w ∷ []) else pending))
            (flights k (before ++ (threads_at w r.1 ++ after)))
    moved_owner c p pending r put m o fits =
        let few = owners_le c _ _ fits in
        let none_before = flights_none k before (omega (arith, held_around (p ∷ []))) in
        let none_after = flights_none k after (omega (arith, held_around (p ∷ []))) in
        let alone : (es : List ℕ) → flights k before ++ (es ++ flights k after) ≡ es =
          λ es. rw (none_before, none_after) (append-nil es) in
        let next = owner_Fits m o (
          refit c (omega (arith, held_around (p ∷ [])))
            (flights_around (p ∷ []) ∙ alone (flying p ++ []) ∙ append-nil (flying p)) fits) in
        refit r.0 (omega (arith, held_around (p ∷ []), held_around r.1, waits_put put pending))
          (sym (flights_around r.1 ∙ alone (flying_all r.1))) next

-- A queue that the thread does not work on.
module _ (k : ℕ) (before after : List Thread) (w : RoomWork) (other : (w.q == k) ≡ false) where
  held_elsewhere :
      (ps : List Phase)
      → held k (before ++ (threads_at w ps ++ after)) ≡ held k before + held k after
  held_elsewhere ps =
      held-append k before (threads_at w ps ++ after)
      ∙ ground (arith, held-append k (threads_at w ps) after, held-threads_at k w ps)

  flights_elsewhere :
      (ps : List Phase)
      → flights k (before ++ (threads_at w ps ++ after)) ≡ flights k before ++ flights k after
  flights_elsewhere ps =
      flights-append k before (threads_at w ps ++ after)
      ∙ ap (λ (es : List ℕ). flights k before ++ es)
          (flights-append k (threads_at w ps) after ∙ ground (arith, flights-threads_at k w ps))

  waits_elsewhere :
      (put : Bool) (pending : List RoomWork)
      → waits k (if put then pending ++ (w ∷ []) else pending) ≡ waits k pending
  waits_elsewhere true pending = waits-append k pending (w ∷ []) ∙ ground arith
  waits_elsewhere false pending = refl

module _ (k : ℕ) (before after : List Thread) (w : RoomWork) {waiting running : ℕ} where
  pub moved_Fits :
      (cells : ℕ → Cell) (p : Phase) (pending : List RoomWork) (r : Cell × List Phase) (put : Bool)
      {left : ℕ}
      → Move waiting running (cells w.q) p r put left
      → Fits
          (cells k)
          (held k (before ++ (threads_at w (p ∷ []) ++ after)) + waits k pending)
          (flights k (before ++ (threads_at w (p ∷ []) ++ after)))
      → Fits
          (update_cell cells w.q r.0 k)
          (held k (before ++ (threads_at w r.1 ++ after))
            + waits k (if put then pending ++ (w ∷ []) else pending))
          (flights k (before ++ (threads_at w r.1 ++ after)))
  unfolding update_cell
  moved_Fits cells p pending r put m fits =
      let n =
        held k (before ++ (threads_at w r.1 ++ after))
        + waits k (if put then pending ++ (w ∷ []) else pending) in
      let taken = flights k (before ++ (threads_at w r.1 ++ after)) in
      if_cases (λ (c : Cell). Fits c n taken) (w.q == k)
        (λ this.
          let here : k ≡ w.q = ground arith in
          let there =
            subst
              (λ (j : ℕ).
                Fits (cells j)
                  (held k (before ++ (threads_at w (p ∷ []) ++ after)) + waits k pending)
                  (flights k (before ++ (threads_at w (p ∷ []) ++ after))))
              here fits in
          elim (owns-cases p) [
            | inl (o, f) ↦ moved_other k before after w this (cells w.q) p pending r put m o f there
            | inr o ↦ moved_owner k before after w this (cells w.q) p pending r put m o there
          ])
        (λ other.
          refit (cells k)
            (omega (
              arith,
              held_elsewhere k before after w other (p ∷ []),
              held_elsewhere k before after w other r.1,
              waits_elsewhere k before after w other put pending,
            ))
            (flights_elsewhere k before after w other (p ∷ [])
              ∙ sym (flights_elsewhere k before after w other r.1))
            fits)
