-- ===== src/Webhook/Interleaving.antt =====
-- What holds of every queue after any interleaving of the threads.
use bilirec.Prelude.{
  ℕ, ◌+◌, ◌≤◌, ◌≡◌, refl, sym, ap, ◌∙◌, subst, true, List, [], ◌∷◌, ◌++◌, length, ◌==◌, arith,
  append-nil, if_cases, length-append, Option, none, some, lookup,
}
use bilirec.Webhook.{RoomQueue, close_queue, evictable, is_empty}
use bilirec.Webhook.System.{
  Cell, RoomWork, Thread, Service, Step, Reachable, begins, later, threads_at, update_cell,
  with_queue, moved, spawn, found_queue, get_or_create_queue, deleted, compare_and_delete_room,
  working, call, again, move, take_work, reschedule, evict, remove_room,
}
use bilirec.Webhook.Balance.{owns, flying, Fits}
use bilirec.Webhook.Accounts.{
  held, flights, waits, held-append, flights-append, owns-cases, length-flying,
}
use bilirec.Webhook.Order.{refit, owners_le, moved_Fits}

-- Every queue fits its owners and the events on their way.
abbrev Orderly : (ℕ → Cell) → List RoomWork → List Thread → Type 0
Orderly cells pending threads =
    (k : ℕ) → Fits (cells k) (held k threads + waits k pending) (flights k threads)

pub IsOrderly : Service → Type 0
IsOrderly s = Orderly s.cells s.pending s.threads

-- A thread that owns nothing joins or leaves.
module _ (k : ℕ) (before after : List Thread) (t : Thread) (o : owns t.phase ≡ 0) where
  held_without : held k (before ++ (t ∷ after)) ≡ held k (before ++ after)
  held_without = rw held-append (ground (arith, held-append k before after))

  flights_without : flights k (before ++ (t ∷ after)) ≡ flights k (before ++ after)
  flights_without =
      flights-append k before (t ∷ after)
      ∙ ground (arith, owns-cases t.phase, flights-append k before after)

join_Orderly :
    (cells : ℕ → Cell) (pending : List RoomWork) (ts : List Thread) (t : Thread)
    → owns t.phase ≡ 0
    → Orderly cells pending ts
    → Orderly cells pending (ts ++ (t ∷ []))
join_Orderly cells pending ts t o h = λ k.
    refit (cells k) (omega (arith, held_without k ts [] t o, ap (held k) (append-nil ts)))
      (sym (flights_without k ts [] t o ∙ ap (flights k) (append-nil ts))) (h k)

leave_Orderly :
    (cells : ℕ → Cell) (pending : List RoomWork) (before after : List Thread) (t : Thread)
    → owns t.phase ≡ 0
    → Orderly cells pending (before ++ (t ∷ after))
    → Orderly cells pending (before ++ after)
leave_Orderly cells pending before after t o h = λ k.
    refit (cells k) (omega (arith, held_without k before after t o))
      (flights_without k before after t o) (h k)

take_Orderly :
    (cells : ℕ → Cell) (w : RoomWork) (rest : List RoomWork) (ts : List Thread)
    → Orderly cells (w ∷ rest) ts
    → Orderly cells rest (ts ++ (record { work = w; phase = working } ∷ []))
take_Orderly cells w rest ts h = λ k.
    refit (cells k)
      (omega (arith, held-append k ts (record { work = w; phase = working } ∷ []), moves k))
      (sym (flights-append k ts (record { work = w; phase = working } ∷ []) ∙ none_new k)) (h k)
  where
    moves :
        (k : ℕ)
        → held k (record { work = w; phase = working } ∷ []) + waits k rest ≡ waits k (w ∷ rest)
    moves k = ground arith

    none_new :
        (k : ℕ)
        → flights k ts ++ flights k (record { work = w; phase = working } ∷ []) ≡ flights k ts
    none_new k = ground (arith, append-nil (flights k ts))

nothing_left : (es : List ℕ) → is_empty es ≡ true → es ≡ []
unfolding is_empty
nothing_left [] h = refl
nothing_left (e ∷ es) h = cc

evictable_empty : (now : ℕ) (q : RoomQueue) → evictable now q ≡ true → is_empty q.ch ≡ true
unfolding evictable
evictable_empty now q h = ground arith

evict_Orderly :
    (cells : ℕ → Cell) (pending : List RoomWork) (ts : List Thread) (q now : ℕ)
    → evictable now (cells q).queue ≡ true
    → Orderly cells pending ts
    → Orderly (update_cell cells q (with_queue (cells q) (close_queue (cells q).queue))) pending ts
unfolding update_cell with_queue close_queue evictable is_empty Fits
evict_Orderly cells pending ts q now e h = λ k.
    if_cases (λ (c : Cell). Fits c (held k ts + waits k pending) (flights k ts)) (q == k)
      (λ this.
        let here : k ≡ q = ground arith in
        let (flag, order, shut, small) =
          subst (λ (j : ℕ). Fits (cells j) (held k ts + waits k pending) (flights k ts)) here
            (h k) in
        (
          flag,
          order,
          λ c. nothing_left (cells q).queue.ch (evictable_empty now (cells q).queue e),
          small,
        ))
      (λ other. h k)

same_parts :
    (s : Service) (room : ℕ) (o : Option ℕ)
    → ((found_queue s room o).0.cells ≡ s.cells)
      × ((found_queue s room o).0.pending ≡ s.pending)
      × ((found_queue s room o).0.threads ≡ s.threads)
unfolding found_queue
same_parts s room none = (refl, refl, refl)
same_parts s room (some q) = (refl, refl, refl)

deleted_parts :
    (s : Service) (room q : ℕ) (o : Option ℕ)
    → ((deleted s room q o).cells ≡ s.cells) × ((deleted s room q o).pending ≡ s.pending)
unfolding deleted
deleted_parts s room q none = (refl, refl)
deleted_parts s room q (some old) =
    if_cases (λ (t : Service). (t.cells ≡ s.cells) × (t.pending ≡ s.pending)) (old == q)
      (λ e. (refl, refl)) (λ e. (refl, refl))

step_IsOrderly : {s t : Service} → Step s t → IsOrderly s → IsOrderly t
unfolding IsOrderly spawn moved get_or_create_queue compare_and_delete_room threads_at
step_IsOrderly {s = s} (call room body) h =
    let (c, p, ts) = same_parts s room (lookup room s.rooms) in
    join_Orderly _ _ _ _ refl (rw (c, p, ts) h)
step_IsOrderly {s = s} (again before after w body e) h =
    let (c, p, ts) = same_parts s w.room_id (lookup w.room_id s.rooms) in
    join_Orderly _ _ _ _ refl
      (rw (c, p) (leave_Orderly _ _ before after _ refl (subst (Orderly s.cells s.pending) e h)))
step_IsOrderly {s = s} (move before after w p r put e m) h = λ k.
    moved_Fits k before after w s.cells p s.pending r put m
      (subst (Orderly s.cells s.pending) e h k)
step_IsOrderly {s = s} (take_work w rest e) h =
    take_Orderly s.cells w rest s.threads
      (subst (λ (ws : List RoomWork). Orderly s.cells ws s.threads) e h)
step_IsOrderly {s = s} (reschedule w l b) h = join_Orderly _ _ _ _ refl h
step_IsOrderly {s = s} (evict now w l e) h =
    join_Orderly _ _ _ _ refl (evict_Orderly s.cells s.pending s.threads w.q now e h)
step_IsOrderly {s = s} (remove_room before after w e) h =
    let (c, p) = deleted_parts s w.room_id w.q (lookup w.room_id s.rooms) in
    rw (c, p) (leave_Orderly _ _ before after _ refl (subst (Orderly s.cells s.pending) e h))

orderly : {s : Service} → Reachable s → IsOrderly s
unfolding IsOrderly Fits
orderly begins = λ k. (refl, refl, λ h. refl, omega arith)
orderly (later r step) = step_IsOrderly step (orderly r)

-- After any interleaving of calls, workers, deliveries and evictions, of every queue: its flag is set
-- exactly if one work waits in `pending` or one thread owns it, and there is never a second one; the
-- events that it took are, in their order, those whose delivery is over, the one on its way, and those in
-- the channel; it is empty if it is closed; and the channel is within its capacity.
pub Reachable-Fits :
    (s : Service) (k : ℕ)
    → Reachable s
    → Fits (s.cells k) (held k s.threads + waits k s.pending) (flights k s.threads)
unfolding IsOrderly
Reachable-Fits s k r = orderly r k

flights_few : (k : ℕ) (ts : List Thread) → length (flights k ts) ≤ held k ts
flights_few k [] = omega arith
flights_few k (t ∷ ts) =
    ground (
      arith,
      length-append (flying t.phase) (flights k ts),
      length-flying t.phase,
      flights_few k ts,
    )

-- Of the events of a queue at most one is on its way at any time.
pub length-flights_le : (s : Service) (k : ℕ) → Reachable s → length (flights k s.threads) ≤ 1
length-flights_le s k r =
    omega (arith, flights_few k s.threads, owners_le _ _ _ (Reachable-Fits s k r))
