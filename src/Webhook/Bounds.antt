-- ===== src/Webhook/Bounds.antt =====
-- The capacity of `pending`, and the slots of the semaphore.
use bilirec.Prelude.{
  ℕ, ◌+◌, ◌≤◌, ◌≡◌, refl, ap, Bool, true, false, List, [], ◌∷◌, ◌++◌, if◌then◌else◌, length, ◌==◌,
  ltb, arith, if_cases, length-append, Option, none, some, lookup,
}
use bilirec.Webhook.{RoomQueue, per_room_queue_cap, Sent, try_send, has_backlog, claim_schedule}
use bilirec.Webhook.System.{
  Phase, Cell, RoomWork, Thread, Service, Move, Step, Reachable, begins, later, threads_at, moved,
  spawn, found_queue, get_or_create_queue, deleted, compare_and_delete_room, offered, offer, claim,
  process, process_open, after_delivery, offering, retrying, scheduling, checked, claimed, working,
  removing, call, again, move, take_work, reschedule, evict, remove_room, offers, checks, claims,
  puts, puts_not, processes, starts, gives_up, delivers_body, goes_on, releases, finished,
  releasing, starting, delivering,
}

-- The slots that a thread holds at a phase: from `Acquire` to `Release`.
abbrev pub slots_of : Phase → ℕ
slots_of (offering body attempt) = 0
slots_of (retrying body) = 0
slots_of scheduling = 0
slots_of checked = 0
slots_of claimed = 0
slots_of working = 0
slots_of finished = 1
slots_of releasing = 1
slots_of removing = 0
slots_of (starting body) = 0
slots_of (delivering body) = 1

abbrev pub slots : List Thread → ℕ
slots [] = 0
slots (t ∷ ts) = slots_of t.phase + slots ts

abbrev delivers_of : Phase → ℕ
delivers_of (offering body attempt) = 0
delivers_of (retrying body) = 0
delivers_of scheduling = 0
delivers_of checked = 0
delivers_of claimed = 0
delivers_of working = 0
delivers_of finished = 0
delivers_of releasing = 0
delivers_of removing = 0
delivers_of (starting body) = 0
delivers_of (delivering body) = 1

-- The deliveries under way.
abbrev pub delivers : List Thread → ℕ
delivers [] = 0
delivers (t ∷ ts) = delivers_of t.phase + delivers ts

delivers_of_le : (p : Phase) → delivers_of p ≤ slots_of p
delivers_of_le (offering body attempt) = omega arith
delivers_of_le (retrying body) = omega arith
delivers_of_le scheduling = omega arith
delivers_of_le checked = omega arith
delivers_of_le claimed = omega arith
delivers_of_le working = omega arith
delivers_of_le finished = omega arith
delivers_of_le releasing = omega arith
delivers_of_le removing = omega arith
delivers_of_le (starting body) = omega arith
delivers_of_le (delivering body) = omega arith

delivers-slots_le : (ts : List Thread) → delivers ts ≤ slots ts
delivers-slots_le [] = omega arith
delivers-slots_le (t ∷ ts) = omega (arith, delivers_of_le t.phase, delivers-slots_le ts)

slots-append : (ts us : List Thread) → slots (ts ++ us) ≡ slots ts + slots us
slots-append [] us = omega arith
slots-append (t ∷ ts) us = omega (arith, slots-append ts us)

abbrev slots_at : RoomWork → List Phase → ℕ
slots_at w ps = slots (threads_at w ps)

-- Phases that hold no slot.
offer_quiet : (w : RoomWork) (c : Cell) (body attempt : ℕ) → slots_at w (offer c body attempt).1 ≡ 0
unfolding offer try_send offered threads_at
offer_quiet w c body attempt =
    if_cases result c.queue.closed
      (λ h.
        if_cases (λ (ps : List Phase). slots_at w ps ≡ 0) (attempt == 0) (λ e. refl) (λ e. refl))
      (λ h. if_cases result (ltb (length c.queue.ch) per_room_queue_cap) (λ e. refl) (λ e. refl))
  where
    result : RoomQueue × Sent → Type 0
    result t = slots_at w (offered c body attempt t).1 ≡ 0

test_quiet :
    (w : RoomWork) (b : Bool) (ps : List Phase)
    → slots_at w ps ≡ 0
    → (slots_at w (if b then ps else []) ≡ 0) × (slots_at w (if b then [] else ps) ≡ 0)
unfolding threads_at
test_quiet w true ps h = (h, refl)
test_quiet w false ps h = (refl, h)

process_open_quiet : (w : RoomWork) (c : Cell) (es : List ℕ) → slots_at w (process_open c es).1 ≡ 0
unfolding process_open threads_at
process_open_quiet w c [] = refl
process_open_quiet w c (e ∷ es) = refl

process_quiet : (w : RoomWork) (c : Cell) → slots_at w (process c).1 ≡ 0
unfolding process threads_at
process_quiet w c =
    if_cases (λ (r : Cell × List Phase). slots_at w r.1 ≡ 0) c.queue.closed (λ h. refl)
      (λ h. process_open_quiet w c c.queue.ch)

-- What the semaphore has given out changes as the slots of the moving thread do.
abbrev Balances : ℕ → ℕ → ℕ → ℕ → Type 0
Balances running before after left = (left + before ≡ running + after) × (left ≤ 8)

Move-Balances :
    {waiting running left : ℕ} {c : Cell} {p : Phase} {r : Cell × List Phase} {put : Bool}
    (w : RoomWork)
    → Move waiting running c p r put left
    → running ≤ 8
    → slots_of p ≤ running
    → Balances running (slots_of p) (slots_at w r.1) left
unfolding threads_at claim after_delivery
Move-Balances {c = c} w (offers body attempt) h held =
    (omega (arith, offer_quiet w c body attempt), h)
Move-Balances {c = c} w checks h held =
    (omega (arith, (test_quiet w c.queue.closed (checked ∷ []) refl).1), h)
Move-Balances {c = c} w claims h held =
    (omega (arith, (test_quiet w (claim_schedule c.queue).1 (claimed ∷ []) refl).0), h)
Move-Balances {c = c} w processes h held = (omega (arith, process_quiet w c), h)
Move-Balances w (starts body room) h held = (omega arith, omega (arith, room))
Move-Balances {c = c} w (goes_on now) h held =
    (omega (arith, (test_quiet w (has_backlog c.queue) (scheduling ∷ []) refl).0), h)
Move-Balances w releases h held = (omega (arith, held), omega arith)
Move-Balances w m h held = (omega arith, omega arith)

-- The semaphore has given out what the threads hold.
abbrev IsBounded : Service → Type 0
IsBounded s = (length s.pending ≤ 64) × (s.acquired ≡ slots s.threads) × (slots s.threads ≤ 8)

-- A list of threads with a quiet one more, or less.
quiet_joins :
    (ts : List Thread) (t : Thread) → slots_of t.phase ≡ 0 → slots (ts ++ (t ∷ [])) ≡ slots ts
quiet_joins ts t h = omega (arith, slots-append ts (t ∷ []))

quiet_leaves :
    (before after ts : List Thread) (t : Thread)
    → ts ≡ before ++ (t ∷ after)
    → slots_of t.phase ≡ 0
    → slots (before ++ after) ≡ slots ts
quiet_leaves before after ts t e h =
    omega (arith, ap slots e, slots-append before (t ∷ after), slots-append before after)

moved_slots :
    {waiting left : ℕ} {c : Cell} {p : Phase} {r : Cell × List Phase} {put : Bool} (running : ℕ)
    (before after ts : List Thread) (w : RoomWork)
    → ts ≡ before ++ (record { work = w; phase = p } ∷ after)
    → Move waiting running c p r put left
    → running ≡ slots ts
    → slots ts ≤ 8
    → (left ≡ slots (before ++ (threads_at w r.1 ++ after)))
      × (slots (before ++ (threads_at w r.1 ++ after)) ≤ 8)
moved_slots {p = p} {r = r} running before after ts w e m same h =
    let now = slots-append before (threads_at w r.1 ++ after) in
    let now' = slots-append (threads_at w r.1) after in
    let was = slots-append before (record { work = w; phase = p } ∷ after) in
    let (balance, few) =
      Move-Balances w m (omega (arith, same, h)) (omega (arith, same, was, ap slots e)) in
    (
      omega (arith, balance, now, now', was, ap slots e, same),
      omega (arith, balance, few, now, now', was, ap slots e, same),
    )

puts_room :
    {waiting running : ℕ} {c : Cell} {p : Phase} {r : Cell × List Phase} {put : Bool} {left : ℕ}
    (w : RoomWork) (pending : List RoomWork)
    → length pending ≡ waiting
    → Move waiting running c p r put left
    → length pending ≤ 64
    → length (if put then pending ++ (w ∷ []) else pending) ≤ 64
puts_room w pending e (puts room) h = omega (arith, e, room, length-append pending (w ∷ []))
puts_room w pending e (offers body attempt) h = h
puts_room w pending e checks h = h
puts_room w pending e claims h = h
puts_room w pending e puts_not h = h
puts_room w pending e processes h = h
puts_room w pending e (starts body i) h = h
puts_room w pending e (gives_up body) h = h
puts_room w pending e (delivers_body body) h = h
puts_room w pending e (goes_on now) h = h
puts_room w pending e releases h = h

found_parts :
    (s : Service) (room : ℕ) (o : Option ℕ)
    → ((found_queue s room o).0.pending ≡ s.pending)
      × ((found_queue s room o).0.threads ≡ s.threads)
      × ((found_queue s room o).0.acquired ≡ s.acquired)
unfolding found_queue
found_parts s room none = (refl, refl, refl)
found_parts s room (some q) = (refl, refl, refl)

deleted_parts :
    (s : Service) (room q : ℕ) (o : Option ℕ)
    → ((deleted s room q o).pending ≡ s.pending) × ((deleted s room q o).acquired ≡ s.acquired)
unfolding deleted
deleted_parts s room q none = (refl, refl)
deleted_parts s room q (some old) =
    if_cases (λ (t : Service). (t.pending ≡ s.pending) × (t.acquired ≡ s.acquired)) (old == q)
      (λ e. (refl, refl)) (λ e. (refl, refl))

step_IsBounded : {s t : Service} → Step s t → IsBounded s → IsBounded t
unfolding spawn moved get_or_create_queue compare_and_delete_room
step_IsBounded {s = s} (call room body) (hp, hs, hd) =
    let (p, ts, a) = found_parts s room (lookup room s.rooms) in
    let joins =
      quiet_joins (get_or_create_queue s room).0.threads
        (record {
          work = record { room_id = room; q = (get_or_create_queue s room).1 };
          phase = offering body 0;
        })
        refl in
    (rw p hp, omega (arith, joins, ap slots ts, a, hs), omega (arith, joins, ap slots ts, hd))
step_IsBounded {s = s} (again before after w body e) (hp, hs, hd) =
    let (p, ts, a) = found_parts s w.room_id (lookup w.room_id s.rooms) in
    let joins =
      quiet_joins (before ++ after)
        (record {
          work = record { room_id = w.room_id; q = (get_or_create_queue s w.room_id).1 };
          phase = offering body 1;
        })
        refl in
    let leaves =
      quiet_leaves before after s.threads (record { work = w; phase = retrying body }) e refl in
    (rw p hp, omega (arith, joins, leaves, a, hs), omega (arith, joins, leaves, hd))
step_IsBounded {s = s} (move before after w p r put e m) (hp, hs, hd) =
    let (kept, few) = moved_slots s.acquired before after s.threads w e m hs hd in
    (puts_room w s.pending refl m hp, kept, few)
step_IsBounded {s = s} (take_work w rest e) (hp, hs, hd) =
    let joins = quiet_joins s.threads (record { work = w; phase = working }) refl in
    (omega (arith, hp, ap length e), omega (arith, joins, hs), omega (arith, joins, hd))
step_IsBounded {s = s} (reschedule w l b) (hp, hs, hd) =
    let joins = quiet_joins s.threads (record { work = w; phase = scheduling }) refl in
    (hp, omega (arith, joins, hs), omega (arith, joins, hd))
step_IsBounded {s = s} (evict now w l e) (hp, hs, hd) =
    let joins = quiet_joins s.threads (record { work = w; phase = removing }) refl in
    (hp, omega (arith, joins, hs), omega (arith, joins, hd))
step_IsBounded {s = s} (remove_room before after w e) (hp, hs, hd) =
    let (p, a) = deleted_parts s w.room_id w.q (lookup w.room_id s.rooms) in
    let leaves =
      quiet_leaves before after s.threads (record { work = w; phase = removing }) e refl in
    (rw p hp, omega (arith, leaves, a, hs), omega (arith, leaves, hd))

bounded : {s : Service} → Reachable s → IsBounded s
bounded begins = (omega arith, refl, omega arith)
bounded (later r step) = step_IsBounded step (bounded r)

-- After any interleaving the semaphore has given out exactly the slots that deliveries hold, which are under
-- way or have not given theirs back yet: none is lost and none is given back twice. These are at most 8, and
-- so are the deliveries under way; at most 64 works are in `pending`.
pub delivers_le :
    (s : Service)
    → Reachable s
    → (s.acquired ≡ slots s.threads)
      × (s.acquired ≤ 8)
      × (delivers s.threads ≤ s.acquired)
      × (length s.pending ≤ 64)
delivers_le s r =
    let (hp, hs, hd) = bounded r in
    (hs, omega (arith, hs, hd), omega (arith, hs, delivers-slots_le s.threads), hp)
