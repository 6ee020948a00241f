-- ===== src/Webhook/System.antt =====
-- The service of internal/services/webhook/room_queue.go as threads that interleave. A thread is a call
-- of `enqueue`, of `maybeSchedule`, a worker with its room, a delivery, or an eviction. A step is one
-- access to what the threads share: the map of rooms, a queue under its mutex, the flag, the channel
-- `pending`.
use bilirec.Prelude.{
  ℕ, suc, ◌-◌, ◌<◌, ◌≡◌, Bool, true, false, Option, none, some, List, [], ◌∷◌, ◌++◌, if◌then◌else◌,
  length, ◌==◌, lookup, insert, remove,
}
use bilirec.Webhook.{
  RoomQueue, new_room_queue, pending_work_cap, max_concurrent_delivers, Sent, queued, retry, full,
  try_send, claim_schedule, release_schedule, has_backlog, note_empty, evictable, close_queue,
}

-- Where a thread stands that works on a queue.
pub data Phase : Type 0 where
  offering : ℕ → ℕ → Phase
  retrying : ℕ → Phase
  scheduling checked claimed working finished releasing removing : Phase
  starting delivering : ℕ → Phase

-- A queue, with the events it took and those whose delivery is over, in their orders.
pub record Cell : Type 0 where
  pub queue : RoomQueue
  pub accepted : List ℕ
  pub over : List ℕ

abbrev pub new_cell : Cell
new_cell = record { queue = new_room_queue; accepted = []; over = [] }

pub record RoomWork : Type 0 where
  pub room_id : ℕ
  pub q : ℕ

pub record Thread : Type 0 where
  pub work : RoomWork
  pub phase : Phase

-- `rooms` maps a room to its queue, `cells` a queue to what it holds; `used` queues have been made.
-- `acquired` is what `deliverConcurrent` has given out.
pub record Service : Type 0 where
  pub rooms : List (ℕ × ℕ)
  pub cells : ℕ → Cell
  pub used : ℕ
  pub pending : List RoomWork
  pub threads : List Thread
  pub acquired : ℕ

abbrev pub initial_service : Service
initial_service = record {
  rooms = [];
  cells = λ q. new_cell;
  used = 0;
  pending = [];
  threads = [];
  acquired = 0;
}

unfoldable pub update_cell : (ℕ → Cell) → ℕ → Cell → ℕ → Cell
update_cell cells q c k = if q == k then c else cells k

unfoldable pub with_queue : Cell → RoomQueue → Cell
with_queue c q = record c { queue = q }

-- `enqueue` after `trySend`: the attempt is 0 or 1.
unfoldable pub offered : Cell → ℕ → ℕ → RoomQueue × Sent → Cell × List Phase
offered c body attempt (q, queued) =
    (record c { queue = q; accepted = c.accepted ++ (body ∷ []) }, scheduling ∷ [])
offered c body attempt (q, retry) = (c, if attempt == 0 then retrying body ∷ [] else [])
offered c body attempt (q, full) = (c, [])

unfoldable pub offer : Cell → ℕ → ℕ → Cell × List Phase
unfolding offered try_send
offer c body attempt = offered c body attempt (try_send c.queue body)

unfoldable pub claim : Cell → Cell × List Phase
unfolding claim_schedule with_queue
claim c = let r = claim_schedule c.queue in (with_queue c r.0, if r.1 then claimed ∷ [] else [])

unfoldable pub release : Cell → Cell
unfolding with_queue release_schedule
release c = with_queue c (release_schedule c.queue)

-- `processRoomWork` up to `startDeliver`
unfoldable pub process_open : Cell → List ℕ → Cell × List Phase
unfolding with_queue release
process_open c [] = (release c, [])
process_open c (body ∷ rest) = (with_queue c (record c.queue { ch = rest }), starting body ∷ [])

unfoldable pub process : Cell → Cell × List Phase
unfolding process_open release
process c = if c.queue.closed then (release c, []) else process_open c c.queue.ch

-- The end of a delivery, or of one that was given up because the service stops.
unfoldable pub settle : Cell → ℕ → Cell
unfolding release
settle c body = record (release c) { over = c.over ++ (body ∷ []) }

-- A delivery that is over gives its slot back when it returns, behind the call of `maybeSchedule`. The two
-- are threads of their own here, which adds orders to those of the source.
unfoldable pub after_delivery : ℕ → Cell → Cell × List Phase
unfolding has_backlog note_empty with_queue
after_delivery now c = (
  with_queue c (note_empty now c.queue),
  releasing ∷ (if has_backlog c.queue then scheduling ∷ [] else []),
)

-- How a thread moves on a cell: to the cell and the phases it goes on with, and whether it puts its
-- work into `pending`, which holds `waiting` works. The last number is what the semaphore has given out
-- behind the move, where it is `acquired` before: `Acquire` takes a slot, `Release` puts one back.
pub data Move (waiting acquired : ℕ) (c : Cell)
    : Phase → Cell × List Phase → Bool → ℕ → Type 0 where
  offers :
      (body attempt : ℕ)
      → Move waiting acquired c (offering body attempt) (offer c body attempt) false acquired
  checks :
      Move waiting acquired c scheduling
        (c, if c.queue.closed then [] else checked ∷ [])
        false
        acquired
  claims : Move waiting acquired c checked (claim c) false acquired
  puts : waiting < pending_work_cap → Move waiting acquired c claimed (c, []) true acquired
  -- `pending` is full, or the service stops.
  puts_not : Move waiting acquired c claimed (release c, []) false acquired
  processes : Move waiting acquired c working (process c) false acquired
  starts :
      (body : ℕ)
      → acquired < max_concurrent_delivers
      → Move waiting acquired c (starting body) (c, delivering body ∷ []) false (suc acquired)
  -- The service stops.
  gives_up : (body : ℕ) → Move waiting acquired c (starting body) (settle c body, []) false acquired
  delivers_body :
      (body : ℕ)
      → Move waiting acquired c (delivering body) (settle c body, finished ∷ []) false acquired
  goes_on : (now : ℕ) → Move waiting acquired c finished (after_delivery now c) false acquired
  releases : Move waiting acquired c releasing (c, []) false (acquired - 1)

-- `getOrCreateQueue`
unfoldable pub found_queue : Service → ℕ → Option ℕ → Service × ℕ
found_queue s room (some q) = (s, q)
found_queue s room none =
    (record s { rooms = insert room s.used s.rooms; used = suc s.used }, s.used)

unfoldable pub get_or_create_queue : Service → ℕ → Service × ℕ
unfolding found_queue
get_or_create_queue s room = found_queue s room (lookup room s.rooms)

unfoldable pub deleted : Service → ℕ → ℕ → Option ℕ → Service
deleted s room q none = s
deleted s room q (some old) = if old == q then record s { rooms = remove room s.rooms } else s

unfoldable pub compare_and_delete_room : Service → ℕ → ℕ → Service
unfolding deleted
compare_and_delete_room s room q = deleted s room q (lookup room s.rooms)

-- The threads that go on with a work.
unfoldable pub threads_at : RoomWork → List Phase → List Thread
threads_at w [] = []
threads_at w (p ∷ ps) = record { work = w; phase = p } ∷ threads_at w ps

unfoldable pub spawn : Service → RoomWork → Phase → Service
spawn s w p = record s { threads = s.threads ++ (record { work = w; phase = p } ∷ []) }

-- A thread among the others, taken out.
unfoldable pub moved :
    Service → List Thread → RoomWork → List Thread → Cell × List Phase → Bool → ℕ → Service
unfolding update_cell threads_at
moved s before w after (c, ps) put acquired = record s {
  acquired = acquired;
  cells = update_cell s.cells w.q c;
  pending = if put then s.pending ++ (w ∷ []) else s.pending;
  threads = before ++ (threads_at w ps ++ after);
}

pub data Step (s : Service) : Service → Type 0 where
  -- `enqueue` is called.
  call :
      (room body : ℕ)
      → Step s (
          spawn
            (get_or_create_queue s room).0
            (record { room_id = room; q = (get_or_create_queue s room).1 })
            (offering body 0))
  again :
      (before after : List Thread) (w : RoomWork) (body : ℕ)
      → s.threads ≡ before ++ (record { work = w; phase = retrying body } ∷ after)
      → Step s (
          spawn
            (record (get_or_create_queue s w.room_id).0 { threads = before ++ after })
            (record { room_id = w.room_id; q = (get_or_create_queue s w.room_id).1 })
            (offering body 1))
  move :
      (before after : List Thread) (w : RoomWork) (p : Phase) (r : Cell × List Phase) (put : Bool)
      {acquired : ℕ}
      → s.threads ≡ before ++ (record { work = w; phase = p } ∷ after)
      → Move (length s.pending) s.acquired (s.cells w.q) p r put acquired
      → Step s (moved s before w after r put acquired)
  -- A worker takes a work from `pending`.
  take_work :
      (w : RoomWork) (rest : List RoomWork)
      → s.pending ≡ w ∷ rest
      → Step s (spawn (record s { pending = rest }) w working)
  -- `rescheduleBackloggedRooms` and `evictIdleRooms` at one room
  reschedule :
      (w : RoomWork)
      → lookup w.room_id s.rooms ≡ some w.q
      → has_backlog (s.cells w.q).queue ≡ true
      → Step s (spawn s w scheduling)
  evict :
      (now : ℕ) (w : RoomWork)
      → lookup w.room_id s.rooms ≡ some w.q
      → evictable now (s.cells w.q).queue ≡ true
      → Step s (
          spawn
            (record s {
              cells =
                  update_cell s.cells w.q
                    (with_queue (s.cells w.q) (close_queue (s.cells w.q).queue));
            })
            w
            removing)
  remove_room :
      (before after : List Thread) (w : RoomWork)
      → s.threads ≡ before ++ (record { work = w; phase = removing } ∷ after)
      → Step s (record (compare_and_delete_room s w.room_id w.q) { threads = before ++ after })

pub data Reachable : Service → Type 0 where
  begins : Reachable initial_service
  later : {s t : Service} → Reachable s → Step s t → Reachable t
