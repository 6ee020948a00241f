-- ===== src/Webhook.antt =====
-- internal/services/webhook/room_queue.go: the queue of one room. An event is the number of its
-- envelope, a time is a number, and the zero time is `none`.
pub mod System
pub mod Balance
pub mod Accounts
pub mod Order
pub mod Interleaving
pub mod Bounds
pub mod Progress
use bilirec.Prelude.{
  ℕ, ◌+◌, Bool, true, false, ◌&&◌, not, Option, none, some, List, [], ◌∷◌, ◌++◌, if◌then◌else◌,
  length, ltb, leb, ◌==◌,
}

abbrev pub per_room_queue_cap : ℕ
per_room_queue_cap = 32

abbrev pub pending_work_cap : ℕ
pending_work_cap = 64

abbrev pub max_concurrent_delivers : ℕ
max_concurrent_delivers = 8

-- Seconds.
abbrev pub room_idle_evict : ℕ
room_idle_evict = 30

pub record RoomQueue : Type 0 where
  pub ch : List ℕ
  pub closed : Bool
  pub scheduled : Bool
  pub empty_since : Option ℕ

abbrev pub new_room_queue : RoomQueue
new_room_queue = record { ch = []; closed = false; scheduled = false; empty_since = none }

-- The answer of `trySend`: queued, retry, or neither.
pub data Sent : Type 0 where
  queued retry full : Sent

unfoldable pub try_send : RoomQueue → ℕ → RoomQueue × Sent
try_send q body =
    if q.closed
    then (q, retry)
    else if ltb (length q.ch) per_room_queue_cap
    then (record q { ch = q.ch ++ (body ∷ []); empty_since = none }, queued)
    else (q, full)

unfoldable pub claim_schedule : RoomQueue → RoomQueue × Bool
claim_schedule q = if q.scheduled then (q, false) else (record q { scheduled = true }, true)

unfoldable pub release_schedule : RoomQueue → RoomQueue
release_schedule q = record q { scheduled = false }

unfoldable pub is_empty : List ℕ → Bool
is_empty [] = true
is_empty (e ∷ es) = false

-- `backlog` of the tick, and `hasMore` after a delivery
unfoldable pub has_backlog : RoomQueue → Bool
unfolding is_empty
has_backlog q = not q.closed && not (is_empty q.ch)

-- The end of a delivery: the time since which the queue is empty.
unfoldable pub note_empty : ℕ → RoomQueue → RoomQueue
unfolding is_empty
note_empty now q = if not q.closed && is_empty q.ch then record q { empty_since = some now } else q

unfoldable pub idle_long : ℕ → Option ℕ → Bool
idle_long now none = false
idle_long now (some since) = leb (since + room_idle_evict) now

-- Is a queue evicted at the time `now`.
unfoldable pub evictable : ℕ → RoomQueue → Bool
unfolding is_empty idle_long
evictable now q = not q.closed && is_empty q.ch && idle_long now q.empty_since

unfoldable pub close_queue : RoomQueue → RoomQueue
close_queue q = record q { closed = true }
