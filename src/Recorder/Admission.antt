-- ===== src/Recorder/Admission.antt =====
-- Admission of recordings: the transaction of `NewService`, `Start` and `Stop` of
-- internal/services/recorder/recorder.go, `GetStatus` of stats.go and `commitSession` of
-- start_internal.go. The map `recording` is an association list by room. A session stands for its
-- `*Info`; `idle` is the status of a room without one.
pub mod Load
pub mod Limit
use bilirec.Prelude.{
  ℕ, ◌+◌, Bool, true, false, ◌&&◌, Option, none, some, List, [], ◌∷◌, ◌==◌, if◌then◌else◌, length,
  ltb, lookup, insert, remove, ◌≡◌,
}
use bilirec.Ds.Set
use bilirec.Tx.Pending.{
  PendingTxn, TxError, txn_closed, already_reserved, failed, Shared, Result, reserve, abort_with,
  confirm_with,
}

pub data RecordStatus : Type 0 where
  recording_now : RecordStatus
  recovering : RecordStatus
  idle : RecordStatus

pub data RecordError : Type 0 where
  max_concurrent_recordings_reached : RecordError
  recording_started : RecordError
  record_recovering : RecordError
  recording_pending : RecordError

pub record Info : Type 0 where
  pub session : ℕ
  pub status : RecordStatus

abbrev pub Recordings : Type 0
Recordings = List (ℕ × Info)

unfoldable pub status_of : Option Info → RecordStatus
status_of none = idle
status_of (some info) = info.status

-- `GetStatus`
unfoldable pub get_status : ℕ → Recordings → RecordStatus
unfolding status_of
get_status room recordings = status_of (lookup room recordings)

unfoldable pub over_limit : RecordStatus → Option RecordError
over_limit recovering = none
over_limit recording_now = some max_concurrent_recordings_reached
over_limit idle = some max_concurrent_recordings_reached

-- The validation that `NewService` gives to the transaction, where `pending` has the room already.
unfoldable pub admit : ℕ → RecordStatus → List ℕ → Recordings → Option RecordError
unfolding over_limit
admit max recording_now pending recordings = some recording_started
admit max recovering pending recordings =
    if ltb max (length recordings + length pending) then over_limit recovering else none
admit max idle pending recordings =
    if ltb max (length recordings + length pending) then over_limit idle else none

unfoldable pub validate : ℕ → ℕ → List ℕ → Recordings → Option RecordError
unfolding admit get_status
validate max room pending recordings = admit max (get_status room recordings) pending recordings

-- The error that `Start` gives before the transaction.
unfoldable pub start_refusal : RecordStatus → Option RecordError
start_refusal recording_now = some recording_started
start_refusal recovering = some record_recovering
start_refusal idle = none

-- `Stop` on the map: was the room recorded, and the map after.
unfoldable pub stop : ℕ → Recordings → Bool × Recordings
unfolding status_of
stop room recordings = elim (lookup room recordings) [
  | none ↦ (false, recordings)
  | some info ↦ (true, remove room recordings)
]

-- `info.status.Store`, which the map shows where it still holds that session.
unfoldable pub store_status : ℕ → ℕ → RecordStatus → Option Info → Recordings → Recordings
store_status room session status none recordings = recordings
store_status room session status (some info) recordings =
    if info.session == session
    then insert room (record info { status = status }) recordings
    else recordings

-- The confirm hooks of `commitSession`, for a user's start and for a recovery.
unfoldable pub commit_user : ℕ → ℕ → Recordings → Recordings
commit_user room session recordings =
    insert room (record { session = session; status = recording_now }) recordings

unfoldable pub set_status : ℕ → ℕ → RecordStatus → Recordings → Recordings
unfolding store_status
set_status room session status recordings =
    store_status room session status (lookup room recordings) recordings

-- The service: the shared state of the transactions, and the rooms whose transaction is under way.
pub record Admission : Type 0 where
  pub shared : Shared Recordings
  pub live : List ℕ

-- A transaction that has reserved its room.
abbrev pub reserved_txn : ℕ → PendingTxn
reserved_txn room = record { reserved = true; closed = false; key = room }

abbrev pub begin_txn : PendingTxn
begin_txn = record { reserved = false; closed = false; key = 0 }

unfoldable pub entered :
    Admission → ℕ → Result RecordError Recordings → Option (TxError RecordError) → Admission
entered a room r none = record { shared = r.shared; live = room ∷ a.live }
entered a room r (some e) = record { shared = r.shared; live = a.live }

-- `Begin` and `Reserve` of `internalStart`
unfoldable pub begin_start : ℕ → Admission → ℕ → Admission
unfolding entered
begin_start max a room =
    let r = reserve (validate max) begin_txn a.shared room in entered a room r r.error

unfoldable pub closed_with : Admission → ℕ → PendingTxn × Shared Recordings → Admission
closed_with a room r = record { shared = r.1; live = (Set.remove room a.live).1 }

-- What can happen to the service, in any order: a start or a recovery enters its transaction, gives it up
-- or commits, a room is stopped, and a session loses its stream.
pub data Step (max : ℕ) : Admission → Admission → Type 0 where
  reserves : {a : Admission} (room : ℕ) → Step max a (begin_start max a room)
  aborts :
      {a : Admission} (room : ℕ)
      → Set.contains room a.live ≡ true
      → Step max a (closed_with a room (abort_with (λ w. w) (reserved_txn room) a.shared room))
  starts :
      {a : Admission} (room session : ℕ)
      → Set.contains room a.live ≡ true
      → Step max a (
          closed_with a room
            (confirm_with (commit_user room session) (reserved_txn room) a.shared room))
  recovers :
      {a : Admission} (room session : ℕ)
      → Set.contains room a.live ≡ true
      → Step max a (
          closed_with a room (
            confirm_with (set_status room session recording_now) (reserved_txn room) a.shared room))
  stops :
      {a : Admission} (room : ℕ)
      → Step max a (record a { shared = record a.shared { world = (stop room a.shared.world).1 } })
  loses_stream :
      {a : Admission} (room session : ℕ)
      → Step max a (record a {
        shared = record a.shared { world = set_status room session recovering a.shared.world };
      })

pub data Reachable (max : ℕ) : Admission → Type 0 where
  initial : Reachable max (record { shared = record { pending = []; world = [] }; live = [] })
  after : {a b : Admission} → Reachable max a → Step max a b → Reachable max b
