-- ===== src/Subcheck.antt =====
-- internal/services/subcheck: check.go, as far as one room goes, and schedule.go, with the sequence of
-- delays of pkg/backoff. The maps of the service are keyed by room, and rooms do not touch each other. The
-- room's information, its configuration, the state and the answer of the recorder, and the clock are
-- arguments. The bucket, which repeats the session key, the metrics and the options of a recording are left
-- out.
pub mod Stages
pub mod Attempts
pub mod Schedule
use bilirec.Prelude.{
  ℕ, suc, ◌+◌, ◌-◌, Bool, true, false, ◌&&◌, ◌||◌, not, Option, none, some, List, [], ◌∷◌, ◌++◌,
  if◌then◌else◌, length, get_or, ltb, leb, ◌==◌,
}

abbrev pub max_auto_start_attempts : ℕ
max_auto_start_attempts = 6

-- Milliseconds.
abbrev pub auto_start_retry_delays : List ℕ
auto_start_retry_delays = 1000 ∷ 1000 ∷ 2000 ∷ 3000 ∷ 5000 ∷ []

-- `Sequence` of pkg/backoff, whose delays are not empty.
pub record Sequence : Type 0 where
  pub delays : List ℕ
  pub index : ℕ

unfoldable pub new_sequence : List ℕ → Sequence
new_sequence delays = record { delays = delays; index = 0 }

-- `Next`
unfoldable pub next_delay : Sequence → Sequence × ℕ
next_delay q =
    if leb (length q.delays) q.index
    then (q, get_or q.delays (length q.delays - 1) 0)
    else (record q { index = suc q.index }, get_or q.delays q.index 0)

-- A session key: by which field it was made, and the field.
abbrev pub SessionKey : Type 0
SessionKey = ℕ × ℕ

unfoldable pub same_key : SessionKey → SessionKey → Bool
same_key (a, b) (c, d) = a == c && b == d

-- A text that counts as missing is 0.
pub record LiveRoomInfo : Type 0 where
  pub live_status : ℕ
  pub live_id_str : ℕ
  pub live_id : ℕ
  pub live_time : ℕ

unfoldable pub resolve_live_session_key : LiveRoomInfo → Option SessionKey
resolve_live_session_key info =
    if not (info.live_id_str == 0)
    then some (0, info.live_id_str)
    else if ltb 0 info.live_id
    then some (1, info.live_id)
    else if not (info.live_time == 0)
    then some (2, info.live_time)
    else none

pub record RoomConfig : Type 0 where
  pub notify : Bool
  pub auto_record : Bool

unfoldable pub needs_live_action : Option RoomConfig → Bool
needs_live_action none = false
needs_live_action (some cfg) = cfg.notify || cfg.auto_record

pub record AutoStartRetry : Type 0 where
  pub session_key : SessionKey
  pub attempts : ℕ
  pub due_at : ℕ
  pub delays : Sequence

-- The entries of a room in `sessionKeys` and `autoStartRetry`.
pub record RoomState : Type 0 where
  pub stored : Option SessionKey
  pub retry : Option AutoStartRetry

-- What the error of `recorder.Start` means.
pub data StartResult : Type 0 where
  completes pending transient permanent : StartResult

pub data LiveState : Type 0 where
  live_detected auto_record_started auto_record_retry_started auto_record_failed : LiveState

-- What a check does to the outside.
pub data Effect : Type 0 where
  stream_started : Effect
  stream_ended : Effect
  start_called : Effect
  published : LiveState → Effect

-- What a check of a room meets: `busy` says that it is recorded or recovering, `later` is the time when a
-- retry is stored.
pub record Check : Type 0 where
  pub info : Option LiveRoomInfo
  pub cfg : Option RoomConfig
  pub busy : Bool
  pub result : StartResult
  pub now : ℕ
  pub later : ℕ

unfoldable pub has_key : Option SessionKey → SessionKey → Bool
unfolding same_key
has_key none key = false
has_key (some k) key = same_key k key

-- The retry of this session, if there is one.
unfoldable pub current_retry : Option AutoStartRetry → SessionKey → Option AutoStartRetry
unfolding same_key
current_retry none key = none
current_retry (some r) key = if same_key r.session_key key then some r else none

unfoldable pub is_some : Option AutoStartRetry → Bool
is_some none = false
is_some (some r) = true

-- `clearSessionState`, with the event if a session had been stored.
unfoldable pub clear_session_state : RoomState → RoomState × List Effect
clear_session_state s = (
  record { stored = none; retry = none },
  elim s.stored [ none ↦ [] | some key ↦ stream_ended ∷ [] ],
)

-- Where the start of a recording was tried, or not.
pub record Attempt : Type 0 where
  pub state : LiveState
  pub mark_now : Bool
  pub next_retry : Option AutoStartRetry
  pub called : List Effect

unfoldable pub attempts_of : Option AutoStartRetry → ℕ
attempts_of none = 1
attempts_of (some r) = suc r.attempts

unfoldable pub delays_of : Option AutoStartRetry → Sequence
unfolding new_sequence
delays_of none = new_sequence auto_start_retry_delays
delays_of (some r) = r.delays

-- The retry that is stored behind a failure that may pass.
unfoldable pub schedule_retry : SessionKey → ℕ → Option AutoStartRetry → AutoStartRetry
unfolding attempts_of delays_of next_delay
schedule_retry key later retry =
    let q = next_delay (delays_of retry) in
    record { session_key = key; attempts = attempts_of retry; due_at = later + q.1; delays = q.0 }

unfoldable pub failed_state : Option AutoStartRetry → LiveState
failed_state none = auto_record_failed
failed_state (some r) = live_detected

unfoldable pub after_start : SessionKey → ℕ → Option AutoStartRetry → StartResult → Attempt
unfolding schedule_retry failed_state is_some attempts_of
after_start key later retry completes = record {
  state = if is_some retry then auto_record_retry_started else auto_record_started;
  mark_now = true;
  next_retry = none;
  called = start_called ∷ [];
}
after_start key later retry pending = record {
  state = live_detected;
  mark_now = false;
  next_retry = none;
  called = start_called ∷ [];
}
after_start key later retry transient =
    let again = ltb (attempts_of retry) max_auto_start_attempts in
    record {
      state = failed_state retry;
      mark_now = not again;
      next_retry = if again then some (schedule_retry key later retry) else none;
      called = start_called ∷ [];
    }
after_start key later retry permanent = record {
  state = failed_state retry;
  mark_now = true;
  next_retry = none;
  called = start_called ∷ [];
}

unfoldable pub not_tried : Attempt
not_tried = record { state = live_detected; mark_now = true; next_retry = none; called = [] }

unfoldable pub wants_record : Option RoomConfig → Bool
wants_record none = false
wants_record (some cfg) = cfg.auto_record

unfoldable pub wants_notify : Option RoomConfig → Bool
wants_notify none = false
wants_notify (some cfg) = cfg.notify

unfoldable pub try_start : SessionKey → Check → Option AutoStartRetry → Attempt
unfolding after_start not_tried wants_record
try_start key c retry =
    if wants_record c.cfg && not c.busy then after_start key c.later retry c.result else not_tried

unfoldable pub is_retry_started : LiveState → Bool
is_retry_started live_detected = false
is_retry_started auto_record_started = false
is_retry_started auto_record_retry_started = true
is_retry_started auto_record_failed = false

unfoldable pub publish : Check → Option AutoStartRetry → LiveState → List Effect
unfolding wants_notify is_some is_retry_started
publish c retry state =
    if wants_notify c.cfg && (not (is_some retry) || is_retry_started state)
    then published state ∷ []
    else []

-- `markSessionState`, or the retry that is stored.
unfoldable pub store_attempt : RoomState → SessionKey → Attempt → RoomState
store_attempt s key a =
    if a.mark_now
    then record { stored = some key; retry = none }
    else elim a.next_retry [ none ↦ s | some r ↦ record s { retry = some r } ]

unfoldable pub act :
    RoomState → SessionKey → Check → Option AutoStartRetry → Attempt → RoomState × List Effect
unfolding store_attempt publish
act s key c retry a = (store_attempt s key a, a.called ++ publish c retry a.state)

-- A session that is not stored yet.
unfoldable pub with_retry :
    RoomState → SessionKey → Check → Option AutoStartRetry → RoomState × List Effect
unfolding act try_start
with_retry s key c none =
    let acted = act s key c none (try_start key c none) in (acted.0, stream_started ∷ acted.1)
with_retry s key c (some r) =
    if ltb c.now r.due_at then (s, []) else act s key c (some r) (try_start key c (some r))

-- `read` is what the check has read of the room, `s` the room when it writes: another check may come between.
unfoldable pub process_live :
    (read s : RoomState) → Option SessionKey → Check → RoomState × List Effect
unfolding clear_session_state has_key with_retry current_retry
process_live read s none c = clear_session_state s
process_live read s (some key) c =
    if has_key read.stored key then (s, []) else with_retry s key c (current_retry read.retry key)

unfoldable pub process_info :
    (read s : RoomState) → Option LiveRoomInfo → Check → RoomState × List Effect
unfolding process_live resolve_live_session_key clear_session_state
process_info read s none c = (s, [])
process_info read s (some info) c =
    if info.live_status == 1
    then process_live read s (resolve_live_session_key info) c
    else clear_session_state s

-- A room in `processRooms`.
unfoldable pub process_room : (read s : RoomState) → Check → RoomState × List Effect
unfolding process_info
process_room read s c = process_info read s c.info c

-- The end of `retryDueRooms` for a room: a retry that is still due waits for the longest delay.
unfoldable pub postponed_retry : Option AutoStartRetry → ℕ → ℕ → Option AutoStartRetry
postponed_retry none now later = none
postponed_retry (some r) now later =
    if leb r.due_at now
    then some (record r {
      due_at = later + get_or auto_start_retry_delays (length auto_start_retry_delays - 1) 0;
    })
    else some r

unfoldable pub postpone_retry : RoomState → ℕ → ℕ → RoomState
unfolding postponed_retry
postpone_retry s now later = record s { retry = postponed_retry s.retry now later }

-- The branch of `retryDueRooms` for a room whose configuration is gone.
unfoldable pub drop_retry : RoomState → RoomState
drop_retry s = record s { retry = none }
