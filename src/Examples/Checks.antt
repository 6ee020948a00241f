-- ===== src/Examples/Checks.antt =====
-- Runs of the subscription check, of the disk check, of a playlist session and of the log sink.
use bilirec.Prelude.{
  ℕ, zero, suc, ◌+◌, ◌≡◌, ◌≤◌, ◌⊎◌, ◌≢◌, refl, Bool, true, false, none, some, List, [], ◌∷◌, ◌++◌,
  arith,
}
use bilirec.Subcheck.{
  LiveRoomInfo, RoomState, transient, pending, Check, max_auto_start_attempts, process_room,
  has_key, current_retry, resolve_live_session_key,
}
use bilirec.Subcheck.Stages.{starts, begun}
use bilirec.Subcheck.Attempts.{Event, began, ended, postponed, IsLive, run_events, run_events_le}
use bilirec.Recorder.LowDisk.{RecordingFile, Pass, delete_until, ensure_disk_space, enough_space}
use bilirec.Recorder.LowDisk.Oldest.{
  IsOldestFirst, delete_until-IsOldestFirst, HasSpace, ensure_disk_space-HasSpace,
}
use bilirec.Hls.PlaylistSession.{
  url, Answer, response, PlaylistSession, FetchError, Network, error, wants_refresh,
  fetch_with_refresh, SegmentAnswer, segment_status, segment_body, fetch_segment_with_retry,
  segment_bytes, is_retryable_segment_status,
}
use bilirec.Hls.PlaylistSession.Requests.{
  IsCached, IsGivenUp, fetch_with_refresh_lem, IsEnd, fetch_segment_with_retry-IsEnd,
}
use bilirec.LogSink
use bilirec.LogSink.Batches.{accepted, added_all, handle_all-accepted}

abbrev live_info : LiveRoomInfo
live_info = record { live_status = 1; live_id_str = 7; live_id = 0; live_time = 0 }

abbrev failing_check : ℕ → Check
failing_check now = record {
  info = some live_info;
  cfg = some (record { notify = true; auto_record = true });
  busy = false;
  result = transient;
  now = now;
  later = now;
}

abbrev new_room : RoomState
new_room = record { stored = none; retry = none }

abbrev checks : List Event
checks =
    began (failing_check 0)
    ∷ ended 0
    ∷ began (failing_check 2000)
    ∷ ended 0
    ∷ postponed 3000 3000
    ∷ []

-- Two checks of a room under way at the same time.
abbrev overlapping : List Event
overlapping = began (failing_check 0) ∷ began (failing_check 0) ∷ ended 0 ∷ ended 0 ∷ []

transient≢pending : transient ≢ pending
transient≢pending e = cc

checks_run : let r = run_events new_room [] checks in (starts r.1 ≡ 2) × (begun r.1 ≡ 1)
unfolding run_events process_room
checks_run = (refl, refl)

overlapping_run : begun (run_events new_room [] overlapping).1 ≡ 2
unfolding run_events process_room
overlapping_run = refl

found : resolve_live_session_key live_info ≡ some (0, 7)
unfolding resolve_live_session_key
found = refl

failing_check-IsLive : (now : ℕ) → IsLive (0, 7) (failing_check now)
failing_check-IsLive now = (live_info, refl, refl, found, transient≢pending)

run_events_le_example :
    let r = run_events new_room [] checks in
    (starts r.1 ≤ max_auto_start_attempts) × (begun r.1 ≤ 1)
unfolding has_key current_retry
run_events_le_example =
    run_events_le (0, 7) new_room checks refl refl
      (
        failing_check-IsLive 0,
        (failing_check-IsLive 0, (failing_check-IsLive 2000, (failing_check-IsLive 2000, tt))),
      )

abbrev recording : ℕ → ℕ → RecordingFile
recording path size = record { path = path; stamp = path; segment = 0; size = size }

abbrev nobody : RecordingFile → Bool
nobody f = false

abbrev everybody : RecordingFile → Bool
everybody f = true

abbrev recordings : List RecordingFile
recordings = recording 1 30 ∷ recording 2 40 ∷ recording 3 50 ∷ []

delete_run :
    delete_until nobody everybody recordings 60
    ≡ record { freed = 70; deleted = recording 1 30 ∷ recording 2 40 ∷ [] }
unfolding delete_until
delete_run = refl

delete_until-IsOldestFirst_example :
    IsOldestFirst nobody everybody 60 recordings (delete_until nobody everybody recordings 60)
delete_until-IsOldestFirst_example = delete_until-IsOldestFirst nobody everybody recordings 60

abbrev short_pass : Pass
short_pass = record { free = some 20; files = recordings; writing = nobody; removes = everybody }

abbrev enough_pass : Pass
enough_pass = record { free = some 90; files = recordings; writing = nobody; removes = everybody }

disk_run : ensure_disk_space 80 true short_pass enough_pass (some 90) ≡ enough_space
unfolding ensure_disk_space
disk_run = refl

ensure_disk_space-HasSpace_example :
    HasSpace 80 (some 20) ⊎ (HasSpace 80 (some 90) ⊎ HasSpace 80 (some 90))
ensure_disk_space-HasSpace_example =
    ensure_disk_space-HasSpace 80 true short_pass enough_pass (some 90) disk_run

abbrev new_session : PlaylistSession
new_session = record {
  m3u8_url = some 1;
  last_etag = 0;
  last_modified = 0;
  cached_playlist = none;
  requests = 0;
  refreshes = 0;
}

abbrev answers : ℕ → Answer
answers n = response (record { status = 410; body = none; etag = 0; last_modified = 0 })

abbrev expired : Network
expired = record { answer = answers; waited = λ n. true; cancelled = λ n. false }

session_run : (fetch_with_refresh expired (url 2) new_session).0.requests ≡ 2
unfolding fetch_with_refresh
session_run = refl

fetch_with_refresh_lem_example :
    let r = fetch_with_refresh expired (url 2) new_session in
    (r.0.requests ≤ 0 + 4)
    × (r.0.refreshes ≤ 1)
    × IsCached r.0 r.1
    × ((e : FetchError)
        → r.1 ≡ error e
        → wants_refresh e ≡ true
        → IsGivenUp expired new_session r.0)
fetch_with_refresh_lem_example = fetch_with_refresh_lem expired (url 2) new_session

abbrev late_body : ℕ → SegmentAnswer
late_body zero = segment_status 404
late_body (suc n) = segment_body 5

segment_run : fetch_segment_with_retry late_body (λ n. true) 3 ≡ segment_bytes 5
unfolding fetch_segment_with_retry is_retryable_segment_status
segment_run = refl

fetch_segment_with_retry-IsEnd_example :
    IsEnd late_body (λ n. true) 3 0 (fetch_segment_with_retry late_body (λ n. true) 3)
fetch_segment_with_retry-IsEnd_example =
    fetch_segment_with_retry-IsEnd late_body (λ n. true) 3 (omega arith)

abbrev log_sink : LogSink.AsyncBufferedSink
log_sink = record {
  buffer_size = 2;
  batch_bytes = 3;
  overflow_block = false;
  ch = [];
  batch = [];
  payloads = [];
  stopped = false;
}

abbrev log_events : List LogSink.Event
log_events =
    LogSink.written (1 ∷ 2 ∷ [])
    ∷ LogSink.written (3 ∷ 4 ∷ [])
    ∷ LogSink.written (5 ∷ [])
    ∷ LogSink.took
    ∷ LogSink.took
    ∷ LogSink.stop_requested
    ∷ LogSink.written (6 ∷ [])
    ∷ LogSink.stop_served
    ∷ []

log_run : (LogSink.handle_all log_sink log_events).payloads ≡ (1 ∷ 2 ∷ []) ∷ (3 ∷ 4 ∷ []) ∷ []
unfolding LogSink.handle_all
log_run = refl

handle_all-accepted_example :
    accepted (LogSink.handle_all log_sink log_events)
    ≡ accepted log_sink ++ added_all log_sink log_events
handle_all-accepted_example = handle_all-accepted log_sink log_events
