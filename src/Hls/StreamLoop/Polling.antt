-- ===== src/Hls/StreamLoop/Polling.antt =====
-- pkg/hls/stream_loop.go: `onTick`, with the sequence tests of hls.go.
use bilirec.Prelude.{
  ℕ, suc, ◌+◌, ◌%◌, Bool, true, false, ◌&&◌, not, Option, none, some, List, [], ◌∷◌, if◌then◌else◌,
  length, ltb, leb, ◌==◌,
}
use bilirec.Hls.InitSettle.{send_settle, cancel, cancelled, handle, url_refreshed}
use bilirec.Hls.StreamLoop.{Playlist, StreamRunner, Round, deliver_window}

abbrev pub segment_failure_refresh_every : ℕ
segment_failure_refresh_every = 3

-- `ShouldResetSequenceOnRollback`
unfoldable pub should_reset_sequence_on_rollback : ℕ → ℕ → ℕ → ℕ → Bool
should_reset_sequence_on_rollback prev_base_seq base_seq seg_count next_seq =
    if seg_count == 0
    then false
    else if leb next_seq base_seq
    then false
    else if ltb next_seq (base_seq + seg_count)
    then false
    else ltb base_seq prev_base_seq

-- `ShouldApplyManifestSyncWait`; -1, with which the loop begins, is `none`.
unfoldable pub should_apply_manifest_sync_wait : ℕ → ℕ → Option ℕ → Bool
should_apply_manifest_sync_wait base_seq next_seq none = next_seq == base_seq
should_apply_manifest_sync_wait base_seq next_seq (some last) =
    next_seq == base_seq && not (leb base_seq last)

-- What `FetchWithRefresh` answers, and whether it changed the address of the playlist on the way.
pub data Fetch : Type 0 where
  fetched : Playlist → Fetch
  no_url : Fetch
  fetch_failed : Fetch
  fetch_canceled : Fetch

pub record FetchAnswer : Type 0 where
  pub refreshed : Bool
  pub answer : Fetch

-- The locals of `run` beside the runner.
pub record Loop : Type 0 where
  pub stream : StreamRunner
  pub consecutive_playlist_failures : ℕ
  pub consecutive_segment_failures : ℕ
  pub last_sync_wait_base_seq : Option ℕ

-- What a tick meets: up to three fetches, the end of the context while it waits for the backoff or for the
-- manifest, whether `RefreshURL` succeeds, and the rounds of the window.
pub record Tick : Type 0 where
  pub first : FetchAnswer
  pub second : FetchAnswer
  pub third : FetchAnswer
  pub backed_off : Bool
  pub url_ok : Bool
  pub synced : Bool
  pub rounds : ℕ → Round

-- A new address: the prefetches are abandoned, and the hook resets the debounce.
unfoldable pub refresh_url : StreamRunner → StreamRunner
unfolding handle
refresh_url r = record r { runner = handle r.runner url_refreshed; started = [] }

unfoldable pub after_fetch : Loop → Bool → Loop
unfolding refresh_url
after_fetch l refreshed = if refreshed then record l { stream = refresh_url l.stream } else l

-- What comes before the window: the loop and the playlist, or the loop and what `onTick` returns.
pub data Got : Type 0 where
  go_on : Loop → Playlist → Got
  returned : Loop → Bool → Got

-- The fetch behind a first one that failed.
unfoldable pub second_fetch : Loop → Fetch → Got
second_fetch l (fetched pl) = go_on l pl
second_fetch l no_url = returned l false
second_fetch l fetch_canceled = returned l false
second_fetch l fetch_failed =
    let failures = suc l.consecutive_playlist_failures in
    returned (record l { consecutive_playlist_failures = failures }) (ltb failures 3)

unfoldable pub first_fetch : Loop → Fetch → FetchAnswer → Got
unfolding second_fetch after_fetch
first_fetch l (fetched pl) again = go_on l pl
first_fetch l no_url again = returned l false
first_fetch l fetch_canceled again = returned l false
first_fetch l fetch_failed again =
    second_fetch
      (after_fetch
        (record l { consecutive_playlist_failures = suc l.consecutive_playlist_failures })
        again.refreshed)
      again.answer

-- The fetch behind a change of the address after failures of segments.
unfoldable pub third_fetch : Loop → Fetch → Got
third_fetch l (fetched pl) = go_on l pl
third_fetch l no_url = returned l false
third_fetch l fetch_canceled = returned l false
third_fetch l fetch_failed = returned l true

unfoldable pub forget_map : StreamRunner → StreamRunner
forget_map r = record r { current_map_uri = none; map_sent = false }

unfoldable pub refresh_after_failures : Loop → Playlist → Tick → Got
unfolding third_fetch after_fetch refresh_url forget_map
refresh_after_failures l pl t =
    if not t.url_ok
    then go_on l pl
    else third_fetch
        (after_fetch (record l { stream = forget_map (refresh_url l.stream) }) t.third.refreshed)
        t.third.answer

-- The wait behind a window in which a segment failed.
unfoldable pub back_off : Tick → Got → Got
unfolding refresh_after_failures
back_off t (returned l b) = returned l b
back_off t (go_on l pl) =
    let failures = l.consecutive_segment_failures in
    let reset : Loop = record l { consecutive_playlist_failures = 0 } in
    if failures == 0
    then go_on reset pl
    else if not t.backed_off
    then returned reset false
    else if failures % segment_failure_refresh_every == 0
    then refresh_after_failures reset pl t
    else go_on reset pl

-- A gap moves the next number up to the window, a rollback down to it.
unfoldable pub adjust_sequence : StreamRunner → Playlist → StreamRunner
unfolding should_reset_sequence_on_rollback
adjust_sequence r pl =
    let base = pl.media_seq in
    let caught_up : StreamRunner =
      if ltb r.next_seq base then record r { next_seq = base } else r in
    if should_reset_sequence_on_rollback r.prev_base_seq base (length pl.segments)
      caught_up.next_seq
    then record caught_up { next_seq = base; map_sent = false }
    else caught_up

unfoldable pub same_uri : Option ℕ → Option ℕ → Bool
same_uri none none = true
same_uri none (some v) = false
same_uri (some u) none = false
same_uri (some u) (some v) = u == v

unfoldable pub has_uri : Option ℕ → Bool
has_uri none = false
has_uri (some u) = true

-- Another `EXT-X-MAP`; where there is none any more, a change that is held is cancelled.
unfoldable pub adjust_map : StreamRunner → Option ℕ → StreamRunner
unfolding same_uri has_uri cancelled cancel
adjust_map r uri =
    let changed : StreamRunner = record r { current_map_uri = uri; map_sent = false } in
    if same_uri uri r.current_map_uri
    then r
    else if not (has_uri uri) && r.runner.settle.active
    then record changed { runner = cancelled r.runner (cancel r.runner.settle) }
    else changed

-- The end of `onTick`, from the result of `deliverWindow`.
unfoldable pub end_tick : Loop → ℕ → Option (StreamRunner × ℕ × Bool) → Option (Loop × Bool)
end_tick l base none = none
end_tick l base (some (r, failures, false)) =
    some (record l { stream = r; consecutive_segment_failures = failures }, false)
end_tick l base (some (r, failures, true)) = some (
  record l { stream = record r { prev_base_seq = base }; consecutive_segment_failures = failures },
  true,
)

unfoldable pub deliver_tick : Loop → Playlist → Tick → Option (Loop × Bool)
unfolding end_tick deliver_window
deliver_tick l pl t =
    end_tick l pl.media_seq (deliver_window pl t.rounds l.stream l.consecutive_segment_failures)

unfoldable pub sync_tick : Loop → Playlist → Tick → Option (Loop × Bool)
unfolding deliver_tick should_apply_manifest_sync_wait
sync_tick l pl t =
    if ltb 0 (length pl.segments)
      && should_apply_manifest_sync_wait pl.media_seq l.stream.next_seq l.last_sync_wait_base_seq
    then if t.synced
      then deliver_tick (record l { last_sync_wait_base_seq = some pl.media_seq }) pl t
      else some (l, false)
    else deliver_tick l pl t

unfoldable pub play_tick : Tick → Got → Option (Loop × Bool)
unfolding sync_tick adjust_map adjust_sequence
play_tick t (returned l b) = some (l, b)
play_tick t (go_on l pl) =
    sync_tick (record l { stream = adjust_map (adjust_sequence l.stream pl) pl.map_uri }) pl t

-- `onTick`: the loop after it, and whether it goes on; `none` is a panic.
unfoldable pub on_tick : Loop → Tick → Option (Loop × Bool)
unfolding play_tick back_off first_fetch after_fetch
on_tick l t =
    play_tick t (back_off t (first_fetch (after_fetch l t.first.refreshed) t.first.answer t.second))

-- What the loop of `run` takes: a tick, or the end of the debounce window with the number of buffers that
-- the channel then takes.
pub data Turn : Type 0 where
  ticked : Tick → Turn
  debounced : ℕ → Turn

unfoldable pub on_debounce : Loop → ℕ → Loop × Bool
unfolding send_settle
on_debounce l sends =
    let sent = send_settle l.stream.runner sends in
    (record l { stream = record l.stream { runner = sent.0 } }, sent.1)

unfoldable pub on_turn : Loop → Turn → Option (Loop × Bool)
unfolding on_tick on_debounce
on_turn l (ticked t) = on_tick l t
on_turn l (debounced sends) = some (on_debounce l sends)

-- The loop of `run`, until a turn ends it.
unfoldable pub run_turns : Option (Loop × Bool) → List Turn → Option (Loop × Bool)
unfolding on_turn
run_turns none turns = none
run_turns (some (l, false)) turns = some (l, false)
run_turns (some (l, true)) [] = some (l, true)
run_turns (some (l, true)) (t ∷ turns) = run_turns (on_turn l t) turns
