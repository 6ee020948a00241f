-- ===== src/Hls/StreamLoop.antt =====
-- pkg/hls/stream_loop.go and prefetcher.go: the loop that polls a playlist and delivers its segments.
-- Sequence numbers are int64 that are not negative. What the network answers, and how many buffers the
-- channel takes, are arguments of a round; timers are part of them. Log lines, the backoff and the poll
-- interval, which only wait, are left out. `Runner` of Hls/InitSettle has the channel and the debounce.
pub mod Polling
pub mod Prefetches
pub mod Delivery
pub mod Served
pub mod Fetches
pub mod Order
use bilirec.Prelude.{
  ℕ, zero, suc, ◌+◌, ◌-◌, Bool, true, false, ◌&&◌, ◌||◌, not, Option, none, some, List, [], ◌∷◌,
  ◌++◌, if◌then◌else◌, min, length, get_elem?, ltb, leb, ◌==◌,
}
use bilirec.Ds.Set.{contains, erase}
use bilirec.Hls.InitSettle.{
  Buffer, Runner, run_accept_map, send_settle, send_fragment, cancel, cancelled,
}

-- Only the address of a segment, here a number, is read; an `EXT-X-MAP` that is not there is `none`.
pub record Playlist : Type 0 where
  pub media_seq : ℕ
  pub segments : List ℕ
  pub map_uri : Option ℕ

pub record StreamRunner : Type 0 where
  pub runner : Runner
  pub started : List ℕ
  pub next_seq : ℕ
  pub prev_base_seq : ℕ
  pub current_map_uri : Option ℕ
  pub map_sent : Bool

-- What a fetch answers: a buffer, an error, or the end of the context.
pub data Fetched : Type 0 where
  got : Buffer → Fetched
  failed : Fetched
  canceled : Fetched

-- What a round of `deliverWindow` meets. `timer` is the end of the debounce window with the number of
-- buffers that the channel then takes, `map_sends` and `sends` are those numbers for the two sends.
pub record Round : Type 0 where
  pub timer : Option ℕ
  pub map_answer : Fetched
  pub map_sends : ℕ
  pub segment_answer : Fetched
  pub sends : ℕ

-- `Start` of the prefetcher: a sequence number that is not under way is begun.
unfoldable pub start : StreamRunner → ℕ → StreamRunner
unfolding contains
start r seq = if contains seq r.started then r else record r { started = seq ∷ r.started }

-- `Wait` up to the result.
unfoldable pub wait : StreamRunner → ℕ → StreamRunner
unfolding start erase
wait r seq = let s = start r seq in record s { started = erase seq s.started }

-- How a round ends: with the next one, with `break`, or with `return false`.
pub data Flow : Type 0 where
  next break return_false : Flow

-- The locals of `deliverWindow` beside the runner.
pub record Window : Type 0 where
  pub stream : StreamRunner
  pub next_prefetch_seq : ℕ
  pub segment_delivered : Bool
  pub failures : ℕ

-- The element of `segs` at a sequence number; `none` is a panic.
unfoldable pub segment_at : Playlist → ℕ → Option ℕ
segment_at pl seq =
    if ltb seq pl.media_seq then none else get_elem? pl.segments (seq - pl.media_seq)

unfoldable pub start_at : StreamRunner → ℕ → Option ℕ → Option StreamRunner
unfolding start
start_at r seq none = none
start_at r seq (some uri) = some (start r seq)

-- The first loop: `count` prefetches from `seq` on.
unfoldable pub prime : ℕ → Playlist → ℕ → Option StreamRunner → Option StreamRunner
unfolding start_at segment_at
prime zero pl seq r = r
prime (suc count) pl seq none = none
prime (suc count) pl seq (some r) = prime count pl (suc seq) (start_at r seq (segment_at pl seq))

-- The timer of the debounce has ended before the round.
unfoldable pub settle_first : StreamRunner → Option ℕ → StreamRunner × Flow
unfolding send_settle
settle_first r none = (r, next)
settle_first r (some sends) =
    let sent = send_settle r.runner sends in
    if r.runner.settle.active
    then (record r { runner = sent.0 }, if sent.1 then next else return_false)
    else (r, next)

-- What is done with the init segment that was fetched.
unfoldable pub with_map : StreamRunner → Fetched → ℕ → StreamRunner × Flow
unfolding run_accept_map
with_map r failed sends = (r, break)
with_map r canceled sends = (r, return_false)
with_map r (got map_data) sends =
    let accepted = run_accept_map r.runner map_data sends in
    (record r { runner = accepted.0; map_sent = true }, if accepted.1 then next else return_false)

unfoldable pub fetch_map : StreamRunner → Option ℕ → Fetched → ℕ → StreamRunner × Flow
unfolding with_map
fetch_map r none answer sends = (r, next)
fetch_map r (some uri) answer sends = if r.map_sent then (r, next) else with_map r answer sends

-- The prefetch of a round, within the window.
unfoldable pub prefetch_next : Playlist → Window → Option Window
unfolding start_at segment_at
prefetch_next pl w =
    let seq = w.next_prefetch_seq in
    if ltb seq (pl.media_seq + length pl.segments)
    then elim (start_at w.stream seq (segment_at pl seq)) [
      | none ↦ none
      | some r ↦ some (record w { stream = r; next_prefetch_seq = suc seq })
    ]
    else some w

-- The end of a round, from the result of `Wait`.
unfoldable pub with_segment : Window → ℕ → Fetched → ℕ → Window × Flow
unfolding send_fragment
with_segment w seq canceled sends = (w, return_false)
with_segment w seq failed sends = (record w { failures = suc w.failures }, break)
with_segment w seq (got fragment) sends =
    let r = w.stream in
    let held = r.runner.settle.active in
    (
      record w {
        stream = record r { runner = send_fragment r.runner fragment sends; next_seq = suc seq };
        segment_delivered = true;
      },
      if held || ltb 0 sends then next else return_false,
    )

-- The middle of a round: the init segment, the prefetch, the segment.
unfoldable pub take_segment : ℕ → Round → Option Window → Option (Window × Flow)
unfolding with_segment wait
take_segment seq answers none = none
take_segment seq answers (some w) = some (
    with_segment (record w { stream = wait w.stream seq }) seq answers.segment_answer answers.sends)

unfoldable pub after_map :
    Playlist → ℕ → Round → Window → StreamRunner × Flow → Option (Window × Flow)
unfolding take_segment prefetch_next
after_map pl seq answers w (r, break) = some (record w { stream = r }, break)
after_map pl seq answers w (r, return_false) = some (record w { stream = r }, return_false)
after_map pl seq answers w (r, next) =
    take_segment seq answers (prefetch_next pl (record w { stream = r }))

unfoldable pub after_settle :
    Playlist → ℕ → Round → Window → StreamRunner × Flow → Option (Window × Flow)
unfolding after_map fetch_map
after_settle pl seq answers w (r, break) = some (record w { stream = r }, break)
after_settle pl seq answers w (r, return_false) = some (record w { stream = r }, return_false)
after_settle pl seq answers w (r, next) =
    if ltb seq r.next_seq
    then some (record w { stream = r }, next)
    else after_map pl seq answers w
        (fetch_map r r.current_map_uri answers.map_answer answers.map_sends)

unfoldable pub deliver_round : Playlist → ℕ → Round → Window → Option (Window × Flow)
unfolding after_settle settle_first
deliver_round pl seq answers w = after_settle pl seq answers w (settle_first w.stream answers.timer)

unfoldable pub continue_loop :
    (Window → Option (Window × Bool)) → Option (Window × Flow) → Option (Window × Bool)
continue_loop more none = none
continue_loop more (some (w, next)) = more w
continue_loop more (some (w, break)) = some (w, true)
continue_loop more (some (w, return_false)) = some (w, false)

-- The second loop, over `count` segments from `seq` on; `answers` says what the round of a number meets.
-- The result is the window and whether the loop did not return false; `none` is a panic.
unfoldable pub deliver_loop : ℕ → Playlist → (ℕ → Round) → ℕ → Window → Option (Window × Bool)
unfolding continue_loop deliver_round
deliver_loop zero pl answers seq w = some (w, true)
deliver_loop (suc count) pl answers seq w =
    continue_loop (deliver_loop count pl answers (suc seq)) (deliver_round pl seq (answers seq) w)

abbrev pub segment_prefetch_ahead : ℕ
segment_prefetch_ahead = 2

unfoldable pub prefetch_ahead : ℕ → ℕ
prefetch_ahead failures = if ltb 0 failures then 0 else segment_prefetch_ahead

-- Up to the second loop.
unfoldable pub prime_window : Playlist → StreamRunner → ℕ → Option StreamRunner
unfolding prime
prime_window pl r ahead =
    let limit = pl.media_seq + length pl.segments in
    if ltb r.next_seq limit
    then prime (min (suc ahead) (limit - r.next_seq)) pl r.next_seq (some r)
    else some r

unfoldable pub open_window :
    Playlist → (ℕ → Round) → ℕ → Option StreamRunner → Option (Window × Bool)
unfolding deliver_loop prefetch_ahead
open_window pl answers failures none = none
open_window pl answers failures (some r) =
    deliver_loop (length pl.segments) pl answers pl.media_seq (record {
      stream = r;
      next_prefetch_seq = suc (r.next_seq + prefetch_ahead failures);
      segment_delivered = false;
      failures = failures;
    })

-- `deliverWindow`: the runner, the count of failures, and what it returns.
unfoldable pub finish_window : Option (Window × Bool) → Option (StreamRunner × ℕ × Bool)
finish_window none = none
finish_window (some (w, false)) = some (w.stream, w.failures, false)
finish_window (some (w, true)) =
    some (w.stream, if w.segment_delivered then 0 else w.failures, true)

unfoldable pub deliver_window :
    Playlist → (ℕ → Round) → StreamRunner → ℕ → Option (StreamRunner × ℕ × Bool)
unfolding finish_window open_window prime_window prefetch_ahead
deliver_window pl answers r failures =
    finish_window (open_window pl answers failures (prime_window pl r (prefetch_ahead failures)))
