-- ===== src/Examples/Polling.antt =====
-- Runs of the loop that polls a playlist.
use bilirec.Prelude.{
  ℕ, ◌≡◌, refl, true, false, Bool, none, some, List, [], ◌∷◌, arith, EndsIn, ◌≤◌, ap, map, Option,
}
use bilirec.Hls.InitSettle.{Buffer, new_init_settle}
use bilirec.Hls.StreamLoop.{Playlist, StreamRunner, got, failed, Round, deliver_window}
use bilirec.Hls.StreamLoop.Served.{deliver_window-all}
use bilirec.Hls.StreamLoop.Polling.{
  fetched, fetch_failed, FetchAnswer, Loop, Tick, Turn, ticked, debounced, run_turns,
}
use bilirec.Hls.StreamLoop.Fetches.{TickOk}
use bilirec.Hls.StreamLoop.Order.{EndsInOrder, run_turns-EndsInOrder}

abbrev fragment : ℕ → Buffer
fragment seq = record { id = seq; bytes = seq ∷ [] }

abbrev served : ℕ → Round
served seq = record {
  timer = none;
  map_answer = failed;
  map_sends = 1;
  segment_answer = got (fragment seq);
  sends = 1;
}

abbrev lost : ℕ → Round
lost seq = record {
  timer = none;
  map_answer = failed;
  map_sends = 1;
  segment_answer = failed;
  sends = 1;
}

abbrev window_at : ℕ → Playlist
window_at base = record { media_seq = base; segments = 70 ∷ 71 ∷ 72 ∷ []; map_uri = none }

abbrev runner_at : ℕ → StreamRunner
runner_at seq = record {
  runner = record { settle = new_init_settle; channel = []; released = [] };
  started = [];
  next_seq = seq;
  prev_base_seq = seq;
  current_map_uri = none;
  map_sent = false;
}

window_run :
    deliver_window (window_at 5) served (runner_at 6) 0
    ≡ some (
      record (runner_at 6) {
        runner = record {
          settle = new_init_settle;
          channel = fragment 6 ∷ fragment 7 ∷ [];
          released = [];
        };
        next_seq = 8;
      },
      0,
      true,
    )
unfolding deliver_window
window_run = refl

deliver_window-all_example :
    EndsIn
      (λ (e : StreamRunner × ℕ × Bool).
        (e.2 ≡ true) × (e.0.next_seq ≡ 8) × (e.0.runner.channel ≡ fragment 6 ∷ fragment 7 ∷ []))
      (deliver_window (window_at 5) served (runner_at 6) 0)
deliver_window-all_example =
    deliver_window-all (window_at 5) served fragment (λ seq. (refl, omega arith)) [] 6 (runner_at 6)
      0 (refl, refl) refl (omega arith) refl

abbrev answered : Playlist → FetchAnswer
answered pl = record { refreshed = false; answer = fetched pl }

abbrev tick_at : ℕ → (ℕ → Round) → Tick
tick_at base rounds = record {
  first = record { refreshed = true; answer = fetch_failed };
  second = answered (window_at base);
  third = answered (window_at base);
  backed_off = true;
  url_ok = true;
  synced = true;
  rounds = rounds;
}

abbrev begun : Loop
begun = record {
  stream = runner_at 5;
  consecutive_playlist_failures = 0;
  consecutive_segment_failures = 0;
  last_sync_wait_base_seq = none;
}

-- A window, one that overlaps it, one whose segments fail, and one behind a gap.
abbrev turns : List Turn
turns =
    ticked (tick_at 5 served)
    ∷ debounced 1
    ∷ ticked (tick_at 6 served)
    ∷ ticked (tick_at 7 lost)
    ∷ ticked (tick_at 11 served)
    ∷ []

run_numbers : Option (Loop × Bool) → List ℕ
run_numbers none = []
run_numbers (some e) = map (λ (b : Buffer). b.id) e.0.stream.runner.channel

served_tick : (lo base : ℕ) → lo ≤ base → TickOk lo base (tick_at base served)
served_tick lo base le =
    (tt, (refl, le, omega arith), (refl, le, omega arith), λ seq b e. ap Buffer.id (same_got e))
  where
    same_got : {b c : Buffer} → got b ≡ got c → c ≡ b
    same_got e = cc

lost_tick : (lo base : ℕ) → lo ≤ base → TickOk lo base (tick_at base lost)
lost_tick lo base le =
    (tt, (refl, le, omega arith), (refl, le, omega arith), λ seq b e. absurd (cc))

turns_run : run_numbers (run_turns (some (begun, true)) turns) ≡ 5 ∷ 6 ∷ 7 ∷ 8 ∷ 11 ∷ 12 ∷ 13 ∷ []
unfolding run_turns run_numbers
turns_run = refl

run_turns-EndsInOrder_example : EndsIn EndsInOrder (run_turns (some (begun, true)) turns)
run_turns-EndsInOrder_example =
    run_turns-EndsInOrder 5 begun turns ((refl, refl), omega arith, omega arith)
      (
        5,
        omega arith,
        served_tick 5 5 (omega arith),
        (
          6,
          omega arith,
          served_tick 5 6 (omega arith),
          (
            7,
            omega arith,
            lost_tick 6 7 (omega arith),
            (11, omega arith, served_tick 7 11 (omega arith), tt),
          ),
        ),
      )
