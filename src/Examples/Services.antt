-- ===== src/Examples/Services.antt =====
-- Runs of the webhook service, the round robin and the fallback client.
use bilirec.Prelude.{
  ℕ, ◌+◌, ◌≤◌, ◌≡◌, refl, true, false, none, some, List, [], ◌∷◌, ◌++◌, if◌then◌else◌, length,
  arith, ◌==◌,
}
use bilirec.Webhook.System.{
  new_cell, RoomWork, Service, initial_service, Reachable, begins, later, call, delivering,
  get_or_create_queue, spawn, offering, move, offers, moved, offer,
}
use bilirec.Webhook.Balance.{Fits}
use bilirec.Webhook.Accounts.{held, waits, flights}
use bilirec.Webhook.Interleaving.{Reachable-Fits}
use bilirec.Webhook.Bounds.{slots, delivers, delivers_le}
use bilirec.Webhook.Progress.{Steps, reschedule-delivering}
use bilirec.RoundRobin.{RoundRobin, is_ready, unregister}
use bilirec.RoundRobin.Fairness.{Turn, run_ticks, was_signalled, run_ticks-was_signalled}
use bilirec.RoundRobin.Members.{IsRegistered, count, unregister_lem}
use bilirec.Fallback.{Answer, decision_ok, decision_fallback, new_client}
use bilirec.Fallback.Modes.{Request, run_requests, do_request-recovers}

abbrev first_work : RoomWork
first_work = record { room_id = 21; q = 0 }

-- An event for a room, offered to its new queue.
abbrev called : Service
called = spawn (get_or_create_queue initial_service 21).0 first_work (offering 5 0)

abbrev sent : Service
sent = moved called [] first_work [] (offer new_cell 5 0) false 0

sent-Reachable : Reachable sent
unfolding get_or_create_queue spawn
sent-Reachable =
    later (later begins (call 21 5))
      (move [] [] first_work (offering 5 0) (offer new_cell 5 0) false refl (offers 5 0))

Reachable-Fits_example :
    Fits (sent.cells 0) (held 0 sent.threads + waits 0 sent.pending) (flights 0 sent.threads)
Reachable-Fits_example = Reachable-Fits sent 0 sent-Reachable

delivers_le_example :
    (sent.acquired ≡ slots sent.threads)
    × (sent.acquired ≤ 8)
    × (delivers sent.threads ≤ sent.acquired)
    × (length sent.pending ≤ 64)
delivers_le_example = delivers_le sent sent-Reachable

-- A service with a backlog that nobody works on.
abbrev backlogged : Service
backlogged = record {
  rooms = (21, 0) ∷ [];
  cells = λ q. record {
    queue = record { ch = 5 ∷ 6 ∷ []; closed = false; scheduled = false; empty_since = none };
    accepted = 5 ∷ 6 ∷ [];
    over = [];
  };
  used = 1;
  pending = [];
  threads = [];
  acquired = 0;
}

reschedule-delivering_example :
    (t : Service) × Steps backlogged t
    × (t.threads ≡ [] ++ (record { work = first_work; phase = delivering 5 } ∷ []))
reschedule-delivering_example =
    reschedule-delivering backlogged first_work 5 (6 ∷ []) refl refl refl refl refl (omega arith)

abbrev two_participants : RoundRobin
two_participants = record {
  cycle_period = 10;
  min_tick = 2;
  participants =
      record { id = 1; signal = false; always = true }
      ∷ record { id = 2; signal = false; always = false }
      ∷ [];
  next_id = 2;
  rr = 0;
  running = true;
}

-- Both take their signal before each tick.
abbrev turns : List Turn
turns = ((λ id. true), (λ id. true)) ∷ ((λ id. id == 2), (λ id. true)) ∷ []

run_ticks-was_signalled_example : was_signalled 1 (run_ticks two_participants turns) ≡ true
unfolding is_ready
run_ticks-was_signalled_example =
    run_ticks-was_signalled two_participants 1 turns (omega arith) (refl, (refl, tt)) (omega arith)

two_participants-IsRegistered : IsRegistered two_participants
unfolding IsRegistered
two_participants-IsRegistered = (λ k. ground arith, λ k h. ground arith, omega arith, refl)

unregister_lem_example :
    IsRegistered (unregister two_participants 1)
    × ((k : ℕ)
        → count k (unregister two_participants 1).participants
          ≡ (if k == 1 then 0 else count k two_participants.participants))
unregister_lem_example = unregister_lem two_participants 1 two_participants-IsRegistered

abbrev good : Answer
good = record { resp = 200; err = none; decision = decision_ok }

abbrev blocked : Answer
blocked = record { resp = 0; err = some 412; decision = decision_fallback }

abbrev blocked_at : ℕ → Request
blocked_at now = record { now = now; a = blocked; b = good }

abbrev good_at : ℕ → Request
good_at now = record { now = now; a = good; b = good }

abbrev three_blocked : List Request
three_blocked = blocked_at 1 ∷ blocked_at 2 ∷ blocked_at 3 ∷ []

do_request-recovers_example :
    (run_requests
      (run_requests (new_client true) three_blocked)
      (good_at 10 ∷ good_at 400 ∷ [])).prefer_fallback
    ≡ false
unfolding run_requests
do_request-recovers_example =
    do_request-recovers true three_blocked (good_at 10) (good_at 400) refl (omega arith) refl refl
