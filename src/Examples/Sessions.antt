-- ===== src/Examples/Sessions.antt =====
-- Runs of the transactions, the recorder, the segment debounce and the containers of pkg/ds.
use bilirec.Prelude.{
  ℕ, ◌+◌, ◌≤◌, ◌≡◌, ◌≢◌, ◌⊎◌, refl, true, false, Option, none, some, List, [], ◌∷◌, if◌then◌else◌,
  length, arith, ltb,
}
use bilirec.Ds.Set.{contains}
use bilirec.Tx.Pending.{begin, failed, Shared, reserve, run_with_hooks}
use bilirec.Tx.Pending.Protocol.{run_with_hooks_lem}
use bilirec.Tx.Hook.{begin_hook, hook_run_with_hooks}
use bilirec.Tx.Hook.Once.{hook_run_with_hooks_lem}
use bilirec.Recorder.Admission.{Admission, begin_start, reserves, Reachable, initial, after}
use bilirec.Recorder.Admission.Limit.{recordings_le}
use bilirec.Hls.InitSettle.{
  Buffer, new_init_settle, Runner, Event, map_fetched, fragment_fetched, window_ended, handle_all,
}
use bilirec.Hls.InitSettle.Count.{IsClean, placed}
use bilirec.Hls.InitSettle.Ownership.{IsTaken, AllTaken, entered, handle_all-placed}

abbrev full_at_two : ℕ → List ℕ → ℕ → Option ℕ
full_at_two key pending world = if ltb 2 (length pending + world) then some 7 else none

abbrev one_recording : Shared ℕ
one_recording = record { pending = []; world = 1 }

abbrev count_up : Shared ℕ → Shared ℕ × Option ℕ
count_up s = (record s { world = s.world + 1 }, none)

abbrev ten_more : ℕ → ℕ
ten_more w = w + 10

abbrev hundred_more : ℕ → ℕ
hundred_more w = w + 100

run_with_hooks_lem_example :
    (((reserve full_at_two begin one_recording 5).error ≢ none)
      × (run_with_hooks full_at_two count_up ten_more hundred_more begin one_recording 5
          ≡ reserve full_at_two begin one_recording 5)
      × ((run_with_hooks full_at_two count_up ten_more hundred_more begin one_recording 5).txn
          ≡ begin)
      × ((run_with_hooks full_at_two count_up ten_more hundred_more begin one_recording
            5).shared.world
          ≡ one_recording.world)
      × ((j : ℕ)
          → contains j
              (run_with_hooks full_at_two count_up ten_more hundred_more begin one_recording
                5).shared.pending
            ≡ contains j one_recording.pending))
    ⊎ (((reserve full_at_two begin one_recording 5).error ≡ none)
        × ((run_with_hooks full_at_two count_up ten_more hundred_more begin one_recording
              5).txn.closed
            ≡ true)
        × (contains 5
              (run_with_hooks full_at_two count_up ten_more hundred_more begin one_recording
                5).shared.pending
            ≡ false)
        × ((((count_up (reserve full_at_two begin one_recording 5).shared).1 ≡ none)
              × ((run_with_hooks full_at_two count_up ten_more hundred_more begin one_recording
                    5).error
                  ≡ none)
              × ((run_with_hooks full_at_two count_up ten_more hundred_more begin one_recording
                    5).shared.world
                  ≡ hundred_more
                      (count_up (reserve full_at_two begin one_recording 5).shared).0.world))
            ⊎ ((e : ℕ) × ((count_up (reserve full_at_two begin one_recording 5).shared).1 ≡ some e)
                × ((run_with_hooks full_at_two count_up ten_more hundred_more begin one_recording
                      5).error
                    ≡ some (failed e))
                × ((run_with_hooks full_at_two count_up ten_more hundred_more begin one_recording
                      5).shared.world
                    ≡ ten_more
                        (count_up (reserve full_at_two begin one_recording 5).shared).0.world))))
run_with_hooks_lem_example =
    run_with_hooks_lem full_at_two count_up ten_more hundred_more begin one_recording 5

abbrev take_slot : ℕ → ℕ → ℕ × Option ℕ
take_slot key w = if ltb w 2 then (w + 1, none) else (w, some 7)

abbrev give_slot : ℕ → ℕ → ℕ
give_slot key w = w + 1000

abbrev fail_with : ℕ → ℕ × Option ℕ
fail_with w = (w + 3, some 9)

hook_run_with_hooks_lem_example :
    ((e : ℕ) × ((take_slot 5 1).1 ≡ some e)
      × (hook_run_with_hooks take_slot give_slot give_slot fail_with ten_more hundred_more
            begin_hook 1 5
          ≡ record { txn = begin_hook; world = (take_slot 5 1).0; error = some (failed e) }))
    ⊎ (((take_slot 5 1).1 ≡ none)
        × ((hook_run_with_hooks take_slot give_slot give_slot fail_with ten_more hundred_more
              begin_hook 1 5).txn.hook_closed
            ≡ true)
        × ((((fail_with (take_slot 5 1).0).1 ≡ none)
              × ((hook_run_with_hooks take_slot give_slot give_slot fail_with ten_more hundred_more
                    begin_hook 1 5).error
                  ≡ none)
              × ((hook_run_with_hooks take_slot give_slot give_slot fail_with ten_more hundred_more
                    begin_hook 1 5).world
                  ≡ hundred_more (give_slot 5 (fail_with (take_slot 5 1).0).0)))
            ⊎ ((e : ℕ) × ((fail_with (take_slot 5 1).0).1 ≡ some e)
                × ((hook_run_with_hooks take_slot give_slot give_slot fail_with ten_more
                      hundred_more begin_hook 1 5).error
                    ≡ some (failed e))
                × ((hook_run_with_hooks take_slot give_slot give_slot fail_with ten_more
                      hundred_more begin_hook 1 5).world
                    ≡ ten_more (give_slot 5 (fail_with (take_slot 5 1).0).0)))))
hook_run_with_hooks_lem_example =
    hook_run_with_hooks_lem take_slot give_slot give_slot fail_with ten_more hundred_more 1 5

abbrev empty_service : Admission
empty_service = record { shared = record { pending = []; world = [] }; live = [] }

two_starts : Reachable 1 (begin_start 1 (begin_start 1 empty_service 21) 22)
two_starts = after (after initial (reserves 21)) (reserves 22)

recordings_le_example :
    (length (begin_start 1 (begin_start 1 empty_service 21) 22).shared.world ≤ 1)
    × ((j : ℕ)
        → contains j (begin_start 1 (begin_start 1 empty_service 21) 22).live ≡ true
        → contains j (begin_start 1 (begin_start 1 empty_service 21) 22).shared.pending ≡ true)
recordings_le_example =
    recordings_le 1 (begin_start 1 (begin_start 1 empty_service 21) 22) two_starts

abbrev first_init : Buffer
first_init = record { id = 1; bytes = 10 ∷ [] }

abbrev second_init : Buffer
second_init = record { id = 2; bytes = 20 ∷ [] }

abbrev fragment : Buffer
fragment = record { id = 3; bytes = 30 ∷ [] }

abbrev new_runner : Runner
new_runner = record { settle = new_init_settle; channel = []; released = [] }

abbrev a_change : List Event
a_change =
    map_fetched first_init 1
    ∷ map_fetched second_init 1
    ∷ fragment_fetched fragment 1
    ∷ window_ended 2
    ∷ []

handle_all-placed_example :
    placed 3 (handle_all new_runner a_change) ≡ placed 3 new_runner + entered 3 a_change
unfolding IsClean AllTaken IsTaken
handle_all-placed_example =
    handle_all-placed 3 new_runner a_change ((λ h. refl), (λ h. refl), (λ h. absurd (ground arith)))
      (tt, (tt, (tt, (omega arith, tt))))
