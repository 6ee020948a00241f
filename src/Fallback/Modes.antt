-- ===== src/Fallback/Modes.antt =====
-- The two modes of a client over its requests.
use bilirec.Prelude.{
  ℕ, suc, ◌+◌, ◌≤◌, ◌≡◌, ◌⊎◌, refl, inl, inr, Bool, true, false, Option, none, some, List, [], ◌∷◌,
  if◌then◌else◌, arith,
}
use bilirec.Fallback.{
  Decision, decision_ok, decision_fallback, Answer, Client, new_client, should_probe, probe_due,
  probe, do_preferred, do_primary, do_request, on_probe_success, on_probe_failure,
  record_fallback_trigger,
}

-- A request: its time and what the clients would answer.
pub record Request : Type 0 where
  pub now : ℕ
  pub a : Answer
  pub b : Answer

unfoldable pub run_requests : Client → List Request → Client
unfolding do_request
run_requests c [] = c
run_requests c (r ∷ rs) = run_requests (do_request c r.now r.a r.b).client rs

-- Does a request ask the primary client and then the fallback client because of its answer.
unfoldable pub triggers : Decision → Bool
triggers decision_fallback = true
triggers d = false

unfoldable pub trigger_count : List Request → ℕ
unfolding triggers
trigger_count [] = 0
trigger_count (r ∷ rs) =
    let rest = trigger_count rs in if triggers r.a.decision then suc rest else rest

-- The fallback client is preferred exactly from the third trigger on, and then half a recovery at most
-- has been seen.
pub IsInMode : Client → Type 0
IsInMode c =
    ((c.prefer_fallback ≡ true)
      × (c.has_fallback ≡ true)
      × (3 ≤ c.fallback_fail_streak)
      × (c.probe_success_streak ≤ 1))
    ⊎ ((c.prefer_fallback ≡ false) × (c.fallback_fail_streak ≤ 2))

request_IsInMode :
    (c : Client) (now : ℕ) (a b : Answer) → IsInMode c → IsInMode (do_request c now a b).client
unfolding IsInMode do_request do_preferred do_primary should_probe probe on_probe_success
    on_probe_failure record_fallback_trigger
request_IsInMode c now a b h = ground arith

request_streak :
    (c : Client) (now : ℕ) (a b : Answer)
    → (do_request c now a b).client.fallback_fail_streak
      ≤ c.fallback_fail_streak + (if triggers a.decision then 1 else 0)
unfolding do_request do_preferred do_primary should_probe probe on_probe_success on_probe_failure
    record_fallback_trigger triggers
request_streak c now a b = ground arith

run_IsInMode : (c : Client) (rs : List Request) → IsInMode c → IsInMode (run_requests c rs)
unfolding run_requests
run_IsInMode c [] h = h
run_IsInMode c (r ∷ rs) h =
    run_IsInMode (do_request c r.now r.a r.b).client rs (request_IsInMode c r.now r.a r.b h)

run_streak :
    (c : Client) (rs : List Request)
    → (run_requests c rs).fallback_fail_streak ≤ c.fallback_fail_streak + trigger_count rs
unfolding run_requests trigger_count
run_streak c [] = omega arith
run_streak c (r ∷ rs) =
    ground
      (arith, run_streak (do_request c r.now r.a r.b).client rs, request_streak c r.now r.a r.b)

-- A new client that comes to prefer its fallback client has one, and at least three of its requests had
-- a primary answer that asked for it.
pub prefer_fallback_lem :
    (has_fallback : Bool) (rs : List Request)
    → (run_requests (new_client has_fallback) rs).prefer_fallback ≡ true
    → 3 ≤ trigger_count rs
unfolding IsInMode
prefer_fallback_lem has_fallback rs h =
    let mode = run_IsInMode (new_client has_fallback) rs (inr (refl, omega arith)) in
    ground (arith, mode, run_streak (new_client has_fallback) rs)

-- A good answer to a due probe, and to a request that is no probe.
first_success :
    (c : Client) (now : ℕ) (a b : Answer)
    → IsInMode c
    → probe_due now c.last_probe_at ≡ true
    → a.decision ≡ decision_ok
    → ((do_request c now a b).client.prefer_fallback ≡ false)
      ⊎ (((do_request c now a b).client.has_fallback ≡ true)
          × ((do_request c now a b).client.last_probe_at ≡ some now)
          × ((do_request c now a b).client.probe_success_streak ≡ 1))
unfolding IsInMode do_request do_preferred do_primary should_probe probe on_probe_success
first_success c now a b mode due ok = ground arith

second_success :
    (c : Client) (now : ℕ) (a b : Answer)
    → (c.prefer_fallback ≡ false)
      ⊎ ((c.has_fallback ≡ true)
          × (probe_due now c.last_probe_at ≡ true)
          × (c.probe_success_streak ≡ 1))
    → a.decision ≡ decision_ok
    → (do_request c now a b).client.prefer_fallback ≡ false
unfolding do_request do_preferred do_primary should_probe probe on_probe_success
second_success c now a b mode ok = ground arith

due_later :
    (now before : ℕ) (last : Option ℕ)
    → last ≡ some before
    → before + 300 ≤ now
    → probe_due now last ≡ true
unfolding probe_due
due_later now before none e h = cc
due_later now before (some last) e h = ground arith

-- Whatever the requests before, a client that prefers its fallback client goes back after two probes in a
-- row that succeed: two requests, the first at a time at which a probe is due and the second at least the
-- probe interval later, whose primary answers are good.
pub do_request-recovers :
    (has_fallback : Bool) (rs : List Request) (r1 r2 : Request)
    → probe_due r1.now (run_requests (new_client has_fallback) rs).last_probe_at ≡ true
    → r1.now + 300 ≤ r2.now
    → r1.a.decision ≡ decision_ok
    → r2.a.decision ≡ decision_ok
    → (run_requests (run_requests (new_client has_fallback) rs) (r1 ∷ r2 ∷ [])).prefer_fallback
      ≡ false
unfolding IsInMode run_requests
do_request-recovers has_fallback rs r1 r2 due later ok1 ok2 =
    let c = run_requests (new_client has_fallback) rs in
    let mode = run_IsInMode (new_client has_fallback) rs (inr (refl, omega arith)) in
    second_success (do_request c r1.now r1.a r1.b).client r2.now r2.a r2.b
      (elim (first_success c r1.now r1.a r1.b mode due ok1) [
        | inl back ↦ inl back
        | inr (has, last, streak) ↦ inr (has, due_later r2.now r1.now _ last later, streak)
      ])
      ok2
