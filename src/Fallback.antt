-- ===== src/Fallback.antt =====
-- pkg/fallback/fallback.go. What the two resty clients answer and what the caller's `interpret` decides
-- on it are arguments of a request; a time is a number of seconds, the zero time is `none`. The mutex is
-- taken for each access to the state; the requests here come one after the other. Log lines are left out.
pub mod Requests
pub mod Modes
use bilirec.Prelude.{
  ℕ, suc, ◌+◌, Bool, true, false, ◌&&◌, not, Option, none, some, List, [], ◌∷◌, if◌then◌else◌, leb,
  ltb,
}

abbrev pub degrade_threshold : ℕ
degrade_threshold = 3

-- Seconds.
abbrev pub probe_interval : ℕ
probe_interval = 300

abbrev pub probe_success_threshold : ℕ
probe_success_threshold = 2

pub data Decision : Type 0 where
  decision_ok decision_fallback decision_abort : Decision

-- A response, or none where the answer has none; an error, or nil; and the decision on them.
pub record Answer : Type 0 where
  pub resp : ℕ
  pub err : Option ℕ
  pub decision : Decision

-- `has_fallback` says that the fallback client is not nil.
pub record Client : Type 0 where
  pub has_fallback : Bool
  pub prefer_fallback : Bool
  pub fallback_fail_streak : ℕ
  pub last_probe_at : Option ℕ
  pub probe_success_streak : ℕ
  pub degraded_logged : Bool
  pub recovered_logged : Bool

abbrev pub new_client : Bool → Client
new_client has_fallback = record {
  has_fallback = has_fallback;
  prefer_fallback = false;
  fallback_fail_streak = 0;
  last_probe_at = none;
  probe_success_streak = 0;
  degraded_logged = false;
  recovered_logged = false;
}

pub data Result : Type 0 where
  response error : ℕ → Result

unfoldable pub resp_unless : ℕ → Option ℕ → Result
resp_unless resp none = response resp
resp_unless resp (some e) = error e

-- `return resp, nil` where the decision is OK, and the error, if any, otherwise.
unfoldable pub answered : Answer → Result
unfolding resp_unless
answered a = elim a.decision [ decision_ok ↦ response a.resp | _ ↦ resp_unless a.resp a.err ]

unfoldable pub probe_due : ℕ → Option ℕ → Bool
probe_due now none = true
probe_due now (some last) = leb (last + probe_interval) now

-- `shouldProbeLocked`
unfoldable pub should_probe : Client → ℕ → Client × Bool
unfolding probe_due
should_probe c now =
    if not c.prefer_fallback
    then (c, false)
    else if probe_due now c.last_probe_at
    then (record c { last_probe_at = some now }, true)
    else (c, false)

unfoldable pub on_probe_success : Client → Client
on_probe_success c =
    let streak = suc c.probe_success_streak in
    if leb probe_success_threshold streak
    then record c {
      prefer_fallback = false;
      fallback_fail_streak = 0;
      probe_success_streak = 0;
      degraded_logged = false;
      recovered_logged = true;
    }
    else record c { probe_success_streak = streak }

unfoldable pub on_probe_failure : Client → Client
on_probe_failure c = record c { probe_success_streak = 0 }

unfoldable pub record_fallback_trigger : Client → Client
record_fallback_trigger c =
    let streak = suc c.fallback_fail_streak in
    if leb degrade_threshold streak && not c.prefer_fallback
    then record c {
      prefer_fallback = true;
      fallback_fail_streak = streak;
      probe_success_streak = 0;
      degraded_logged = true;
      recovered_logged = false;
    }
    else record c { fallback_fail_streak = streak }

-- Which clients are asked, in order, beside the state after the request and its result.
pub data Asked : Type 0 where
  primary fallback : Asked

pub record Outcome : Type 0 where
  pub client : Client
  pub result : Result
  pub asked : List Asked

-- The probe, and the request on the fallback client where the probe fails.
unfoldable pub probe : Client → Answer → Answer → Outcome
unfolding answered on_probe_success on_probe_failure
probe c a b = elim a.decision [
  | decision_ok ↦ record { client = on_probe_success c; result = answered a; asked = primary ∷ [] }
  | _ ↦ record { client = on_probe_failure c; result = answered b; asked = primary ∷ fallback ∷ [] }
]

-- `Do` while the fallback client is preferred.
unfoldable pub do_preferred : Client → ℕ → Answer → Answer → Outcome
unfolding should_probe probe answered
do_preferred c now a b =
    let r = should_probe c now in
    if r.1
    then probe r.0 a b
    else record { client = r.0; result = answered b; asked = fallback ∷ [] }

unfoldable pub do_primary : Client → Answer → Answer → Outcome
unfolding answered record_fallback_trigger
do_primary c a b = elim a.decision [
  | decision_fallback ↦
      if c.has_fallback
      then record {
        client = record_fallback_trigger c;
        result = answered b;
        asked = primary ∷ fallback ∷ [];
      }
      else record { client = c; result = answered a; asked = primary ∷ [] }
  | _ ↦ record { client = c; result = answered a; asked = primary ∷ [] }
]

-- `Do` at the time `now`: the primary client would answer `a`, the fallback client `b`.
unfoldable pub do_request : Client → ℕ → Answer → Answer → Outcome
unfolding do_preferred do_primary
do_request c now a b =
    if c.prefer_fallback && c.has_fallback then do_preferred c now a b else do_primary c a b
