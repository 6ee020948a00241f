-- ===== src/Fallback/Requests.antt =====
-- One request: who is asked, and what comes back.
use bilirec.Prelude.{ℕ, ◌≡◌, ◌≢◌, ◌⊎◌, true, false, [], ◌∷◌, arith}
use bilirec.Fallback.{
  decision_ok, Answer, Client, answered, should_probe, probe_due, probe, do_preferred, do_primary,
  do_request, primary, fallback,
}

-- A request asks only the primary client, or the fallback client after it, or only the fallback client,
-- and returns the answer of the client asked last. The fallback client is asked only where there is one:
-- after the primary client if its answer asked for that or was a failed probe, and alone if it is
-- preferred and no probe is due.
pub do_request_cases :
    (c : Client) (now : ℕ) (a b : Answer)
    → (((do_request c now a b).asked ≡ primary ∷ []) × ((do_request c now a b).result ≡ answered a))
      ⊎ (((do_request c now a b).asked ≡ primary ∷ fallback ∷ [])
          × ((do_request c now a b).result ≡ answered b)
          × (c.has_fallback ≡ true)
          × (a.decision ≢ decision_ok))
      ⊎ (((do_request c now a b).asked ≡ fallback ∷ [])
          × ((do_request c now a b).result ≡ answered b)
          × (c.has_fallback ≡ true)
          × (c.prefer_fallback ≡ true)
          × (probe_due now c.last_probe_at ≡ false)
          × ((do_request c now a b).client ≡ c))
unfolding do_request do_preferred do_primary should_probe probe
do_request_cases c now a b = ground arith
