-- ===== src/Suites/Handed.antt =====
-- internal/watchdog/suite.go: the result that an endpoint gets which was left out after a failure.
use go_uptime.Suites.{
  SuiteEndpoint, EndpointResult, SuiteResult, Run, Progress, execute_endpoint, add_checked,
  and_then, execute_endpoints, result_of, execute, handed,
}
use go_uptime.Suites.Shifts.{state, run_endpoint-state}
use go_uptime.Conditions.{Check, Library}
use go_uptime.Conditions.Health.{Network}
use go_uptime.Gontext.{Gontext, new}
use go_uptime.JsonPath.{Fields}
use go_uptime.Common.{
  ℕ, suc, ◌≡◌, refl, ap, ◌∙◌, Bool, true, false, not, ◌&&◌, ◌||◌, Option, some, List, [], ◌∷◌, ◌++◌,
  Bytes,
}

abbrev pub named : SuiteEndpoint → Check → EndpointResult
named ep r = record { name = ep.name; check = r }

-- An endpoint that is not skipped, and whose check returns.
checked :
    (lib : Library) (net : Network) (run : Run) (ep : SuiteEndpoint)
    (endpoints : List SuiteEndpoint) (c d : Gontext) (f : Bool) (rs : List EndpointResult) (n : ℕ)
    (t : Bool) (es : List Bytes) (r : Check)
    → (f && not ep.always_run) ≡ false
    → execute_endpoint lib net run (run.at n) ep c ≡ some (d, r)
    → (t' : Bool) × (es' : List Bytes) × (execute_endpoints lib net run
          (ep ∷ endpoints)
          (state c f rs n t es)
        ≡ execute_endpoints lib net run endpoints
            (state d (f || not r.success) (rs ++ named ep r ∷ []) (suc n) t' es'))
unfolding execute_endpoints
checked lib net run ep endpoints c d f rs n t es r h returned =
    let (t', es', same) = run_endpoint-state lib net run ep c f rs n t es in
    let next = and_then (λ (s : Progress). execute_endpoints lib net run endpoints s) in
    (
      t',
      es',
      rw (h) (
          ap next same
          ∙ ap (λ (o : Option (Gontext × Check)). next (add_checked ep (state c f rs n t' es') o))
              returned),
    )

skipped :
    (lib : Library) (net : Network) (run : Run) (ep : SuiteEndpoint)
    (endpoints : List SuiteEndpoint) (s : Progress)
    → (s.has_failed && not ep.always_run) ≡ true
    → execute_endpoints lib net run (ep ∷ endpoints) s ≡ execute_endpoints lib net run endpoints s
unfolding execute_endpoints
skipped lib net run ep endpoints s h = rw (h) refl

-- Where the first of three endpoints fails, the second is not always run and the third is, and the
-- checks of the first and the third return, the alerts of the second endpoint, which was not
-- checked, are handled with the result of the third, and those of the third with none.
pub handed-execute :
    (lib : Library) (net : Network) (run : Run) (context : Option Fields) (a b c : SuiteEndpoint)
    (d e : Gontext) (r s : Check)
    → execute_endpoint lib net run (run.at 0) a (new context) ≡ some (d, r)
    → r.success ≡ false
    → b.always_run ≡ false
    → c.always_run ≡ true
    → execute_endpoint lib net run (run.at 1) c d ≡ some (e, s)
    → (result : SuiteResult) × (execute lib net run context (a ∷ b ∷ c ∷ []) ≡ some result)
      × (handed (a ∷ b ∷ c ∷ []) result.endpoint_results ≡ (a, named a r) ∷ (b, named c s) ∷ [])
unfolding execute handed
handed-execute lib net run context a b c d e r s first failed skips runs third =
    let (t, es, one) =
      checked lib net run a (b ∷ c ∷ []) (new context) d false [] 0 false [] r refl first in
    let failing : (false || not r.success) ≡ true = rw (failed) refl in
    let after = state d (false || not r.success) (named a r ∷ []) 1 t es in
    let two = skipped lib net run b (c ∷ []) after (rw (failing, skips) refl) in
    let kept : ((false || not r.success) && not c.always_run) ≡ false = rw (failing, runs) refl in
    let (t', es', three) =
      checked lib net run c [] d e (false || not r.success) (named a r ∷ []) 1 t es s kept third in
    (_, ap result_of (one ∙ two ∙ three), refl)
