-- ===== src/Suites/Timeouts.antt =====
-- internal/config/suite/suite.go: the errors of a suite are those of its timeout.
use go_uptime.Suites.{
  SuiteEndpoint, EndpointResult, SuiteResult, Run, Progress, execute_endpoint, read_timeout,
  add_checked, run_endpoint, and_then, skip, execute_endpoints, all_checks_succeed,
  calculate_success, result_of, initial, execute,
}
use go_uptime.Suites.Shifts.{untimed, checks_of, checks-untimed}
use go_uptime.Conditions.{Check, Library}
use go_uptime.Conditions.Health.{Network}
use go_uptime.Gontext.{Gontext}
use go_uptime.JsonPath.{Fields}
use go_uptime.Common.{
  ℕ, zero, suc, ◌≡◌, refl, sym, ap, ◌∙◌, Bool, true, false, not, ◌&&◌, ◌||◌, Option, none, some,
  List, [], ◌∷◌, Bytes, if◌then◌else◌, length, length-append, ◌==◌, arith,
}
use mathlib.Core.Option.{map}

-- Whether the clock reports the timeout in one of the first rounds.
unfoldable pub timed_out_within : Run → ℕ → Bool
timed_out_within run zero = false
timed_out_within run (suc n) = (run.at n).timed_out || timed_out_within run n

unfoldable pub each_succeeds : List EndpointResult → Bool
each_succeeds [] = true
each_succeeds (r ∷ rs) = r.check.success && each_succeeds rs

abbrev timeout_errors : Run → Bool → List Bytes
timeout_errors run reported = if reported then run.timeout_error ∷ [] else []

-- The results, the errors and the success of a suite.
abbrev pub outcome : SuiteResult → List EndpointResult × List Bytes × Bool
outcome result = (result.endpoint_results, result.errors, result.success)

-- What a suite with these results reports: one error if the timeout was reported in a round of one of
-- them, and success if all of them succeeded without that error.
unfoldable pub reported : Run → List EndpointResult → List EndpointResult × List Bytes × Bool
reported run results =
    let late = timed_out_within run (length results) in
    (results, if late then run.timeout_error ∷ [] else [], each_succeeds results && not late)

record Holds (run : Run) (s : Progress) : Type 0 where
  errors_are : s.errors ≡ timeout_errors run s.timeout_read
  read_is : s.timeout_read ≡ timed_out_within run s.round
  round_is : s.round ≡ length s.results

abbrev HoldsOf : Run → Option Progress → Type 0
HoldsOf run none = Unit
HoldsOf run (some s) = Holds run s

-- What holds once the select of a round is done.
record HasRead (run : Run) (s : Progress) : Type 0 where
  errors_are : s.errors ≡ timeout_errors run s.timeout_read
  read_is : s.timeout_read ≡ timed_out_within run (suc s.round)
  round_is : s.round ≡ length s.results

read_timeout-HasRead : (run : Run) (s : Progress) → Holds run s → HasRead run (read_timeout run s)
unfolding read_timeout timed_out_within
read_timeout-HasRead run s ok =
    let errors = ok.errors_are in
    let read = ok.read_is in
    let round = ok.round_is in
    record { errors_are = ground arith; read_is = ground arith; round_is = ground arith }

add_checked-HoldsOf :
    (run : Run) (ep : SuiteEndpoint) (s : Progress) (o : Option (Gontext × Check))
    → HasRead run s
    → HoldsOf run (add_checked ep s o)
add_checked-HoldsOf run ep s none ok = tt
add_checked-HoldsOf run ep s (some (context, r)) ok = record {
  errors_are = ok.errors_are;
  read_is = ok.read_is;
  round_is =
      ap suc ok.round_is
      ∙ sym (length-append s.results (record { name = ep.name; check = r } ∷ []) ∙ omega arith);
}

and_then-HoldsOf :
    (run : Run) (f : Progress → Option Progress) (o : Option Progress)
    → ((s : Progress) → Holds run s → HoldsOf run (f s))
    → HoldsOf run o
    → HoldsOf run (and_then f o)
and_then-HoldsOf run f none h ok = tt
and_then-HoldsOf run f (some s) h ok = h s ok

if-HoldsOf :
    (run : Run) (c : Bool) (o o' : Option Progress)
    → HoldsOf run o
    → HoldsOf run o'
    → HoldsOf run (if c then o else o')
if-HoldsOf run true o o' p q = p
if-HoldsOf run false o o' p q = q

execute_endpoints-HoldsOf :
    (lib : Library) (net : Network) (run : Run) (endpoints : List SuiteEndpoint) (s : Progress)
    → Holds run s
    → HoldsOf run (execute_endpoints lib net run endpoints s)
unfolding execute_endpoints
execute_endpoints-HoldsOf lib net run [] s ok = ok
execute_endpoints-HoldsOf lib net run (ep ∷ endpoints) s ok =
    and_then-HoldsOf run (λ (s' : Progress). execute_endpoints lib net run endpoints s')
      (if skip ep s then some s else run_endpoint lib net run ep s)
      (λ s' ok'. execute_endpoints-HoldsOf lib net run endpoints s' ok')
      (if-HoldsOf run (skip ep s) (some s) (run_endpoint lib net run ep s) ok (
        add_checked-HoldsOf run ep (read_timeout run s)
          (execute_endpoint lib net run (run.at s.round) ep s.context)
          (read_timeout-HasRead run s ok)))

each_succeeds-is : (rs : List EndpointResult) → all_checks_succeed rs ≡ each_succeeds rs
unfolding all_checks_succeed each_succeeds
each_succeeds-is [] = refl
each_succeeds-is (r ∷ rs) = ap (λ (b : Bool). r.check.success && b) (each_succeeds-is rs)

no_errors : (run : Run) (late : Bool) → (length (timeout_errors run late) == 0) ≡ not late
no_errors run true = refl
no_errors run false = refl

outcome-reported :
    (run : Run) (o : Option Progress)
    → HoldsOf run o
    → map outcome (result_of o) ≡ map (reported run) (map checks_of (result_of o))
unfolding reported calculate_success
outcome-reported run none ok = refl
outcome-reported run (some s) ok =
    let late = timed_out_within run (length s.results) in
    let errors : s.errors ≡ timeout_errors run late =
      ok.errors_are
      ∙ ap (timeout_errors run) (ok.read_is ∙ ap (timed_out_within run) ok.round_is) in
    rw (errors, each_succeeds-is s.results, no_errors run late) refl

-- The timeout of a suite stops no check: a run gives the results of the run whose timeout never
-- passes. What the timeout adds is one error of the suite, if it was reported in the round of one of
-- the checks, and then the suite does not succeed; otherwise the suite has no error, and succeeds
-- exactly if each of its checks does.
pub execute-untimed :
    (lib : Library) (net : Network) (run : Run) (context : Option Fields)
    (endpoints : List SuiteEndpoint)
    → map outcome (execute lib net run context endpoints)
      ≡ map (reported run) (map checks_of (execute lib net (untimed run) context endpoints))
unfolding execute
execute-untimed lib net run context endpoints =
    outcome-reported run (execute_endpoints lib net run endpoints (initial context)) (
      execute_endpoints-HoldsOf lib net run endpoints (initial context)
        (record { errors_are = refl; read_is = unfold timed_out_within in refl; round_is = refl }))
    ∙ ap (map (reported run)) (checks-untimed lib net run context endpoints)
