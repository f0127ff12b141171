-- ===== src/Suites.antt =====
-- internal/config/suite/suite.go, result.go and internal/watchdog/suite.go: the endpoints of a suite,
-- checked one after the other with a shared context. `none` is the panic of a JSON path.
pub mod Shifts
pub mod Timeouts
pub mod Handed
mod Examples
use go_uptime.Conditions.{Check, Library, add_error, invalid_condition_element_suffix}
use go_uptime.Conditions.Placeholder.{resolve_placeholder}
use go_uptime.Conditions.Health.{Target, Network, evaluate_health}
use go_uptime.Gontext.{Gontext, set, new, get_all}
use go_uptime.JsonPath.{Value, Fields}
use go_uptime.Result.{join}
use go_uptime.Clock.{Time, Duration}
use go_uptime.Common.{
  ℕ, zero, suc, Bool, true, false, not, ◌&&◌, ◌||◌, ◌==◌, Option, none, some, List, [], ◌∷◌, ◌++◌,
  Bytes, if◌then◌else◌, length, bytes_beq,
}
use go_uptime.Common.Text.{codes, has_suffix, trim_suffix}

-- An endpoint of a suite; `stored` is the map `Store` in the order in which it is read.
pub record SuiteEndpoint : Type 0 where
  pub name : Bytes
  pub target : Target
  pub stored : List (Bytes × Bytes)
  pub always_run : Bool

pub record EndpointResult : Type 0 where
  pub name : Bytes
  pub check : Check

pub record SuiteResult : Type 0 where
  pub success : Bool
  pub endpoint_results : List EndpointResult
  pub errors : List Bytes
  pub context : Fields

-- What the clock says at the check with a number: whether the timeout has passed, the start, the
-- time when the results are cleaned up, and the duration.
pub record Moment : Type 0 where
  pub timed_out : Bool
  pub started : Time
  pub evaluated : Time
  pub took : Duration

-- The parsers of a stored value, of strconv, and the clock of a run; `timeout_error` is the text of
-- the timeout.
pub record Run : Type 0 where
  pub typed : Bytes → Value
  pub at : ℕ → Moment
  pub timeout_error : Bytes

pub data Stored : Type 0 where
  value : Value → Stored
  error : Bytes → Stored
  panicked : Stored

abbrev invalid_suffix : Bytes
invalid_suffix = codes " " ++ invalid_condition_element_suffix

abbrev pub stored_of : Run → Option Bytes → Stored
stored_of run none = panicked
stored_of run (some resolved) =
    if has_suffix resolved invalid_suffix
    then error (codes "invalid path: " ++ trim_suffix resolved invalid_suffix)
    else value (run.typed resolved)

-- `extractValueForStorage`
unfoldable pub extract_value_for_storage : Library → Run → Bytes → Check → Stored
unfolding resolve_placeholder
extract_value_for_storage lib run placeholder r =
    stored_of run (resolve_placeholder lib r none placeholder)

abbrev pub add_stored :
    Bytes → Stored → Option (Gontext × List Bytes) → Option (Gontext × List Bytes)
add_stored key panicked s = none
add_stored key (value v) none = none
add_stored key (value v) (some (context, errors)) = some (set key v context, errors)
add_stored key (error e) none = none
add_stored key (error e) (some (context, errors)) =
    some (context, errors ++ (key ++ (codes ": " ++ e)) ∷ [])

-- The loop of `StoreResultValues`. A split path has a part, so that `Set` does not fail.
unfoldable pub store_values :
    Library
    → Run
    → List (Bytes × Bytes)
    → Check
    → Option (Gontext × List Bytes)
    → Option (Gontext × List Bytes)
unfolding extract_value_for_storage
store_values lib run [] r s = s
store_values lib run ((key, placeholder) ∷ mappings) r s =
    store_values lib run mappings r
      (add_stored key (extract_value_for_storage lib run placeholder r) s)

abbrev with_errors : List Bytes → Check → Check
with_errors [] r = r
with_errors (e ∷ errors) r =
    add_error
      (codes "failed to store values: failed to extract values: " ++ join (codes "; ") (e ∷ errors))
      r

abbrev pub finish_store : Check → Option (Gontext × List Bytes) → Option (Gontext × Check)
finish_store r none = none
finish_store r (some (context, errors)) = some (context, with_errors errors r)

abbrev pub store_checked :
    Library → Run → SuiteEndpoint → Gontext → Moment → Option Check → Option (Gontext × Check)
store_checked lib run ep context m none = none
store_checked lib run ep context m (some r) =
    let timed : Check = record r { timestamp = m.started; duration = m.took } in
    finish_store timed (store_values lib run ep.stored timed (some (context, [])))

-- One check, with the values that it stores.
unfoldable pub execute_endpoint :
    Library → Network → Run → Moment → SuiteEndpoint → Gontext → Option (Gontext × Check)
unfolding evaluate_health store_values
execute_endpoint lib net run m ep context =
    store_checked lib run ep context m
      (evaluate_health lib net (some context) ep.target m.evaluated)

-- The state of the loop of `Execute`: `timeout_read` is whether the channel was read.
pub record Progress : Type 0 where
  pub context : Gontext
  pub has_failed : Bool
  pub timeout_read : Bool
  pub results : List EndpointResult
  pub errors : List Bytes
  pub round : ℕ

-- The select. Its `break` leaves the select and not the loop: the endpoint is checked all the same.
unfoldable pub read_timeout : Run → Progress → Progress
read_timeout run s =
    if (run.at s.round).timed_out && not s.timeout_read
    then record s { timeout_read = true; errors = s.errors ++ run.timeout_error ∷ [] }
    else s

abbrev pub add_checked : SuiteEndpoint → Progress → Option (Gontext × Check) → Option Progress
add_checked ep s none = none
add_checked ep s (some (context, r)) = some (record s {
  context = context;
  results = s.results ++ record { name = ep.name; check = r } ∷ [];
  has_failed = s.has_failed || not r.success;
  round = suc s.round;
})

abbrev pub run_endpoint : Library → Network → Run → SuiteEndpoint → Progress → Option Progress
run_endpoint lib net run ep s =
    let read = read_timeout run s in
    add_checked ep read (execute_endpoint lib net run (run.at s.round) ep s.context)

abbrev pub skip : SuiteEndpoint → Progress → Bool
skip ep s = s.has_failed && not ep.always_run

abbrev pub and_then : (Progress → Option Progress) → Option Progress → Option Progress
and_then f none = none
and_then f (some s) = f s

unfoldable pub execute_endpoints :
    Library → Network → Run → List SuiteEndpoint → Progress → Option Progress
unfolding execute_endpoint read_timeout
execute_endpoints lib net run [] s = some s
execute_endpoints lib net run (ep ∷ endpoints) s =
    and_then (λ (s' : Progress). execute_endpoints lib net run endpoints s')
      (if skip ep s then some s else run_endpoint lib net run ep s)

unfoldable pub all_checks_succeed : List EndpointResult → Bool
all_checks_succeed [] = true
all_checks_succeed (r ∷ results) = r.check.success && all_checks_succeed results

-- `CalculateSuccess`
unfoldable pub calculate_success : List EndpointResult → List Bytes → Bool
unfolding all_checks_succeed
calculate_success results errors = all_checks_succeed results && length errors == 0

abbrev pub result_of : Option Progress → Option SuiteResult
result_of none = none
result_of (some s) = some (record {
  success = calculate_success s.results s.errors;
  endpoint_results = s.results;
  errors = s.errors;
  context = get_all s.context;
})

abbrev pub initial : Option Fields → Progress
initial context = record {
  context = new context;
  has_failed = false;
  timeout_read = false;
  results = [];
  errors = [];
  round = 0;
}

-- `Execute`
unfoldable pub execute :
    Library → Network → Run → Option Fields → List SuiteEndpoint → Option SuiteResult
unfolding execute_endpoints calculate_success
execute lib net run context endpoints =
    result_of (execute_endpoints lib net run endpoints (initial context))

-- The loop of `executeSuite` over the endpoints: the endpoint and the result that its alerts are
-- handled with, which is the one at the same position.
unfoldable pub handed :
    List SuiteEndpoint → List EndpointResult → List (SuiteEndpoint × EndpointResult)
handed [] results = []
handed (ep ∷ endpoints) [] = []
handed (ep ∷ endpoints) (r ∷ results) = (ep, r) ∷ handed endpoints results
