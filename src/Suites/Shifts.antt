-- ===== src/Suites/Shifts.antt =====
-- internal/config/suite/suite.go: the checks of a suite do not depend on its timeout.
use go_uptime.Suites.{
  SuiteEndpoint, EndpointResult, SuiteResult, Moment, Run, Progress, stored_of,
  extract_value_for_storage, store_values, add_stored, finish_store, store_checked,
  execute_endpoint, read_timeout, add_checked, run_endpoint, and_then, execute_endpoints, result_of,
  initial, execute,
}
use go_uptime.Conditions.{Check, Library}
use go_uptime.Conditions.Placeholder.{resolve_placeholder}
use go_uptime.Conditions.Health.{Network, evaluate_health}
use go_uptime.Gontext.{Gontext, new}
use go_uptime.JsonPath.{Fields}
use go_uptime.Common.{
  ℕ, suc, ◌≡◌, refl, sym, ap, ◌∙◌, Bool, true, false, not, ◌&&◌, ◌||◌, Option, none, some, List, [],
  ◌∷◌, ◌++◌, Bytes, Bool-cases, inl, inr,
}
use mathlib.Core.Option.{map}

-- The run whose clock never reports the timeout.
abbrev pub untimed : Run → Run
untimed run = record run { at = λ (i : ℕ). record (run.at i) { timed_out = false } }

extract-untimed :
    (lib : Library) (run : Run) (placeholder : Bytes) (r : Check)
    → extract_value_for_storage lib (untimed run) placeholder r
      ≡ extract_value_for_storage lib run placeholder r
unfolding extract_value_for_storage
extract-untimed lib run placeholder r =
    stored_of-untimed run (resolve_placeholder lib r none placeholder)
  where
    stored_of-untimed : (run : Run) (o : Option Bytes) → stored_of (untimed run) o ≡ stored_of run o
    stored_of-untimed run none = refl
    stored_of-untimed run (some s) = refl

store_values-untimed :
    (lib : Library) (run : Run) (mappings : List (Bytes × Bytes)) (r : Check)
    (s : Option (Gontext × List Bytes))
    → store_values lib (untimed run) mappings r s ≡ store_values lib run mappings r s
unfolding store_values
store_values-untimed lib run [] r s = refl
store_values-untimed lib run ((key, placeholder) ∷ mappings) r s =
    store_values-untimed lib run mappings r _
    ∙ ap (λ x. store_values lib run mappings r (add_stored key x s))
        (extract-untimed lib run placeholder r)

store_checked-untimed :
    (lib : Library) (run : Run) (ep : SuiteEndpoint) (context : Gontext) (m : Moment)
    (o : Option Check)
    → store_checked lib (untimed run) ep context (record m { timed_out = false }) o
      ≡ store_checked lib run ep context m o
store_checked-untimed lib run ep context m none = refl
store_checked-untimed lib run ep context m (some r) =
    let timed : Check = record r { timestamp = m.started; duration = m.took } in
    ap (finish_store timed) (store_values-untimed lib run ep.stored timed (some (context, [])))

execute_endpoint-untimed :
    (lib : Library) (net : Network) (run : Run) (m : Moment) (ep : SuiteEndpoint)
    (context : Gontext)
    → execute_endpoint lib net (untimed run) (record m { timed_out = false }) ep context
      ≡ execute_endpoint lib net run m ep context
unfolding execute_endpoint
execute_endpoint-untimed lib net run m ep context =
    store_checked-untimed lib run ep context m
      (evaluate_health lib net (some context) ep.target m.evaluated)

-- The state with its parts named.
abbrev pub state : Gontext → Bool → List EndpointResult → ℕ → Bool → List Bytes → Progress
state context has_failed results round timeout_read errors = record {
  context = context;
  has_failed = has_failed;
  timeout_read = timeout_read;
  results = results;
  errors = errors;
  round = round;
}

abbrev pub results_of : Progress → List EndpointResult
results_of s = s.results

read_timeout-state :
    (run : Run) (c : Gontext) (f : Bool) (rs : List EndpointResult) (n : ℕ) (t : Bool)
    (es : List Bytes)
    → (t' : Bool) × (es' : List Bytes) × (read_timeout run (state c f rs n t es)
        ≡ state c f rs n t' es')
unfolding read_timeout
read_timeout-state run c f rs n t es = elim (Bool-cases ((run.at n).timed_out && not t)) [
  | inl h ↦ (true, es ++ run.timeout_error ∷ [], rw (h) refl)
  | inr h ↦ (t, es, rw (h) refl)
]

-- The results with which a run from one of two states ends that differ in the timeout and the errors.
abbrev Agree : Library → Network → Run → List SuiteEndpoint → Progress → Progress → Type 0
Agree lib net run endpoints s s' =
    map results_of (execute_endpoints lib net run endpoints s)
    ≡ map results_of (execute_endpoints lib net (untimed run) endpoints s')

pub run_endpoint-state :
    (lib : Library) (net : Network) (run : Run) (ep : SuiteEndpoint) (c : Gontext) (f : Bool)
    (rs : List EndpointResult) (n : ℕ) (t : Bool) (es : List Bytes)
    → (t' : Bool) × (es' : List Bytes) × (run_endpoint lib net run ep (state c f rs n t es)
        ≡ add_checked ep (state c f rs n t' es') (execute_endpoint lib net run (run.at n) ep c))
run_endpoint-state lib net run ep c f rs n t es =
    let (t', es', same) = read_timeout-state run c f rs n t es in
    (
      t',
      es',
      ap (λ (s : Progress). add_checked ep s (execute_endpoint lib net run (run.at n) ep c)) same,
    )

-- A run of a rest of the endpoints from any two states that differ in the timeout and the errors.
abbrev Agrees : Library → Network → Run → List SuiteEndpoint → Type 0
Agrees lib net run endpoints =
    (c : Gontext) (f : Bool) (rs : List EndpointResult) (n : ℕ) (t t' : Bool) (es es' : List Bytes)
    → Agree lib net run endpoints (state c f rs n t es) (state c f rs n t' es')

Agree-checked :
    (lib : Library) (net : Network) (run : Run) (ep : SuiteEndpoint)
    (endpoints : List SuiteEndpoint)
    → Agrees lib net run endpoints
    → (c : Gontext) (f : Bool) (rs : List EndpointResult) (n : ℕ) (t t' : Bool)
      (es es' : List Bytes) (o : Option (Gontext × Check))
    → map results_of (
        and_then
          (λ (s : Progress). execute_endpoints lib net run endpoints s)
          (add_checked ep (state c f rs n t es) o))
      ≡ map results_of (
          and_then
            (λ (s : Progress). execute_endpoints lib net (untimed run) endpoints s)
            (add_checked ep (state c f rs n t' es') o))
Agree-checked lib net run ep endpoints rest c f rs n t t' es es' none = refl
Agree-checked lib net run ep endpoints rest c f rs n t t' es es' (some (context, r)) =
    rest context (f || not r.success) (rs ++ record { name = ep.name; check = r } ∷ []) (suc n) t t'
      es es'

Agree-run :
    (lib : Library) (net : Network) (run : Run) (ep : SuiteEndpoint)
    (endpoints : List SuiteEndpoint)
    → Agrees lib net run endpoints
    → (c : Gontext) (f : Bool) (rs : List EndpointResult) (n : ℕ) (t t' : Bool)
      (es es' : List Bytes)
    → map results_of (
        and_then
          (λ (s : Progress). execute_endpoints lib net run endpoints s)
          (run_endpoint lib net run ep (state c f rs n t es)))
      ≡ map results_of (
          and_then
            (λ (s : Progress). execute_endpoints lib net (untimed run) endpoints s)
            (run_endpoint lib net (untimed run) ep (state c f rs n t' es')))
Agree-run lib net run ep endpoints rest c f rs n t t' es es' =
    let (u, fs, left) = run_endpoint-state lib net run ep c f rs n t es in
    let (u', fs', right) = run_endpoint-state lib net (untimed run) ep c f rs n t' es' in
    let o = execute_endpoint lib net run (run.at n) ep c in
    let one = λ (x : Option Progress).
      map results_of (and_then (λ (s : Progress). execute_endpoints lib net run endpoints s) x) in
    let two = λ (x : Option Progress).
      map results_of
        (and_then (λ (s : Progress). execute_endpoints lib net (untimed run) endpoints s) x) in
    ap one left
    ∙ Agree-checked lib net run ep endpoints rest c f rs n u u' fs fs' o
    ∙ sym (
        ap (λ (x : Option (Gontext × Check)). two (add_checked ep (state c f rs n u' fs') x))
          (execute_endpoint-untimed lib net run (run.at n) ep c))
    ∙ sym (ap two right)

Agrees-all :
    (lib : Library) (net : Network) (run : Run) (endpoints : List SuiteEndpoint)
    → Agrees lib net run endpoints
unfolding execute_endpoints
Agrees-all lib net run [] c f rs n t t' es es' = refl
Agrees-all lib net run (ep ∷ endpoints) c f rs n t t' es es' =
    elim (Bool-cases (f && not ep.always_run)) [
      | inl h ↦ rw (h) (Agrees-all lib net run endpoints c f rs n t t' es es')
      | inr h ↦ rw (h) (
          Agree-run lib net run ep endpoints (Agrees-all lib net run endpoints) c f rs n t t' es
            es')
    ]

abbrev pub checks_of : SuiteResult → List EndpointResult
checks_of result = result.endpoint_results

checks_of-result_of : (o : Option Progress) → map checks_of (result_of o) ≡ map results_of o
checks_of-result_of none = refl
checks_of-result_of (some s) = refl

pub checks-untimed :
    (lib : Library) (net : Network) (run : Run) (context : Option Fields)
    (endpoints : List SuiteEndpoint)
    → map checks_of (execute lib net run context endpoints)
      ≡ map checks_of (execute lib net (untimed run) context endpoints)
unfolding execute
checks-untimed lib net run context endpoints =
    checks_of-result_of (execute_endpoints lib net run endpoints (initial context))
    ∙ Agrees-all lib net run endpoints (new context) false [] 0 false false [] []
    ∙ sym
        (checks_of-result_of (execute_endpoints lib net (untimed run) endpoints (initial context)))
