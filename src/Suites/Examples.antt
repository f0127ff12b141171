-- ===== src/Suites/Examples.antt =====
-- internal/config/suite/suite.go: a suite of three endpoints whose first one fails.
use go_uptime.Suites.{
  SuiteEndpoint, SuiteResult, Moment, Run, execute_endpoint, store_values, execute, handed,
}
use go_uptime.Suites.Shifts.{untimed, checks_of}
use go_uptime.Suites.Timeouts.{outcome, reported, execute-untimed}
use go_uptime.Suites.Handed.{named, handed-execute}
use go_uptime.Conditions.{Check, Library}
use go_uptime.Conditions.Evaluate.{
  empty_check, evaluate_conditions, needs_to_retrieve_ip, needs_to_retrieve_domain_expiration,
}
use go_uptime.Conditions.Health.{
  Target, Network, evaluate_health, preprocess_with_context, replace_context_placeholders,
  replace_from, placeholder_path, take_path, probe, set_hostname, kind_of, get_ip,
  retrieve_domain_expiration, clean_up,
}
use go_uptime.Gontext.{Gontext, new, copy_fields}
use go_uptime.JsonPath.{text, end}
use go_uptime.Common.{
  ◌≡◌, refl, Bool, true, false, none, some, [], ◌∷◌, Bytes, bytes_beq, inr, ℕ, ◌*◌,
}
use go_uptime.Common.Int.{pos}
use go_uptime.Common.Text.{codes, has_prefix}
use mathlib.Core.Option.{map}

abbrev library : Library
library = record {
  json = record { unmarshal = λ body. none; marshal = λ v. []; print = λ v. [] };
  match = λ pattern s. bytes_beq pattern s;
  parse_int = λ s. none;
  parse_duration = λ s. none;
  parse_float = λ s. none;
}

-- A network in which only the first endpoint does not answer.
abbrev network : Network
network = record {
  parse = λ url. inr (url, []);
  lookup_ip = λ hostname. inr hostname;
  get_domain_expiration = λ hostname. (pos 0, none);
  call = λ e r. record r { success = bytes_beq e.url (codes "c") };
}

abbrev moment : ℕ → Moment
moment i = record { timed_out = true; started = i * 10; evaluated = i * 10; took = pos 1 }

abbrev run : Run
run = record { typed = λ s. text s; at = λ i. moment i; timeout_error = codes "timed out" }

abbrev target : Bytes → Target
target url = record {
  url = url;
  body = [];
  headers = [];
  has_dns = false;
  conditions = [];
  options = record {
    dont_resolve_failed_conditions = false;
    resolve_successful_conditions = false;
  };
  hide_conditions = false;
  hide_hostname = false;
  hide_url = false;
  hide_port = false;
  hide_errors = false;
}

abbrev endpoint : Bytes → Bool → SuiteEndpoint
endpoint name always_run = record {
  name = name;
  target = target name;
  stored = [];
  always_run = always_run;
}

abbrev empty : Gontext
empty = record { values = end }

abbrev answer : Bytes → Bool → ℕ → Check
answer name success i = record empty_check {
  hostname = name;
  success = success;
  timestamp = i * 10;
  duration = pos 1;
}

execute-untimed_example :
    map outcome (execute library network run none (endpoint (codes "a") false ∷ []))
    ≡ map (reported run) (
        map checks_of
          (execute library network (untimed run) none (endpoint (codes "a") false ∷ [])))
execute-untimed_example = execute-untimed library network run none (endpoint (codes "a") false ∷ [])

handed-execute_example :
    let a = endpoint (codes "a") false in
    let b = endpoint (codes "b") false in
    let c = endpoint (codes "c") true in
    (result : SuiteResult) × (execute library network run none (a ∷ b ∷ c ∷ []) ≡ some result)
    × (handed (a ∷ b ∷ c ∷ []) result.endpoint_results
        ≡ (a, named a (answer (codes "a") false 0)) ∷ (b, named c (answer (codes "c") true 1)) ∷ [])
unfolding execute_endpoint store_values evaluate_health preprocess_with_context
    replace_context_placeholders replace_from placeholder_path take_path has_prefix probe
    set_hostname kind_of get_ip needs_to_retrieve_ip retrieve_domain_expiration
    needs_to_retrieve_domain_expiration clean_up evaluate_conditions new copy_fields bytes_beq
handed-execute_example =
    handed-execute library network run none (endpoint (codes "a") false)
      (endpoint (codes "b") false) (endpoint (codes "c") true) empty empty
      (answer (codes "a") false 0) (answer (codes "c") true 1) refl refl refl refl refl
