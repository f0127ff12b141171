-- ===== src/Conditions/Examples.antt =====
-- internal/config/endpoint: the conditions of a check whose body is empty.
use mathlib.Core.Option.{some-ne-none}
use go_uptime.Conditions.{Check, ConditionResult, Library}
use go_uptime.Conditions.Display.{duration_string, format_duration}
use go_uptime.Conditions.Display.Durations.{format_duration-tens}
use go_uptime.Conditions.Evaluate.{
  Options, empty_check, evaluate_conditions, operator_of, equal, at_most,
}
use go_uptime.Conditions.Evaluate.Outcomes.{
  verdict, all, success_of, AllCompare, unparsed-IsSafe, evaluate_conditions-verdicts,
}
use go_uptime.Conditions.Returns.{with_results}
use go_uptime.Conditions.Health.{Target, Network, evaluate_health, preprocess_with_context}
use go_uptime.Conditions.Health.Before.{processed, probed, before_call}
use go_uptime.Conditions.Health.Success.{kept, evaluate_health-success}
use go_uptime.Common.{
  ◌≡◌, ◌*◌, refl, true, false, ◌&&◌, none, some, List, [], ◌∷◌, ◌++◌, Bytes, bytes_beq, map, arith,
  length, ◌==◌, inr,
}
use go_uptime.Common.Int.{pos}
use go_uptime.Common.Text.{codes, has_prefix, contains_text}
use go_uptime.Clock.{second}

abbrev library : Library
library = record {
  json = record { unmarshal = λ body. none; marshal = λ v. []; print = λ v. [] };
  match = λ pattern s. bytes_beq pattern s;
  parse_int = λ s. none;
  parse_duration = λ s. none;
  parse_float = λ s. none;
}

abbrev options : Options
options = record { dont_resolve_failed_conditions = false; resolve_successful_conditions = false }

abbrev conditions : List Bytes
conditions = codes "[STATUS] == 200" ∷ codes "[RESPONSE_TIME] <= 5" ∷ []

conditions-AllCompare : AllCompare conditions
unfolding operator_of contains_text has_prefix
conditions-AllCompare = (some-ne-none equal, (some-ne-none at_most, tt))

abbrev answered : Check
answered = record empty_check { success = true; connected = true; http_status = pos 200 }

evaluate_conditions-verdicts_example :
    (more : List ConditionResult) × (evaluate_conditions library options none conditions answered
      ≡ some (
          with_results
            (answered.condition_results ++ more)
            (answered.success && all (map (verdict library none answered) conditions))
            answered))
    × (map success_of more ≡ map (verdict library none answered) conditions)
evaluate_conditions-verdicts_example =
    evaluate_conditions-verdicts library options none conditions answered
      (unparsed-IsSafe library [] refl) conditions-AllCompare

format_duration-tens_example :
    duration_string (pos (70 * second)) ≡ format_duration (pos (70 * second)) ++ codes "0s"
format_duration-tens_example = format_duration-tens 70 refl (ground arith)

abbrev target : Target
target = record {
  url = codes "https://a";
  body = [];
  headers = [];
  has_dns = false;
  conditions = conditions;
  options = options;
  hide_conditions = false;
  hide_hostname = true;
  hide_url = false;
  hide_port = false;
  hide_errors = false;
}

abbrev network : Network
network = record {
  parse = λ url. inr (codes "a", []);
  lookup_ip = λ hostname. inr (codes "1.1.1.1");
  get_domain_expiration = λ hostname. (pos 0, none);
  call = λ e r. record r { connected = true; http_status = pos 200; body = [] };
}

evaluate_health-success_example :
    let r = probed library network none target in
    let before = before_call library network none target in
    let e' = processed library none target in
    (result : Check) × (more : List ConditionResult) × (evaluate_health library network none target
        9
      ≡ some result)
    × (before.success ≡ true)
    × (result.success ≡ (
        length before.errors == 0
        && ((network.call e' before).success && all (map (verdict library none r) e'.conditions))))
    × (result.condition_results ≡ kept e' (r.condition_results ++ more))
    × (map success_of more ≡ map (verdict library none r) e'.conditions)
unfolding preprocess_with_context
evaluate_health-success_example =
    evaluate_health-success library network none target 9
      (unparsed-IsSafe library (probed library network none target).body refl) conditions-AllCompare
