-- ===== src/Conditions/Evaluate/Outcomes.antt =====
-- internal/config/endpoint/condition.go and endpoint.go: what the evaluation of conditions adds to a
-- result.
use mathlib.Core.List.{append_assoc, append-nil}
use mathlib.Core.Option.{none-ne-some, some-ne-none}
use go_uptime.Conditions.{Check, ConditionResult, Library, add_error}
use go_uptime.Conditions.Compare.{resolve_all}
use go_uptime.Conditions.Returns.{IsSafe, resolve_all-some, resolve_all-results, with_results}
use go_uptime.Conditions.Evaluate.{
  Options, Operator, operator_of, separator, holds, evaluate, evaluate_with, evaluate_conditions,
  finish_resolved, fail_unless, append_result, continue_with, validate, Validity, valid, error,
  empty_check, validity_of,
}
use go_uptime.Common.{
  ◌≡◌, ◌≢◌, refl, sym, ap, ◌∙◌, Bool, true, false, ◌&&◌, Option, none, some, List, [], ◌∷◌, ◌++◌,
  Bytes, if◌then◌else◌, length, not, ◌==◌, map,
}
use go_uptime.Common.Text.{codes, split, trim_space}
use go_uptime.Gontext.{Gontext}
use go_uptime.JsonPath.{eval, failed, crashed, evaluated, is_bracketed}

abbrev pub holds_resolved : Library → Operator → Option (List Bytes) → Bool
holds_resolved lib op none = false
holds_resolved lib op (some resolved) = holds lib op resolved

-- Whether a condition holds of a result, on its own.
abbrev pub is_met : Library → Option Gontext → Check → Bytes → Option Operator → Bool
is_met lib context r condition none = false
is_met lib context r condition (some op) =
    holds_resolved lib op (resolve_all lib r context (split condition (separator op)))

abbrev pub verdict : Library → Option Gontext → Check → Bytes → Bool
verdict lib context r condition = is_met lib context r condition (operator_of condition)

-- Each condition has an operator.
abbrev pub AllCompare : List Bytes → Type 0
AllCompare [] = Unit
AllCompare (c ∷ cs) = (operator_of c ≢ none) × AllCompare cs

abbrev pub all : List Bool → Bool
all [] = true
all (b ∷ bs) = b && all bs

abbrev pub success_of : ConditionResult → Bool
success_of c = c.success

finish_resolved-some :
    (lib : Library) (options : Options) (op : Operator) (condition : Bytes)
    (parameters : List Bytes) (r : Check) (resolved : Option (List Bytes)) (all : List Bytes)
    → resolved ≡ some all
    → (shown : Bytes) × (finish_resolved lib options op condition parameters r resolved
        ≡ some (
          append_result shown (holds_resolved lib op resolved) r,
          holds_resolved lib op resolved,
        ))
finish_resolved-some lib options op condition parameters r none all h = absurd (none-ne-some all h)
finish_resolved-some lib options op condition parameters r (some resolved) all h = (_, refl)

evaluate_with-some :
    (lib : Library) (options : Options) (context : Option Gontext) (condition : Bytes) (r : Check)
    (op : Option Operator)
    → IsSafe lib r.body
    → op ≢ none
    → (shown : Bytes) × (evaluate_with lib options context condition r op
        ≡ some (
          append_result shown (is_met lib context r condition op) r,
          is_met lib context r condition op,
        ))
evaluate_with-some lib options context condition r none safe h = absurd (h refl)
evaluate_with-some lib options context condition r (some op) safe h =
    let parts = split condition (separator op) in
    let (all, same) = resolve_all-some lib r context parts safe in
    finish_resolved-some lib options op condition (map trim_space parts) r
      (resolve_all lib r context parts) all same

is_met-results :
    (lib : Library) (results : List ConditionResult) (success : Bool) (context : Option Gontext)
    (r : Check) (condition : Bytes) (op : Option Operator)
    → is_met lib context (with_results results success r) condition op
      ≡ is_met lib context r condition op
is_met-results lib results success context r condition none = refl
is_met-results lib results success context r condition (some op) =
    ap (holds_resolved lib op)
      (resolve_all-results lib results success r context (split condition (separator op)))

and_true : (b : Bool) → (b && true) ≡ b
and_true true = refl
and_true false = refl

and_false : (b : Bool) → (b && false) ≡ false
and_false true = refl
and_false false = refl

pub and_assoc : (a b c : Bool) → ((a && b) && c) ≡ (a && (b && c))
and_assoc true b c = refl
and_assoc false b c = refl

abbrev entry : Bytes → Bool → ConditionResult
entry shown success = record { condition = shown; success = success }

fail_unless-append :
    (shown : Bytes) (met : Bool) (results : List ConditionResult) (success : Bool) (r : Check)
    → fail_unless met (append_result shown met (with_results results success r))
      ≡ with_results (results ++ entry shown met ∷ []) (success && met) r
fail_unless-append shown true results success r = rw (and_true success) refl
fail_unless-append shown false results success r = rw (and_false success) refl

-- The result that a condition leaves, where it has no panic.
evaluate-step :
    (lib : Library) (options : Options) (context : Option Gontext) (condition : Bytes)
    (results : List ConditionResult) (success : Bool) (r : Check) (rest : Check → Option Check)
    → IsSafe lib r.body
    → operator_of condition ≢ none
    → (shown : Bytes) × (continue_with rest
          (evaluate lib options context condition (with_results results success r))
        ≡ rest (
            with_results
              (results ++ entry shown (verdict lib context r condition) ∷ [])
              (success && verdict lib context r condition)
              r))
unfolding evaluate
evaluate-step lib options context condition results success r rest safe h =
    let current = with_results results success r in
    let op = operator_of condition in
    let (shown, same) = evaluate_with-some lib options context condition current op safe h in
    let met = is_met-results lib results success context r condition op in
    (
      shown,
      ap (continue_with rest) same
          ∙ ap rest
              (fail_unless-append shown (is_met lib context current condition op) results success r)
          ∙ ap (λ (b : Bool). rest (with_results (results ++ entry shown b ∷ []) (success && b) r))
              met,
    )

evaluate_conditions-extend :
    (lib : Library) (options : Options) (context : Option Gontext) (conditions : List Bytes)
    (results : List ConditionResult) (success : Bool) (r : Check)
    → IsSafe lib r.body
    → AllCompare conditions
    → (more : List ConditionResult) × (evaluate_conditions lib options context conditions
          (with_results results success r)
        ≡ some (
            with_results
              (results ++ more)
              (success && all (map (verdict lib context r) conditions))
              r))
      × (map success_of more ≡ map (verdict lib context r) conditions)
unfolding evaluate_conditions
evaluate_conditions-extend lib options context [] results success r safe h =
    ([], rw (append-nil results, and_true success) refl, refl)
evaluate_conditions-extend lib options context (c ∷ cs) results success r safe (h, hs) =
    let v = verdict lib context r c in
    let (shown, step) =
      evaluate-step lib options context c results success r
        (λ (r' : Check). evaluate_conditions lib options context cs r') safe h in
    let (more, rest, successes) =
      evaluate_conditions-extend lib options context cs (results ++ entry shown v ∷ [])
        (success && v) r safe hs in
    let joined : (results ++ entry shown v ∷ []) ++ more ≡ results ++ (entry shown v ∷ more) =
      append_assoc results (entry shown v ∷ []) more in
    let succeeded = and_assoc success v (all (map (verdict lib context r) cs)) in
    (
      entry shown v ∷ more,
      step
          ∙ rest
          ∙ ap
              (λ (l : List ConditionResult).
                some (with_results l ((success && v) && all (map (verdict lib context r) cs)) r))
              joined
          ∙ ap (λ (b : Bool). some (with_results (results ++ (entry shown v ∷ more)) b r))
              succeeded,
      ap (◌∷◌ v) successes,
    )

-- Where no path panics on the body and each condition has an operator, the evaluation of the
-- conditions returns: the result gets one entry for each condition, in their order, with the verdict
-- on that condition alone; it succeeds if it succeeded before and all verdicts do; nothing else of it
-- changes, the errors included.
pub evaluate_conditions-verdicts :
    (lib : Library) (options : Options) (context : Option Gontext) (conditions : List Bytes)
    (r : Check)
    → IsSafe lib r.body
    → AllCompare conditions
    → (more : List ConditionResult) × (evaluate_conditions lib options context conditions r
        ≡ some (
            with_results
              (r.condition_results ++ more)
              (r.success && all (map (verdict lib context r) conditions))
              r))
      × (map success_of more ≡ map (verdict lib context r) conditions)
evaluate_conditions-verdicts lib options context conditions r safe h =
    evaluate_conditions-extend lib options context conditions r.condition_results r.success r safe h

-- What `Validate` says of a condition with or without an operator.
abbrev pub expected_validity : Bytes → Option Operator → Validity
expected_validity condition none = error (codes "invalid condition: " ++ condition)
expected_validity condition (some op) = valid

validity_of-with :
    (lib : Library) (options : Options) (condition : Bytes) (op : Option Operator)
    → IsSafe lib []
    → validity_of (evaluate_with lib options none condition empty_check op)
      ≡ expected_validity condition op
unfolding add_error
validity_of-with lib options condition none safe = refl
validity_of-with lib options condition (some op) safe =
    let (shown, same) =
      evaluate_with-some lib options none condition empty_check (some op) safe (some-ne-none op) in
    ap validity_of same

whole_or_failed : (c : Bool) (s : Bytes) → (if c then evaluated s (length s) else failed) ≢ crashed
whole_or_failed true s h = cc
whole_or_failed false s h = cc

-- No path panics on a body that does not parse.
pub unparsed-IsSafe :
    (lib : Library) (body : Bytes) → lib.json.unmarshal body ≡ none → IsSafe lib body
unfolding eval
unparsed-IsSafe lib body h path =
    let whole = length path == 0 && not (is_bracketed body) in
    let same : eval lib.json path body ≡ (if whole then evaluated body (length body) else failed) =
      rw (h) refl in
    λ panic. whole_or_failed whole body (sym same ∙ panic)

-- A condition is valid exactly if it has one of the operators, and the error names the condition
-- otherwise, given that the JSON parser refuses the empty text.
pub validate-operator :
    (lib : Library) (condition : Bytes)
    → lib.json.unmarshal [] ≡ none
    → validate lib condition ≡ expected_validity condition (operator_of condition)
unfolding validate evaluate
validate-operator lib condition h =
    let options : Options = record {
      dont_resolve_failed_conditions = false;
      resolve_successful_conditions = false;
    } in
    validity_of-with lib options condition (operator_of condition) (unparsed-IsSafe lib [] h)
