-- ===== src/Conditions/Returns.antt =====
-- internal/config/endpoint/placeholder.go: the placeholders resolve where the JSON path of the body
-- does not panic, and they depend on no earlier condition.
use mathlib.Core.Option.{some-ne-none}
use go_uptime.Conditions.{Check, ConditionResult, Library, body_placeholder}
use go_uptime.Conditions.Placeholder.{
  FunctionType, no_function, function_len, function_has, resolve_evaluated, length_of, resolve_body,
  resolve_basic, resolve_in, field_of, format_field, resolve_body_path, resolve_placeholder,
  resolve_json_path_placeholder, extract_function_wrapper,
}
use go_uptime.Conditions.Compare.{resolve_all, cons_resolved}
use go_uptime.Common.{
  ◌≡◌, ◌≢◌, refl, ap, ◌∙◌, Bool, true, false, Option, none, some, List, [], ◌∷◌, Bytes, length,
  drop, if◌then◌else◌,
}
use go_uptime.Common.Text.{codes, to_upper, trim_space, trim_prefix}
use go_uptime.Gontext.{Gontext}
use go_uptime.JsonPath.{Evaluated, evaluated, failed, crashed, eval}

-- No path panics on the body.
abbrev pub IsSafe : Library → Bytes → Type 0
IsSafe lib body = (path : Bytes) → eval lib.json path body ≢ crashed

returns : (v : Bytes) → some v ≢ none
returns v = some-ne-none v

if_returns : (c : Bool) (a b : Option Bytes) → a ≢ none → b ≢ none → (if c then a else b) ≢ none
if_returns true a b p q = p
if_returns false a b p q = q

resolve_evaluated-returns :
    (fn : FunctionType) (original : Bytes) (e : Evaluated)
    → e ≢ crashed
    → resolve_evaluated fn original e ≢ none
unfolding resolve_evaluated
resolve_evaluated-returns fn original crashed h = absurd (h refl)
resolve_evaluated-returns no_function original failed h = returns _
resolve_evaluated-returns function_len original failed h = returns _
resolve_evaluated-returns function_has original failed h = returns _
resolve_evaluated-returns no_function original (evaluated v n) h = returns _
resolve_evaluated-returns function_len original (evaluated v n) h = returns _
resolve_evaluated-returns function_has original (evaluated v n) h = returns _

length_of-returns : (body : Bytes) (e : Evaluated) → e ≢ crashed → length_of body e ≢ none
length_of-returns body crashed h = absurd (h refl)
length_of-returns body failed h = returns _
length_of-returns body (evaluated v n) h = returns _

resolve_body-returns :
    (lib : Library) (fn : FunctionType) (r : Check)
    → IsSafe lib r.body
    → resolve_body lib fn r ≢ none
unfolding resolve_body
resolve_body-returns lib no_function r safe = returns _
resolve_body-returns lib function_has r safe = returns _
resolve_body-returns lib function_len r safe =
    length_of-returns (trim_space r.body) (eval lib.json [] r.body) (safe [])

resolve_body_path-returns :
    (lib : Library) (r : Check) (fn : FunctionType) (original placeholder upper : Bytes)
    → IsSafe lib r.body
    → resolve_body_path lib r fn original placeholder upper ≢ none
unfolding resolve_body_path resolve_json_path_placeholder
resolve_body_path-returns lib r fn original placeholder upper safe =
    let body = resolve_body-returns lib fn r safe in
    let path = trim_prefix (drop (length body_placeholder) placeholder) (codes ".") in
    let inner = resolve_evaluated-returns fn original (eval lib.json path r.body) (safe path) in
    if_returns _ _ _ body (if_returns _ _ _ inner (returns _))

format_field-returns :
    (lib : Library) (r : Check) (fn : FunctionType) (original placeholder upper : Bytes)
    (value : Option Bytes)
    → IsSafe lib r.body
    → format_field lib r fn original placeholder upper value ≢ none
format_field-returns lib r fn original placeholder upper (some value) safe = returns _
format_field-returns lib r fn original placeholder upper none safe =
    resolve_body_path-returns lib r fn original placeholder upper safe

resolve_basic-returns :
    (lib : Library) (r : Check) (fn : FunctionType) (original placeholder upper : Bytes)
    → IsSafe lib r.body
    → resolve_basic lib r fn original placeholder upper ≢ none
unfolding resolve_basic
resolve_basic-returns lib r fn original placeholder upper safe =
    format_field-returns lib r fn original placeholder upper (field_of r upper) safe

resolve_in-returns :
    (lib : Library) (r : Check) (context : Option Gontext) (fn : FunctionType)
    (original placeholder : Bytes)
    → IsSafe lib r.body
    → resolve_in lib r context fn original placeholder ≢ none
resolve_in-returns lib r none fn original placeholder safe =
    resolve_basic-returns lib r fn original placeholder (to_upper placeholder) safe
resolve_in-returns lib r (some context) fn original placeholder safe =
    let basic = resolve_basic-returns lib r fn original placeholder (to_upper placeholder) safe in
    if_returns _ _ _ (returns _) basic

resolve_placeholder-returns :
    (lib : Library) (r : Check) (context : Option Gontext) (placeholder : Bytes)
    → IsSafe lib r.body
    → resolve_placeholder lib r context placeholder ≢ none
unfolding resolve_placeholder
resolve_placeholder-returns lib r context placeholder safe =
    let original = trim_space placeholder in
    let wrapped = extract_function_wrapper original in
    resolve_in-returns lib r context wrapped.0 original wrapped.1 safe

cons_resolved-some :
    (first : Option Bytes) (resolved : List Bytes)
    → first ≢ none
    → (all : List Bytes) × (cons_resolved first (some resolved) ≡ some all)
cons_resolved-some none resolved h = absurd (h refl)
cons_resolved-some (some v) resolved h = (v ∷ resolved, refl)

pub resolve_all-some :
    (lib : Library) (r : Check) (context : Option Gontext) (elements : List Bytes)
    → IsSafe lib r.body
    → (resolved : List Bytes) × (resolve_all lib r context elements ≡ some resolved)
unfolding resolve_all
resolve_all-some lib r context [] safe = ([], refl)
resolve_all-some lib r context (e ∷ es) safe =
    let (rest, same) = resolve_all-some lib r context es safe in
    let first = resolve_placeholder lib r context (trim_space e) in
    let (all, equation) =
      cons_resolved-some first rest
        (resolve_placeholder-returns lib r context (trim_space e) safe) in
    (all, ap (cons_resolved first) same ∙ equation)

-- A result with other results of conditions and another success.
abbrev pub with_results : List ConditionResult → Bool → Check → Check
with_results results success r = record r { condition_results = results; success = success }

resolve_body-results :
    (lib : Library) (results : List ConditionResult) (success : Bool) (r : Check)
    (fn : FunctionType)
    → resolve_body lib fn (with_results results success r) ≡ resolve_body lib fn r
unfolding resolve_body
resolve_body-results lib results success r no_function = refl
resolve_body-results lib results success r function_len = refl
resolve_body-results lib results success r function_has = refl

format_field-results :
    (lib : Library) (results : List ConditionResult) (success : Bool) (r : Check)
    (fn : FunctionType) (original placeholder upper : Bytes) (value : Option Bytes)
    → format_field lib (with_results results success r) fn original placeholder upper value
      ≡ format_field lib r fn original placeholder upper value
unfolding resolve_body_path resolve_json_path_placeholder
format_field-results lib results success r fn original placeholder upper (some value) = refl
format_field-results lib results success r fn original placeholder upper none =
    rw (resolve_body-results lib results success r fn) refl

resolve_basic-results :
    (lib : Library) (results : List ConditionResult) (success : Bool) (r : Check)
    (fn : FunctionType) (original placeholder upper : Bytes)
    → resolve_basic lib (with_results results success r) fn original placeholder upper
      ≡ resolve_basic lib r fn original placeholder upper
unfolding resolve_basic field_of
resolve_basic-results lib results success r fn original placeholder upper =
    format_field-results lib results success r fn original placeholder upper (field_of r upper)

resolve_in-results :
    (lib : Library) (results : List ConditionResult) (success : Bool) (r : Check)
    (context : Option Gontext) (fn : FunctionType) (original placeholder : Bytes)
    → resolve_in lib (with_results results success r) context fn original placeholder
      ≡ resolve_in lib r context fn original placeholder
resolve_in-results lib results success r none fn original placeholder =
    resolve_basic-results lib results success r fn original placeholder (to_upper placeholder)
resolve_in-results lib results success r (some context) fn original placeholder =
    rw (resolve_basic-results lib results success r fn original placeholder (to_upper placeholder))
      refl

resolve_placeholder-results :
    (lib : Library) (results : List ConditionResult) (success : Bool) (r : Check)
    (context : Option Gontext) (s : Bytes)
    → resolve_placeholder lib (with_results results success r) context s
      ≡ resolve_placeholder lib r context s
unfolding resolve_placeholder
resolve_placeholder-results lib results success r context s =
    let original = trim_space s in
    let wrapped = extract_function_wrapper original in
    resolve_in-results lib results success r context wrapped.0 original wrapped.1

pub resolve_all-results :
    (lib : Library) (results : List ConditionResult) (success : Bool) (r : Check)
    (context : Option Gontext) (elements : List Bytes)
    → resolve_all lib (with_results results success r) context elements
      ≡ resolve_all lib r context elements
unfolding resolve_all
resolve_all-results lib results success r context [] = refl
resolve_all-results lib results success r context (e ∷ es) =
    rw
      (
        resolve_placeholder-results lib results success r context (trim_space e),
        resolve_all-results lib results success r context es,
      )
      refl
