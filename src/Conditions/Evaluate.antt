-- ===== src/Conditions/Evaluate.antt =====
-- internal/config/endpoint/condition.go and endpoint.go: the evaluation of a condition and of all
-- conditions of an endpoint. `none` is the panic of a placeholder.
pub mod Outcomes
use go_uptime.Conditions.{
  Check, ConditionResult, Library, add_error, body_placeholder, domain_expiration_placeholder,
  ip_placeholder,
}
use go_uptime.Conditions.Compare.{is_equal, resolve_all, numerical}
use go_uptime.Conditions.Display.{prettify, prettify_numerical_parameters}
use go_uptime.Common.{
  ℕ, Bool, true, false, not, ◌&&◌, ◌||◌, Option, none, some, List, [], ◌∷◌, ◌++◌, Bytes,
  if◌then◌else◌, map, get_or,
}
use go_uptime.Common.Int.{ℤ, pos, leb_ℤ, ltb_ℤ}
use go_uptime.Common.Text.{codes, contains_text, split, trim_space, replace_all}
use go_uptime.Gontext.{Gontext}

pub data Operator : Type 0 where
  equal different at_most at_least above below : Operator

abbrev pub symbol : Operator → Bytes
symbol equal = codes "=="
symbol different = codes "!="
symbol at_most = codes "<="
symbol at_least = codes ">="
symbol above = codes ">"
symbol below = codes "<"

abbrev pub separator : Operator → Bytes
separator op = codes " " ++ (symbol op ++ codes " ")

-- The first operator of the chain that the condition contains.
unfoldable pub operator_of : Bytes → Option Operator
operator_of condition =
    if contains_text condition (separator equal)
    then some equal
    else if contains_text condition (separator different)
    then some different
    else if contains_text condition (separator at_most)
    then some at_most
    else if contains_text condition (separator at_least)
    then some at_least
    else if contains_text condition (separator above)
    then some above
    else if contains_text condition (separator below)
    then some below
    else none

abbrev first_of : List Bytes → Bytes
first_of resolved = get_or resolved 0 []

abbrev second_of : List Bytes → Bytes
second_of resolved = get_or resolved 1 []

-- Whether the resolved parameters are in the relation of the operator.
unfoldable pub holds : Library → Operator → List Bytes → Bool
holds lib equal resolved = is_equal lib (first_of resolved) (second_of resolved)
holds lib different resolved = not (is_equal lib (first_of resolved) (second_of resolved))
holds lib at_most resolved =
    leb_ℤ (numerical lib (first_of resolved)) (numerical lib (second_of resolved))
holds lib at_least resolved =
    leb_ℤ (numerical lib (second_of resolved)) (numerical lib (first_of resolved))
holds lib above resolved =
    ltb_ℤ (numerical lib (second_of resolved)) (numerical lib (first_of resolved))
holds lib below resolved =
    ltb_ℤ (numerical lib (first_of resolved)) (numerical lib (second_of resolved))

-- The condition with the values of its parameters.
unfoldable pub display : Library → Operator → List Bytes → List Bytes → Bytes
display lib equal parameters resolved = prettify parameters resolved (symbol equal)
display lib different parameters resolved = prettify parameters resolved (symbol different)
display lib op parameters resolved =
    prettify_numerical_parameters lib parameters (map (numerical lib) resolved) (symbol op)

pub record Options : Type 0 where
  pub dont_resolve_failed_conditions : Bool
  pub resolve_successful_conditions : Bool

-- `shouldResolveCondition`
abbrev pub should_resolve : Options → Bool → Bool
should_resolve options success =
    if success
    then options.resolve_successful_conditions
    else not options.dont_resolve_failed_conditions

abbrev pub append_result : Bytes → Bool → Check → Check
append_result shown success r = record r {
  condition_results = r.condition_results ++ record { condition = shown; success = success } ∷ [];
}

-- The result of a condition with an operator, once its parameters are resolved.
abbrev pub finish :
    Library → Options → Operator → Bytes → List Bytes → Check → List Bytes → Check × Bool
finish lib options op condition parameters r resolved =
    let success = holds lib op resolved in
    let shown =
      if should_resolve options success then display lib op parameters resolved else condition in
    (append_result shown success r, success)

abbrev pub finish_resolved :
    Library
    → Options
    → Operator
    → Bytes
    → List Bytes
    → Check
    → Option (List Bytes)
    → Option (Check × Bool)
finish_resolved lib options op condition parameters r none = none
finish_resolved lib options op condition parameters r (some resolved) =
    some (finish lib options op condition parameters r resolved)

abbrev pub evaluate_with :
    Library → Options → Option Gontext → Bytes → Check → Option Operator → Option (Check × Bool)
evaluate_with lib options context condition r none =
    some (add_error (codes "invalid condition: " ++ condition) r, false)
evaluate_with lib options context condition r (some op) =
    let parts = split condition (separator op) in
    finish_resolved lib options op condition (map trim_space parts) r
      (resolve_all lib r context parts)

-- `Condition.evaluate`
unfoldable pub evaluate : Library → Options → Option Gontext → Bytes → Check → Option (Check × Bool)
evaluate lib options context condition r =
    evaluate_with lib options context condition r (operator_of condition)

abbrev pub fail_unless : Bool → Check → Check
fail_unless success r = if success then r else record r { success = false }

abbrev pub continue_with : (Check → Option Check) → Option (Check × Bool) → Option Check
continue_with rest none = none
continue_with rest (some (r, success)) = rest (fail_unless success r)

-- The loop over the conditions of `EvaluateHealthWithContext`.
unfoldable pub evaluate_conditions :
    Library → Options → Option Gontext → List Bytes → Check → Option Check
unfolding evaluate
evaluate_conditions lib options context [] r = some r
evaluate_conditions lib options context (condition ∷ conditions) r =
    continue_with (λ (r' : Check). evaluate_conditions lib options context conditions r')
      (evaluate lib options context condition r)

pub data Validity : Type 0 where
  valid : Validity
  error : Bytes → Validity
  panics : Validity

abbrev pub empty_check : Check
empty_check = record {
  http_status = pos 0;
  dns_rcode = [];
  hostname = [];
  ip = [];
  connected = false;
  duration = pos 0;
  errors = [];
  condition_results = [];
  success = false;
  timestamp = 0;
  certificate_expiration = pos 0;
  domain_expiration = pos 0;
  body = [];
  port = [];
}

abbrev pub validity_of : Option (Check × Bool) → Validity
validity_of none = panics
validity_of (some (r, success)) = elim r.errors [ [] ↦ valid | e ∷ es ↦ error e ]

-- `Condition.Validate`
unfoldable pub validate : Library → Bytes → Validity
unfolding evaluate
validate lib condition =
    let options : Options = record {
      dont_resolve_failed_conditions = false;
      resolve_successful_conditions = false;
    } in
    validity_of (evaluate lib options none condition empty_check)

unfoldable pub has_body_placeholder : Bytes → Bool
has_body_placeholder condition = contains_text condition body_placeholder

unfoldable pub has_domain_expiration_placeholder : Bytes → Bool
has_domain_expiration_placeholder condition = contains_text condition domain_expiration_placeholder

unfoldable pub has_ip_placeholder : Bytes → Bool
has_ip_placeholder condition = contains_text condition ip_placeholder

abbrev any_of : (Bytes → Bool) → List Bytes → Bool
any_of test [] = false
any_of test (s ∷ rest) = test s || any_of test rest

-- The conditions and the values of `Store`.
unfoldable pub needs_to_read_body : List Bytes → List Bytes → Bool
unfolding has_body_placeholder
needs_to_read_body conditions stored =
    any_of has_body_placeholder conditions
    || any_of (λ (s : Bytes). contains_text s body_placeholder) stored

unfoldable pub needs_to_retrieve_domain_expiration : List Bytes → Bool
unfolding has_domain_expiration_placeholder
needs_to_retrieve_domain_expiration conditions = any_of has_domain_expiration_placeholder conditions

unfoldable pub needs_to_retrieve_ip : List Bytes → Bool
unfolding has_ip_placeholder
needs_to_retrieve_ip conditions = any_of has_ip_placeholder conditions
