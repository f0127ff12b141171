-- ===== src/Conditions.antt =====
-- internal/config/endpoint: the data that the conditions of an endpoint are evaluated on.
-- path/filepath, strconv's parsing, time.ParseDuration and encoding/json are parameters.
pub mod Placeholder
pub mod Compare
pub mod Display
pub mod Returns
pub mod Evaluate
pub mod Health
mod Examples
use go_uptime.Common.{Bool, Option, List, Bytes, contains, bytes_eq, if◌then◌else◌, ◌∷◌, ◌++◌, []}
use go_uptime.Common.Int.{ℤ}
use go_uptime.Common.Text.{codes}
use go_uptime.Clock.{Duration, Time}
use go_uptime.JsonPath.{Json}

pub record ConditionResult : Type 0 where
  pub condition : Bytes
  pub success : Bool

-- The fields of `Result` that a check and its conditions read or write.
pub record Check : Type 0 where
  pub http_status : ℤ
  pub dns_rcode : Bytes
  pub hostname : Bytes
  pub ip : Bytes
  pub connected : Bool
  pub duration : Duration
  pub errors : List Bytes
  pub condition_results : List ConditionResult
  pub success : Bool
  pub timestamp : Time
  pub certificate_expiration : Duration
  pub domain_expiration : Duration
  pub body : Bytes
  pub port : Bytes

-- `filepath.Match`, with false for a malformed pattern; `strconv.ParseInt` in base 0 and
-- `time.ParseDuration`, where `none` is an error; `strconv.ParseFloat` turned into an int64.
pub record Library : Type 0 where
  pub json : Json
  pub match : Bytes → Bytes → Bool
  pub parse_int : Bytes → Option ℤ
  pub parse_duration : Bytes → Option Duration
  pub parse_float : Bytes → Option ℤ

-- `Result.AddError`
unfoldable pub add_error : Bytes → Check → Check
unfolding contains
add_error text r = if contains r.errors text then r else record r { errors = r.errors ++ text ∷ [] }

abbrev pub status_placeholder : Bytes
status_placeholder = codes "[STATUS]"

abbrev pub ip_placeholder : Bytes
ip_placeholder = codes "[IP]"

abbrev pub dns_rcode_placeholder : Bytes
dns_rcode_placeholder = codes "[DNS_RCODE]"

abbrev pub response_time_placeholder : Bytes
response_time_placeholder = codes "[RESPONSE_TIME]"

abbrev pub body_placeholder : Bytes
body_placeholder = codes "[BODY]"

abbrev pub connected_placeholder : Bytes
connected_placeholder = codes "[CONNECTED]"

abbrev pub certificate_expiration_placeholder : Bytes
certificate_expiration_placeholder = codes "[CERTIFICATE_EXPIRATION]"

abbrev pub domain_expiration_placeholder : Bytes
domain_expiration_placeholder = codes "[DOMAIN_EXPIRATION]"

abbrev pub context_placeholder : Bytes
context_placeholder = codes "[CONTEXT]"

abbrev pub length_function_prefix : Bytes
length_function_prefix = codes "len("

abbrev pub has_function_prefix : Bytes
has_function_prefix = codes "has("

abbrev pub pattern_function_prefix : Bytes
pattern_function_prefix = codes "pat("

abbrev pub any_function_prefix : Bytes
any_function_prefix = codes "any("

abbrev pub function_suffix : Bytes
function_suffix = codes ")"

abbrev pub invalid_condition_element_suffix : Bytes
invalid_condition_element_suffix = codes "(INVALID)"
