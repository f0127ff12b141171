-- ===== src/Watchdog.antt =====
-- internal/watchdog/push.go, external_endpoint.go and endpoint.go: how a result of a check, of a
-- push or of a heartbeat is processed. Each function runs with the lock of the key held, so one
-- result of an endpoint is processed at a time.
pub mod Retries
pub mod External
pub mod Reminders
pub mod Registry
pub mod Checks
mod Examples
use go_uptime.Alerting.{Alert, Env, Effect, Endpoint, handle_alerting}
use go_uptime.Clock.{Time, Duration, time_sub, zero_time}
use go_uptime.Result.{Result, truncate_result_message, join}
use go_uptime.Common.{
  ℕ, zero, suc, ◌+◌, String, Bytes, Bool, true, false, not, ◌&&◌, ◌||◌, Option, none, some, List,
  [], ◌∷◌, ◌++◌, ltb, if◌then◌else◌, lookup, insert, delete, keep, contains, string_eq,
}
use go_uptime.Common.Int.{ℤ, pos, ltb_ℤ, leb_ℤ}

-- `endpoint.ExternalEndpoint`, with the key that its name and group give. The token and the
-- maintenance windows are left out: the callers read them.
pub record ExternalEndpoint : Type 0 where
  pub name : String
  pub group : String
  pub key : String
  pub enabled : Option Bool
  pub alerts : List Alert
  pub heartbeat_interval : Duration
  pub heartbeat_retries : ℤ
  pub number_of_failures_in_a_row : ℕ
  pub number_of_successes_in_a_row : ℕ

-- `ToEndpoint`: an external endpoint keeps no time of its last reminder.
unfoldable pub to_endpoint : ExternalEndpoint → Endpoint
to_endpoint ee = record {
  name = ee.name;
  group = ee.group;
  enabled = ee.enabled;
  alerts = ee.alerts;
  number_of_failures_in_a_row = ee.number_of_failures_in_a_row;
  number_of_successes_in_a_row = ee.number_of_successes_in_a_row;
  last_reminder_sent = zero_time;
}

-- The maps of push.go, by key.
pub record Pushes : Type 0 where
  pub last_pushes : List (String × Time)
  pub retries_used : List (String × ℕ)

abbrev pub or_zero : Option ℕ → ℕ
or_zero none = 0
or_zero (some n) = n

-- `lastPush`: the time of the last push, which starts at the first time that a key is used.
abbrev pub load_or_store : Option Time → Time → String → Pushes → Time × Pushes
load_or_store none now key p = (now, record p { last_pushes = insert key now p.last_pushes })
load_or_store (some t) now key p = (t, p)

unfoldable pub last_push : Time → String → Pushes → Time × Pushes
last_push now key p = load_or_store (lookup key p.last_pushes) now key p

unfoldable pub forget_external_endpoint : String → Pushes → Pushes
forget_external_endpoint key p = record p {
  last_pushes = delete key p.last_pushes;
  retries_used = delete key p.retries_used;
}

-- `ForgetExternalEndpointsNotIn`: the two `Range` loops forget each key that is not listed.
unfoldable pub forget_external_endpoints_not_in : List String → Pushes → Pushes
forget_external_endpoints_not_in keys p = record p {
  last_pushes = keep (λ key. contains keys key) p.last_pushes;
  retries_used = keep (λ key. contains keys key) p.retries_used;
}

abbrev is_blank : Bytes → Bool
is_blank [] = true
is_blank (b ∷ bs) = false

abbrev has_errors : List Bytes → Bool
has_errors [] = false
has_errors (e ∷ es) = true

-- The bytes of "; ".
abbrev separator : Bytes
separator = 59 ∷ 32 ∷ []

-- A failure that becomes a pending result.
unfoldable pub to_pending : Result → Result
to_pending r = record r {
  pending = true;
  message =
      if is_blank r.message && has_errors r.errors
      then truncate_result_message (join separator r.errors)
      else r.message;
  errors = [];
}

unfoldable pub apply_retries :
    ExternalEndpoint → Result → Bool → List (String × ℕ) → Result × List (String × ℕ)
unfolding to_pending
apply_retries ee result under_maintenance retries =
    let used = or_zero (lookup ee.key retries) in
    if result.pending
    then (result, retries)
    else if result.success
    then (result, delete ee.key retries)
    else if leb_ℤ ee.heartbeat_retries (pos 0) || under_maintenance
    then (result, retries)
    else if leb_ℤ ee.heartbeat_retries (pos used)
    then (result, insert ee.key used retries)
    else (to_pending result, insert ee.key (suc used) retries)

-- What the processing of one result reads: the windows of maintenance, whether the storage fails,
-- the clock, and the alerting configuration of the key. The metrics are left out.
pub record Context : Type 0 where
  pub under_maintenance : Bool
  pub storage_fails : Bool
  pub now : Time
  pub alerting : Option Env

-- What the rest of the program sees of the processing, in order.
pub data Action : Type 0 where
  stored : Result → Action
  announced : String → Action
  alerted : List Effect → Action

pub record Processed : Type 0 where
  pub endpoint : ExternalEndpoint
  pub pushes : Pushes
  pub actions : List Action
  pub failed : Bool

-- The alerts of the converted endpoint are those of the external endpoint, by pointer; its counters
-- are copied back.
unfoldable pub take_back : ExternalEndpoint → Endpoint → ExternalEndpoint
take_back ee ep = record ee {
  alerts = ep.alerts;
  number_of_successes_in_a_row = ep.number_of_successes_in_a_row;
  number_of_failures_in_a_row = ep.number_of_failures_in_a_row;
}

-- `processExternalEndpointResult`
unfoldable pub process_external_endpoint_result :
    Context → Bool → ExternalEndpoint → Result → Pushes → Processed
unfolding take_back to_endpoint
process_external_endpoint_result c pushed ee given p =
    let (result, retries) = apply_retries ee given c.under_maintenance p.retries_used in
    let counted : Pushes = record p { retries_used = retries } in
    let restarted : Pushes =
      if pushed
      then record counted { last_pushes = insert ee.key c.now counted.last_pushes }
      else counted in
    let (ep, effects) = handle_alerting c.alerting result.success (to_endpoint ee) in
    if c.storage_fails
    then record { endpoint = ee; pushes = counted; actions = []; failed = true }
    else if c.under_maintenance || result.pending
    then record {
      endpoint = ee;
      pushes = restarted;
      actions = stored result ∷ announced ee.key ∷ [];
      failed = false;
    }
    else record {
      endpoint = take_back ee ep;
      pushes = restarted;
      actions = stored result ∷ announced ee.key ∷ alerted effects ∷ [];
      failed = false;
    }

-- The failure that a heartbeat records; the message and the error are the same text.
abbrev pub missed : Time → Bytes → Result
missed now text = record {
  duration = pos 0;
  errors = text ∷ [];
  message = text;
  origin = "";
  pending = false;
  success = false;
  timestamp = now;
}

-- `executeExternalEndpointHeartbeat`, with the time of the last push: `may_run` is whether the
-- semaphore was acquired and there is connectivity, `cancelled` whether the context is cancelled
-- after that. `none`: nothing is recorded.
unfoldable pub execute_external_endpoint_heartbeat :
    Context → Bool → Bool → Bytes → Time → ExternalEndpoint → Pushes → Option Processed
execute_external_endpoint_heartbeat c may_run cancelled text last ee p =
    if not may_run
    then none
    else if ltb_ℤ (time_sub c.now last) ee.heartbeat_interval
    then none
    else if cancelled
    then none
    else some (process_external_endpoint_result c false ee (missed c.now text) p)
