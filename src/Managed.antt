-- ===== src/Managed.antt =====
-- internal/managedendpoint/definition.go and registry.go, and internal/storage/store/common/
-- managed_endpoint.go: the endpoints that are managed by the administration, and the snapshot of
-- their states.
pub mod Storage
pub mod Service
mod Examples
use go_uptime.Alerting.{Alert, Endpoint}
use go_uptime.Watchdog.{ExternalEndpoint}
use go_uptime.Common.{
  ℕ, String, Bool, true, false, not, ◌&&◌, ◌||◌, Option, none, some, List, [], ◌∷◌, if◌then◌else◌,
  lookup, insert, delete, string_eq,
}

-- The errors of the storage and of the service; `invalid` is one of the parameters.
pub data Error : Type 0 where
  managed_endpoint_not_found managed_endpoint_already_exists : Error
  managed_endpoint_version_mismatch endpoint_key_in_use : Error
  managed_status_page_version_mismatch driver_error : Error
  cycle_in_progress storage_not_supported read_only not_found : Error
  type_changed key_conflict apply_failed : Error
  invalid : String → Error

pub record ManagedEndpoint : Type 0 where
  pub key : String
  pub definition : String
  pub version : ℕ
  pub created_at : ℕ
  pub updated_at : ℕ
  pub updated_by : String

pub record PushOption : Type 0 where
  pub enabled : Bool
  pub token : String

-- An active endpoint, with the key that its group and name give.
pub record Active : Type 0 where
  pub endpoint : Endpoint
  pub key : String

-- `Parsed`: an active endpoint or a push endpoint.
pub record Parsed : Type 0 where
  pub endpoint : Option Active
  pub push_option : Option PushOption
  pub push : Option ExternalEndpoint

-- `IsEnabled` of both kinds of endpoints: enabled unless the definition says otherwise.
abbrev pub enabled_by_default : Option Bool → Bool
enabled_by_default none = true
enabled_by_default (some b) = b

abbrev active_enabled : Option Active → Bool
active_enabled none = false
active_enabled (some a) = enabled_by_default a.endpoint.enabled

abbrev any_enabled : Option Active → Option ExternalEndpoint → Bool
any_enabled a (some ee) = enabled_by_default ee.enabled
any_enabled a none = active_enabled a

unfoldable pub parsed_is_enabled : Parsed → Bool
parsed_is_enabled p = any_enabled p.endpoint p.push

abbrev pub is_present {ℓ} : {A : Type ℓ} → Option A → Bool
is_present none = false
is_present (some a) = true

unfoldable pub is_push : Parsed → Bool
is_push p = is_present p.push

unfoldable pub is_valid : Parsed → Bool
is_valid p = is_present p.endpoint || is_present p.push

-- A field of the push endpoint, else of the active endpoint, else the default.
abbrev either_of {ℓ} :
    {A : Type ℓ}
    → (ExternalEndpoint → A)
    → (Active → A)
    → A
    → Option Active
    → Option ExternalEndpoint
    → A
either_of of_push of_active default a (some ee) = of_push ee
either_of of_push of_active default (some a) none = of_active a
either_of of_push of_active default none none = default

unfoldable pub parsed_name : Parsed → String
parsed_name p = either_of (λ ee. ee.name) (λ a. a.endpoint.name) "" p.endpoint p.push

unfoldable pub parsed_group : Parsed → String
parsed_group p = either_of (λ ee. ee.group) (λ a. a.endpoint.group) "" p.endpoint p.push

unfoldable pub parsed_key : Parsed → String
parsed_key p = either_of (λ ee. ee.key) (λ a. a.key) "" p.endpoint p.push

unfoldable pub parsed_alerts : Parsed → List Alert
parsed_alerts p = either_of (λ ee. ee.alerts) (λ a. a.endpoint.alerts) [] p.endpoint p.push

-- The alerts are shared by pointer; `setCounters` writes the counters of a result that restored
-- some alert.
abbrev restored_push : List Alert → Option (ℕ × ℕ) → ExternalEndpoint → ExternalEndpoint
restored_push alerts none ee = record ee { alerts = alerts }
restored_push alerts (some (successes, failures)) ee = record ee {
  alerts = alerts;
  number_of_successes_in_a_row = successes;
  number_of_failures_in_a_row = failures;
}

abbrev restored_active : List Alert → Option (ℕ × ℕ) → Active → Active
restored_active alerts none a = record a { endpoint = record a.endpoint { alerts = alerts } }
restored_active alerts (some (successes, failures)) a = record a {
  endpoint = record a.endpoint {
    alerts = alerts;
    number_of_successes_in_a_row = successes;
    number_of_failures_in_a_row = failures;
  };
}

abbrev restored_of :
    List Alert
    → Option (ℕ × ℕ)
    → Option Active
    → Option ExternalEndpoint
    → Option Active × Option ExternalEndpoint
restored_of alerts counters a (some ee) = (a, some (restored_push alerts counters ee))
restored_of alerts counters (some a) none = (some (restored_active alerts counters a), none)
restored_of alerts counters none none = (none, none)

unfoldable pub with_restored : List Alert × Option (ℕ × ℕ) → Parsed → Parsed
with_restored (alerts, counters) p =
    let (a, ee) = restored_of alerts counters p.endpoint p.push in
    record p { endpoint = a; push = ee }

-- `State`: the origin of a conflict is empty without one; `error` is the error of an invalid one.
pub record State : Type 0 where
  pub stored : ManagedEndpoint
  pub parsed : Parsed
  pub conflict_origin : Option String
  pub error : Option Error
  pub effective : Option String

unfoldable pub in_conflict : State → Bool
in_conflict state = is_present state.conflict_origin

unfoldable pub new_state_from_prepared : ManagedEndpoint → Parsed → String → State
new_state_from_prepared stored parsed effective = record {
  stored = stored;
  parsed = parsed;
  conflict_origin = none;
  error = none;
  effective = some effective;
}

-- The snapshot of the states by key. A change builds the next snapshot.
unfoldable pub replace_state : String → State → List (String × State) → List (String × State)
replace_state old_key state states = insert state.stored.key state (delete old_key states)

unfoldable pub put_state : State → List (String × State) → List (String × State)
unfolding replace_state
put_state state states = replace_state state.stored.key state states

unfoldable pub remove_state : String → List (String × State) → List (String × State)
remove_state key states = delete key states

-- `Keys`, without the order of the keys.
unfoldable pub keys : List (String × State) → List String
keys [] = []
keys ((key, state) ∷ states) = key ∷ keys states

unfoldable pub keys_except : List (String × State) → String → List String
keys_except [] excluded = []
keys_except ((key, state) ∷ states) excluded =
    let rest = keys_except states excluded in
    if string_eq.beq key excluded then rest else key ∷ rest
