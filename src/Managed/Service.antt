-- ===== src/Managed/Service.antt =====
-- internal/managedendpoint/service.go, with create of restore.go and Prepare of managedendpoint.go:
-- the changes of the managed endpoints, each with the mutex of the states held. The description of
-- an endpoint that a change returns is its state.
pub mod Changes
pub mod Entries
pub mod Runs
pub mod Followed
use go_uptime.Alerting.{Alert}
use go_uptime.Watchdog.{Pushes}
use go_uptime.Watchdog.Registry.{
  Registry, MonitoringError, endpoint_not_monitored, admin, start_endpoint, stop_endpoint,
  is_monitored,
}
use go_uptime.Managed.Storage.{Database, Driver, and_then, required}
use go_uptime.Managed.Storage.Rename.{PageUpdate}
use go_uptime.Managed.{
  Error, State, Parsed, cycle_in_progress, storage_not_supported, read_only, not_found,
  type_changed, key_conflict, apply_failed, managed_endpoint_version_mismatch, is_present,
  parsed_is_enabled, is_push, parsed_name, parsed_group, parsed_key, parsed_alerts, with_restored,
  keys, keys_except,
}
use go_uptime.Common.{
  ℕ, String, Bool, true, false, not, ◌&&◌, ◌||◌, Option, none, some, List, [], ◌∷◌, ◌==◌, ◌⊎◌, inl,
  inr, if◌then◌else◌, lookup, contains, string_eq,
}

-- What the configuration file uses: the keys of its endpoints, of its external endpoints, and of
-- its suites with their endpoints.
pub record ConfigKeys : Type 0 where
  pub endpoints : List String
  pub external_endpoints : List String
  pub suites : List (String × List String)

abbrev suite_origin : List (String × List String) → String → Option String
suite_origin [] key = none
suite_origin ((suite, endpoints) ∷ suites) key =
    if string_eq.beq suite key
    then some "a suite of the configuration file"
    else if contains endpoints key
    then some "an endpoint of a suite of the configuration file"
    else suite_origin suites key

unfoldable pub config_key_origin : ConfigKeys → String → Option String
unfolding contains
config_key_origin cfg key =
    if contains cfg.endpoints key
    then some "an endpoint of the configuration file"
    else if contains cfg.external_endpoints key
    then some "an external endpoint of the configuration file"
    else suite_origin cfg.suites key

-- `Prepared`
pub record Prepared : Type 0 where
  pub parsed : Parsed
  pub definition : String

-- What a change reads: the driver of the storage, its clock, the keys of the configuration file,
-- and the functions of YAML, of the validation and of the persisted alerts. `busy` is a start or a
-- stop of the whole monitoring under way.
pub record Env : Type 0 where
  pub busy : Bool
  pub supported : Bool
  pub driver : Driver
  pub now : ℕ
  pub config_keys : ConfigKeys
  pub parse_definition : String → Error ⊎ Parsed
  pub restore_masked_secrets : String → String → Error ⊎ String
  pub normalize : String → Error ⊎ String
  pub with_enabled : Bool → String → Error ⊎ String
  pub with_generated_push_token : String → Error ⊎ String
  pub set_defaults : Parsed → Error ⊎ Parsed
  pub check_storage_key_length : String → Option Error
  pub check_extra_labels : Parsed → Option Error
  pub check_push_token : List (String × State) → String → Parsed → Option Error
  pub effective_definition : Parsed → Error ⊎ String
  pub persisted_alerts : String → String → List Alert → List Alert × Option (ℕ × ℕ)
  pub participant : Option (String → String → String → Error ⊎ List PageUpdate)

pub data Effect : Type 0 where
  plan_discarded plan_committed : Effect
  metrics_deleted live_updates_forgotten : String → Effect

pub record World : Type 0 where
  pub registry : Option Registry
  pub database : Database
  pub states : List (String × State)
  pub pushes : Pushes
  pub effects : List Effect

abbrev pub unless_error {ℓ} : {A : Type ℓ} → Option Error → Error ⊎ A → Error ⊎ A
unless_error none next = next
unless_error (some error) next = inl error

unfoldable pub validate_key : Env → List String → String → Option Error
unfolding config_key_origin contains
validate_key env managed_keys key = elim (env.check_storage_key_length key) [
  | some error ↦ some error
  | none ↦
      if is_present (config_key_origin env.config_keys key) || contains managed_keys key
      then some key_conflict
      else none
]

-- `Prepare`
unfoldable pub prepare_definition :
    Env → List (String × State) → List String → String → String → Error ⊎ Prepared
unfolding validate_key
prepare_definition env states managed_keys key definition =
    and_then (env.parse_definition definition) (λ parsed.
      and_then (env.normalize definition) (λ normalized.
        and_then (env.set_defaults parsed) (λ valid.
          unless_error (validate_key env managed_keys (parsed_key valid)) (
            unless_error (env.check_extra_labels valid) (
              unless_error (env.check_push_token states key valid)
                (inr (record { parsed = valid; definition = normalized })))))))

abbrev unmasked : Env → String → Option State → Error ⊎ String
unmasked env raw none = inr raw
unmasked env raw (some state) =
    and_then (env.parse_definition raw)
      (λ parsed. env.restore_masked_secrets raw state.stored.definition)

-- `prepare`, with the key of the endpoint that changes; a new endpoint has none.
unfoldable pub prepare : Env → List (String × State) → Option String → String → Error ⊎ Prepared
unfolding prepare_definition keys keys_except
prepare env states none raw = prepare_definition env states (keys states) "" raw
prepare env states (some key) raw =
    and_then (unmasked env raw (lookup key states))
      (prepare_definition env states (keys_except states key) key)

abbrev pub state_or : Env → String → Option State → Error ⊎ State
state_or env key (some state) = inr state
state_or env key none =
    inl (if is_present (config_key_origin env.config_keys key) then read_only else not_found)

unfoldable pub managed_state : Env → List (String × State) → String → Error ⊎ State
unfolding config_key_origin
managed_state env states key = state_or env key (lookup key states)

abbrev start_result : Option Registry × Option MonitoringError → Option Error × Option Registry
start_result (r, none) = (none, r)
start_result (r, some error) = (some apply_failed, r)

-- `startMonitoring`
unfoldable pub start_monitoring : Parsed → Option Registry → Option Error × Option Registry
unfolding start_endpoint
start_monitoring parsed r =
    if parsed_is_enabled parsed
    then start_result (start_endpoint (is_push parsed) (parsed_key parsed) admin r)
    else (none, r)

-- `IsEndpointMonitored`
unfoldable pub is_endpoint_monitored : String → Option Registry → Bool
is_endpoint_monitored key none = false
is_endpoint_monitored key (some r) = is_monitored key r

-- The function that a change applies within the transaction, and whether it started an endpoint.
abbrev pub apply_started :
    Parsed → Bool → Option Error × Option Registry → Option Error × (Option Registry × Bool)
apply_started parsed started (some error, r) = (some error, (r, started))
apply_started parsed started (none, r) = (none, (r, parsed_is_enabled parsed))

unfoldable pub apply_change :
    Parsed → Option Registry × Bool → Option Error × (Option Registry × Bool)
unfolding start_monitoring
apply_change parsed (r, started) = apply_started parsed started (start_monitoring parsed r)

-- What is undone when the transaction fails: the endpoint that was started, and the stop of the
-- previous one.
unfoldable pub stop_started : String → Option Registry × Bool → Option Registry
unfolding stop_endpoint
stop_started key (r, started) = if started then (stop_endpoint key admin r).0 else r

unfoldable pub restart_previous : Bool → Parsed → Option Registry → Option Registry
unfolding start_monitoring
restart_previous was_monitored previous r =
    if was_monitored then (start_monitoring previous r).1 else r

-- Stops the previous endpoint; that it is not monitored for the administration is no error.
abbrev stop_result : Option Registry × Option MonitoringError → Option Error × Option Registry
stop_result (r, none) = (none, r)
stop_result (r, some endpoint_not_monitored) = (none, r)
stop_result (r, some error) = (some apply_failed, r)

unfoldable pub stop_previous : String → Bool → Option Registry → Option Error × Option Registry
unfolding stop_endpoint
stop_previous key was_monitored r =
    if was_monitored then stop_result (stop_endpoint key admin r) else (none, r)

-- The alerts that were triggered under a name and a group.
unfoldable pub restore_alerts : Env → String → String → Parsed → Parsed
unfolding with_restored
restore_alerts env name group parsed =
    with_restored (env.persisted_alerts name group (parsed_alerts parsed)) parsed

-- `TryBeginChange`
abbrev pub begin_change {ℓ} : {A : Type ℓ} → Env → World → (Error ⊎ A) × World → (Error ⊎ A) × World
begin_change env w next = if env.busy then (inl cycle_in_progress, w) else next
