-- ===== src/Managed/Service/Entries.antt =====
-- Create, SetEnabled and Delete of internal/managedendpoint/service.go and restore.go.
use go_uptime.Alerting.{Alert}
use go_uptime.Watchdog.{forget_external_endpoint}
use go_uptime.Watchdog.Registry.{Registry}
use go_uptime.Managed.Storage.{
  Database, and_then, required, create_managed_endpoint, delete_managed_endpoint,
}
use go_uptime.Managed.Service.{
  Env, World, Prepared, metrics_deleted, live_updates_forgotten, prepare, managed_state,
  apply_change, stop_started, restart_previous, stop_previous, restore_alerts, begin_change,
}
use go_uptime.Managed.Service.Changes.{expected_state, was_monitored_of, update_endpoint}
use go_uptime.Managed.{
  Error, State, ManagedEndpoint, Parsed, storage_not_supported, in_conflict, parsed_name,
  parsed_group, parsed_key, parsed_alerts, new_state_from_prepared, put_state, remove_state,
}
use go_uptime.Common.{
  ℕ, suc, String, Bool, false, not, ◌&&◌, Option, none, some, List, [], ◌∷◌, ◌++◌, ◌⊎◌, inl, inr,
  if◌then◌else◌, string_eq,
}

abbrev pub run_enabled :
    Env → String → ℕ → String → World → Error ⊎ String → (Error ⊎ State) × World
run_enabled env key expected author w (inl error) = (inl error, w)
run_enabled env key expected author w (inr raw) = update_endpoint env key raw expected author w

-- `SetEnabled`: the definition that is stored, with its `enabled` changed.
unfoldable pub set_enabled : Env → String → Bool → ℕ → String → World → (Error ⊎ State) × World
unfolding managed_state
set_enabled env key enabled expected author w = begin_change env w (
    run_enabled env key expected author w (
      and_then (managed_state env w.states key)
        (λ state. env.with_enabled enabled state.stored.definition)))

unfoldable pub triggered_alerts : List Alert → ℕ
triggered_alerts [] = 0
triggered_alerts (a ∷ alerts) =
    let rest = triggered_alerts alerts in if a.triggered then suc rest else rest

unfoldable pub finish_delete :
    String
    → Bool
    → State
    → World
    → (Error ⊎ Bool) × Database × Option Registry
    → (Error ⊎ ℕ) × World
unfolding triggered_alerts
finish_delete key was_monitored state w (inl error, db, r) = (
  inl error,
  record w { registry = restart_previous was_monitored state.parsed r; database = db },
)
finish_delete key was_monitored state w (inr done, db, r) = (
  inr (if in_conflict state then 0 else triggered_alerts (parsed_alerts state.parsed)),
  record w {
    registry = r;
    database = db;
    states = remove_state key w.states;
    pushes = forget_external_endpoint key w.pushes;
    effects =
        w.effects
        ++ ((if in_conflict state then [] else metrics_deleted key ∷ [])
            ++ live_updates_forgotten key ∷ []);
  },
)

unfoldable pub stopped_delete :
    Env → String → ℕ → Bool → State → World → Option Error × Option Registry → (Error ⊎ ℕ) × World
unfolding delete_managed_endpoint finish_delete
stopped_delete env key expected was_monitored state w (some error, r) =
    (inl error, record w { registry = r })
stopped_delete env key expected was_monitored state w (none, r) =
    finish_delete key was_monitored state w (
      delete_managed_endpoint env.driver key expected (not (in_conflict state)) (λ r. (none, r))
        w.database r)

unfoldable pub run_delete : Env → String → ℕ → World → Error ⊎ State → (Error ⊎ ℕ) × World
unfolding was_monitored_of stopped_delete
run_delete env key expected w (inl error) = (inl error, w)
run_delete env key expected w (inr state) =
    let was_monitored = not (in_conflict state) && was_monitored_of key state w.registry in
    stopped_delete env key expected was_monitored state w
      (stop_previous key was_monitored w.registry)

-- `Delete`, with the number of alerts that were triggered.
unfoldable pub delete_endpoint : Env → String → ℕ → World → (Error ⊎ ℕ) × World
unfolding expected_state run_delete
delete_endpoint env key expected w =
    begin_change env w (run_delete env key expected w (expected_state env w key expected))

-- A new endpoint, prepared and with the triggered alerts that are persisted for it.
pub record Creation : Type 0 where
  pub key : String
  pub prepared : Prepared
  pub parsed : Parsed
  pub effective : String

unfoldable pub checked_creation : Env → Bool → String → World → Error ⊎ Creation
unfolding prepare
checked_creation env generate_token raw w = required env.supported storage_not_supported (
    and_then (if generate_token then env.with_generated_push_token raw else inr raw) (λ raw.
      and_then (prepare env w.states none raw) (λ prepared.
        and_then (env.effective_definition prepared.parsed) (λ effective. inr (record {
          key = parsed_key prepared.parsed;
          prepared = prepared;
          parsed =
              restore_alerts env (parsed_name prepared.parsed) (parsed_group prepared.parsed)
                prepared.parsed;
          effective = effective;
        })))))

abbrev pub finish_creation :
    Creation
    → World
    → (Error ⊎ ManagedEndpoint) × Database × (Option Registry × Bool)
    → (Error ⊎ State) × World
finish_creation c w (inl error, db, (r, started)) =
    (inl error, record w { registry = stop_started c.key (r, started); database = db })
finish_creation c w (inr stored, db, (r, started)) =
    let state = new_state_from_prepared stored c.parsed c.effective in
    (inr state, record w { registry = r; database = db; states = put_state state w.states })

unfoldable pub run_creation : Env → String → World → Error ⊎ Creation → (Error ⊎ State) × World
unfolding create_managed_endpoint apply_change
run_creation env author w (inl error) = (inl error, w)
run_creation env author w (inr c) =
    let m : ManagedEndpoint = record {
      key = c.key;
      definition = c.prepared.definition;
      version = 0;
      created_at = 0;
      updated_at = 0;
      updated_by = author;
    } in
    finish_creation c w (
      create_managed_endpoint env.driver env.now m (apply_change c.parsed) w.database
        (w.registry, false))

-- `Create`, which generates the push token, and `RestoreCreate`, which does not.
unfoldable pub create : Env → Bool → String → String → World → (Error ⊎ State) × World
unfolding checked_creation run_creation
create env generate_token raw author w =
    begin_change env w (run_creation env author w (checked_creation env generate_token raw w))
