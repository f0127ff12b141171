-- ===== src/Managed/Service/Changes.antt =====
-- Create, Update, SetEnabled and Delete of internal/managedendpoint/service.go and restore.go.
pub mod Views
pub mod Undone
pub mod Written
pub mod Stored
pub mod Restarted
pub mod Running
use go_uptime.Alerting.{Alert}
use go_uptime.Watchdog.{forget_external_endpoint}
use go_uptime.Watchdog.Registry.{Registry}
use go_uptime.Managed.Storage.{
  Database, and_then, required, create_managed_endpoint, update_managed_endpoint,
  delete_managed_endpoint,
}
use go_uptime.Managed.Storage.Rename.{Rename, PageUpdate, rename_managed_endpoint}
use go_uptime.Managed.Service.{
  Env, World, Effect, Prepared, plan_discarded, plan_committed, metrics_deleted,
  live_updates_forgotten, unless_error, prepare, managed_state, is_endpoint_monitored, apply_change,
  stop_started, restart_previous, stop_previous, restore_alerts, begin_change,
}
use go_uptime.Managed.{
  Error, State, ManagedEndpoint, Parsed, storage_not_supported, type_changed,
  managed_endpoint_version_mismatch, in_conflict, is_present, is_push, is_valid, parsed_name,
  parsed_group, parsed_key, parsed_alerts, new_state_from_prepared, replace_state, put_state,
  remove_state,
}
use go_uptime.Common.{
  ℕ, suc, String, Bool, true, false, not, ◌&&◌, ◌||◌, Option, none, some, List, [], ◌∷◌, ◌++◌, ◌==◌,
  ◌⊎◌, inl, inr, if◌then◌else◌, delete, lookup, string_eq,
}

-- What `update` works out before it changes anything.
pub record Change : Type 0 where
  pub state : State
  pub stored_parsed : Error ⊎ Parsed
  pub submitted : Parsed
  pub prepared : Prepared
  pub effective : String

abbrev pub same_type : Error ⊎ Parsed → Parsed → Bool
same_type (inl error) submitted = true
same_type (inr parsed) submitted =
    if is_push parsed then is_push submitted else not (is_push submitted)

-- The state, when its version is the expected one and the storage has managed endpoints.
unfoldable pub expected_state : Env → World → String → ℕ → Error ⊎ State
unfolding managed_state
expected_state env w key expected = and_then (managed_state env w.states key) (λ state.
    required (state.stored.version == expected) managed_endpoint_version_mismatch
      (required env.supported storage_not_supported (inr state)))

unfoldable pub checked_change : Env → World → String → String → ℕ → Error ⊎ Change
unfolding expected_state prepare
checked_change env w key raw expected = and_then (expected_state env w key expected) (λ state.
    and_then (env.parse_definition raw) (λ submitted.
      let stored_parsed = env.parse_definition state.stored.definition in
      required (same_type stored_parsed submitted) type_changed (
        and_then (prepare env w.states (some key) raw) (λ prepared.
          and_then (env.effective_definition prepared.parsed) (λ effective. inr (record {
            state = state;
            stored_parsed = stored_parsed;
            submitted = submitted;
            prepared = prepared;
            effective = effective;
          }))))))

abbrev renames_definition : Error ⊎ Parsed → Parsed → Bool
renames_definition (inl error) submitted = false
renames_definition (inr parsed) submitted = not (
    string_eq.beq (parsed_name parsed) (parsed_name submitted)
    && string_eq.beq (parsed_group parsed) (parsed_group submitted))

-- A changed name or group renames the endpoint, even when the key stays the same.
unfoldable pub is_renaming : String → Change → Bool
is_renaming key c =
    not (string_eq.beq (parsed_key c.prepared.parsed) key)
    || renames_definition c.stored_parsed c.submitted

abbrev pub restored_of_key : Env → Change → Error ⊎ Parsed → Parsed
restored_of_key env c (inr parsed) =
    restore_alerts env (parsed_name parsed) (parsed_group parsed) c.prepared.parsed
restored_of_key env c (inl error) =
    if is_valid c.state.parsed
    then restore_alerts env (parsed_name c.state.parsed) (parsed_group c.state.parsed)
        c.prepared.parsed
    else c.prepared.parsed

-- The endpoint to monitor, with the triggered alerts that are persisted under its old name.
unfoldable pub restored_change : Env → String → Change → Parsed
unfolding restore_alerts is_renaming
restored_change env key c =
    if not (is_renaming key c)
    then restore_alerts env (parsed_name c.prepared.parsed) (parsed_group c.prepared.parsed)
        c.prepared.parsed
    else if in_conflict c.state
    then c.prepared.parsed
    else restored_of_key env c c.stored_parsed

abbrev asked_plan :
    String
    → String
    → String
    → Option (String → String → String → Error ⊎ List PageUpdate)
    → Error ⊎ Option (List PageUpdate)
asked_plan key new_key author none = inr none
asked_plan key new_key author (some participant) =
    and_then (participant key new_key author) (λ pages. inr (some pages))

-- `PrepareKeyRename` of the participant, when the key changes.
unfoldable pub rename_plan : Env → String → String → Change → Error ⊎ Option (List PageUpdate)
unfolding is_renaming
rename_plan env key author c =
    let new_key = parsed_key c.prepared.parsed in
    if is_renaming key c && not (in_conflict c.state) && not (string_eq.beq new_key key)
    then asked_plan key new_key author env.participant
    else inr none

abbrev pages_of : Option (List PageUpdate) → List PageUpdate
pages_of none = []
pages_of (some pages) = pages

unfoldable pub write_change :
    Env
    → String
    → ℕ
    → String
    → Change
    → Parsed
    → Option (List PageUpdate)
    → Database
    → Option Registry
    → (Error ⊎ ManagedEndpoint) × Database × (Option Registry × Bool)
unfolding apply_change is_renaming update_managed_endpoint rename_managed_endpoint
write_change env key expected author c parsed plan db r =
    let m : ManagedEndpoint = record {
      key = parsed_key c.prepared.parsed;
      definition = c.prepared.definition;
      version = 0;
      created_at = 0;
      updated_at = 0;
      updated_by = author;
    } in
    let rename : Rename = record {
      old_key = key;
      name = parsed_name parsed;
      group = parsed_group parsed;
      move_history = not (in_conflict c.state);
      status_pages = pages_of plan;
    } in
    if is_renaming key c
    then rename_managed_endpoint env.driver env.now m expected rename (apply_change parsed) db
        (r, false)
    else update_managed_endpoint env.driver env.now m expected (apply_change parsed) db (r, false)

abbrev plan_effect : Option (List PageUpdate) → Effect → List Effect
plan_effect none effect = []
plan_effect (some pages) effect = effect ∷ []

-- What follows the transaction.
abbrev pub changed_world :
    String
    → Change
    → Parsed
    → Option (List PageUpdate)
    → World
    → ManagedEndpoint
    → Database
    → Option Registry
    → World
changed_world key c parsed plan w stored db r =
    let moved = not (string_eq.beq (parsed_key c.prepared.parsed) key) in
    record w {
      registry = r;
      database = db;
      states = replace_state key (new_state_from_prepared stored parsed c.effective) w.states;
      pushes = if moved then forget_external_endpoint key w.pushes else w.pushes;
      effects =
          (w.effects ++ plan_effect plan plan_committed)
          ++ ((if in_conflict c.state then [] else metrics_deleted key ∷ [])
              ++ (if moved then live_updates_forgotten key ∷ [] else []));
    }

abbrev pub finish_change :
    String
    → Bool
    → Change
    → Parsed
    → Option (List PageUpdate)
    → World
    → (Error ⊎ ManagedEndpoint) × Database × (Option Registry × Bool)
    → (Error ⊎ State) × World
finish_change key was_monitored c parsed plan w (inl error, db, (r, started)) = (
  inl error,
  record w {
    registry =
        restart_previous was_monitored c.state.parsed
          (stop_started (parsed_key c.prepared.parsed) (r, started));
    database = db;
    effects = w.effects ++ plan_effect plan plan_discarded;
  },
)
finish_change key was_monitored c parsed plan w (inr stored, db, (r, started)) = (
  inr (new_state_from_prepared stored parsed c.effective),
  changed_world key c parsed plan w stored db r,
)

unfoldable pub planned_change :
    Env
    → String
    → ℕ
    → String
    → Change
    → Bool
    → World
    → Option Registry
    → Error ⊎ Option (List PageUpdate)
    → (Error ⊎ State) × World
unfolding write_change
planned_change env key expected author c was_monitored w r (inl error) =
    (inl error, record w { registry = restart_previous was_monitored c.state.parsed r })
planned_change env key expected author c was_monitored w r (inr plan) =
    let parsed = restored_change env key c in
    finish_change key was_monitored c parsed plan w
      (write_change env key expected author c parsed plan w.database r)

unfoldable pub stopped_change :
    Env
    → String
    → ℕ
    → String
    → Change
    → Bool
    → World
    → Option Error × Option Registry
    → (Error ⊎ State) × World
unfolding planned_change
stopped_change env key expected author c was_monitored w (some error, r) =
    (inl error, record w { registry = r })
stopped_change env key expected author c was_monitored w (none, r) =
    planned_change env key expected author c was_monitored w r (rename_plan env key author c)

-- The previous endpoint is monitored, and not in conflict.
unfoldable pub was_monitored_of : String → State → Option Registry → Bool
was_monitored_of key state r = is_valid state.parsed && is_endpoint_monitored key r

unfoldable pub run_change :
    Env → String → ℕ → String → World → Error ⊎ Change → (Error ⊎ State) × World
unfolding was_monitored_of stopped_change
run_change env key expected author w (inl error) = (inl error, w)
run_change env key expected author w (inr c) =
    let was_monitored = was_monitored_of key c.state w.registry in
    stopped_change env key expected author c was_monitored w
      (stop_previous key was_monitored w.registry)

-- `update`
unfoldable pub update_endpoint :
    Env → String → String → ℕ → String → World → (Error ⊎ State) × World
unfolding checked_change run_change
update_endpoint env key raw expected author w =
    run_change env key expected author w (checked_change env w key raw expected)

-- `Update`
unfoldable pub update : Env → String → String → ℕ → String → World → (Error ⊎ State) × World
unfolding update_endpoint
update env key raw expected author w =
    begin_change env w (update_endpoint env key raw expected author w)
