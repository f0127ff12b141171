-- ===== src/Managed/Examples.antt =====
-- Runs of the administration of endpoints at concrete values.
use mathlib.Core.Path.{subst}
use go_uptime.Alerting.{Endpoint}
use go_uptime.Clock.{zero_time}
use go_uptime.Watchdog.Registry.{Registry, admin}
use go_uptime.Managed.Storage.{Database, Driver, update_managed_endpoint, delete_managed_endpoint}
use go_uptime.Managed.Storage.Rename.{Rename, rename_managed_endpoint}
use go_uptime.Managed.Storage.Locking.{update-refuses_stale}
use go_uptime.Managed.Service.{Env, World}
use go_uptime.Managed.Service.Changes.{update}
use go_uptime.Managed.Service.Changes.Written.{IsStored}
use go_uptime.Managed.Service.Changes.Views.{registered}
use go_uptime.Managed.Service.Changes.Restarted.{IsFollowed}
use go_uptime.Managed.Service.Changes.Running.{Monitors}
use go_uptime.Managed.Service.Followed.{update-Monitors}
use go_uptime.Managed.Service.Runs.{here, then_update, IsStored-Reaches}
use go_uptime.Managed.{
  Error, ManagedEndpoint, State, Parsed, managed_endpoint_version_mismatch, parsed_is_enabled,
  parsed_key, is_push,
}
use go_uptime.Common.{
  ◌≡◌, refl, arith, String, Bool, true, false, Option, none, some, [], ◌∷◌, ◌⊎◌, inl, inr, lookup,
  str_eq, string_eq, if◌then◌else◌,
}

abbrev endpoint : String → Endpoint
endpoint name = record {
  name = name;
  group = "core";
  enabled = none;
  alerts = [];
  number_of_failures_in_a_row = 0;
  number_of_successes_in_a_row = 0;
  last_reminder_sent = zero_time;
}

abbrev api : Parsed
api = record {
  endpoint = some (record { endpoint = endpoint "api"; key = "core_api" });
  push_option = none;
  push = none;
}

abbrev web : Parsed
web = record {
  endpoint = some (record { endpoint = endpoint "web"; key = "core_web" });
  push_option = none;
  push = none;
}

abbrev row : ManagedEndpoint
row = record {
  key = "core_api";
  definition = "name: api";
  version = 3;
  created_at = 100;
  updated_at = 250;
  updated_by = "admin";
}

abbrev database : Database
database = record {
  managed = ("core_api", row) ∷ [];
  endpoints = ("core_api", record { name = "api"; group = "core"; references = 12 }) ∷ [];
  pages = [];
}

abbrev driver : Driver
driver = record { fails = λ s. false; raced = false; taken = false }

abbrev edited : ManagedEndpoint
edited = record row { definition = "name: api\ninterval: 30s"; updated_by = "maria" }

abbrev rename : Rename
rename = record {
  old_key = "core_api";
  name = "web";
  group = "core";
  move_history = true;
  status_pages = [];
}

abbrev unchanged : Bool → Option Error × Bool
unchanged w = (none, w)

update-refuses_stale_example :
    let after = (update_managed_endpoint driver 300 edited 3 unchanged database true).1 in
    (update_managed_endpoint driver 400 row 3 unchanged after true
      ≡ (inl managed_endpoint_version_mismatch, after, true))
    × (rename_managed_endpoint driver 400 row 3 rename unchanged after true
        ≡ (inl managed_endpoint_version_mismatch, after, true))
    × (delete_managed_endpoint driver "core_api" 3 true unchanged after true
        ≡ (inl managed_endpoint_version_mismatch, after, true))
unfolding update_managed_endpoint lookup
update-refuses_stale_example =
    update-refuses_stale driver driver (λ s. refl) 300 400 3 edited
      (record edited { version = 4; created_at = 100; updated_at = 300 }) row rename true unchanged
      unchanged database true true refl refl refl

abbrev state : State
state = record {
  stored = row;
  parsed = api;
  conflict_origin = none;
  error = none;
  effective = some "name: api\ninterval: 1m";
}

abbrev registry : Registry
registry = record {
  entries = ("core_api", record { external = false; source = admin; context = 0 }) ∷ [];
  closed = false;
  contexts = 1;
  cancelled = [];
}

abbrev world : World
world = record {
  registry = some registry;
  database = database;
  states = ("core_api", state) ∷ [];
  pushes = record { last_pushes = []; retries_used = [] };
  effects = [];
}

-- The definition "web" is the endpoint web, and any other is the endpoint api.
abbrev parse : String → Error ⊎ Parsed
parse definition = inr (if str_eq definition "web" then web else api)

abbrev env : Env
env = record {
  busy = false;
  supported = true;
  driver = driver;
  now = 300;
  config_keys = record { endpoints = []; external_endpoints = []; suites = [] };
  parse_definition = parse;
  restore_masked_secrets = λ raw stored. inr raw;
  normalize = λ raw. inr raw;
  with_enabled = λ enabled raw. inr raw;
  with_generated_push_token = λ raw. inr raw;
  set_defaults = λ parsed. inr parsed;
  check_storage_key_length = λ key. none;
  check_extra_labels = λ parsed. none;
  check_push_token = λ states key parsed. none;
  effective_definition = λ parsed. inr "effective";
  persisted_alerts = λ name group alerts. (alerts, none);
  participant = none;
}

abbrev renamed : World
renamed = (update env "core_api" "web" 3 "maria" world).1

api-IsFollowed : IsFollowed "core_api" state.parsed world.registry
unfolding registered lookup parsed_is_enabled parsed_key is_push
api-IsFollowed = record { named = λ h. refl; on = λ h. refl; off = λ h. absurd cc }

state-IsFollowed :
    (found : State)
    → lookup "core_api" world.states ≡ some found
    → IsFollowed "core_api" found.parsed world.registry
unfolding lookup
state-IsFollowed found h =
    let same : state ≡ found = cc in
    subst (λ (s : State). IsFollowed "core_api" s.parsed world.registry) same api-IsFollowed

update-Monitors_example :
    Monitors "core_api" world.registry
      (update env "core_api" "web" 3 "maria" world).0
      renamed.registry
update-Monitors_example = update-Monitors env "core_api" "web" 3 "maria" world refl state-IsFollowed

world-IsStored : IsStored world
unfolding IsStored lookup
world-IsStored key = ground arith

IsStored-Reaches_example : IsStored (update env "core_api" "web" 3 "maria" world).1
IsStored-Reaches_example =
    IsStored-Reaches (then_update env "core_api" "web" 3 "maria" here) world-IsStored
