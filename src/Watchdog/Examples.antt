-- ===== src/Watchdog/Examples.antt =====
-- internal/watchdog/push.go: results of an external endpoint.
use go_uptime.Watchdog.Retries.{pending_first, apply_all, pending-apply_all}
use go_uptime.Watchdog.Reminders.{effects_of, reminder_on_every_failure}
use go_uptime.Watchdog.{
  ExternalEndpoint, Pushes, apply_retries, Context, process_external_endpoint_result,
}
use go_uptime.Watchdog.Registry.{
  admin, endpoint_not_monitored, Monitored, Registry, new_endpoint_registry, is_cancelled, start,
  stop, close_registry, Reaches, then_start, then_close,
}
use go_uptime.Watchdog.Registry.Invariant.{is_cancelled-Reaches, stop-Reaches}
use go_uptime.Watchdog.Checks.{checked, refused, submit_endpoint_result}
use go_uptime.Watchdog.Checks.Outcomes.{submit-stopped}
use go_uptime.Common.{str_eq, str_eq_iff, insert}
use go_uptime.Alerting.{Endpoint, Alert, Env, reminder, is_enabled}
use go_uptime.Alerting.Once.{notices}
use go_uptime.Clock.{minute, max_duration}
use go_uptime.Result.{Result}
use go_uptime.Common.{
  ◌+◌, ◌*◌, ◌≡◌, refl, true, false, none, some, List, [], ◌∷◌, map, arith, lookup, string_eq,
}
use go_uptime.Common.Int.{pos}

abbrev failure : Result
failure = record {
  duration = pos 0;
  errors = (110 ∷ 111 ∷ []) ∷ [];
  message = [];
  origin = "";
  pending = false;
  success = false;
  timestamp = 0;
}

abbrev alert : Alert
alert = record {
  type = "slack";
  enabled = none;
  failure_threshold = pos 1;
  success_threshold = pos 1;
  minimum_reminder_interval = pos (5 * minute);
  description = none;
  send_on_resolved = none;
  resolve_key = "";
  triggered = true;
}

abbrev backup : ExternalEndpoint
backup = record {
  name = "backup";
  group = "erp";
  key = "erp_backup";
  enabled = none;
  alerts = alert ∷ [];
  heartbeat_interval = pos (2 * minute);
  heartbeat_retries = pos 2;
  number_of_failures_in_a_row = 4;
  number_of_successes_in_a_row = 0;
}

abbrev no_pushes : Pushes
no_pushes = record { last_pushes = []; retries_used = [] }

abbrev env : Env
env = record {
  has_provider = λ type. true;
  send = λ i a is_resolved. record { failed = false; resolve_key = "" };
  checked_at = λ i. max_duration + minute;
  sent_at = λ i. max_duration + minute;
  mock = false;
  mock_error = false;
}

abbrev context : Context
context = record {
  under_maintenance = false;
  storage_fails = false;
  now = 1000 * minute;
  alerting = some env;
}

abbrev failures : List Result
failures = failure ∷ failure ∷ failure ∷ []

pending-apply_all_example :
    map (λ (r : Result). r.pending) (apply_all backup failures []).0 ≡ pending_first 2 3
pending-apply_all_example =
    pending-apply_all backup failures [] 2 0 refl (unfold lookup in refl)
      (refl, refl, (refl, refl, (refl, refl, tt)))

reminder_on_every_failure_example :
    notices 0 (
      effects_of
        (process_external_endpoint_result context false
          (record backup { heartbeat_retries = pos 0 })
          failure
          no_pushes).actions)
    ≡ (reminder, false) ∷ []
reminder_on_every_failure_example =
    reminder_on_every_failure context false (record backup { heartbeat_retries = pos 0 }) failure
      no_pushes env 0 299999999999 {a = alert} refl refl refl (unfold apply_retries lookup in refl)
      (unfold apply_retries lookup in refl) refl (unfold is_enabled in refl) refl (omega arith) refl
      (omega arith) (omega arith) refl refl

abbrev site : Monitored
site = record { external = false; source = admin; context = 0 }

abbrev shop : Monitored
shop = record { external = false; source = admin; context = 1 }

abbrev one_site : Registry
one_site = (start false "erp_site" admin new_endpoint_registry).0

abbrev two_sites : Registry
two_sites = (start false "erp_shop" admin one_site).0

two_sites-Reaches : Reaches new_endpoint_registry two_sites
two_sites-Reaches =
    then_start false "erp_shop" admin (then_start false "erp_site" admin Reaches.here)

is_cancelled-Reaches_example : is_cancelled 0 two_sites.cancelled ≡ two_sites.closed
is_cancelled-Reaches_example =
    is_cancelled-Reaches "erp_site" {e = site} two_sites-Reaches
      (unfold start new_endpoint_registry lookup insert in refl)

stop-Reaches_example :
    let after = (stop "erp_site" admin two_sites).0 in
    (is_cancelled 0 (close_registry after).cancelled ≡ true)
    × (is_cancelled 1 after.cancelled ≡ is_cancelled 1 two_sites.cancelled)
stop-Reaches_example =
    stop-Reaches "erp_site" "erp_shop" admin {e = site} {f = shop} two_sites-Reaches
      (unfold start new_endpoint_registry lookup insert in refl) refl (then_close Reaches.here)
      (unfold start new_endpoint_registry lookup insert in refl)
      (λ p.
        let same : str_eq "erp_shop" "erp_site" ≡ true = (str_eq_iff "erp_shop" "erp_site").1 p in
        absurd cc)

abbrev plain : Endpoint
plain = record {
  name = "site";
  group = "erp";
  enabled = none;
  alerts = alert ∷ [];
  number_of_failures_in_a_row = 0;
  number_of_successes_in_a_row = 0;
  last_reminder_sent = 0;
}

submit-stopped_example :
    submit_endpoint_result context "erp_site" failure
      (checked plain)
      no_pushes
      (some two_sites)
      (stop "erp_site" admin (start false "erp_blog" admin two_sites).0).0
    ≡ refused (checked plain) no_pushes endpoint_not_monitored
submit-stopped_example =
    submit-stopped context "erp_site" failure (checked plain) no_pushes admin {found = two_sites}
      {between = (start false "erp_blog" admin two_sites).0}
      {locked = (stop "erp_site" admin (start false "erp_blog" admin two_sites).0).0} {e = site}
      (then_start false "erp_blog" admin Reaches.here)
      (unfold start new_endpoint_registry lookup insert in refl) refl Reaches.here
