-- ===== src/Alerting/Examples.antt =====
-- internal/watchdog/alerting.go: runs of an endpoint with one alert.
use go_uptime.Alerting.Protocol.{follow}
use go_uptime.Alerting.History.{
  Handled, after, failure_streak, success_streak, after-streaks, follow-after,
}
use go_uptime.Alerting.Once.{IsWorking, failing, notices, initial_once}
use go_uptime.Alerting.Resolution.{succeeding, success-resolves, Cause, triggered-Cause}
use go_uptime.Alerting.{
  Alert, Env, initial, Endpoint, is_enabled, validate_and_set_defaults,
  invalid_minimum_reminder_interval, contains_quote, handle_alerting, trigger_alert, resolve_alert,
}
use go_uptime.Alerting.Restore.{
  checksum, present, restore_persisted_triggered_alerts, migrate_triggered_alerts, key_of,
}
use go_uptime.Alerting.Restore.Migration.{reopened, read, restore-migrate}
use go_uptime.Alerting.Restore.Presence.{first}
use go_uptime.Alerting.Restore.Rows.{Rows, rows, rows-Works}
use go_uptime.Common.{String, lookup, Bytes, length, ◌==◌, if◌then◌else◌, map, bytes_beq_iff}
use go_uptime.Common.Int.{pos, negsuc}
use go_uptime.Common.{◌≡◌, refl, true, false, none, some, List, [], ◌∷◌, arith, get_elem?}

abbrev alert : Alert
alert = record {
  type = "slack";
  enabled = none;
  failure_threshold = pos 2;
  success_threshold = pos 1;
  minimum_reminder_interval = pos 0;
  description = none;
  send_on_resolved = some true;
  resolve_key = "";
  triggered = false;
}

abbrev open_alert : Alert
open_alert = record alert { triggered = true }

abbrev endpoint : Endpoint
endpoint = record {
  name = "site";
  group = "erp";
  enabled = none;
  alerts = alert ∷ [];
  number_of_failures_in_a_row = 0;
  number_of_successes_in_a_row = 0;
  last_reminder_sent = 0;
}

abbrev env : Env
env = record {
  has_provider = λ type. true;
  send = λ i a is_resolved. record { failed = false; resolve_key = "" };
  checked_at = λ i. 1000;
  sent_at = λ i. 2000;
  mock = false;
  mock_error = false;
}

env-IsWorking : IsWorking env
env-IsWorking = record { is_real = refl; has_provider = λ type. refl; delivers = λ i a r. refl }

abbrev outage : List Handled
outage = (some env, false) ∷ (some env, false) ∷ (some env, true) ∷ []

defaults_test :
    (validate_and_set_defaults (record alert { failure_threshold = negsuc 0 })).0.failure_threshold
    ≡ pos 3
unfolding validate_and_set_defaults contains_quote
defaults_test = refl

short_interval_test :
    (validate_and_set_defaults (record alert { minimum_reminder_interval = pos 1000 })).1
    ≡ some invalid_minimum_reminder_interval
unfolding validate_and_set_defaults contains_quote
short_interval_test = refl

outage_test : notices 0 (after outage endpoint).1 ≡ (initial, false) ∷ []
unfolding after handle_alerting trigger_alert resolve_alert notices
outage_test = refl

after-streaks_example :
    ((after outage endpoint).0.number_of_failures_in_a_row ≡ failure_streak outage)
    × ((after outage endpoint).0.number_of_successes_in_a_row ≡ success_streak outage)
after-streaks_example = after-streaks outage endpoint tt refl refl

follow-after_example :
    (b : Alert) × (get_elem? (after outage endpoint).0.alerts 0 ≡ some b)
    × (follow 0 (some false) (after outage endpoint).1 ≡ some b.triggered)
follow-after_example = follow-after outage endpoint 0 {a = alert} refl

initial_once_example :
    notices 0 (after (failing (env ∷ env ∷ env ∷ [])) endpoint).1 ≡ (initial, false) ∷ []
initial_once_example =
    initial_once endpoint 0 1 {a = alert} refl refl (unfold is_enabled in refl) refl refl refl
      (env ∷ env ∷ env ∷ []) (env-IsWorking, (env-IsWorking, (env-IsWorking, tt)))

success-resolves_example :
    (b : Alert) × (get_elem?
        (after (succeeding (env ∷ [])) (record endpoint { alerts = open_alert ∷ [] })).0.alerts
        0
      ≡ some b)
    × (b.triggered ≡ false)
success-resolves_example =
    success-resolves (record endpoint { alerts = open_alert ∷ [] }) 0 1 {a = open_alert} refl
      (unfold is_enabled in refl) refl env [] (omega arith)

triggered-Cause_example : Cause alert outage
unfolding after handle_alerting trigger_alert resolve_alert
triggered-Cause_example =
    triggered-Cause outage endpoint 0 {a = alert} {b = open_alert} tt refl refl refl refl refl refl

-- A hash that tells texts of 20 bytes from the others.
abbrev sum_of : Bytes → String
sum_of text = if length text == 20 then "short" else "long"

abbrev replaced : Endpoint
replaced = record endpoint { alerts = record alert { description = some "paged" } ∷ [] }

abbrev persisted : Rows
persisted = (checksum sum_of alert, ("incident", 1)) ∷ []

abbrev described : Alert
described = record alert { description = some "paged" }

restore-migrate_example :
    let stored = (migrate_triggered_alerts sum_of rows endpoint replaced persisted).0 in
    let restored = restore_persisted_triggered_alerts sum_of rows replaced stored in
    (restored.0.alerts
      ≡ map (λ (a : Alert). reopened (read sum_of rows replaced.alerts stored a) a) replaced.alerts)
    × (read sum_of rows replaced.alerts stored described ≡ present "incident" 1)
    × (rows.get "gone" stored ≡ rows.get "gone" persisted)
unfolding checksum lookup
restore-migrate_example =
    restore-migrate sum_of rows rows-Works endpoint replaced persisted "incident" 1 "gone"
      {a = alert} {b = described}
      ((bytes_beq_iff (key_of sum_of rows endpoint) (key_of sum_of rows replaced)).1 refl)
      (first tt) refl (unfold is_enabled in refl) refl (refl, tt)
