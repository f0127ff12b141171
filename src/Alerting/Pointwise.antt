-- ===== src/Alerting/Pointwise.antt =====
-- internal/watchdog/alerting.go: the loops over the alerts of an endpoint, one alert at a time.

use native.Mathlib.Nat.{add-zero, add-suc, suc-add}
use go_uptime.Clock.{Time}
use go_uptime.Alerting.{Alert, Env, trigger_alert, trigger_alerts, resolve_alert, resolve_alerts}
use go_uptime.Common.{ℕ, zero, suc, ◌+◌, ◌≡◌, some, List, [], ◌∷◌, arith, get_elem?}

-- What one round makes of an alert does not depend on the reminders sent before it in the loop.
pub trigger_alert-same :
    (env : Env) (reference : Time) (failures i : ℕ) (a : Alert) (s t : Time)
    → (trigger_alert env reference failures i a s).0
      ≡ (trigger_alert env reference failures i a t).0
unfolding trigger_alert
trigger_alert-same env reference failures i a s t = ground arith

module _ (env : Env) (reference : Time) (failures : ℕ) where
  abbrev pub triggered_alert : ℕ → Alert → Alert
  triggered_alert i a = (trigger_alert env reference failures i a reference).0

  pub get_elem?-trigger_alerts :
      (i k : ℕ) (alerts : List Alert) (s : Time) {a : Alert}
      → get_elem? alerts k ≡ some a
      → get_elem? (trigger_alerts env reference failures i alerts s).0 k
        ≡ some (triggered_alert (i + k) a)
  unfolding trigger_alerts
  get_elem?-trigger_alerts i k [] s h = ground arith
  get_elem?-trigger_alerts i zero (x ∷ xs) s {a} h =
      rw add-zero (ground (arith, trigger_alert-same env reference failures i a s reference))
  get_elem?-trigger_alerts i (suc k) (x ∷ xs) s h =
      rw (add-suc, ← suc-add)
        (get_elem?-trigger_alerts (suc i) k xs (trigger_alert env reference failures i x s).1 h)

module _ (env : Env) (successes : ℕ) where
  pub get_elem?-resolve_alerts :
      (i k : ℕ) (alerts : List Alert) {a : Alert}
      → get_elem? alerts k ≡ some a
      → get_elem? (resolve_alerts env successes i alerts).0 k
        ≡ some (resolve_alert env successes (i + k) a).0
  unfolding resolve_alerts
  get_elem?-resolve_alerts i k [] h = ground arith
  get_elem?-resolve_alerts i zero (x ∷ xs) {a} h = rw add-zero (ground arith)
  get_elem?-resolve_alerts i (suc k) (x ∷ xs) h =
      rw (add-suc, ← suc-add) (get_elem?-resolve_alerts (suc i) k xs h)
