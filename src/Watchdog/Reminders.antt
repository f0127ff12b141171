-- ===== src/Watchdog/Reminders.antt =====
-- internal/watchdog/push.go: the reminders of an external endpoint.
use go_uptime.Alerting.{Alert, Env, Effect, reminder, is_enabled, trigger_alert}
use go_uptime.Alerting.Once.{notices, notices-handle_alerting}
use go_uptime.Clock.{max_duration, time_sub, zero_time}
use go_uptime.Result.{Result}
use go_uptime.Watchdog.{
  ExternalEndpoint, to_endpoint, Pushes, apply_retries, Context, Action, alerted,
  process_external_endpoint_result,
}
use go_uptime.Common.{
  ℕ, suc, ◌≤◌, ◌<◌, ◌≡◌, ◌∙◌, Bool, true, false, some, List, [], ◌∷◌, arith, get_elem?,
}
use go_uptime.Common.Int.{pos, ◌≤ℤ◌}

-- The alerting effects of what is done with a result.
unfoldable pub effects_of : List Action → List Effect
effects_of [] = []
effects_of (alerted effects ∷ actions) = effects
effects_of (a ∷ actions) = effects_of actions

reminds :
    (env : Env) (failures k : ℕ) (a : Alert) (interval : ℕ)
    → is_enabled a ≡ true
    → a.triggered ≡ true
    → a.failure_threshold ≤ℤ pos failures
    → a.minimum_reminder_interval ≡ pos (suc interval)
    → interval < max_duration
    → max_duration ≤ env.checked_at k
    → env.has_provider a.type ≡ true
    → env.mock ≡ false
    → notices k (trigger_alert env zero_time failures k a zero_time).2
      ≡ (reminder, (env.send k a false).failed) ∷ []
unfolding trigger_alert notices time_sub
reminds env failures k a interval enabled triggered reached asked bound late has real = ground arith

-- A failure of an external endpoint that reaches the alerts sends a reminder for every triggered
-- and enabled alert that asks for reminders and whose failure threshold is not above the failures in
-- a row, this one included, however short the time since the last reminder: the converted endpoint
-- does not carry the time of the last reminder. The clock is past the year 293, and the provider is
-- configured and not mocked.
pub reminder_on_every_failure :
    (c : Context) (pushed : Bool) (ee : ExternalEndpoint) (r : Result) (p : Pushes) (env : Env)
    (k interval : ℕ) {a : Alert}
    → c.alerting ≡ some env
    → c.storage_fails ≡ false
    → c.under_maintenance ≡ false
    → (apply_retries ee r false p.retries_used).0.pending ≡ false
    → (apply_retries ee r false p.retries_used).0.success ≡ false
    → get_elem? ee.alerts k ≡ some a
    → is_enabled a ≡ true
    → a.triggered ≡ true
    → a.failure_threshold ≤ℤ pos (suc ee.number_of_failures_in_a_row)
    → a.minimum_reminder_interval ≡ pos (suc interval)
    → interval < max_duration
    → max_duration ≤ env.checked_at k
    → env.has_provider a.type ≡ true
    → env.mock ≡ false
    → notices k (effects_of (process_external_endpoint_result c pushed ee r p).actions)
      ≡ (reminder, (env.send k a false).failed) ∷ []
unfolding process_external_endpoint_result effects_of
reminder_on_every_failure c pushed ee r p env k interval {a} al sf um np ns here en tr re asked
      bound late has real =
    simp (al, sf, um, np, ns)
      (notices-handle_alerting env (to_endpoint ee) k (unfold to_endpoint in here)
        ∙ reminds env (suc ee.number_of_failures_in_a_row) k a interval en tr re asked bound late
            has real)
