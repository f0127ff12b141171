-- ===== src/Alerting/History.antt =====
-- internal/watchdog/alerting.go over a whole history of results.
use go_uptime.Alerting.Protocol.{
  follow, follow-append, alert_after, get_elem?-handle_alerting, follow-handle_alerting,
}
use go_uptime.Alerting.{Alert, Env, Effect, Endpoint, trigger_alert, resolve_alert, handle_alerting}
use go_uptime.Common.{
  ℕ, suc, ◌≡◌, refl, Bool, true, false, Option, none, some, List, [], ◌∷◌, ◌++◌, arith, get_elem?,
}

-- A result, with the environment in which it is handled. The newest result stands first.
abbrev pub Handled : Type 0
Handled = Option Env × Bool

unfoldable pub after : List Handled → Endpoint → Endpoint × List Effect
after [] ep = (ep, [])
after ((env, success) ∷ earlier) ep =
    let (before, effects) = after earlier ep in
    let (ep', effects') = handle_alerting env success before in (ep', effects ++ effects')

-- How many of the newest results are failures, and how many are successes.
unfoldable pub failure_streak : List Handled → ℕ
failure_streak [] = 0
failure_streak ((env, true) ∷ earlier) = 0
failure_streak ((env, false) ∷ earlier) = suc (failure_streak earlier)

unfoldable pub success_streak : List Handled → ℕ
success_streak [] = 0
success_streak ((env, false) ∷ earlier) = 0
success_streak ((env, true) ∷ earlier) = suc (success_streak earlier)

abbrev pub IsConfigured : List Handled → Type 0
IsConfigured [] = Unit
IsConfigured ((none, success) ∷ earlier) = ⊥
IsConfigured ((some env, success) ∷ earlier) = IsConfigured earlier

-- Over any history with an alerting configuration, the two counters of an endpoint that starts at
-- zero are the numbers of failures and of successes in a row at the end of the history.
pub after-streaks :
    (results : List Handled) (ep : Endpoint)
    → IsConfigured results
    → ep.number_of_failures_in_a_row ≡ 0
    → ep.number_of_successes_in_a_row ≡ 0
    → ((after results ep).0.number_of_failures_in_a_row ≡ failure_streak results)
      × ((after results ep).0.number_of_successes_in_a_row ≡ success_streak results)
unfolding after failure_streak success_streak handle_alerting
after-streaks [] ep c f s = (f, s)
after-streaks ((none, success) ∷ earlier) ep c f s = elim c [ ]
after-streaks ((some env, true) ∷ earlier) ep c f s = ground (arith, after-streaks earlier ep c f s)
after-streaks ((some env, false) ∷ earlier) ep c f s =
    ground (arith, after-streaks earlier ep c f s)

-- Over any history, with any answers of the providers, an alert keeps its place, and what is sent
-- and stored for it follows the protocol from its first state to its last: the incident that the
-- observers see is open exactly while the alert is triggered.
pub follow-after :
    (results : List Handled) (ep : Endpoint) (k : ℕ) {a : Alert}
    → get_elem? ep.alerts k ≡ some a
    → (b : Alert) × (get_elem? (after results ep).0.alerts k ≡ some b)
      × (follow k (some a.triggered) (after results ep).1 ≡ some b.triggered)
unfolding after
follow-after [] ep k {a} h = (a, h, unfold follow in refl)
follow-after ((env, success) ∷ earlier) ep k {a} h =
    let (b, here, followed) = follow-after earlier ep k h in
    let before = (after earlier ep).0 in
    (
      alert_after env success before k b,
      get_elem?-handle_alerting env success before k here,
      rw (follow-append, followed) (follow-handle_alerting env success before k here),
    )

-- The handler never changes the configuration of an alert.
pub record SameConfiguration (a b : Alert) : Type 0 where
  pub type : b.type ≡ a.type
  pub enabled : b.enabled ≡ a.enabled
  pub failure_threshold : b.failure_threshold ≡ a.failure_threshold
  pub success_threshold : b.success_threshold ≡ a.success_threshold
  pub minimum_reminder_interval : b.minimum_reminder_interval ≡ a.minimum_reminder_interval
  pub send_on_resolved : b.send_on_resolved ≡ a.send_on_resolved

pub alert_after-SameConfiguration :
    (env : Option Env) (success : Bool) (ep : Endpoint) (k : ℕ) (a : Alert)
    → SameConfiguration a (alert_after env success ep k a)
unfolding alert_after trigger_alert resolve_alert
alert_after-SameConfiguration none success ep k a = ground arith
alert_after-SameConfiguration (some env) true ep k a = ground arith
alert_after-SameConfiguration (some env) false ep k a = ground arith

pub get_elem?-after :
    (results : List Handled) (ep : Endpoint) (k : ℕ) {a : Alert}
    → get_elem? ep.alerts k ≡ some a
    → (b : Alert) × (get_elem? (after results ep).0.alerts k ≡ some b) × SameConfiguration a b
unfolding after
get_elem?-after [] ep k {a} h = (a, h, ground arith)
get_elem?-after ((env, success) ∷ earlier) ep k {a} h =
    let (b, here, same) = get_elem?-after earlier ep k h in
    let before = (after earlier ep).0 in
    (
      alert_after env success before k b,
      get_elem?-handle_alerting env success before k here,
      ground (arith, alert_after-SameConfiguration env success before k b),
    )
