-- ===== src/Alerting/Resolution.antt =====
-- internal/watchdog/alerting.go: what opens an incident, and what closes it.
use go_uptime.Alerting.Protocol.{alert_after, get_elem?-handle_alerting}
use go_uptime.Alerting.History.{
  Handled, after, failure_streak, IsConfigured, after-streaks, get_elem?-after,
}
use go_uptime.Alerting.Once.{SameConfiguration-enabled}
use go_uptime.Alerting.{
  Alert, Env, Endpoint, is_enabled, trigger_alert, resolve_alert, handle_alerting,
}
use go_uptime.Common.Int.{pos, ◌≤ℤ◌}
use go_uptime.Common.{
  ℕ, suc, ◌<◌, ◌≤◌, ◌≡◌, ap, ◌∙◌, ◌⊎◌, inl, inr, Bool, true, false, Option, none, some, List, [],
  ◌∷◌, ◌++◌, map, arith, length, get_elem?, Bool-cases,
}

abbrev pub succeeding : List Env → List Handled
succeeding envs = map (λ env. (some env, true)) envs

successes-le :
    (envs : List Env) (ep : Endpoint)
    → length envs ≤ (after (succeeding envs) ep).0.number_of_successes_in_a_row
unfolding after handle_alerting
successes-le [] ep = omega arith
successes-le (env ∷ envs) ep = omega (arith, successes-le envs ep)

still_triggered :
    (env : Env) (successes k t : ℕ) (b : Alert)
    → is_enabled b ≡ true
    → b.success_threshold ≡ pos t
    → (resolve_alert env successes k b).0.triggered ≡ true
    → successes < t
unfolding resolve_alert
still_triggered env successes k t b enabled threshold h = ground arith

-- After as many successes in a row as its success threshold asks for, an enabled alert is no longer
-- triggered, whatever the providers answer to the resolved notification.
pub success-resolves :
    (ep : Endpoint) (k t : ℕ) {a : Alert}
    → get_elem? ep.alerts k ≡ some a
    → is_enabled a ≡ true
    → a.success_threshold ≡ pos t
    → (env : Env) (envs : List Env) → t ≤ length (env ∷ envs)
    → (b : Alert) × (get_elem? (after (succeeding (env ∷ envs)) ep).0.alerts k ≡ some b)
      × (b.triggered ≡ false)
unfolding after
success-resolves ep k t {a} here enabled threshold env envs h =
    let before = (after (succeeding envs) ep).0 in
    let (b, at_k, same) = get_elem?-after (succeeding envs) ep k here in
    let n = before.number_of_successes_in_a_row in
    let c = alert_after (some env) true before k b in
    let closed : c.triggered ≡ false = elim (Bool-cases c.triggered) [
      | inl open_still ↦ absurd (
          omega (
            arith,
            successes-le envs ep,
            still_triggered env (suc n) k t b (SameConfiguration-enabled same enabled)
                (same.success_threshold ∙ threshold) (unfold alert_after in open_still),
          ))
      | inr e ↦ e
    ] in
    (c, get_elem?-handle_alerting (some env) true before k at_k, closed)

-- A trigger needs a failure that reaches the threshold.
newly_triggered :
    (env : Env) (success : Bool) (before : Endpoint) (k : ℕ) (b : Alert)
    → (alert_after (some env) success before k b).triggered ≡ true
    → (b.triggered ≡ true)
      ⊎ ((success ≡ false) × (b.failure_threshold ≤ℤ pos (suc before.number_of_failures_in_a_row)))
unfolding alert_after trigger_alert resolve_alert
newly_triggered env true before k b h = ground arith
newly_triggered env false before k b h = ground arith

-- The results that led to a trigger: the newest of them is a failure, and the failures in a row at
-- that point reach the threshold of the alert.
pub record Cause (a : Alert) (results : List Handled) : Type 0 where
  pub later : List Handled
  pub env : Option Env
  pub earlier : List Handled
  pub parts : results ≡ later ++ (env, false) ∷ earlier
  pub reached : a.failure_threshold ≤ℤ pos (failure_streak ((env, false) ∷ earlier))

Cause-cons :
    {a : Alert} {results : List Handled} (r : Handled) → Cause a results → Cause a (r ∷ results)
Cause-cons r c = record {
  later = r ∷ c.later;
  env = c.env;
  earlier = c.earlier;
  parts = ap (λ rs. r ∷ rs) c.parts;
  reached = c.reached;
}

same_some : {o : Option Alert} {x y : Alert} → o ≡ some x → o ≡ some y → x ≡ y
same_some p q = cc

-- An alert is only ever triggered by failures in a row: if it is triggered after a history, handled
-- with a configuration of the alerts throughout, of an endpoint that starts with its counters at zero
-- and the alert not triggered, the history holds a failure at which the failures in a row reached the
-- failure threshold of the alert.
pub triggered-Cause :
    (results : List Handled) (ep : Endpoint) (k : ℕ) {a b : Alert}
    → IsConfigured results
    → ep.number_of_failures_in_a_row ≡ 0
    → ep.number_of_successes_in_a_row ≡ 0
    → get_elem? ep.alerts k ≡ some a
    → a.triggered ≡ false
    → get_elem? (after results ep).0.alerts k ≡ some b
    → b.triggered ≡ true
    → Cause a results
unfolding after failure_streak
triggered-Cause [] ep k c f s here closed at_k opened = absurd (ground arith)
triggered-Cause ((none, success) ∷ earlier) ep k c f s here closed at_k opened = elim c [ ]
triggered-Cause ((some env, success) ∷ earlier) ep k {a} {b} c f s here closed at_k opened =
    let before = (after earlier ep).0 in
    let (d, at_d, same) = get_elem?-after earlier ep k here in
    let step = get_elem?-handle_alerting (some env) success before k at_d in
    let now : (alert_after (some env) success before k d).triggered ≡ true =
      rw (same_some step at_k) opened in
    elim (newly_triggered env success before k d now) [
      | inl old ↦
          Cause-cons (some env, success) (triggered-Cause earlier ep k c f s here closed at_d old)
      | inr (failed, reached) ↦
          let streak = (after-streaks earlier ep c f s).0 in
          record {
            later = [];
            env = some env;
            earlier = earlier;
            parts = rw failed;
            reached = rw (← same.failure_threshold) (rw streak at reached);
          }
    ]
