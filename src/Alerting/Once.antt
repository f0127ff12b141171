-- ===== src/Alerting/Once.antt =====
-- internal/watchdog/alerting.go: how many times an alert notifies, and when it is resolved.
use mathlib.Core.List.{append-nil}
use native.Mathlib.Nat.{add-zero, add-suc, suc-add, zero-add}
use go_uptime.Clock.{Time}
use go_uptime.Alerting.Pointwise.{triggered_alert}
use go_uptime.Alerting.Protocol.{alert_after, get_elem?-handle_alerting}
use go_uptime.Alerting.History.{Handled, after, SameConfiguration, alert_after-SameConfiguration}
use go_uptime.Alerting.{
  Alert, Env, Effect, attempted, upserted, deleted, Notice, initial, Endpoint, is_enabled,
  trigger_alert, trigger_alerts, handle_alerting,
}
use go_uptime.Common.Int.{pos}
use go_uptime.Common.{
  ℕ, zero, suc, ◌+◌, ◌<◌, ◌≡◌, ◌≢◌, refl, ap, ◌∙◌, String, Bool, true, false, some, List, [], ◌∷◌,
  ◌++◌, map, arith, length, get_elem?, leb, ◌==◌, if◌then◌else◌,
}

-- The notifications of the alert at a position, each with whether it failed.
unfoldable pub notices : ℕ → List Effect → List (Notice × Bool)
notices k [] = []
notices k (attempted j notice failed ∷ xs) =
    let rest = notices k xs in if j == k then (notice, failed) ∷ rest else rest
notices k (upserted j n key ∷ xs) = notices k xs
notices k (deleted j ∷ xs) = notices k xs

notices-append : (k : ℕ) (xs ys : List Effect) → notices k (xs ++ ys) ≡ notices k xs ++ notices k ys
unfolding notices
notices-append k [] ys = refl
notices-append k (attempted j n f ∷ xs) ys = ground (arith, notices-append k xs ys)
notices-append k (upserted j n s ∷ xs) ys = notices-append k xs ys
notices-append k (deleted j ∷ xs) ys = notices-append k xs ys

module _ (env : Env) (reference : Time) (failures : ℕ) where
  notices-other :
      (i k : ℕ) (a : Alert) (s : Time)
      → i ≢ k
      → notices k (trigger_alert env reference failures i a s).2 ≡ []
  unfolding trigger_alert notices
  notices-other i k a s h = ground arith

  notices-own :
      (i : ℕ) (a : Alert) (s : Time)
      → notices i (trigger_alert env reference failures i a s).2
        ≡ notices i (trigger_alert env reference failures i a reference).2
  unfolding trigger_alert notices
  notices-own i a s = ground arith

  notices-before :
      (i k : ℕ) (alerts : List Alert) (s : Time)
      → k < i
      → notices k (trigger_alerts env reference failures i alerts s).2 ≡ []
  unfolding trigger_alerts notices
  notices-before i k [] s h = refl
  notices-before i k (x ∷ xs) s h =
      rw (notices-append, notices-other i k x s (omega arith))
        (notices-before (suc i) k xs (trigger_alert env reference failures i x s).1 (omega arith))

  notices-trigger_alerts :
      (i k : ℕ) (alerts : List Alert) (s : Time) {a : Alert}
      → get_elem? alerts k ≡ some a
      → notices (i + k) (trigger_alerts env reference failures i alerts s).2
        ≡ notices (i + k) (trigger_alert env reference failures (i + k) a reference).2
  unfolding trigger_alerts
  notices-trigger_alerts i k [] s h = ground arith
  notices-trigger_alerts i zero (x ∷ xs) s {a} h =
      let same : x ≡ a = cc in
      let sent = (trigger_alert env reference failures i x s).1 in
      rw
        (
          ← same,
          add-zero,
          notices-append,
          notices-before (suc i) i xs sent (omega arith),
          append-nil,
        )
        (notices-own i x s)
  notices-trigger_alerts i (suc k) (x ∷ xs) s h =
      rw (notices-append, notices-other i (i + suc k) x s (omega arith), add-suc, ← suc-add)
        (notices-trigger_alerts (suc i) k xs (trigger_alert env reference failures i x s).1 h)

-- Every provider is configured, and no notification fails.
pub record IsWorking (env : Env) : Type 0 where
  pub is_real : env.mock ≡ false
  pub has_provider : (type : String) → env.has_provider type ≡ true
  pub delivers :
      (i : ℕ) (a : Alert) (is_resolved : Bool) → (env.send i a is_resolved).failed ≡ false

abbrev pub AllWorking : List Env → Type 0
AllWorking [] = Unit
AllWorking (env ∷ envs) = IsWorking env × AllWorking envs

abbrev pub failing : List Env → List Handled
failing envs = map (λ env. (some env, false)) envs

pub SameConfiguration-enabled :
    {a b : Alert} → SameConfiguration a b → is_enabled a ≡ true → is_enabled b ≡ true
unfolding is_enabled
SameConfiguration-enabled same h = ground arith

pub SameConfiguration-trans :
    {a b c : Alert} → SameConfiguration a b → SameConfiguration b c → SameConfiguration a c
SameConfiguration-trans p q = ground arith

step_once :
    (env : Env) (reference : Time) (n k t : ℕ) (b : Alert)
    → env.mock ≡ false
    → env.has_provider b.type ≡ true
    → (env.send k b false).failed ≡ false
    → is_enabled b ≡ true
    → b.minimum_reminder_interval ≡ pos 0
    → b.failure_threshold ≡ pos (suc t)
    → b.triggered ≡ leb (suc t) n
    → ((triggered_alert env reference (suc n) k b).triggered ≡ leb (suc t) (suc n))
      × (notices k (trigger_alert env reference (suc n) k b reference).2 ≡ (
          if leb (suc t) n then [] else if leb (suc t) (suc n) then (initial, false) ∷ [] else []))
unfolding trigger_alert notices
step_once env reference n k t b real has sent enabled reminders threshold triggered = ground arith

pub notices-handle_alerting :
    (env : Env) (ep : Endpoint) (k : ℕ) {b : Alert}
    → get_elem? ep.alerts k ≡ some b
    → notices k (handle_alerting (some env) false ep).1
      ≡ notices k
          (trigger_alert env ep.last_reminder_sent
            (suc ep.number_of_failures_in_a_row)
            k
            b
            ep.last_reminder_sent).2
unfolding handle_alerting
notices-handle_alerting env ep k h =
    let last = ep.last_reminder_sent in
    let failures = suc ep.number_of_failures_in_a_row in
    rw zero-add at (notices-trigger_alerts env last failures 0 k ep.alerts last h)

failures-handle_alerting :
    (env : Env) (ep : Endpoint)
    → (handle_alerting (some env) false ep).0.number_of_failures_in_a_row
      ≡ suc ep.number_of_failures_in_a_row
unfolding handle_alerting
failures-handle_alerting env ep = refl

failures-after :
    (envs : List Env) (ep : Endpoint)
    → ep.number_of_failures_in_a_row ≡ 0
    → (after (failing envs) ep).0.number_of_failures_in_a_row ≡ length envs
unfolding after
failures-after [] ep z = z
failures-after (env ∷ envs) ep z =
    failures-handle_alerting env (after (failing envs) ep).0 ∙ ap suc (failures-after envs ep z)

module _ (ep : Endpoint) (k t : ℕ) (a : Alert) (here : get_elem? ep.alerts k ≡ some a)
    (fresh : ep.number_of_failures_in_a_row ≡ 0) (enabled : is_enabled a ≡ true)
    (silent : a.minimum_reminder_interval ≡ pos 0) (threshold : a.failure_threshold ≡ pos (suc t))
    (closed : a.triggered ≡ false) where
  -- What is known after a number of failures.
  abbrev After : List Env → Type 0
  After envs =
      (b : Alert) × (get_elem? (after (failing envs) ep).0.alerts k ≡ some b)
      × SameConfiguration a b
      × (b.triggered ≡ leb (suc t) (length envs))
      × (notices k (after (failing envs) ep).1
          ≡ (if leb (suc t) (length envs) then (initial, false) ∷ [] else []))

  once_step : (env : Env) (envs : List Env) → IsWorking env → After envs → After (env ∷ envs)
  unfolding after
  once_step env envs w (b, at_k, same, triggered, seen) =
      let before = (after (failing envs) ep).0 in
      let last = before.last_reminder_sent in
      let n = failures-after envs ep fresh in
      let (now, sent) =
        step_once env last (length envs) k t b w.is_real (w.has_provider b.type)
          (w.delivers k b false) (SameConfiguration-enabled same enabled)
          (same.minimum_reminder_interval ∙ silent) (same.failure_threshold ∙ threshold)
          triggered in
      let frame = alert_after-SameConfiguration (some env) false before k b in
      (
        alert_after (some env) false before k b,
        get_elem?-handle_alerting (some env) false before k at_k,
        SameConfiguration-trans same frame,
        (unfold alert_after in (rw n now)),
        rw (notices-append, notices-handle_alerting env before k at_k, n, seen, sent)
            (ground arith),
      )

  once-After : (envs : List Env) → AllWorking envs → After envs
  unfolding after notices
  once-After [] w = (a, here, ground arith, ground arith, ground arith)
  once-After (env ∷ envs) (w, ws) = once_step env envs w (once-After envs ws)

-- An enabled alert that asks for no reminders notifies exactly once over any number of failures in
-- a row, when their number reaches its failure threshold, and never before: from an endpoint
-- without failures so far whose alert is not triggered, with providers that work.
pub initial_once :
    (ep : Endpoint) (k t : ℕ) {a : Alert}
    → get_elem? ep.alerts k ≡ some a
    → ep.number_of_failures_in_a_row ≡ 0
    → is_enabled a ≡ true
    → a.minimum_reminder_interval ≡ pos 0
    → a.failure_threshold ≡ pos (suc t)
    → a.triggered ≡ false
    → (envs : List Env) → AllWorking envs
    → notices k (after (failing envs) ep).1
      ≡ (if leb (suc t) (length envs) then (initial, false) ∷ [] else [])
initial_once ep k t {a} here fresh enabled silent threshold closed envs w =
    (once-After ep k t a here fresh enabled silent threshold closed envs w).4
