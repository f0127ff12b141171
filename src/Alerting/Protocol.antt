-- ===== src/Alerting/Protocol.antt =====
-- internal/watchdog/alerting.go: what the provider and the storage see of one alert.
use native.Mathlib.Nat.{add-zero, add-suc, suc-add, zero-add}
use go_uptime.Clock.{Time}
use go_uptime.Alerting.Pointwise.{
  trigger_alert-same, triggered_alert, get_elem?-trigger_alerts, get_elem?-resolve_alerts,
}
use go_uptime.Alerting.{
  Alert, Env, Effect, attempted, upserted, deleted, Notice, initial, reminder, resolved, Endpoint,
  trigger_alert, trigger_alerts, resolve_alert, resolve_alerts, handle_alerting,
}
use go_uptime.Common.{
  ℕ, zero, suc, ◌+◌, ◌<◌, ◌≡◌, ◌≢◌, refl, ap, ◌∙◌, Bool, true, false, Option, none, some, List, [],
  ◌∷◌, ◌++◌, arith, get_elem?, ◌==◌, if◌then◌else◌,
}

-- The life of an alert as its observers see it: `true` while the incident is open. An initial
-- notification is attempted only while it is closed, and opens it if it is delivered; reminders and
-- upserts happen only while it is open; a deletion closes it, and only then the resolution is sent.
-- `none` is a violation.
unfoldable pub notify : Bool → Notice → Bool → Option Bool
notify true initial failed = none
notify false initial failed = some (if failed then false else true)
notify true reminder failed = some true
notify false reminder failed = none
notify true resolved failed = none
notify false resolved failed = some false

unfoldable pub observe : ℕ → Bool → Effect → Option Bool
unfolding notify
observe k is_open (attempted j notice failed) =
    if j == k then notify is_open notice failed else some is_open
observe k is_open (upserted j successes key) =
    if j == k then (if is_open then some true else none) else some is_open
observe k is_open (deleted j) =
    if j == k then (if is_open then some false else none) else some is_open

unfoldable pub follow : ℕ → Option Bool → List Effect → Option Bool
follow k none effects = none
follow k (some is_open) [] = some is_open
follow k (some is_open) (x ∷ xs) = follow k (observe k is_open x) xs

pub follow-append :
    (k : ℕ) (s : Option Bool) (xs ys : List Effect)
    → follow k s (xs ++ ys) ≡ follow k (follow k s xs) ys
unfolding follow
follow-append k none xs ys = refl
follow-append k (some b) [] ys = refl
follow-append k (some b) (x ∷ xs) ys = follow-append k (observe k b x) xs ys

follow-other_trigger :
    (env : Env) (reference : Time) (failures i k : ℕ) (a : Alert) (s : Time) (b : Bool)
    → i ≢ k
    → follow k (some b) (trigger_alert env reference failures i a s).2 ≡ some b
unfolding trigger_alert follow observe
follow-other_trigger env reference failures i k a s b h = ground arith

follow-own_trigger :
    (env : Env) (reference : Time) (failures i : ℕ) (a : Alert) (s : Time)
    → follow i (some a.triggered) (trigger_alert env reference failures i a s).2
      ≡ some (trigger_alert env reference failures i a s).0.triggered
unfolding trigger_alert follow observe
follow-own_trigger env reference failures i a s = ground arith

follow-other_resolve :
    (env : Env) (successes i k : ℕ) (a : Alert) (b : Bool)
    → i ≢ k
    → follow k (some b) (resolve_alert env successes i a).1 ≡ some b
unfolding resolve_alert follow observe
follow-other_resolve env successes i k a b h = ground arith

follow-own_resolve :
    (env : Env) (successes i : ℕ) (a : Alert)
    → follow i (some a.triggered) (resolve_alert env successes i a).1
      ≡ some (resolve_alert env successes i a).0.triggered
unfolding resolve_alert follow observe
follow-own_resolve env successes i a = ground arith

-- The loops leave alone what stands before them.
follow-before_trigger :
    (env : Env) (reference : Time) (failures i k : ℕ) (alerts : List Alert) (s : Time) (b : Bool)
    → k < i
    → follow k (some b) (trigger_alerts env reference failures i alerts s).2 ≡ some b
unfolding trigger_alerts follow
follow-before_trigger env reference failures i k [] s b h = refl
follow-before_trigger env reference failures i k (x ∷ xs) s b h =
    let sent = (trigger_alert env reference failures i x s).1 in
    rw (follow-append, follow-other_trigger env reference failures i k x s b (omega arith))
      (follow-before_trigger env reference failures (suc i) k xs sent b (omega arith))

follow-before_resolve :
    (env : Env) (successes i k : ℕ) (alerts : List Alert) (b : Bool)
    → k < i
    → follow k (some b) (resolve_alerts env successes i alerts).1 ≡ some b
unfolding resolve_alerts follow
follow-before_resolve env successes i k [] b h = refl
follow-before_resolve env successes i k (x ∷ xs) b h =
    rw (follow-append, follow-other_resolve env successes i k x b (omega arith))
      (follow-before_resolve env successes (suc i) k xs b (omega arith))

follow-trigger_alerts :
    (env : Env) (reference : Time) (failures i k : ℕ) (alerts : List Alert) (s : Time) {a : Alert}
    → get_elem? alerts k ≡ some a
    → follow (i + k) (some a.triggered) (trigger_alerts env reference failures i alerts s).2
      ≡ some (triggered_alert env reference failures (i + k) a).triggered
unfolding trigger_alerts follow
follow-trigger_alerts env reference failures i k [] s h = ground arith
follow-trigger_alerts env reference failures i zero (x ∷ xs) s {a} h =
    let sent = (trigger_alert env reference failures i x s).1 in
    let own = follow-own_trigger env reference failures i x s in
    let same : x ≡ a = cc in
    rw (← same, add-zero, follow-append, own)
      (follow-before_trigger env reference failures (suc i) i xs sent
          (trigger_alert env reference failures i x s).0.triggered (omega arith)
        ∙ ap (λ c. some c.triggered) (trigger_alert-same env reference failures i x s reference))
follow-trigger_alerts env reference failures i (suc k) (x ∷ xs) s {a} h =
    let sent = (trigger_alert env reference failures i x s).1 in
    rw
      (
        follow-append,
        follow-other_trigger env reference failures i (i + suc k) x s a.triggered (omega arith),
        add-suc,
        ← suc-add,
      )
      (follow-trigger_alerts env reference failures (suc i) k xs sent h)

follow-resolve_alerts :
    (env : Env) (successes i k : ℕ) (alerts : List Alert) {a : Alert}
    → get_elem? alerts k ≡ some a
    → follow (i + k) (some a.triggered) (resolve_alerts env successes i alerts).1
      ≡ some (resolve_alert env successes (i + k) a).0.triggered
unfolding resolve_alerts follow
follow-resolve_alerts env successes i k [] h = ground arith
follow-resolve_alerts env successes i zero (x ∷ xs) {a} h =
    let same : x ≡ a = cc in
    rw (← same, add-zero, follow-append, follow-own_resolve env successes i x)
      (follow-before_resolve env successes (suc i) i xs
        (resolve_alert env successes i x).0.triggered (omega arith))
follow-resolve_alerts env successes i (suc k) (x ∷ xs) {a} h =
    rw
      (
        follow-append,
        follow-other_resolve env successes i (i + suc k) x a.triggered (omega arith),
        add-suc,
        ← suc-add,
      )
      (follow-resolve_alerts env successes (suc i) k xs h)

-- The alert at a position after the handler has seen one result.
unfoldable pub alert_after : Option Env → Bool → Endpoint → ℕ → Alert → Alert
alert_after none success ep k a = a
alert_after (some env) true ep k a = (resolve_alert env (suc ep.number_of_successes_in_a_row) k a).0
alert_after (some env) false ep k a =
    triggered_alert env ep.last_reminder_sent (suc ep.number_of_failures_in_a_row) k a

pub get_elem?-handle_alerting :
    (env : Option Env) (success : Bool) (ep : Endpoint) (k : ℕ) {a : Alert}
    → get_elem? ep.alerts k ≡ some a
    → get_elem? (handle_alerting env success ep).0.alerts k ≡ some (alert_after env success ep k a)
unfolding handle_alerting alert_after
get_elem?-handle_alerting none success ep k h = h
get_elem?-handle_alerting (some env) true ep k h =
    rw zero-add at
      (get_elem?-resolve_alerts env (suc ep.number_of_successes_in_a_row) 0 k ep.alerts h)
get_elem?-handle_alerting (some env) false ep k h =
    let failures = suc ep.number_of_failures_in_a_row in
    let last = ep.last_reminder_sent in
    rw zero-add at (get_elem?-trigger_alerts env last failures 0 k ep.alerts last h)

pub follow-handle_alerting :
    (env : Option Env) (success : Bool) (ep : Endpoint) (k : ℕ) {a : Alert}
    → get_elem? ep.alerts k ≡ some a
    → follow k (some a.triggered) (handle_alerting env success ep).1
      ≡ some (alert_after env success ep k a).triggered
unfolding handle_alerting alert_after follow
follow-handle_alerting none success ep k h = refl
follow-handle_alerting (some env) true ep k h =
    rw zero-add at (follow-resolve_alerts env (suc ep.number_of_successes_in_a_row) 0 k ep.alerts h)
follow-handle_alerting (some env) false ep k h =
    let failures = suc ep.number_of_failures_in_a_row in
    let last = ep.last_reminder_sent in
    rw zero-add at (follow-trigger_alerts env last failures 0 k ep.alerts last h)
