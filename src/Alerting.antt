-- ===== src/Alerting.antt =====
-- internal/alerting/alert/alert.go and internal/watchdog/alerting.go: when a result of an endpoint
-- triggers, repeats and resolves its alerts. A method that changes an object returns the new one,
-- with the calls that it makes to the provider and to the storage, in order.
pub mod Pointwise
pub mod Protocol
pub mod History
pub mod Once
pub mod Resolution
pub mod Restore
mod Examples
use Prim.Native.Char.{code}
use go_uptime.Clock.{Time, Duration, minute, time_sub}
use go_uptime.Common.{
  ℕ, suc, ◌*◌, String, Bool, true, false, not, ◌&&◌, ◌||◌, Option, none, some, List, [], ◌∷◌, ◌++◌,
  ◌==◌, if◌then◌else◌,
}
use go_uptime.Common.Int.{ℤ, pos, ltb_ℤ, leb_ℤ, eq_ℤ}

-- `ProviderOverride` is left out: only the providers read it.
pub record Alert : Type 0 where
  pub type : String
  pub enabled : Option Bool
  pub failure_threshold : ℤ
  pub success_threshold : ℤ
  pub minimum_reminder_interval : Duration
  pub description : Option String
  pub send_on_resolved : Option Bool
  pub resolve_key : String
  pub triggered : Bool

pub data AlertError : Type 0 where
  invalid_description invalid_minimum_reminder_interval : AlertError

unfoldable pub get_description : Alert → String
get_description alert = elim alert.description [ none ↦ "" | some text ↦ text ]

unfoldable pub is_enabled : Alert → Bool
is_enabled alert = elim alert.enabled [ none ↦ true | some value ↦ value ]

unfoldable pub is_sending_on_resolved : Alert → Bool
is_sending_on_resolved alert = elim alert.send_on_resolved [ none ↦ false | some value ↦ value ]

-- `strings.ContainsAny(s, "\"\\")`
unfoldable pub contains_quote : String → Bool
contains_quote String.[] = false
contains_quote (String.◌∷◌ c s) = code c == 34 || code c == 92 || contains_quote s

unfoldable pub with_failure_default : Alert → Alert
with_failure_default alert =
    if leb_ℤ alert.failure_threshold (pos 0)
    then record alert { failure_threshold = pos 3 }
    else alert

unfoldable pub with_success_default : Alert → Alert
with_success_default alert =
    if leb_ℤ alert.success_threshold (pos 0)
    then record alert { success_threshold = pos 2 }
    else alert

-- The alert is changed also where an error is returned.
unfoldable pub validate_and_set_defaults : Alert → Alert × Option AlertError
unfolding with_failure_default with_success_default get_description
validate_and_set_defaults alert =
    let a = with_success_default (with_failure_default alert) in
    let interval = a.minimum_reminder_interval in
    if not (eq_ℤ interval (pos 0)) && ltb_ℤ interval (pos (5 * minute))
    then (a, some invalid_minimum_reminder_interval)
    else if contains_quote (get_description a)
    then (a, some invalid_description)
    else (a, none)

-- What `AlertProvider.Send` does: whether it returns an error, and the resolve key that it leaves
-- in the alert.
pub record SendOutcome : Type 0 where
  pub failed : Bool
  pub resolve_key : String

-- What the handler reads from outside: the providers of the alerting configuration, their answers
-- and the clock, by the position of the alert in the loop, and the two environment variables.
pub record Env : Type 0 where
  pub has_provider : String → Bool
  pub send : ℕ → Alert → Bool → SendOutcome
  pub checked_at : ℕ → Time
  pub sent_at : ℕ → Time
  pub mock : Bool
  pub mock_error : Bool

pub data Notice : Type 0 where
  initial reminder resolved : Notice

-- `attempted`: a notification, and whether it failed. `upserted` and `deleted`: the calls of the
-- storage for the triggered alert at a position.
pub data Effect : Type 0 where
  attempted : ℕ → Notice → Bool → Effect
  upserted : ℕ → ℕ → String → Effect
  deleted : ℕ → Effect

pub record Endpoint : Type 0 where
  pub name : String
  pub group : String
  pub enabled : Option Bool
  pub alerts : List Alert
  pub number_of_failures_in_a_row : ℕ
  pub number_of_successes_in_a_row : ℕ
  pub last_reminder_sent : Time

-- The notification of a triggered alert, mocked or not: whether it failed, and the alert after it.
unfoldable pub deliver : Env → ℕ → Alert → Bool × Alert
deliver env i alert =
    if env.mock
    then (env.mock_error, alert)
    else (let o = env.send i alert false in
        (o.failed, record alert { resolve_key = o.resolve_key }))

unfoldable pub send_triggered : Env → ℕ → Bool → Alert → Time → Alert × Time × List Effect
unfolding deliver
send_triggered env i is_initial alert last_sent =
    let (failed, a) = deliver env i alert in
    let notice = if is_initial then initial else reminder in
    let b = if is_initial then record a { triggered = true } else a in
    if failed
    then (a, last_sent, attempted i notice true ∷ [])
    else (b, env.sent_at i, attempted i notice false ∷ upserted i 0 b.resolve_key ∷ [])

-- One round of the loop of `handleAlertsToTrigger`; `reference` is its `lastReminderSent`.
unfoldable pub trigger_alert : Env → Time → ℕ → ℕ → Alert → Time → Alert × Time × List Effect
unfolding send_triggered is_enabled time_sub
trigger_alert env reference failures i alert last_sent =
    let send_initial = not alert.triggered in
    let send_reminder =
      alert.triggered
      && ltb_ℤ (pos 0) alert.minimum_reminder_interval
      && leb_ℤ alert.minimum_reminder_interval (time_sub (env.checked_at i) reference) in
    if not (is_enabled alert) || ltb_ℤ (pos failures) alert.failure_threshold
    then (alert, last_sent, [])
    else if not send_initial && not send_reminder
    then (alert, last_sent, [])
    else if env.has_provider alert.type
    then send_triggered env i send_initial alert last_sent
    else (alert, last_sent, [])

unfoldable pub trigger_alerts :
    Env → Time → ℕ → ℕ → List Alert → Time → List Alert × Time × List Effect
trigger_alerts env reference failures i [] last_sent = ([], last_sent, [])
trigger_alerts env reference failures i (a ∷ alerts) last_sent =
    let (b, sent, effects) = trigger_alert env reference failures i a last_sent in
    let (bs, sent', effects') = trigger_alerts env reference failures (suc i) alerts sent in
    (b ∷ bs, sent', effects ++ effects')

unfoldable pub handle_alerts_to_trigger : Env → Endpoint → Endpoint × List Effect
unfolding trigger_alerts
handle_alerts_to_trigger env ep =
    let failures = suc ep.number_of_failures_in_a_row in
    let reference = ep.last_reminder_sent in
    let (alerts, sent, effects) = trigger_alerts env reference failures 0 ep.alerts reference in
    (
      record ep {
        number_of_successes_in_a_row = 0;
        number_of_failures_in_a_row = failures;
        alerts = alerts;
        last_reminder_sent = sent;
      },
      effects,
    )

-- `alertProvider.Send(ep, alert, result, true)`, where there is a provider; its error is ignored.
unfoldable pub send_resolved : Env → ℕ → Alert → Alert × List Effect
send_resolved env i alert =
    let o = env.send i alert true in
    if env.has_provider alert.type
    then (record alert { resolve_key = o.resolve_key }, attempted i resolved o.failed ∷ [])
    else (alert, [])

-- One round of the loop of `handleAlertsToResolve`.
unfoldable pub resolve_alert : Env → ℕ → ℕ → Alert → Alert × List Effect
unfolding send_resolved is_enabled is_sending_on_resolved
resolve_alert env successes i alert =
    let is_still_below = ltb_ℤ (pos successes) alert.success_threshold in
    let persisted =
      if is_still_below && is_enabled alert && alert.triggered
      then upserted i successes alert.resolve_key ∷ []
      else [] in
    let a = record alert { triggered = false } in
    let (b, effects) = send_resolved env i a in
    if not (is_enabled alert) || not alert.triggered || is_still_below
    then (alert, persisted)
    else if not (is_sending_on_resolved a)
    then (a, persisted ++ deleted i ∷ [])
    else (b, persisted ++ deleted i ∷ effects)

unfoldable pub resolve_alerts : Env → ℕ → ℕ → List Alert → List Alert × List Effect
resolve_alerts env successes i [] = ([], [])
resolve_alerts env successes i (a ∷ alerts) =
    let (b, effects) = resolve_alert env successes i a in
    let (bs, effects') = resolve_alerts env successes (suc i) alerts in
    (b ∷ bs, effects ++ effects')

unfoldable pub handle_alerts_to_resolve : Env → Endpoint → Endpoint × List Effect
unfolding resolve_alerts
handle_alerts_to_resolve env ep =
    let successes = suc ep.number_of_successes_in_a_row in
    let (alerts, effects) = resolve_alerts env successes 0 ep.alerts in
    (
      record ep {
        number_of_successes_in_a_row = successes;
        number_of_failures_in_a_row = 0;
        alerts = alerts;
      },
      effects,
    )

-- `HandleAlerting`; `none` is a nil alerting configuration.
unfoldable pub handle_alerting : Option Env → Bool → Endpoint → Endpoint × List Effect
unfolding handle_alerts_to_trigger handle_alerts_to_resolve
handle_alerting none success ep = (ep, [])
handle_alerting (some env) true ep = handle_alerts_to_resolve env ep
handle_alerting (some env) false ep = handle_alerts_to_trigger env ep
