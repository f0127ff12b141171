-- ===== src/Watchdog/Checks.antt =====
-- internal/watchdog/endpoint.go, and SubmitEndpointResult of push.go: the results of the endpoints
-- that the program checks itself.
pub mod Outcomes
use go_uptime.Watchdog.Registry.{
  MonitoringError, monitoring_stopped, endpoint_not_monitored, Monitored, Registry, is_cancelled,
}
use go_uptime.Watchdog.{
  ExternalEndpoint, Pushes, Context, Action, stored, announced, alerted,
  process_external_endpoint_result,
}
use go_uptime.Alerting.{Endpoint, handle_alerting}
use go_uptime.Result.{Result}
use go_uptime.Common.{
  ℕ, String, Bool, true, false, not, ◌&&◌, ◌||◌, Option, none, some, List, [], ◌∷◌, ◌++◌,
  if◌then◌else◌, lookup, string_eq,
}

-- `UpdateEndpointStatus`: a storage that fails is only logged, and nothing is announced.
unfoldable pub update_endpoint_status : Context → String → Result → List Action
update_endpoint_status c key result =
    if c.storage_fails then [] else stored result ∷ announced key ∷ []

-- `executeEndpoint`, with the result of the check: `may_run` is whether the semaphore was acquired
-- and there is connectivity, `cancelled` whether the context is cancelled after the check. The
-- alerts are handled even where the storage fails.
unfoldable pub execute_endpoint :
    Context → Bool → Bool → String → Result → Endpoint → Endpoint × List Action
unfolding update_endpoint_status
execute_endpoint c may_run cancelled key result ep =
    let (after, effects) = handle_alerting c.alerting result.success ep in
    let persisted = update_endpoint_status c key result in
    if not may_run || cancelled
    then (ep, [])
    else if c.under_maintenance
    then (ep, persisted)
    else (after, persisted ++ alerted effects ∷ [])

pub data SubmitError : Type 0 where
  not_submitted : MonitoringError → SubmitError
  storage_failed : SubmitError

-- The monitored endpoint of an entry.
pub data Target : Type 0 where
  checked : Endpoint → Target
  pushed : ExternalEndpoint → Target

pub record Submitted : Type 0 where
  pub target : Target
  pub pushes : Pushes
  pub actions : List Action
  pub error : Option SubmitError

unfoldable pub submit_checked : Context → String → Result → Endpoint → Pushes → Submitted
submit_checked c key result ep p =
    let (after, effects) = handle_alerting c.alerting result.success ep in
    if c.storage_fails
    then record { target = checked ep; pushes = p; actions = []; error = some storage_failed }
    else if c.under_maintenance || result.pending
    then record {
      target = checked ep;
      pushes = p;
      actions = stored result ∷ announced key ∷ [];
      error = none;
    }
    else record {
      target = checked after;
      pushes = p;
      actions = stored result ∷ announced key ∷ alerted effects ∷ [];
      error = none;
    }

unfoldable pub submit_pushed : Context → Result → ExternalEndpoint → Pushes → Submitted
submit_pushed c result ee p =
    let done = process_external_endpoint_result c true ee result p in
    record {
      target = pushed done.endpoint;
      pushes = done.pushes;
      actions = done.actions;
      error = if done.failed then some storage_failed else none;
    }

abbrev pub refused : Target → Pushes → MonitoringError → Submitted
refused target p error = record {
  target = target;
  pushes = p;
  actions = [];
  error = some (not_submitted error);
}

abbrev pub submit_to : Context → String → Result → Target → Pushes → Submitted
submit_to c key result (checked ep) p = submit_checked c key result ep p
submit_to c key result (pushed ee) p = submit_pushed c result ee p

abbrev pub submit_entry :
    Context → String → Result → Target → Pushes → List ℕ → Option Monitored → Submitted
submit_entry c key result target p cancelled none = refused target p endpoint_not_monitored
submit_entry c key result target p cancelled (some entry) =
    if is_cancelled entry.context cancelled
    then refused target p endpoint_not_monitored
    else submit_to c key result target p

-- `SubmitEndpointResult`: `found` is the registry when the entry of the key is looked up, with the
-- endpoint of that entry, and `locked` the one when the lock of the key is held.
unfoldable pub submit_endpoint_result :
    Context → String → Result → Target → Pushes → Option Registry → Registry → Submitted
unfolding submit_checked submit_pushed
submit_endpoint_result c key result target p none locked = refused target p monitoring_stopped
submit_endpoint_result c key result target p (some found) locked =
    submit_entry c key result target p locked.cancelled (lookup key found.entries)
