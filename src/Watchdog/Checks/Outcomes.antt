-- ===== src/Watchdog/Checks/Outcomes.antt =====
-- internal/watchdog/push.go: a result that arrives after its endpoint was stopped.
use go_uptime.Watchdog.Registry.Listed.{Left-Reaches}
use go_uptime.Watchdog.Registry.Contexts.{cancelled-Reaches}
use go_uptime.Watchdog.Registry.Invariant.{is_cancelled-own_stop}
use go_uptime.Watchdog.Registry.{
  Source, then_stop, endpoint_not_monitored, Monitored, Registry, is_cancelled, same_source, stop,
  Reaches,
}
use go_uptime.Watchdog.Checks.{Target, refused, submit_entry, submit_endpoint_result}
use go_uptime.Watchdog.{Pushes, Context}
use go_uptime.Result.{Result}
use go_uptime.Common.{◌≡◌, ap, ◌∙◌, String, true, some, inl, inr, lookup, string_eq}

-- A result that was submitted while its endpoint was monitored, and whose turn comes after the
-- endpoint was stopped for its source, is refused: nothing is stored, announced or alerted, and the
-- pushes and the endpoint stay as they are, whatever calls came between the submission and the stop
-- and between the stop and the turn.
pub submit-stopped :
    (c : Context) (key : String) (result : Result) (target : Target) (p : Pushes) (source : Source)
    {found between locked : Registry} {e : Monitored}
    → Reaches found between
    → lookup key found.entries ≡ some e
    → same_source e.source source ≡ true
    → Reaches (stop key source between).0 locked
    → submit_endpoint_result c key result target p (some found) locked
      ≡ refused target p endpoint_not_monitored
unfolding submit_endpoint_result
submit-stopped c key result target p source {found = found} {between = between} {locked = locked}
      {e = e} before here same later =
    let gone : is_cancelled e.context locked.cancelled ≡ true =
      cancelled-Reaches e.context later (elim (Left-Reaches key e before here) [
        | inl listed ↦ is_cancelled-own_stop key source between e listed same
        | inr cancelled ↦ cancelled-Reaches e.context (then_stop key source Reaches.here) cancelled
      ]) in
    ap (submit_entry c key result target p locked.cancelled) here ∙ refuse gone
  where
    refuse :
        is_cancelled e.context locked.cancelled ≡ true
        → submit_entry c key result target p locked.cancelled (some e)
          ≡ refused target p endpoint_not_monitored
    refuse h = rw h
