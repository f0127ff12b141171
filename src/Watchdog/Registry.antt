-- ===== src/Watchdog/Registry.antt =====
-- internal/watchdog/registry.go, and startExternal of push.go: the endpoints that are monitored,
-- each by a goroutine with a context of its own.
pub mod Contexts
mod Entries
pub mod Invariant
pub mod Listed
use go_uptime.Common.{
  ℕ, zero, suc, String, Bool, true, false, Option, none, some, List, [], ◌∷◌, ◌==◌, ◌||◌,
  if◌then◌else◌, lookup, insert, delete, string_eq,
}

pub data Source : Type 0 where
  config admin : Source

pub data MonitoringError : Type 0 where
  monitoring_stopped endpoint_already_monitored endpoint_not_monitored : MonitoringError

-- `monitoredEndpoint`: `external` is whether the heartbeat of an external endpoint is monitored;
-- `context` stands for the context made for the entry.
pub record Monitored : Type 0 where
  pub external : Bool
  pub source : Source
  pub context : ℕ

-- `endpointRegistry`, with the contexts made so far and those that are cancelled.
pub record Registry : Type 0 where
  pub entries : List (String × Monitored)
  pub closed : Bool
  pub contexts : ℕ
  pub cancelled : List ℕ

unfoldable pub new_endpoint_registry : Registry
new_endpoint_registry = record { entries = []; closed = false; contexts = 0; cancelled = [] }

-- `ctx.Err() != nil`
unfoldable pub is_cancelled : ℕ → List ℕ → Bool
is_cancelled context [] = false
is_cancelled context (c ∷ cancelled) = c == context || is_cancelled context cancelled

abbrev pub same_source : Source → Source → Bool
same_source config config = true
same_source admin admin = true
same_source a b = false

abbrev pub start_new :
    Bool → String → Source → Registry → Option Monitored → Registry × Option MonitoringError
start_new external key source r (some entry) = (r, some endpoint_already_monitored)
start_new external key source r none = (
  record r {
    entries =
        insert key (record { external = external; source = source; context = r.contexts })
          r.entries;
    contexts = suc r.contexts;
  },
  none,
)

-- `start` and `startExternal`
unfoldable pub start : Bool → String → Source → Registry → Registry × Option MonitoringError
start external key source r =
    if r.closed
    then (r, some monitoring_stopped)
    else start_new external key source r (lookup key r.entries)

abbrev pub stop_entry :
    String → Source → Registry → Option Monitored → Registry × Option MonitoringError
stop_entry key source r none = (r, some endpoint_not_monitored)
stop_entry key source r (some entry) =
    if same_source entry.source source
    then (
      record r { entries = delete key r.entries; cancelled = entry.context ∷ r.cancelled },
      none,
    )
    else (r, some endpoint_not_monitored)

-- `stop`: the entry is removed and its context is cancelled. The waits that follow change nothing.
unfoldable pub stop : String → Source → Registry → Registry × Option MonitoringError
stop key source r = stop_entry key source r (lookup key r.entries)

unfoldable pub contexts_of : List (String × Monitored) → List ℕ → List ℕ
contexts_of [] cancelled = cancelled
contexts_of ((key, entry) ∷ entries) cancelled = entry.context ∷ contexts_of entries cancelled

-- `close`
unfoldable pub close_registry : Registry → Registry
unfolding contexts_of
close_registry r = record r { closed = true; cancelled = contexts_of r.entries r.cancelled }

unfoldable pub is_monitored : String → Registry → Bool
is_monitored key r = elim (lookup key r.entries) [ none ↦ false | some entry ↦ true ]

-- `StartEndpoint`, `StopEndpoint` and `RestartEndpoint`; `none` is a registry that is not set.
unfoldable pub start_endpoint :
    Bool → String → Source → Option Registry → Option Registry × Option MonitoringError
start_endpoint external key source none = (none, some monitoring_stopped)
start_endpoint external key source (some r) =
    let (after, error) = start external key source r in (some after, error)

unfoldable pub stop_endpoint :
    String → Source → Option Registry → Option Registry × Option MonitoringError
stop_endpoint key source none = (none, some monitoring_stopped)
stop_endpoint key source (some r) = let (after, error) = stop key source r in (some after, error)

abbrev pub start_after_stop :
    String
    → Source
    → Option Registry × Option MonitoringError
    → Option Registry × Option MonitoringError
start_after_stop key source (r, some error) = (r, some error)
start_after_stop key source (r, none) = start_endpoint false key source r

unfoldable pub restart_endpoint :
    String → Source → Option Registry → Option Registry × Option MonitoringError
unfolding stop_endpoint start_endpoint
restart_endpoint key source r = start_after_stop key source (stop_endpoint key source r)

-- What other goroutines may do to the registry, one call after the other.
pub data Reaches : Registry → Registry → Type 0 where
  here : {r : Registry} → Reaches r r
  then_start :
      {r s : Registry} (external : Bool) (key : String) (source : Source)
      → Reaches r s
      → Reaches r (start external key source s).0
  then_stop :
      {r s : Registry} (key : String) (source : Source)
      → Reaches r s
      → Reaches r (stop key source s).0
  then_close : {r s : Registry} → Reaches r s → Reaches r (close_registry s)
