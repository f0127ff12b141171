-- ===== src/Watchdog/Registry/Contexts.antt =====
-- internal/watchdog/registry.go: the contexts of the entries. A result is only recorded while the
-- context of its entry is not cancelled.
use go_uptime.Watchdog.Registry.{
  Source, Monitored, Registry, is_cancelled, start, stop, contexts_of, close_registry, Reaches,
  here, then_start, then_stop, then_close,
}
use go_uptime.Common.{ℕ, ◌≡◌, ap, ◌∙◌, String, Bool, true, List, [], ◌∷◌, arith, string_eq}

pub is_cancelled-contexts_of :
    (context : ℕ) (entries : List (String × Monitored)) (cancelled : List ℕ)
    → is_cancelled context cancelled ≡ true
    → is_cancelled context (contexts_of entries cancelled) ≡ true
unfolding is_cancelled contexts_of
is_cancelled-contexts_of context [] cancelled h = h
is_cancelled-contexts_of context ((key, entry) ∷ entries) cancelled h =
    ground (arith, is_cancelled-contexts_of context entries cancelled h)

stop-is_cancelled :
    (context : ℕ) (key : String) (source : Source) (r : Registry)
    → is_cancelled context r.cancelled ≡ true
    → is_cancelled context (stop key source r).0.cancelled ≡ true
unfolding stop is_cancelled
stop-is_cancelled context key source r h = ground arith

start-cancelled :
    (external : Bool) (key : String) (source : Source) (r : Registry)
    → (start external key source r).0.cancelled ≡ r.cancelled
unfolding start
start-cancelled external key source r = ground arith

-- A context that is cancelled stays so.
pub cancelled-Reaches :
    (context : ℕ) {r t : Registry}
    → Reaches r t
    → is_cancelled context r.cancelled ≡ true
    → is_cancelled context t.cancelled ≡ true
unfolding close_registry
cancelled-Reaches context here h = h
cancelled-Reaches context (then_start {s = s} external key source rs) h =
    ap (is_cancelled context) (start-cancelled external key source s)
    ∙ cancelled-Reaches context rs h
cancelled-Reaches context (then_stop {s = s} key source rs) h =
    stop-is_cancelled context key source s (cancelled-Reaches context rs h)
cancelled-Reaches context (then_close {s = s} rs) h = closes s (cancelled-Reaches context rs h)
  where
    closes :
        (s : Registry)
        → is_cancelled context s.cancelled ≡ true
        → is_cancelled context (close_registry s).cancelled ≡ true
    closes s h = is_cancelled-contexts_of context s.entries s.cancelled h
