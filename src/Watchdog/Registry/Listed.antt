-- ===== src/Watchdog/Registry/Listed.antt =====
-- internal/watchdog/registry.go: an entry that is found, after any calls.
use mathlib.Core.Path.{subst}
use go_uptime.Watchdog.Registry.Contexts.{cancelled-Reaches}
use go_uptime.Watchdog.Registry.Invariant.{is_cancelled-own_stop}
use go_uptime.Watchdog.Registry.{
  Source, Monitored, Registry, is_cancelled, same_source, start, stop, close_registry, Reaches,
  here, then_start, then_stop, then_close,
}
use go_uptime.Common.{
  ◌≡◌, refl, sym, ap, ◌∙◌, String, Bool, true, false, some, ◌⊎◌, inl, inr, arith, lookup,
  lookup-insert, lookup-delete, string_eq, str_eq, str_eq_iff, Bool-cases,
}

lookup-start :
    (key other : String) (external : Bool) (source : Source) (r : Registry) (e : Monitored)
    → lookup key r.entries ≡ some e
    → lookup key (start external other source r).0.entries ≡ some e
unfolding start
lookup-start key other external source r e found = ground (
  arith,
  lookup-insert other key (record { external = external; source = source; context = r.contexts })
      r.entries,
  (str_eq_iff other key).0,
  λ (p : other ≡ key). ap (λ (k : String). lookup k r.entries) p,
)

-- An entry is listed, or its context is cancelled.
abbrev Left : String → Monitored → Registry → Type 0
Left key e r = (lookup key r.entries ≡ some e) ⊎ (is_cancelled e.context r.cancelled ≡ true)

stop-other :
    (key other : String) (source : Source) (r : Registry)
    → str_eq other key ≡ false
    → lookup key (stop other source r).0.entries ≡ lookup key r.entries
unfolding stop
stop-other key other source r apart = ground (arith, lookup-delete other key r.entries)

stop-same :
    (key : String) (source : Source) (r : Registry) (e : Monitored)
    → lookup key r.entries ≡ some e
    → same_source e.source source ≡ false
    → (stop key source r).0.entries ≡ r.entries
unfolding stop
stop-same key source r e found apart = rw found (rw apart refl)

Left-stop :
    (key other : String) (source : Source) (r : Registry) (e : Monitored)
    → lookup key r.entries ≡ some e
    → Left key e (stop other source r).0
Left-stop key other source r e found = elim (Bool-cases (str_eq other key)) [
  | inl one ↦
      subst (λ (k : String). Left key e (stop k source r).0) (sym ((str_eq_iff other key).0 one))
        (elim (Bool-cases (same_source e.source source)) [
          | inl same ↦ inr (is_cancelled-own_stop key source r e found same)
          | inr apart ↦ inl (ap (lookup key) (stop-same key source r e found apart) ∙ found)
        ])
  | inr two ↦ inl (stop-other key other source r two ∙ found)
]

-- Whatever calls follow, an entry that was found is still listed, or its context is cancelled.
pub Left-Reaches :
    (key : String) (e : Monitored) {r t : Registry}
    → Reaches r t
    → lookup key r.entries ≡ some e
    → (lookup key t.entries ≡ some e) ⊎ (is_cancelled e.context t.cancelled ≡ true)
unfolding close_registry
Left-Reaches key e here found = inl found
Left-Reaches key e (then_start {s = s} external other source rs) found =
    elim (Left-Reaches key e rs found) [
      | inl listed ↦ inl (lookup-start key other external source s e listed)
      | inr gone ↦
          inr (cancelled-Reaches e.context (then_start {s = s} external other source here) gone)
    ]
Left-Reaches key e (then_stop {s = s} other source rs) found = elim (Left-Reaches key e rs found) [
  | inl listed ↦ Left-stop key other source s e listed
  | inr gone ↦ inr (cancelled-Reaches e.context (then_stop {s = s} other source here) gone)
]
Left-Reaches key e (then_close {s = s} rs) found = elim (Left-Reaches key e rs found) [
  | inl listed ↦ inl listed
  | inr gone ↦ inr (cancelled-Reaches e.context (then_close {s = s} here) gone)
]
