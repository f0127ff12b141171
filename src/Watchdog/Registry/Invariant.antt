-- ===== src/Watchdog/Registry/Invariant.antt =====
-- internal/watchdog/registry.go: what holds in every registry that the calls can reach.
use mathlib.Core.Path.{subst}
use go_uptime.Watchdog.Registry.Contexts.{cancelled-Reaches}
use go_uptime.Watchdog.Registry.{
  Source, Monitored, Registry, new_endpoint_registry, is_cancelled, same_source, start_new, start,
  stop, close_registry, Reaches, here, then_start, then_stop, then_close,
}
use go_uptime.Common.{
  ℕ, suc, ◌<◌, ◌≡◌, ◌≢◌, refl, sym, ap, ◌∙◌, String, Option, Bool, true, false, none, some, ◌∷◌,
  arith, lookup, delete, string_eq, Option-cases, Bool-cases, inl, inr,
}
use go_uptime.Watchdog.Registry.Entries.{
  AllKnown, AllKnown-lookup, AllKnown-suc, AllKnown-insert, AllKnown-delete, is_cancelled-entry,
  cancelled-contexts_of, lookup-delete-some, is_cancelled-other, lookup-insert-some,
  is_cancelled-own,
}

record IsConsistent (r : Registry) : Type 0 where
  all_known : AllKnown r.contexts r.entries
  cancelled_known : (c : ℕ) → is_cancelled c r.cancelled ≡ true → c < r.contexts
  alive :
      (key : String) (e : Monitored)
      → lookup key r.entries ≡ some e
      → is_cancelled e.context r.cancelled ≡ r.closed
  apart :
      (key j : String) (e f : Monitored)
      → lookup key r.entries ≡ some e
      → lookup j r.entries ≡ some f
      → e.context ≡ f.context
      → key ≡ j

new-IsConsistent : IsConsistent new_endpoint_registry
unfolding new_endpoint_registry lookup is_cancelled
new-IsConsistent = record {
  all_known = tt;
  cancelled_known = λ c h. absurd cc;
  alive = λ key e h. absurd cc;
  apart = λ key j e f h k p. absurd cc;
}

close-IsConsistent : (r : Registry) → IsConsistent r → IsConsistent (close_registry r)
unfolding close_registry
close-IsConsistent r ok = record {
  all_known = ok.all_known;
  cancelled_known = λ c h.
      cancelled-contexts_of r.contexts c r.entries r.cancelled ok.all_known h
        (ok.cancelled_known c);
  alive = λ key e h. is_cancelled-entry key r.entries r.cancelled e h;
  apart = ok.apart;
}

stopped :
    (r : Registry) (key : String) (e : Monitored)
    → IsConsistent r
    → lookup key r.entries ≡ some e
    → IsConsistent
        (record r { entries = delete key r.entries; cancelled = e.context ∷ r.cancelled })
stopped r key e ok found = record {
  all_known = AllKnown-delete r.contexts key r.entries ok.all_known;
  cancelled_known =
      unfold is_cancelled in
      λ c h. ground (
        arith,
        AllKnown-lookup r.contexts key r.entries e ok.all_known found,
        ok.cancelled_known c,
      );
  alive = λ j f h.
      let (before, other) = lookup-delete-some key j r.entries f h in
      is_cancelled-other e.context f.context r.cancelled
        (λ p. other (ok.apart key j e f found before p))
      ∙ ok.alive j f before;
  apart = λ j k f g h i p.
      let (before, other) = lookup-delete-some key j r.entries f h in
      let (before', other') = lookup-delete-some key k r.entries g i in
      ok.apart j k f g before before' p;
}

stop-IsConsistent :
    (key : String) (source : Source) (r : Registry)
    → IsConsistent r
    → IsConsistent (stop key source r).0
unfolding stop
stop-IsConsistent key source r ok = elim (Option-cases (lookup key r.entries)) [
  | inl absent ↦ rw absent ok
  | inr (e, found) ↦ rw found (elim (Bool-cases (same_source e.source source)) [
    | inl same ↦ rw same (stopped r key e ok found)
    | inr other ↦ rw other ok
  ])
]

fresh_context : (r : Registry) → IsConsistent r → is_cancelled r.contexts r.cancelled ≡ false
fresh_context r ok = elim (Bool-cases (is_cancelled r.contexts r.cancelled)) [
  | inl h ↦ let known = ok.cancelled_known r.contexts h in absurd (omega arith)
  | inr h ↦ h
]

started :
    (r : Registry) (key : String) (external : Bool) (source : Source)
    → IsConsistent r
    → r.closed ≡ false
    → IsConsistent (start_new external key source r none).0
started r key external source ok open_ =
    let e : Monitored = record { external = external; source = source; context = r.contexts } in
    record {
      all_known =
          AllKnown-insert (suc r.contexts) key e r.entries
            (AllKnown-suc r.contexts r.entries ok.all_known) (omega arith);
      cancelled_known = λ c h. let known = ok.cancelled_known c h in omega arith;
      alive = λ j f h. elim (lookup-insert-some key j e f r.entries h) [
        | inl (same, is) ↦
            ap (λ (x : Monitored). is_cancelled x.context r.cancelled) (sym is)
            ∙ fresh_context r ok
            ∙ sym open_
        | inr before ↦ ok.alive j f before
      ];
      apart = λ j k f g h i p. elim (lookup-insert-some key j e f r.entries h) [
        | inl (same, is) ↦ elim (lookup-insert-some key k e g r.entries i) [
          | inl (same', is') ↦ sym same ∙ same'
          | inr before ↦
              let known = AllKnown-lookup r.contexts k r.entries g ok.all_known before in
              let own : r.contexts ≡ f.context = ap (λ (x : Monitored). x.context) is in
              absurd (omega arith)
        ]
        | inr before ↦ elim (lookup-insert-some key k e g r.entries i) [
          | inl (same', is') ↦
              let known = AllKnown-lookup r.contexts j r.entries f ok.all_known before in
              let own : r.contexts ≡ g.context = ap (λ (x : Monitored). x.context) is' in
              absurd (omega arith)
          | inr before' ↦ ok.apart j k f g before before' p
        ]
      ];
    }

pub start-open :
    (external : Bool) (key : String) (source : Source) (r : Registry)
    → r.closed ≡ false
    → start external key source r ≡ start_new external key source r (lookup key r.entries)
unfolding start
start-open external key source r h = simp h

start_new-IsConsistent :
    (external : Bool) (key : String) (source : Source) (r : Registry) (o : Option Monitored)
    → IsConsistent r
    → r.closed ≡ false
    → lookup key r.entries ≡ o
    → IsConsistent (start_new external key source r o).0
start_new-IsConsistent external key source r none ok h absent = started r key external source ok h
start_new-IsConsistent external key source r (some e) ok h found = ok

start-IsConsistent :
    (external : Bool) (key : String) (source : Source) (r : Registry)
    → IsConsistent r
    → IsConsistent (start external key source r).0
unfolding start
start-IsConsistent external key source r ok = elim (Bool-cases r.closed) [
  | inl shut ↦ simp shut ok
  | inr open_ ↦
      subst (λ x. IsConsistent x.0) (sym (start-open external key source r open_))
        (start_new-IsConsistent external key source r (lookup key r.entries) ok open_ refl)
]

Reaches-IsConsistent : {r t : Registry} → Reaches r t → IsConsistent r → IsConsistent t
Reaches-IsConsistent here ok = ok
Reaches-IsConsistent (then_start {s = s} external key source rs) ok =
    start-IsConsistent external key source s (Reaches-IsConsistent rs ok)
Reaches-IsConsistent (then_stop {s = s} key source rs) ok =
    stop-IsConsistent key source s (Reaches-IsConsistent rs ok)
Reaches-IsConsistent (then_close {s = s} rs) ok = close-IsConsistent s (Reaches-IsConsistent rs ok)

-- In every registry that calls can reach, the context of an endpoint that is listed is cancelled
-- exactly if the registry is closed.
pub is_cancelled-Reaches :
    (key : String) {r : Registry} {e : Monitored}
    → Reaches new_endpoint_registry r
    → lookup key r.entries ≡ some e
    → is_cancelled e.context r.cancelled ≡ r.closed
is_cancelled-Reaches key {e = e} rs found =
    (Reaches-IsConsistent rs new-IsConsistent).alive key e found

stop_found :
    (key : String) (source : Source) (r : Registry) (e : Monitored)
    → lookup key r.entries ≡ some e
    → same_source e.source source ≡ true
    → (stop key source r).0
      ≡ record r { entries = delete key r.entries; cancelled = e.context ∷ r.cancelled }
unfolding stop
stop_found key source r e found same = rw found (rw same refl)

pub is_cancelled-own_stop :
    (key : String) (source : Source) (r : Registry) (e : Monitored)
    → lookup key r.entries ≡ some e
    → same_source e.source source ≡ true
    → is_cancelled e.context (stop key source r).0.cancelled ≡ true
is_cancelled-own_stop key source r e found same =
    ap (λ (x : Registry). is_cancelled e.context x.cancelled) (stop_found key source r e found same)
    ∙ is_cancelled-own e.context r.cancelled

-- Once an endpoint of a registry that calls can reach was stopped for its source, whatever calls
-- follow, its context is cancelled; the stop leaves the context of every other endpoint that is
-- listed as it was.
pub stop-Reaches :
    (key j : String) (source : Source) {r t : Registry} {e f : Monitored}
    → Reaches new_endpoint_registry r
    → lookup key r.entries ≡ some e
    → same_source e.source source ≡ true
    → Reaches (stop key source r).0 t
    → lookup j r.entries ≡ some f
    → j ≢ key
    → (is_cancelled e.context t.cancelled ≡ true)
      × (is_cancelled f.context (stop key source r).0.cancelled
          ≡ is_cancelled f.context r.cancelled)
stop-Reaches key j source {r = r} {e = e} {f = f} rs found same later other apart =
    let after = stop_found key source r e found same in
    let ok = Reaches-IsConsistent rs new-IsConsistent in
    (
      cancelled-Reaches e.context later (
          ap (λ (x : Registry). is_cancelled e.context x.cancelled) after
          ∙ is_cancelled-own e.context r.cancelled),
      ap (λ (x : Registry). is_cancelled f.context x.cancelled) after
          ∙ is_cancelled-other e.context f.context r.cancelled
              (λ p. apart (sym (ok.apart key j e f found other p))),
    )
