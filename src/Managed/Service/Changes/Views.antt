-- ===== src/Managed/Service/Changes/Views.antt =====
-- internal/managedendpoint/service.go with internal/watchdog/registry.go: who is monitored, without
-- the contexts, while an endpoint is stopped and started.
use go_uptime.Watchdog.Registry.{
  Registry, Source, Monitored, MonitoringError, admin, config, start, stop, start_endpoint,
  stop_endpoint, start_new, stop_entry,
}
use go_uptime.Watchdog.Registry.Invariant.{start-open}
use go_uptime.Common.{
  String, Bool, true, false, not, Option, none, some, ◌≡◌, refl, sym, ap, ◌∙◌, arith, inl, inr, ◌⊎◌,
  if◌then◌else◌, lookup, string_eq, lookup-insert, lookup-delete, Bool-cases, str_eq_iff,
}

-- An entry of the registry: whether it is a heartbeat, and for whom it is monitored.
abbrev pub kind_of : Option Monitored → Option (Bool × Source)
kind_of none = none
kind_of (some e) = some (e.external, e.source)

unfoldable pub registered : String → Option Registry → Option (Bool × Source)
registered key none = none
registered key (some r) = kind_of (lookup key r.entries)

abbrev pub is_running : Option Registry → Bool
is_running none = false
is_running (some r) = not r.closed

abbrev pub or_started : Option (Bool × Source) → Bool → Option (Bool × Source)
or_started none external = some (external, admin)
or_started (some e) external = some e

abbrev pub without_admin : Option (Bool × Source) → Option (Bool × Source)
without_admin none = none
without_admin (some (external, config)) = some (external, config)
without_admin (some (external, admin)) = none

kind_of-if :
    (b : Bool) (o p : Option Monitored)
    → kind_of (if b then o else p) ≡ (if b then kind_of o else kind_of p)
kind_of-if true o p = refl
kind_of-if false o p = refl

registered-start_new :
    (external : Bool) (key j : String) (r : Registry) (o : Option Monitored)
    → lookup key r.entries ≡ o
    → registered j (some (start_new external key admin r o).0)
      ≡ (if string_eq.beq key j then or_started (kind_of o) external else registered j (some r))
unfolding registered
registered-start_new external key j r none h =
    let e : Monitored = record { external = external; source = admin; context = r.contexts } in
    ap kind_of (lookup-insert key j e r.entries)
    ∙ kind_of-if (string_eq.beq key j) (some e) (lookup j r.entries)
registered-start_new external key j r (some e) h = elim (Bool-cases (string_eq.beq key j)) [
  | inl p ↦ rw p (ap kind_of (ap (λ k. lookup k r.entries) (sym ((str_eq_iff key j).0 p)) ∙ h))
  | inr p ↦ rw p refl
]

pub registered-start :
    (external : Bool) (key j : String) (r : Option Registry)
    → is_running r ≡ true
    → registered j (start_endpoint external key admin r).0
      ≡ (if string_eq.beq key j then or_started (registered key r) external else registered j r)
unfolding start_endpoint start registered
registered-start external key j none h = absurd cc
registered-start external key j (some r) h =
    let open_ : r.closed ≡ false = ground arith in
    ap (λ (x : Registry × Option MonitoringError). kind_of (lookup j x.0.entries))
      (start-open external key admin r open_)
    ∙ registered-start_new external key j r (lookup key r.entries) refl

pub is_running-start :
    (external : Bool) (key : String) (r : Option Registry)
    → is_running r ≡ true
    → is_running (start_endpoint external key admin r).0 ≡ true
unfolding start_endpoint start
is_running-start external key none h = absurd cc
is_running-start external key (some r) h = ground arith

source-cases : (s : Source) → (s ≡ admin) ⊎ (s ≡ config)
source-cases config = inr refl
source-cases admin = inl refl

registered-stop_entry :
    (key j : String) (r : Registry) (o : Option Monitored)
    → lookup key r.entries ≡ o
    → registered j (some (stop_entry key admin r o).0)
      ≡ (if string_eq.beq key j then without_admin (kind_of o) else registered j (some r))
unfolding registered
registered-stop_entry key j r none h = elim (Bool-cases (string_eq.beq key j)) [
  | inl p ↦ rw p (ap kind_of (ap (λ k. lookup k r.entries) (sym ((str_eq_iff key j).0 p)) ∙ h))
  | inr p ↦ rw p refl
]
registered-stop_entry key j r (some e) h = elim (source-cases e.source) [
  | inl p ↦ rw p (
      ap kind_of (lookup-delete key j r.entries)
      ∙ kind_of-if (string_eq.beq key j) none (lookup j r.entries))
  | inr p ↦ rw p (elim (Bool-cases (string_eq.beq key j)) [
    | inl q ↦ rw q (
        ap kind_of (ap (λ k. lookup k r.entries) (sym ((str_eq_iff key j).0 q)) ∙ h)
        ∙ ap (λ x. some (e.external, x)) p)
    | inr q ↦ rw q refl
  ])
]

pub registered-stop :
    (key j : String) (r : Option Registry)
    → registered j (stop_endpoint key admin r).0
      ≡ (if string_eq.beq key j then without_admin (registered key r) else registered j r)
unfolding stop_endpoint stop registered
registered-stop key j none = ground arith
registered-stop key j (some r) = registered-stop_entry key j r (lookup key r.entries) refl

pub is_running-stop :
    (key : String) (r : Option Registry)
    → is_running r ≡ true
    → is_running (stop_endpoint key admin r).0 ≡ true
unfolding stop_endpoint stop
is_running-stop key none h = absurd cc
is_running-stop key (some r) h = ground arith
