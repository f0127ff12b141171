-- ===== src/Managed/Service/Changes/Running.antt =====
-- internal/managedendpoint/service.go: who is monitored after a change of a managed endpoint.
use go_uptime.Watchdog.Registry.{Registry, Source, admin}
use go_uptime.Managed.Storage.{Database}
use go_uptime.Managed.Storage.Rename.{PageUpdate}
use go_uptime.Managed.Storage.Applied.{Applies}
use go_uptime.Managed.Service.Changes.Restarted.{IsFollowed, restarted}
use go_uptime.Managed.Service.Changes.Views.{
  registered, is_running, or_started, without_admin, is_running-stop,
}
use go_uptime.Managed.Service.Changes.Undone.{
  start_monitoring-registered, start_monitoring-absent, stop_started-undone, stop_started-off,
}
use go_uptime.Managed.Service.Changes.Written.{Written}
use go_uptime.Managed.Service.{
  World, apply_change, apply_started, start_monitoring, stop_started, restart_previous,
}
use go_uptime.Managed.Service.Changes.{Change, finish_change}
use go_uptime.Managed.{
  Error, State, ManagedEndpoint, Parsed, parsed_is_enabled, is_push, parsed_key,
  new_state_from_prepared,
}
use go_uptime.Common.{
  String, Bool, true, false, ◌&&◌, Option, none, some, List, ◌≡◌, refl, sym, ap, ◌∙◌, ◌⊎◌, inl, inr,
  if◌then◌else◌, string_eq, str_eq_iff, Bool-cases,
}

-- What an update leaves of the monitoring.
unfoldable pub Monitors : String → Option Registry → Error ⊎ State → Option Registry → Type 0
Monitors key before (inl error) after = (j : String) → registered j after ≡ registered j before
Monitors key before (inr state) after =
    (j : String)
    → registered j after ≡ (
        if parsed_is_enabled state.parsed && string_eq.beq state.stored.key j
        then some (is_push state.parsed, admin)
        else if string_eq.beq key j
        then without_admin (registered key before)
        else registered j before)

apply_started-registry :
    (p : Parsed) (o : Option Error × Option Registry) → (apply_started p false o).1.0 ≡ o.1
apply_started-registry p (none, r) = refl
apply_started-registry p (some e, r) = refl

apply_started-done :
    (p : Parsed) (o : Option Error × Option Registry)
    → (apply_started p false o).0 ≡ none
    → o.0 ≡ none
apply_started-done p (none, r) h = refl
apply_started-done p (some e, r) h = absurd cc

stop_started-running :
    (key : String) (r : Option Registry) (started : Bool)
    → is_running r ≡ true
    → is_running (stop_started key (r, started)) ≡ true
unfolding stop_started
stop_started-running key r true h = is_running-stop key r h
stop_started-running key r false h = h

apply_change-running :
    (p : Parsed) (r : Option Registry)
    → is_running r ≡ true
    → is_running (apply_change p (r, false)).1.0 ≡ true
unfolding apply_change
apply_change-running p r h =
    ap is_running (apply_started-registry p (start_monitoring p r))
    ∙ (start_monitoring-registered p r h).0

started_if :
    (on here : Bool) (found : Option (Bool × Source)) (external : Bool)
    (other : Option (Bool × Source))
    → (on ≡ true → found ≡ none)
    → (if on && here then or_started found external else other)
      ≡ (if on && here then some (external, admin) else other)
started_if true true found external other absent = ap (λ x. or_started x external) (absent refl)
started_if true false found external other absent = refl
started_if false here found external other absent = refl

stopped_if :
    (key j : String) (was : Bool) (r : Option Registry)
    → (was ≡ false → without_admin (registered key r) ≡ registered key r)
    → (if was && string_eq.beq key j then without_admin (registered key r) else registered j r)
      ≡ (if string_eq.beq key j then without_admin (registered key r) else registered j r)
stopped_if key j true r quiet = refl
stopped_if key j false r quiet = elim (Bool-cases (string_eq.beq key j)) [
  | inl e ↦ rw e (ap (λ k. registered k r) (sym ((str_eq_iff key j).0 e)) ∙ sym (quiet refl))
  | inr e ↦ rw e refl
]

module _ (key : String) (was : Bool) (c : Change) (parsed : Parsed)
    (plan : Option (List PageUpdate)) (w : World) (r1 : Option Registry)
    (ok : IsFollowed key c.state.parsed w.registry) (running : is_running r1 ≡ true)
    (stops : (i : String)
      → registered i r1 ≡ (
          if was && string_eq.beq key i
          then without_admin (registered key w.registry)
          else registered i w.registry))
    (named : parsed_key parsed ≡ parsed_key c.prepared.parsed) where
  undone_registry :
      (j : String) (r2 : Option Registry × Bool)
      → (r2 ≡ (r1, false)) ⊎ (r2 ≡ (apply_change parsed (r1, false)).1)
      → (is_running (stop_started (parsed_key c.prepared.parsed) r2) ≡ true)
        × (registered j (stop_started (parsed_key c.prepared.parsed) r2) ≡ registered j r1)
  undone_registry j r2 (inl is) =
      let off = stop_started-off (parsed_key c.prepared.parsed) r1 false refl in
      rw is (ap is_running off ∙ running, ap (registered j) off)
  undone_registry j r2 (inr is) =
      let applied = (apply_change parsed (r1, false)).1 in
      rw is (
        stop_started-running (parsed_key c.prepared.parsed) applied.0 applied.1
            (apply_change-running parsed r1 running),
        ap (λ k. registered j (stop_started k applied)) (sym named)
            ∙ stop_started-undone parsed r1 j running,
      )

  failed-Monitors :
      (j : String) (r2 : Option Registry × Bool)
      → (r2 ≡ (r1, false)) ⊎ (r2 ≡ (apply_change parsed (r1, false)).1)
      → registered j
          (restart_previous was c.state.parsed (stop_started (parsed_key c.prepared.parsed) r2))
        ≡ registered j w.registry
  failed-Monitors j r2 h =
      restarted key j was c.state.parsed w.registry r1
        (stop_started (parsed_key c.prepared.parsed) r2) ok (undone_registry j r2 h).0 stops
        (λ i. (undone_registry i r2 h).1)

  done-Monitors :
      (j : String) (r2 : Option Registry × Bool)
      → (was ≡ false → without_admin (registered key w.registry) ≡ registered key w.registry)
      → (apply_change parsed (r1, false)).0 ≡ none
      → r2 ≡ (apply_change parsed (r1, false)).1
      → registered j r2.0 ≡ (
          if parsed_is_enabled parsed && string_eq.beq (parsed_key parsed) j
          then some (is_push parsed, admin)
          else if string_eq.beq key j
          then without_admin (registered key w.registry)
          else registered j w.registry)
  unfolding apply_change
  done-Monitors j r2 quiet fine is =
      let o = start_monitoring parsed r1 in
      ap (λ (x : Option Registry × Bool). registered j x.0) is
      ∙ ap (registered j) (apply_started-registry parsed o)
      ∙ (start_monitoring-registered parsed r1 running).1 j
      ∙ started_if (parsed_is_enabled parsed) (string_eq.beq (parsed_key parsed) j)
          (registered (parsed_key parsed) r1) (is_push parsed) (registered j r1)
          (start_monitoring-absent parsed r1 (apply_started-done parsed o fine))
      ∙ ap
          (λ x.
            if parsed_is_enabled parsed && string_eq.beq (parsed_key parsed) j
            then some (is_push parsed, admin)
            else x)
          (stops j ∙ stopped_if key j was w.registry quiet)

  pub finish-Monitors :
      (o : Error ⊎ ManagedEndpoint) (db : Database) (r2 : Option Registry × Bool)
      → (was ≡ false → without_admin (registered key w.registry) ≡ registered key w.registry)
      → Written key (parsed_key c.prepared.parsed) w.database o db
      → Applies (apply_change parsed) (r1, false) o r2
      → let (outcome, after) = finish_change key was c parsed plan w (o, db, r2) in
        Monitors key w.registry outcome after.registry
  unfolding Applies Written Monitors new_state_from_prepared
  finish-Monitors (inl error) db (r, started) quiet rows h = λ j. failed-Monitors j (r, started) h
  finish-Monitors (inr stored) db (r, started) quiet (key_is, rows) (fine, is) = λ j.
      done-Monitors j (r, started) quiet fine is
      ∙ ap
          (λ k.
            if parsed_is_enabled parsed && string_eq.beq k j
            then some (is_push parsed, admin)
            else if string_eq.beq key j
            then without_admin (registered key w.registry)
            else registered j w.registry)
          (named ∙ sym key_is)
