-- ===== src/Managed/Service/Changes/Undone.antt =====
-- internal/managedendpoint/service.go: a change that fails undoes what it did to the monitoring.
use go_uptime.Watchdog.Registry.{
  Registry, Source, MonitoringError, endpoint_not_monitored, admin, start_endpoint, stop_endpoint,
  stop, start,
}
use go_uptime.Managed.Service.Changes.Views.{
  registered, is_running, or_started, without_admin, registered-start, registered-stop,
  is_running-start, is_running-stop,
}
use go_uptime.Managed.Service.{
  start_monitoring, start_result, apply_change, apply_started, stop_started, stop_previous,
  stop_result,
}
use go_uptime.Managed.{Error, Parsed, parsed_is_enabled, is_push, parsed_key}
use go_uptime.Common.{
  String, Bool, true, false, ◌&&◌, Option, none, some, ◌≡◌, refl, sym, ap, ◌∙◌, arith, inl, inr,
  ◌⊎◌, if◌then◌else◌, string_eq, str_eq_iff, beq_refl, Bool-cases, Option-cases,
}

stop_error :
    (key : String) (r : Option Registry)
    → is_running r ≡ true
    → ((stop_endpoint key admin r).1 ≡ none)
      ⊎ ((stop_endpoint key admin r).1 ≡ some endpoint_not_monitored)
unfolding stop_endpoint stop
stop_error key none h = absurd cc
stop_error key (some r) h = ground arith

stop_result-registry : (o : Option Registry × Option MonitoringError) → (stop_result o).1 ≡ o.0
stop_result-registry (r, none) = refl
stop_result-registry (r, some error) = ground arith

stop_result-none :
    (o : Option Registry × Option MonitoringError)
    → (o.1 ≡ none) ⊎ (o.1 ≡ some endpoint_not_monitored)
    → (stop_result o).0 ≡ none
stop_result-none (r, none) h = refl
stop_result-none (r, some error) h = ground arith

-- Stopping the previous endpoint succeeds while the registry is open.
pub stop_previous-registered :
    (key : String) (was : Bool) (r : Option Registry)
    → is_running r ≡ true
    → ((stop_previous key was r).0 ≡ none)
      × (is_running (stop_previous key was r).1 ≡ true)
      × ((j : String)
          → registered j (stop_previous key was r).1 ≡ (
              if was && string_eq.beq key j
              then without_admin (registered key r)
              else registered j r))
unfolding stop_previous
stop_previous-registered key false r h = (refl, h, λ j. refl)
stop_previous-registered key true r h =
    let o = stop_endpoint key admin r in
    (
      stop_result-none o (stop_error key r h),
      ap is_running (stop_result-registry o) ∙ is_running-stop key r h,
      λ j. ap (registered j) (stop_result-registry o) ∙ registered-stop key j r,
    )

start_result-registry : (o : Option Registry × Option MonitoringError) → (start_result o).1 ≡ o.0
start_result-registry (r, none) = refl
start_result-registry (r, some error) = refl

start_result-none :
    (o : Option Registry × Option MonitoringError) → (start_result o).0 ≡ none → o.1 ≡ none
start_result-none (r, none) h = refl
start_result-none (r, some error) h = absurd cc

start_result-some :
    (o : Option Registry × Option MonitoringError) (e : Error)
    → (start_result o).0 ≡ some e
    → (error : MonitoringError) × (o.1 ≡ some error)
start_result-some (r, none) e h = absurd cc
start_result-some (r, some error) e h = (error, refl)

if_true : {A : Type 0} (b : Bool) (x y : A) → b ≡ true → (if b then x else y) ≡ x
if_true b x y h = ground arith

start_kept :
    (external : Bool) (key : String) (r : Option Registry) (e : MonitoringError)
    → (start_endpoint external key admin r).1 ≡ some e
    → (start_endpoint external key admin r).0 ≡ r
unfolding start_endpoint start
start_kept external key none e h = refl
start_kept external key (some r) e h = ground arith

start_absent :
    (external : Bool) (key : String) (r : Option Registry)
    → (start_endpoint external key admin r).1 ≡ none
    → registered key r ≡ none
unfolding start_endpoint start registered
start_absent external key none h = refl
start_absent external key (some r) h = ground arith

pub start_monitoring-registered :
    (p : Parsed) (r : Option Registry)
    → is_running r ≡ true
    → (is_running (start_monitoring p r).1 ≡ true)
      × ((j : String)
          → registered j (start_monitoring p r).1 ≡ (
              if parsed_is_enabled p && string_eq.beq (parsed_key p) j
              then or_started (registered (parsed_key p) r) (is_push p)
              else registered j r))
unfolding start_monitoring
start_monitoring-registered p r h = elim (Bool-cases (parsed_is_enabled p)) [
  | inl on ↦ rw on (
      let o = start_endpoint (is_push p) (parsed_key p) admin r in
      (
        ap is_running (start_result-registry o) ∙ is_running-start (is_push p) (parsed_key p) r h,
        λ j.
            ap (registered j) (start_result-registry o)
            ∙ registered-start (is_push p) (parsed_key p) j r h,
      ))
  | inr off ↦ rw off (h, λ j. refl)
]

-- What a started endpoint finds, and what an endpoint that could not be started leaves.
pub start_monitoring-absent :
    (p : Parsed) (r : Option Registry)
    → (start_monitoring p r).0 ≡ none
    → parsed_is_enabled p ≡ true
    → registered (parsed_key p) r ≡ none
unfolding start_monitoring
start_monitoring-absent p r h on =
    let o = start_endpoint (is_push p) (parsed_key p) admin r in
    start_absent (is_push p) (parsed_key p) r (
      start_result-none o (
        ap (λ (x : Option Error × Option Registry). x.0)
          (sym (if_true (parsed_is_enabled p) (start_result o) (none, r) on))
        ∙ h))

start_monitoring-kept :
    (p : Parsed) (r : Option Registry) (e : Error)
    → (start_monitoring p r).0 ≡ some e
    → (start_monitoring p r).1 ≡ r
unfolding start_monitoring
start_monitoring-kept p r e h = elim (Bool-cases (parsed_is_enabled p)) [
  | inl on ↦
      let o = start_endpoint (is_push p) (parsed_key p) admin r in
      let is = if_true (parsed_is_enabled p) (start_result o) (none, r) on in
      let (error, failed) =
        start_result-some o e (ap (λ (x : Option Error × Option Registry). x.0) (sym is) ∙ h) in
      ap (λ (x : Option Error × Option Registry). x.1) is
      ∙ start_result-registry o
      ∙ start_kept (is_push p) (parsed_key p) r error failed
  | inr off ↦ ground arith
]

apply_started-none :
    (p : Parsed) (o : Option Error × Option Registry)
    → o.0 ≡ none
    → apply_started p false o ≡ (none, (o.1, parsed_is_enabled p))
apply_started-none p (none, r) h = refl
apply_started-none p (some e, r) h = absurd cc

apply_started-some :
    (p : Parsed) (o : Option Error × Option Registry) (e : Error)
    → o.0 ≡ some e
    → apply_started p false o ≡ (some e, (o.1, false))
apply_started-some p (none, r) e h = absurd cc
apply_started-some p (some e', r) e h = ground arith

undone_at :
    (key j : String) (at_key at_j : Option (Bool × Source)) (external : Bool) (r : Option Registry)
    → registered key r ≡ none
    → at_key ≡ some (external, admin)
    → at_j ≡ (if string_eq.beq key j then some (external, admin) else registered j r)
    → (if string_eq.beq key j then without_admin at_key else at_j) ≡ registered j r
undone_at key j at_key at_j external r absent is_key is_j =
    elim (Bool-cases (string_eq.beq key j)) [
      | inl p ↦
          rw p (
            ap without_admin is_key
            ∙ sym absent
            ∙ ap (λ k. registered k r) ((str_eq_iff key j).0 p))
      | inr p ↦ rw p (is_j ∙ simp p refl)
    ]

undone_start :
    (p : Parsed) (r : Option Registry) (j : String)
    → is_running r ≡ true
    → parsed_is_enabled p ≡ true
    → registered (parsed_key p) r ≡ none
    → registered j (stop_endpoint (parsed_key p) admin (start_monitoring p r).1).0 ≡ registered j r
undone_start p r j h on absent =
    let key = parsed_key p in
    let (running, starts) = start_monitoring-registered p r h in
    registered-stop key j (start_monitoring p r).1
    ∙ undone_at key j (registered key (start_monitoring p r).1)
        (registered j (start_monitoring p r).1) (is_push p) r absent
        (starts key ∙ simp (on, beq_refl key, absent) refl) (starts j ∙ simp (on, absent) refl)

stop_started-on :
    (key : String) (r : Option Registry) (started : Bool)
    → started ≡ true
    → stop_started key (r, started) ≡ (stop_endpoint key admin r).0
unfolding stop_started
stop_started-on key r started h = simp h refl

pub stop_started-off :
    (key : String) (r : Option Registry) (started : Bool)
    → started ≡ false
    → stop_started key (r, started) ≡ r
unfolding stop_started
stop_started-off key r started h = simp h refl

-- The endpoint that a failed transaction started is stopped again.
pub stop_started-undone :
    (p : Parsed) (r : Option Registry) (j : String)
    → is_running r ≡ true
    → registered j (stop_started (parsed_key p) (apply_change p (r, false)).1) ≡ registered j r
unfolding apply_change
stop_started-undone p r j h =
    let o = start_monitoring p r in
    elim (Option-cases o.0) [
      | inl fine ↦
          ap
            (λ (x : Option Error × (Option Registry × Bool)).
              registered j (stop_started (parsed_key p) x.1))
            (apply_started-none p o fine)
          ∙ (elim (Bool-cases (parsed_is_enabled p)) [
            | inl on ↦
                ap (registered j) (stop_started-on (parsed_key p) o.1 (parsed_is_enabled p) on)
                ∙ undone_start p r j h on (start_monitoring-absent p r fine on)
            | inr off ↦
                ap (registered j) (stop_started-off (parsed_key p) o.1 (parsed_is_enabled p) off)
                ∙ ((start_monitoring-registered p r h).1 j ∙ simp off refl)
          ])
      | inr (e, failed) ↦
          ap
            (λ (x : Option Error × (Option Registry × Bool)).
              registered j (stop_started (parsed_key p) x.1))
            (apply_started-some p o e failed)
          ∙ ap (registered j) (stop_started-off (parsed_key p) o.1 false refl)
          ∙ (ap (registered j) (start_monitoring-kept p r e failed))
    ]
