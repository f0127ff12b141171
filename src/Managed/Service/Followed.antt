-- ===== src/Managed/Service/Followed.antt =====
-- internal/managedendpoint/service.go: an update of a managed endpoint and its monitoring.
use mathlib.Core.Path.{Path, subst}
use go_uptime.Alerting.{Alert}
use go_uptime.Watchdog.Registry.{Registry, Source, admin, is_monitored}
use go_uptime.Managed.Storage.{required}
use go_uptime.Managed.Storage.Steps.{and_then-inr, required-inr}
use go_uptime.Managed.Storage.Rename.{PageUpdate}
use go_uptime.Managed.Service.Changes.Views.{registered, is_running, without_admin}
use go_uptime.Managed.Service.Changes.Undone.{stop_previous-registered}
use go_uptime.Managed.Service.Changes.Written.{write-Written}
use go_uptime.Managed.Service.Changes.Restarted.{IsFollowed, restarted, write-Applies}
use go_uptime.Managed.Service.Changes.Running.{Monitors, finish-Monitors}
use go_uptime.Managed.Service.{
  Env, World, state_or, managed_state, prepare, restore_alerts, is_endpoint_monitored,
  stop_previous, begin_change,
}
use go_uptime.Managed.Service.Changes.{
  Change, same_type, restored_of_key, expected_state, checked_change, restored_change, rename_plan,
  write_change, planned_change, stopped_change, run_change, was_monitored_of, update_endpoint,
  update,
}
use go_uptime.Managed.{
  Error, State, Parsed, managed_endpoint_version_mismatch, storage_not_supported, type_changed,
  parsed_is_enabled, is_push, is_valid, parsed_name, parsed_group, parsed_alerts, parsed_key,
  with_restored,
}
use go_uptime.Common.{
  ℕ, String, Bool, true, false, Option, none, some, List, ◌≡◌, refl, sym, ap, ◌∙◌, arith, ◌⊎◌, inl,
  inr, ◌==◌, lookup, string_eq, Bool-cases,
}

with_restored-key :
    (alerts : List Alert) (counters : Option (ℕ × ℕ)) (p : Parsed)
    → parsed_key (with_restored (alerts, counters) p) ≡ parsed_key p
unfolding with_restored parsed_key
with_restored-key alerts counters p = ground arith

restore_alerts-key :
    (env : Env) (name group : String) (p : Parsed)
    → parsed_key (restore_alerts env name group p) ≡ parsed_key p
unfolding restore_alerts
restore_alerts-key env name group p =
    let found = env.persisted_alerts name group (parsed_alerts p) in
    with_restored-key found.0 found.1 p

restored_of_key-key :
    (env : Env) (c : Change) (stored : Error ⊎ Parsed)
    → parsed_key (restored_of_key env c stored) ≡ parsed_key c.prepared.parsed
restored_of_key-key env c (inr parsed) =
    restore_alerts-key env (parsed_name parsed) (parsed_group parsed) c.prepared.parsed
restored_of_key-key env c (inl error) =
    let own =
      restore_alerts-key env (parsed_name c.state.parsed) (parsed_group c.state.parsed)
        c.prepared.parsed in
    ground (arith, own)

restored_change-key :
    (env : Env) (key : String) (c : Change)
    → parsed_key (restored_change env key c) ≡ parsed_key c.prepared.parsed
unfolding restored_change
restored_change-key env key c =
    let of_key = restored_of_key-key env c c.stored_parsed in
    let own =
      restore_alerts-key env (parsed_name c.prepared.parsed) (parsed_group c.prepared.parsed)
        c.prepared.parsed in
    ground (arith, of_key, own)

enabled-is_valid : (p : Parsed) → parsed_is_enabled p ≡ true → is_valid p ≡ true
unfolding parsed_is_enabled is_valid
enabled-is_valid p h = ground arith

registered-monitored :
    (key : String) (r : Option Registry) (e : Bool × Source)
    → registered key r ≡ some e
    → is_endpoint_monitored key r ≡ true
unfolding registered is_endpoint_monitored is_monitored
registered-monitored key none e h = absurd cc
registered-monitored key (some r) e h = ground arith

-- An endpoint that is not stopped is not monitored for the administration.
not_stopped :
    (key : String) (state : State) (r : Option Registry)
    → IsFollowed key state.parsed r
    → was_monitored_of key state r ≡ false
    → without_admin (registered key r) ≡ registered key r
unfolding was_monitored_of
not_stopped key state r ok h = elim (Bool-cases (parsed_is_enabled state.parsed)) [
  | inl on ↦
      let valid = enabled-is_valid state.parsed on in
      let monitored = registered-monitored key r (is_push state.parsed, admin) (ok.on on) in
      absurd (ground arith)
  | inr off ↦ ok.off off
]

state_or-lookup :
    (env : Env) (key : String) (o : Option State) {state : State}
    → state_or env key o ≡ inr state
    → o ≡ some state
state_or-lookup env key none h = absurd cc
state_or-lookup env key (some s) h = ground arith

managed_state-lookup :
    (env : Env) (states : List (String × State)) (key : String) {state : State}
    → managed_state env states key ≡ inr state
    → lookup key states ≡ some state
unfolding managed_state
managed_state-lookup env states key h = state_or-lookup env key (lookup key states) h

-- The checks read the state of the key.
expected_state-lookup :
    (env : Env) (w : World) (key : String) (expected : ℕ) {state : State}
    → expected_state env w key expected ≡ inr state
    → lookup key w.states ≡ some state
unfolding expected_state
expected_state-lookup env w key expected {state = state} h =
    let (s, is, rest) = and_then-inr (managed_state env w.states key) _ h in
    let (same, rest') =
      required-inr (s.stored.version == expected) managed_endpoint_version_mismatch
        (required env.supported storage_not_supported (inr s)) rest in
    let (on, done) = required-inr env.supported storage_not_supported (inr s) rest' in
    managed_state-lookup env w.states key is ∙ ground (arith, done)

checked_change-state :
    (env : Env) (w : World) (key raw : String) (expected : ℕ) {c : Change}
    → checked_change env w key raw expected ≡ inr c
    → lookup key w.states ≡ some c.state
unfolding checked_change
checked_change-state env w key raw expected {c = c} h =
    let (state, is, h1) = and_then-inr (expected_state env w key expected) _ h in
    let (submitted, is1, h2) = and_then-inr (env.parse_definition raw) _ h1 in
    let stored_parsed = env.parse_definition state.stored.definition in
    let (same, h3) = required-inr (same_type stored_parsed submitted) type_changed _ h2 in
    let (prepared, is3, h4) = and_then-inr (prepare env w.states (some key) raw) _ h3 in
    let (effective, is4, h5) = and_then-inr (env.effective_definition prepared.parsed) _ h4 in
    expected_state-lookup env w key expected is ∙ ground (arith, h5)

module _ (env : Env) (key : String) (expected : ℕ) (author : String) (w : World)
    (running : is_running w.registry ≡ true) where
  planned-Monitors :
      (c : Change) (plan : Error ⊎ Option (List PageUpdate))
      → IsFollowed key c.state.parsed w.registry
      → let was = was_monitored_of key c.state w.registry in
        let (outcome, after) =
          planned_change env key expected author c was w
            (stop_previous key was w.registry).1
            plan in
        Monitors key w.registry outcome after.registry
  unfolding planned_change Monitors
  planned-Monitors c (inl error) ok = λ j.
      let was = was_monitored_of key c.state w.registry in
      let (fine, still, stops) = stop_previous-registered key was w.registry running in
      let r1 = (stop_previous key was w.registry).1 in
      restarted key j was c.state.parsed w.registry r1 r1 ok still stops (λ i. refl)
  planned-Monitors c (inr plan) ok =
      let was = was_monitored_of key c.state w.registry in
      let (fine, still, stops) = stop_previous-registered key was w.registry running in
      let r1 = (stop_previous key was w.registry).1 in
      let parsed = restored_change env key c in
      let out = write_change env key expected author c parsed plan w.database r1 in
      finish-Monitors key was c parsed plan w r1 ok still stops (restored_change-key env key c)
        out.0 out.1 out.2 (not_stopped key c.state w.registry ok)
        (write-Written env key expected author c parsed plan w.database r1)
        (write-Applies env key expected author c parsed plan w.database r1)

  no_error : {e : Error} → Path (Option Error) (some e) none → ⊥
  no_error h = cc

  stopped-Monitors :
      (c : Change) (o : Option Error × Option Registry)
      → IsFollowed key c.state.parsed w.registry
      → let was = was_monitored_of key c.state w.registry in
        o ≡ stop_previous key was w.registry
        → let (outcome, after) = stopped_change env key expected author c was w o in
          Monitors key w.registry outcome after.registry
  unfolding stopped_change
  stopped-Monitors c (some error, r) ok is =
      let was = was_monitored_of key c.state w.registry in
      let (fine, still, stops) = stop_previous-registered key was w.registry running in
      absurd (no_error (ap (λ (x : Option Error × Option Registry). x.0) is ∙ fine))
  stopped-Monitors c (none, r) ok is =
      let was = was_monitored_of key c.state w.registry in
      let plan = rename_plan env key author c in
      subst
        (λ (r : Option Registry).
          let (outcome, after) = planned_change env key expected author c was w r plan in
          Monitors key w.registry outcome after.registry)
        (ap (λ (x : Option Error × Option Registry). x.1) (sym is)) (planned-Monitors c plan ok)

  run-Monitors :
      (o : Error ⊎ Change)
      → ((c : Change) → o ≡ inr c → IsFollowed key c.state.parsed w.registry)
      → let (outcome, after) = run_change env key expected author w o in
        Monitors key w.registry outcome after.registry
  unfolding run_change Monitors
  run-Monitors (inl error) ok = λ j. refl
  run-Monitors (inr c) ok =
      let was = was_monitored_of key c.state w.registry in
      stopped-Monitors c (stop_previous key was w.registry) (ok c refl) refl

begun-Monitors :
    (env : Env) (key : String) (w : World) (next : (Error ⊎ State) × World)
    → Monitors key w.registry next.0 next.1.registry
    → let (outcome, after) = begin_change env w next in
      Monitors key w.registry outcome after.registry
unfolding Monitors
begun-Monitors env key w next done = elim (Bool-cases env.busy) [
  | inl p ↦ rw p (λ j. refl)
  | inr p ↦ rw p done
]

-- An update of a managed endpoint while the registry of the monitoring is open, when the endpoint,
-- if there is one of the key, is followed (an enabled one is monitored for the administration under
-- the key, any other is not): if it returns an error, whichever step failed, then each key is
-- monitored or not as before, for the same source. If it succeeds, then the updated endpoint is
-- monitored for the administration under its new key exactly if it is enabled, the old key is no
-- longer monitored for the administration unless it is that one, and every other key is as before.
pub update-Monitors :
    (env : Env) (key raw : String) (expected : ℕ) (author : String) (w : World)
    → is_running w.registry ≡ true
    → ((state : State) → lookup key w.states ≡ some state → IsFollowed key state.parsed w.registry)
    → let (outcome, after) = update env key raw expected author w in
      Monitors key w.registry outcome after.registry
unfolding update update_endpoint
update-Monitors env key raw expected author w running followed =
    begun-Monitors env key w
      (run_change env key expected author w (checked_change env w key raw expected))
      (run-Monitors env key expected author w running (checked_change env w key raw expected)
        (λ c is. followed c.state (checked_change-state env w key raw expected is)))
