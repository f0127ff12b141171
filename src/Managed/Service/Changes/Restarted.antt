-- ===== src/Managed/Service/Changes/Restarted.antt =====
-- internal/managedendpoint/service.go: the restart of the previous endpoint.
use go_uptime.Watchdog.Registry.{Registry, admin}
use go_uptime.Managed.Storage.{Database}
use go_uptime.Managed.Storage.Rename.{Rename, PageUpdate}
use go_uptime.Managed.Storage.Applied.{Applies, update-Applies, rename-Applies}
use go_uptime.Managed.Service.Changes.Views.{registered, is_running, without_admin}
use go_uptime.Managed.Service.Changes.Undone.{start_monitoring-registered}
use go_uptime.Managed.Service.{Env, apply_change, start_monitoring, restart_previous}
use go_uptime.Managed.Service.Changes.{Change, is_renaming, pages_of, write_change}
use go_uptime.Managed.{
  ManagedEndpoint, Parsed, parsed_is_enabled, is_push, in_conflict, parsed_name, parsed_group,
  parsed_key,
}
use go_uptime.Common.{
  ℕ, String, Bool, true, false, not, ◌&&◌, Option, none, some, List, ◌≡◌, refl, sym, ap, ◌∙◌, inl,
  inr, if◌then◌else◌, string_eq, str_eq_iff, beq_refl, Bool-cases,
}

-- What the monitoring has of a managed endpoint: an enabled one is monitored for the administration
-- under its key, and any other is not.
pub record IsFollowed (key : String) (p : Parsed) (r : Option Registry) : Type 0 where
  pub named : parsed_is_enabled p ≡ true → parsed_key p ≡ key
  pub on : parsed_is_enabled p ≡ true → registered key r ≡ some (is_push p, admin)
  pub off : parsed_is_enabled p ≡ false → without_admin (registered key r) ≡ registered key r

pub write-Applies :
    (env : Env) (key : String) (expected : ℕ) (author : String) (c : Change) (parsed : Parsed)
    (plan : Option (List PageUpdate)) (db : Database) (r : Option Registry)
    → let out = write_change env key expected author c parsed plan db r in
      Applies (apply_change parsed) (r, false) out.0 out.2
unfolding write_change
write-Applies env key expected author c parsed plan db r =
    let m : ManagedEndpoint = record {
      key = parsed_key c.prepared.parsed;
      definition = c.prepared.definition;
      version = 0;
      created_at = 0;
      updated_at = 0;
      updated_by = author;
    } in
    let rename : Rename = record {
      old_key = key;
      name = parsed_name parsed;
      group = parsed_group parsed;
      move_history = not (in_conflict c.state);
      status_pages = pages_of plan;
    } in
    elim (Bool-cases (is_renaming key c)) [
      | inl p ↦
          rw p (
            rename-Applies env.driver (apply_change parsed) (r, false) env.now m expected rename db)
      | inr p ↦
          rw p (update-Applies env.driver (apply_change parsed) (r, false) env.now m expected db)
    ]

restarted_enabled :
    (key j : String) (p : Parsed) (r r3 : Option Registry)
    → IsFollowed key p r
    → parsed_is_enabled p ≡ true
    → is_running r3 ≡ true
    → ((i : String)
        → registered i r3
          ≡ (if string_eq.beq key i then without_admin (registered key r) else registered i r))
    → registered j (start_monitoring p r3).1 ≡ registered j r
restarted_enabled key j p r r3 ok on running stops =
    let named : parsed_key p ≡ key = ok.named on in
    let absent : registered key r3 ≡ none =
      stops key ∙ simp (beq_refl key) (ap without_admin (ok.on on)) in
    let starts = (start_monitoring-registered p r3 running).1 j in
    elim (Bool-cases (string_eq.beq key j)) [
      | inl e ↦
          starts
          ∙ simp (on, named, e, absent) refl
          ∙ sym (ok.on on)
          ∙ ap (λ k. registered k r) ((str_eq_iff key j).0 e)
      | inr e ↦ starts ∙ simp (on, named, e) refl ∙ stops j ∙ simp e refl
    ]

restarted_on :
    (key j : String) (p : Parsed) (r r3 : Option Registry)
    → IsFollowed key p r
    → is_running r3 ≡ true
    → ((i : String)
        → registered i r3
          ≡ (if string_eq.beq key i then without_admin (registered key r) else registered i r))
    → registered j (start_monitoring p r3).1 ≡ registered j r
restarted_on key j p r r3 ok running stops = elim (Bool-cases (parsed_is_enabled p)) [
  | inl on ↦ restarted_enabled key j p r r3 ok on running stops
  | inr off ↦
      (start_monitoring-registered p r3 running).1 j
      ∙ simp off refl
      ∙ stops j
      ∙ elim (Bool-cases (string_eq.beq key j)) [
        | inl e ↦ rw e (ok.off off ∙ ap (λ k. registered k r) ((str_eq_iff key j).0 e))
        | inr e ↦ rw e refl
      ]
]

-- The monitoring is as it was: the previous endpoint is stopped and started again.
pub restarted :
    (key j : String) (was : Bool) (p : Parsed) (r r1 r3 : Option Registry)
    → IsFollowed key p r
    → is_running r3 ≡ true
    → ((i : String)
        → registered i r1 ≡ (
            if was && string_eq.beq key i
            then without_admin (registered key r)
            else registered i r))
    → ((i : String) → registered i r3 ≡ registered i r1)
    → registered j (restart_previous was p r3) ≡ registered j r
unfolding restart_previous
restarted key j false p r r1 r3 ok running stops same = same j ∙ stops j
restarted key j true p r r1 r3 ok running stops same =
    restarted_on key j p r r3 ok running (λ i. same i ∙ stops i)
