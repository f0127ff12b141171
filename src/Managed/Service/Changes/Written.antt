-- ===== src/Managed/Service/Changes/Written.antt =====
-- internal/managedendpoint/service.go: what the transaction of a change leaves of the table of the
-- managed endpoints.
use mathlib.Core.Path.{subst}
use go_uptime.Watchdog.Registry.{Registry}
use go_uptime.Managed.Storage.{Database, updated_row, update_managed_endpoint}
use go_uptime.Managed.Storage.Steps.{update-Leaves}
use go_uptime.Managed.Storage.Rename.{Rename, PageUpdate, rename_managed_endpoint}
use go_uptime.Managed.Storage.Rename.Tables.{rename-Leaves}
use go_uptime.Managed.Service.{Env, World, apply_change}
use go_uptime.Managed.Service.Changes.{Change, is_renaming, write_change, pages_of}
use go_uptime.Managed.{
  Error, State, ManagedEndpoint, Parsed, in_conflict, parsed_name, parsed_group, parsed_key,
}
use go_uptime.Common.{
  ℕ, String, Bool, true, false, not, Option, none, some, List, ◌≡◌, refl, sym, ap, ◌∙◌, arith, ◌⊎◌,
  inl, inr, if◌then◌else◌, lookup, insert, delete, string_eq, lookup-insert, lookup-delete,
  Bool-cases, str_eq_iff,
}

abbrev pub stored_of : Option State → Option ManagedEndpoint
stored_of none = none
stored_of (some state) = some state.stored

-- The snapshot has a state for each row of the table, with the row as what is stored.
unfoldable pub IsStored : World → Type 0
IsStored w = (key : String) → stored_of (lookup key w.states) ≡ lookup key w.database.managed

-- What the transaction of a change leaves of the rows: `key` is replaced by `new_key`.
unfoldable pub Written : String → String → Database → Error ⊎ ManagedEndpoint → Database → Type 0
Written key new_key db (inl error) after = after ≡ db
Written key new_key db (inr stored) after =
    (stored.key ≡ new_key)
    × ((j : String)
        → lookup j after.managed ≡ (
            if string_eq.beq new_key j
            then some stored
            else if string_eq.beq key j
            then none
            else lookup j db.managed))

module _ (key new_key : String) (db after : Database) (o : Error ⊎ ManagedEndpoint) where
  failed-Written : (error : Error) → o ≡ inl error → after ≡ db → Written key new_key db o after
  unfolding Written
  failed-Written error is same = subst (λ x. Written key new_key db x after) (sym is) same

  done-Written :
      (stored : ManagedEndpoint) (table : List (String × ManagedEndpoint))
      → o ≡ inr stored
      → stored.key ≡ new_key
      → after.managed ≡ table
      → ((j : String)
          → lookup j table ≡ (
              if string_eq.beq new_key j
              then some stored
              else if string_eq.beq key j
              then none
              else lookup j db.managed))
      → Written key new_key db o after
  unfolding Written
  done-Written stored table is named same rows =
      subst (λ x. Written key new_key db x after) (sym is)
        (named, λ j. ap (λ t. lookup j t) same ∙ rows j)

renamed-Written :
    (key new_key : String) (db : Database) (stored : ManagedEndpoint) (j : String)
    → lookup j (insert new_key stored (delete key db.managed)) ≡ (
        if string_eq.beq new_key j
        then some stored
        else if string_eq.beq key j
        then none
        else lookup j db.managed)
renamed-Written key new_key db stored j =
    lookup-insert new_key j stored (delete key db.managed)
    ∙ ap (λ x. if string_eq.beq new_key j then some stored else x) (lookup-delete key j db.managed)

updated-Written :
    (key new_key : String) (db : Database) (stored : ManagedEndpoint) (j : String)
    → string_eq.beq new_key key ≡ true
    → lookup j (insert new_key stored db.managed) ≡ (
        if string_eq.beq new_key j
        then some stored
        else if string_eq.beq key j
        then none
        else lookup j db.managed)
updated-Written key new_key db stored j same =
    lookup-insert new_key j stored db.managed
    ∙ ground (arith, str_eq_iff new_key key, str_eq_iff new_key j, str_eq_iff key j, same)

is_renaming-key :
    (key : String) (c : Change)
    → is_renaming key c ≡ false
    → string_eq.beq (parsed_key c.prepared.parsed) key ≡ true
unfolding is_renaming
is_renaming-key key c h = ground arith

pub write-Written :
    (env : Env) (key : String) (expected : ℕ) (author : String) (c : Change) (parsed : Parsed)
    (plan : Option (List PageUpdate)) (db : Database) (r : Option Registry)
    → let out = write_change env key expected author c parsed plan db r in
      Written key (parsed_key c.prepared.parsed) db out.0 out.1
unfolding write_change
write-Written env key expected author c parsed plan db r =
    let new_key = parsed_key c.prepared.parsed in
    let m : ManagedEndpoint = record {
      key = new_key;
      definition = c.prepared.definition;
      version = 0;
      created_at = 0;
      updated_at = 0;
      updated_by = author;
    } in
    let rename : Rename = record {
      old_key = key;
      name = parsed_name parsed;
      group = parsed_group parsed;
      move_history = not (in_conflict c.state);
      status_pages = pages_of plan;
    } in
    let w : Option Registry × Bool = (r, false) in
    elim (Bool-cases (is_renaming key c)) [
      | inl p ↦ rw p (
          let out =
            rename_managed_endpoint env.driver env.now m expected rename (apply_change parsed) db
              w in
          elim (rename-Leaves env.driver env.now m expected rename (apply_change parsed) db w) [
            | inl (error, is, same) ↦ failed-Written key new_key db out.1 out.0 error is same
            | inr (row, found, version, is, is_managed, is_endpoints, is_pages) ↦
                let stored = updated_row env.now expected m row in
                done-Written key new_key db out.1 out.0 stored
                  (insert new_key stored (delete key db.managed)) is refl is_managed
                  (renamed-Written key new_key db stored)
          ])
      | inr p ↦ rw p (
          let out =
            update_managed_endpoint env.driver env.now m expected (apply_change parsed) db w in
          elim (update-Leaves env.driver env.now m expected (apply_change parsed) db w) [
            | inl (error, is, same) ↦ failed-Written key new_key db out.1 out.0 error is same
            | inr (row, found, version, is, written) ↦
                let stored = updated_row env.now expected m row in
                done-Written key new_key db out.1 out.0 stored (insert new_key stored db.managed) is
                  refl (ap (λ (d : Database). d.managed) written)
                  (λ j. updated-Written key new_key db stored j (is_renaming-key key c p))
          ])
    ]
