-- ===== src/Managed/Service/Changes/Stored.antt =====
-- internal/managedendpoint/service.go: the snapshot of the states and the table of the managed
-- endpoints.
use go_uptime.Watchdog.Registry.{Registry}
use go_uptime.Managed.Storage.{and_then, Database, create_managed_endpoint, delete_managed_endpoint}
use go_uptime.Managed.Storage.Rename.{PageUpdate}
use go_uptime.Managed.Storage.Rows.{create-Leaves, delete-Leaves}
use go_uptime.Managed.Service.{Env, World, apply_change, begin_change, managed_state, stop_previous}
use go_uptime.Managed.Service.Changes.{
  Change, write_change, finish_change, planned_change, stopped_change, run_change, update_endpoint,
  update, checked_change, expected_state, rename_plan, restored_change, was_monitored_of,
}
use go_uptime.Managed.Service.Entries.{
  set_enabled, run_enabled, finish_delete, stopped_delete, run_delete, delete_endpoint, Creation,
  finish_creation, run_creation, create, checked_creation,
}
use go_uptime.Managed.{
  Error, State, ManagedEndpoint, Parsed, in_conflict, parsed_key, new_state_from_prepared,
  replace_state, put_state, remove_state,
}
use go_uptime.Managed.Service.Changes.Written.{Written, write-Written, stored_of, IsStored}
use go_uptime.Common.{
  ℕ, String, Bool, true, false, not, ◌&&◌, Option, none, some, List, ◌≡◌, refl, sym, ap, ◌∙◌, ◌⊎◌,
  inl, inr, if◌then◌else◌, lookup, insert, delete, string_eq, lookup-insert, lookup-delete,
  Bool-cases,
}

chosen :
    (x y : Bool) (state : State) (o : Option State)
    → stored_of (if x then some state else if y then none else o)
      ≡ (if x then some state.stored else if y then none else stored_of o)
chosen true y state o = refl
chosen false true state o = refl
chosen false false state o = refl

-- A state that replaces another, and its row.
stored-replace :
    (key j : String) (state : State) (states : List (String × State))
    → stored_of (lookup j (replace_state key state states)) ≡ (
        if string_eq.beq state.stored.key j
        then some state.stored
        else if string_eq.beq key j
        then none
        else stored_of (lookup j states))
unfolding replace_state
stored-replace key j state states =
    ap stored_of (
      lookup-insert state.stored.key j state (delete key states)
      ∙ ap (λ x. if string_eq.beq state.stored.key j then some state else x)
          (lookup-delete key j states))
    ∙ chosen (string_eq.beq state.stored.key j) (string_eq.beq key j) state (lookup j states)

module _ (key : String) (was : Bool) (c : Change) (parsed : Parsed)
    (plan : Option (List PageUpdate)) (w : World) where
  finish-IsStored :
      IsStored w
      → (o : Error ⊎ ManagedEndpoint) (db : Database) (r : Option Registry × Bool)
      → Written key (parsed_key c.prepared.parsed) w.database o db
      → IsStored (finish_change key was c parsed plan w (o, db, r)).1
  unfolding IsStored Written new_state_from_prepared
  finish-IsStored ok (inl error) db (r, started) same =
      λ j. ok j ∙ ap (λ (d : Database). lookup j d.managed) (sym same)
  finish-IsStored ok (inr stored) db (r, started) (named, rows) = λ j.
      let state = new_state_from_prepared stored parsed c.effective in
      stored-replace key j state w.states
      ∙ ap
          (λ k.
            if string_eq.beq k j
            then some stored
            else (if string_eq.beq key j then none else stored_of (lookup j w.states)))
          named
      ∙ ap
          (λ x.
            if string_eq.beq (parsed_key c.prepared.parsed) j
            then some stored
            else (if string_eq.beq key j then none else x))
          (ok j)
      ∙ sym (rows j)

unless_key :
    (y : Bool) (o : Option State)
    → stored_of (if y then none else o) ≡ (if y then none else stored_of o)
unless_key true o = refl
unless_key false o = refl

twice :
    (x : Bool) (stored : ManagedEndpoint) (o : Option ManagedEndpoint)
    → (if x then some stored else if x then none else o) ≡ (if x then some stored else o)
twice true stored o = refl
twice false stored o = refl

stored-remove :
    (key j : String) (states : List (String × State))
    → stored_of (lookup j (delete key states))
      ≡ (if string_eq.beq key j then none else stored_of (lookup j states))
stored-remove key j states =
    ap stored_of (lookup-delete key j states) ∙ unless_key (string_eq.beq key j) (lookup j states)

begun-IsStored :
    {A : Type 0} (env : Env) (w : World) (next : (Error ⊎ A) × World)
    → IsStored w
    → IsStored next.1
    → IsStored (begin_change env w next).1
begun-IsStored env w next ok done = elim (Bool-cases env.busy) [
  | inl p ↦ rw p ok
  | inr p ↦ rw p done
]

module _ (env : Env) (key : String) (expected : ℕ) (author : String) (w : World)
    (ok : IsStored w) where
  planned-IsStored :
      (c : Change) (was : Bool) (r : Option Registry) (plan : Error ⊎ Option (List PageUpdate))
      → IsStored (planned_change env key expected author c was w r plan).1
  unfolding planned_change IsStored
  planned-IsStored c was r (inl error) = ok
  planned-IsStored c was r (inr plan) =
      let parsed = restored_change env key c in
      let out = write_change env key expected author c parsed plan w.database r in
      finish-IsStored key was c parsed plan w ok out.0 out.1 out.2
        (write-Written env key expected author c parsed plan w.database r)

  stopped-IsStored :
      (c : Change) (was : Bool) (o : Option Error × Option Registry)
      → IsStored (stopped_change env key expected author c was w o).1
  unfolding stopped_change IsStored
  stopped-IsStored c was (some error, r) = ok
  stopped-IsStored c was (none, r) = planned-IsStored c was r (rename_plan env key author c)

  run-IsStored : (o : Error ⊎ Change) → IsStored (run_change env key expected author w o).1
  unfolding run_change IsStored
  run-IsStored (inl error) = ok
  run-IsStored (inr c) =
      let was = was_monitored_of key c.state w.registry in
      stopped-IsStored c was (stop_previous key was w.registry)

  update_endpoint-IsStored :
      (raw : String) → IsStored (update_endpoint env key raw expected author w).1
  unfolding update_endpoint
  update_endpoint-IsStored raw = run-IsStored (checked_change env w key raw expected)

  run_enabled-IsStored : (o : Error ⊎ String) → IsStored (run_enabled env key expected author w o).1
  unfolding IsStored
  run_enabled-IsStored (inl error) = ok
  run_enabled-IsStored (inr raw) = update_endpoint-IsStored raw

  finish_delete-IsStored :
      (was : Bool) (state : State) (o : Error ⊎ Bool) (db : Database) (r : Option Registry)
      → ((error : Error) × (o ≡ inl error) × (db ≡ w.database))
        ⊎ (db.managed ≡ delete key w.database.managed)
      → ((done : Bool) × (o ≡ inr done)) ⊎ (db ≡ w.database)
      → IsStored (finish_delete key was state w (o, db, r)).1
  unfolding finish_delete IsStored remove_state
  finish_delete-IsStored was state (inl error) db r h (inl (done, is)) = absurd cc
  finish_delete-IsStored was state (inl error) db r h (inr same) =
      λ j. ok j ∙ ap (λ (d : Database). lookup j d.managed) (sym same)
  finish_delete-IsStored was state (inr done) db r (inl (error, is, same)) k = absurd cc
  finish_delete-IsStored was state (inr done) db r (inr table) k = λ j.
      stored-remove key j w.states
      ∙ ap (λ x. if string_eq.beq key j then none else x) (ok j)
      ∙ sym (ap (λ t. lookup j t) table ∙ lookup-delete key j w.database.managed)

  stopped_delete-IsStored :
      (was : Bool) (state : State) (o : Option Error × Option Registry)
      → IsStored (stopped_delete env key expected was state w o).1
  unfolding stopped_delete IsStored
  stopped_delete-IsStored was state (some error, r) = ok
  stopped_delete-IsStored was state (none, r) =
      let data_too = not (in_conflict state) in
      let nothing : Option Registry → Option Error × Option Registry = λ r. (none, r) in
      let out = delete_managed_endpoint env.driver key expected data_too nothing w.database r in
      elim (delete-Leaves env.driver key expected data_too nothing w.database r) [
        | inl (error, is, same) ↦
            finish_delete-IsStored was state out.0 out.1 out.2 (inl (error, is, same)) (inr same)
        | inr (row, done, found, version, is, after, table) ↦
            finish_delete-IsStored was state out.0 out.1 out.2 (inr table) (inl (done, is))
      ]

  run_delete-IsStored : (o : Error ⊎ State) → IsStored (run_delete env key expected w o).1
  unfolding run_delete IsStored
  run_delete-IsStored (inl error) = ok
  run_delete-IsStored (inr state) =
      let was = not (in_conflict state) && was_monitored_of key state w.registry in
      stopped_delete-IsStored was state (stop_previous key was w.registry)

  finish_creation-IsStored :
      (c : Creation) (o : Error ⊎ ManagedEndpoint) (db : Database) (r : Option Registry × Bool)
      → ((error : Error) × (o ≡ inl error) × (db ≡ w.database))
        ⊎ ((row : ManagedEndpoint) × (o ≡ inr row)
            × (db.managed ≡ insert row.key row w.database.managed))
      → IsStored (finish_creation c w (o, db, r)).1
  unfolding IsStored put_state new_state_from_prepared
  finish_creation-IsStored c (inl error) db (r, started) (inl (e, is, same)) =
      λ j. ok j ∙ ap (λ (d : Database). lookup j d.managed) (sym same)
  finish_creation-IsStored c (inl error) db (r, started) (inr (row, is, table)) = absurd cc
  finish_creation-IsStored c (inr stored) db (r, started) (inl (e, is, same)) = absurd cc
  finish_creation-IsStored c (inr stored) db (r, started) (inr (row, is, table)) = λ j.
      let state = new_state_from_prepared stored c.parsed c.effective in
      let same : row ≡ stored = cc in
      stored-replace stored.key j state w.states
      ∙ ap
          (λ x.
            if string_eq.beq stored.key j
            then some stored
            else (if string_eq.beq stored.key j then none else x))
          (ok j)
      ∙ twice (string_eq.beq stored.key j) stored (lookup j w.database.managed)
      ∙ sym (
          ap (λ t. lookup j t) table
          ∙ ap (λ (x : ManagedEndpoint). lookup j (insert x.key x w.database.managed)) same
          ∙ lookup-insert stored.key j stored w.database.managed)

  pub update-IsStored : (raw : String) → IsStored (update env key raw expected author w).1
  unfolding update
  update-IsStored raw =
      begun-IsStored env w (update_endpoint env key raw expected author w) ok
        (update_endpoint-IsStored raw)

  pub set_enabled-IsStored :
      (enabled : Bool) → IsStored (set_enabled env key enabled expected author w).1
  unfolding set_enabled
  set_enabled-IsStored enabled =
      let raw =
        and_then (managed_state env w.states key)
          (λ (state : State). env.with_enabled enabled state.stored.definition) in
      begun-IsStored env w (run_enabled env key expected author w raw) ok (run_enabled-IsStored raw)

  pub delete_endpoint-IsStored : IsStored (delete_endpoint env key expected w).1
  unfolding delete_endpoint
  delete_endpoint-IsStored =
      let state = expected_state env w key expected in
      begun-IsStored env w (run_delete env key expected w state) ok (run_delete-IsStored state)

  run_creation-IsStored : (o : Error ⊎ Creation) → IsStored (run_creation env author w o).1
  unfolding run_creation IsStored
  run_creation-IsStored (inl error) = ok
  run_creation-IsStored (inr c) =
      let m : ManagedEndpoint = record {
        key = c.key;
        definition = c.prepared.definition;
        version = 0;
        created_at = 0;
        updated_at = 0;
        updated_by = author;
      } in
      let r : Option Registry × Bool = (w.registry, false) in
      let out = create_managed_endpoint env.driver env.now m (apply_change c.parsed) w.database r in
      elim (create-Leaves env.driver env.now m (apply_change c.parsed) w.database r) [
        | inl failed ↦ finish_creation-IsStored c out.0 out.1 out.2 (inl failed)
        | inr (absent, is, table) ↦
            let row : ManagedEndpoint = record m {
              version = 1;
              created_at = env.now;
              updated_at = env.now;
            } in
            finish_creation-IsStored c out.0 out.1 out.2
              (inr (row, is, ap (λ (d : Database). d.managed) table))
      ]

  pub create-IsStored :
      (generate_token : Bool) (raw : String) → IsStored (create env generate_token raw author w).1
  unfolding create
  create-IsStored generate_token raw =
      let c = checked_creation env generate_token raw w in
      begun-IsStored env w (run_creation env author w c) ok (run_creation-IsStored c)
