-- ===== src/Managed/Storage/Applied.antt =====
-- internal/storage/store/sql/managed_endpoints.go: what a transaction makes of the rest of the
-- program, with the function that it applies.
use go_uptime.Managed.Storage.{
  Database, Driver, in_transaction, apply_written, commit_applied, commit, begin, guarded,
  select_version, with_version, update_written, update_managed_endpoint,
}
use go_uptime.Managed.Storage.Rename.{Rename, rename_written, rename_managed_endpoint}
use go_uptime.Managed.{Error, ManagedEndpoint}
use go_uptime.Common.{
  Option, none, some, ◌≡◌, refl, sym, ap, ◌⊎◌, inl, inr, ℕ, lookup, string_eq, Bool-cases,
}

-- A transaction that succeeds has applied the function, which did not fail; one that fails may have.
unfoldable pub Applies :
    {A : Type 0} {W : Type 0} → (W → Option Error × W) → W → Error ⊎ A → W → Type 0
Applies apply w (inl error) after = (after ≡ w) ⊎ (after ≡ (apply w).1)
Applies apply w (inr a) after = ((apply w).0 ≡ none) × (after ≡ (apply w).1)

module _ {W : Type 0} (driver : Driver) (apply : W → Option Error × W) (w : W) where
  commit_applied-Applies :
      {A : Type 0} (db : Database) (changed : A × Database) (applied : Option Error × W)
      → applied ≡ apply w
      → let out = commit_applied driver db changed applied in Applies apply w out.0 out.2
  unfolding Applies
  commit_applied-Applies db changed (some error, after) is =
      inr (ap (λ (x : Option Error × W). x.1) is)
  commit_applied-Applies db (a, changed) (none, after) is =
      elim (Bool-cases (driver.fails commit)) [
        | inl h ↦ rw h (inr (ap (λ (x : Option Error × W). x.1) is))
        | inr h ↦
            rw h
              (ap (λ (x : Option Error × W). x.0) (sym is), ap (λ (x : Option Error × W). x.1) is)
      ]

  apply_written-Applies :
      {A : Type 0} (db : Database) (written : Error ⊎ (A × Database))
      → let out = apply_written driver apply db w written in Applies apply w out.0 out.2
  unfolding Applies
  apply_written-Applies db (inl error) = inl refl
  apply_written-Applies db (inr changed) = commit_applied-Applies db changed (apply w) refl

  in_transaction-Applies :
      {A : Type 0} (write : Database → Error ⊎ (A × Database)) (db : Database)
      → let out = in_transaction driver write apply db w in Applies apply w out.0 out.2
  unfolding in_transaction Applies
  in_transaction-Applies write db = elim (Bool-cases (driver.fails begin)) [
    | inl h ↦ rw h (inl refl)
    | inr h ↦ rw h (apply_written-Applies db (write db))
  ]

  pub update-Applies :
      (now : ℕ) (m : ManagedEndpoint) (expected : ℕ) (db : Database)
      → let out = update_managed_endpoint driver now m expected apply db w in
        Applies apply w out.0 out.2
  unfolding update_managed_endpoint
  update-Applies now m expected db =
      let write : Database → Error ⊎ (ManagedEndpoint × Database) = λ db.
        guarded driver select_version (
          with_version expected (update_written driver now m expected db)
            (lookup m.key db.managed)) in
      in_transaction-Applies write db

  pub rename-Applies :
      (now : ℕ) (m : ManagedEndpoint) (expected : ℕ) (r : Rename) (db : Database)
      → let out = rename_managed_endpoint driver now m expected r apply db w in
        Applies apply w out.0 out.2
  unfolding rename_managed_endpoint
  rename-Applies now m expected r db =
      let write : Database → Error ⊎ (ManagedEndpoint × Database) = λ db.
        guarded driver select_version (
          with_version expected (rename_written driver now m expected r db)
            (lookup r.old_key db.managed)) in
      in_transaction-Applies write db
