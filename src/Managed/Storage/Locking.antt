-- ===== src/Managed/Storage/Locking.antt =====
-- internal/storage/store/sql/managed_endpoints.go: the versions that keep a change from being lost.
use go_uptime.Managed.Storage.Steps.{update-Leaves}
use go_uptime.Managed.Storage.{
  Database, Statement, Driver, updated_row, in_transaction, update_managed_endpoint,
  delete_managed_endpoint,
}
use go_uptime.Managed.Storage.Rename.{Rename, rename_managed_endpoint}
use go_uptime.Managed.{Error, ManagedEndpoint, managed_endpoint_version_mismatch}
use go_uptime.Common.{
  ℕ, suc, String, Bool, Option, some, ◌==◌, ◌≡◌, false, refl, ap, ◌∙◌, arith, inl, inr, lookup,
  string_eq, lookup-insert, beq_refl,
}

module _ {W : Type 0} (driver : Driver) (works : (s : Statement) → driver.fails s ≡ false) (now : ℕ)
    (expected : ℕ) (apply : W → Option Error × W) (db : Database) (w : W) where
  stale_update :
      (m row : ManagedEndpoint)
      → lookup m.key db.managed ≡ some row
      → (row.version == expected) ≡ false
      → update_managed_endpoint driver now m expected apply db w
        ≡ (inl managed_endpoint_version_mismatch, db, w)
  unfolding update_managed_endpoint in_transaction
  stale_update m row found old = simp (works, found, old) refl

  stale_rename :
      (m row : ManagedEndpoint) (r : Rename)
      → lookup r.old_key db.managed ≡ some row
      → (row.version == expected) ≡ false
      → rename_managed_endpoint driver now m expected r apply db w
        ≡ (inl managed_endpoint_version_mismatch, db, w)
  unfolding rename_managed_endpoint in_transaction
  stale_rename m row r found old = simp (works, found, old) refl

  stale_delete :
      (key : String) (data_too : Bool) (row : ManagedEndpoint)
      → lookup key db.managed ≡ some row
      → (row.version == expected) ≡ false
      → delete_managed_endpoint driver key expected data_too apply db w
        ≡ (inl managed_endpoint_version_mismatch, db, w)
  unfolding delete_managed_endpoint in_transaction
  stale_delete key data_too row found old = simp (works, found, old) refl

suc_differs : (n : ℕ) → (suc n == n) ≡ false
suc_differs n = ground arith

-- Of two changes of a managed endpoint that expect the same version, the first to be committed wins:
-- after an update that succeeded, whatever the drivers of the first did, an update, a rename and a
-- deletion that expect the version it replaced are refused for their version by a storage that
-- answers, and leave the tables and the rest of the program as they are.
pub update-refuses_stale :
    {W : Type 0} (first second : Driver)
    → ((s : Statement) → second.fails s ≡ false)
    → (now then_ expected : ℕ) (m stored n : ManagedEndpoint) (r : Rename) (data_too : Bool)
      (apply apply' : W → Option Error × W) (db : Database) (w w' : W)
    → (update_managed_endpoint first now m expected apply db w).0 ≡ inr stored
    → n.key ≡ m.key
    → r.old_key ≡ m.key
    → let after = (update_managed_endpoint first now m expected apply db w).1 in
      (update_managed_endpoint second then_ n expected apply' after w'
        ≡ (inl managed_endpoint_version_mismatch, after, w'))
      × (rename_managed_endpoint second then_ n expected r apply' after w'
          ≡ (inl managed_endpoint_version_mismatch, after, w'))
      × (delete_managed_endpoint second m.key expected data_too apply' after w'
          ≡ (inl managed_endpoint_version_mismatch, after, w'))
update-refuses_stale first second works now then_ expected m stored n r data_too apply apply' db w
      w' done same same' =
    elim (update-Leaves first now m expected apply db w) [
      | inl (error, failed, kept) ↦ absurd (ground (arith, done, failed))
      | inr (row, found, version, is, written) ↦
          let after = (update_managed_endpoint first now m expected apply db w).1 in
          let new_row : ManagedEndpoint = updated_row now expected m row in
          let there : lookup m.key after.managed ≡ some new_row =
            ap (λ (d : Database). lookup m.key d.managed) written
            ∙ lookup-insert m.key m.key new_row db.managed
            ∙ simp (beq_refl m.key) refl in
          let old : (new_row.version == expected) ≡ false = suc_differs expected in
          (
            stale_update second works then_ expected apply' after w' n new_row
                (ap (λ k. lookup k after.managed) same ∙ there) old,
            stale_rename second works then_ expected apply' after w' n new_row r
                (ap (λ k. lookup k after.managed) same' ∙ there) old,
            stale_delete second works then_ expected apply' after w' m.key data_too new_row there
                old,
          )
    ]
