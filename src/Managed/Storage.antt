-- ===== src/Managed/Storage.antt =====
-- internal/storage/store/sql/managed_endpoints.go, over the tables as association lists: the managed
-- endpoints by their unique key, the monitored endpoints with their history, and the status pages.
pub mod Steps
pub mod Rows
pub mod Applied
pub mod Locking
pub mod Rename
use go_uptime.Managed.{
  Error, ManagedEndpoint, managed_endpoint_not_found, managed_endpoint_already_exists,
  managed_endpoint_version_mismatch, driver_error,
}
use go_uptime.Common.{
  ℕ, suc, String, Bool, true, false, not, ◌&&◌, ◌||◌, Option, none, some, List, [], ◌∷◌, ◌==◌, ◌⊎◌,
  inl, inr, if◌then◌else◌, lookup, insert, delete, string_eq,
}

-- A row of `endpoints`, with all that references its id: results, events, uptimes, alerts.
pub record History : Type 0 where
  pub name : String
  pub group : String
  pub references : ℕ

pub record Page : Type 0 where
  pub definition : String
  pub version : ℕ
  pub updated_at : ℕ
  pub updated_by : String

pub record Database : Type 0 where
  pub managed : List (String × ManagedEndpoint)
  pub endpoints : List (String × History)
  pub pages : List (String × Page)

pub data Statement : Type 0 where
  begin insert_managed select_version count_managed count_endpoints : Statement
  update_managed update_endpoints update_page delete_managed delete_endpoints commit : Statement

-- The driver may fail at each statement. Another transaction may change the row of a managed
-- endpoint between the SELECT and the UPDATE (`raced`), or take the new key (`taken`).
pub record Driver : Type 0 where
  pub fails : Statement → Bool
  pub raced : Bool
  pub taken : Bool

abbrev pub guarded {ℓ} : {A : Type ℓ} → Driver → Statement → Error ⊎ A → Error ⊎ A
guarded driver statement next = if driver.fails statement then inl driver_error else next

abbrev pub required {ℓ} : {A : Type ℓ} → Bool → Error → Error ⊎ A → Error ⊎ A
required holds error next = if holds then next else inl error

-- `inTransaction`: the outcome, the tables and the rest of the program after it. `apply` is a
-- function of the caller that changes the rest of the program.
abbrev pub commit_applied {ℓ κ} :
    {A : Type ℓ} {W : Type κ}
    → Driver
    → Database
    → A × Database
    → Option Error × W
    → (Error ⊎ A) × Database × W
commit_applied driver db changed (some error, w) = (inl error, db, w)
commit_applied driver db (a, changed) (none, w) =
    if driver.fails commit then (inl driver_error, db, w) else (inr a, changed, w)

abbrev pub apply_written {ℓ κ} :
    {A : Type ℓ} {W : Type κ}
    → Driver
    → (W → Option Error × W)
    → Database
    → W
    → Error ⊎ (A × Database)
    → (Error ⊎ A) × Database × W
apply_written driver apply db w (inl error) = (inl error, db, w)
apply_written driver apply db w (inr changed) = commit_applied driver db changed (apply w)

unfoldable pub in_transaction {ℓ κ} :
    {A : Type ℓ} {W : Type κ}
    → Driver
    → (Database → Error ⊎ (A × Database))
    → (W → Option Error × W)
    → Database
    → W
    → (Error ⊎ A) × Database × W
in_transaction driver write apply db w =
    if driver.fails begin
    then (inl driver_error, db, w)
    else apply_written driver apply db w (write db)

abbrev pub insert_row :
    ManagedEndpoint → Database → Option ManagedEndpoint → Error ⊎ (ManagedEndpoint × Database)
insert_row row db (some other) = inl managed_endpoint_already_exists
insert_row row db none = inr (row, record db { managed = insert row.key row db.managed })

-- `CreateManagedEndpoint`: the version, the times and the author of the row are the caller's after
-- the commit.
unfoldable pub create_managed_endpoint {κ} :
    {W : Type κ}
    → Driver
    → ℕ
    → ManagedEndpoint
    → (W → Option Error × W)
    → Database
    → W
    → (Error ⊎ ManagedEndpoint) × Database × W
unfolding in_transaction
create_managed_endpoint driver now m apply db w =
    let row : ManagedEndpoint = record m { version = 1; created_at = now; updated_at = now } in
    in_transaction driver
      (λ db. guarded driver insert_managed (insert_row row db (lookup m.key db.managed))) apply db w

-- SELECT version, created_at, and the test of the version.
abbrev pub with_version {ℓ} :
    {A : Type ℓ} → ℕ → (ManagedEndpoint → Error ⊎ A) → Option ManagedEndpoint → Error ⊎ A
with_version expected next none = inl managed_endpoint_not_found
with_version expected next (some row) =
    required (row.version == expected) managed_endpoint_version_mismatch (next row)

-- The row after an UPDATE of a managed endpoint.
abbrev pub updated_row : ℕ → ℕ → ManagedEndpoint → ManagedEndpoint → ManagedEndpoint
updated_row now expected m row = record m {
  version = suc expected;
  created_at = row.created_at;
  updated_at = now;
}

abbrev pub update_written :
    Driver
    → ℕ
    → ManagedEndpoint
    → ℕ
    → Database
    → ManagedEndpoint
    → Error ⊎ (ManagedEndpoint × Database)
update_written driver now m expected db row =
    let after = updated_row now expected m row in
    guarded driver update_managed (
      required (not driver.raced) managed_endpoint_version_mismatch
        (inr (after, record db { managed = insert m.key after db.managed })))

unfoldable pub update_managed_endpoint {κ} :
    {W : Type κ}
    → Driver
    → ℕ
    → ManagedEndpoint
    → ℕ
    → (W → Option Error × W)
    → Database
    → W
    → (Error ⊎ ManagedEndpoint) × Database × W
unfolding in_transaction
update_managed_endpoint driver now m expected apply db w =
    in_transaction driver
      (λ db.
        guarded driver select_version (
          with_version expected (update_written driver now m expected db)
            (lookup m.key db.managed)))
      apply db w

abbrev pub and_then {ℓ κ} : {A : Type ℓ} {B : Type κ} → Error ⊎ A → (A → Error ⊎ B) → Error ⊎ B
and_then (inl error) f = inl error
and_then (inr a) f = f a

abbrev pub delete_data : Driver → Bool → String → Database → Error ⊎ Database
delete_data driver false key db = inr db
delete_data driver true key db =
    guarded driver delete_endpoints (inr (record db { endpoints = delete key db.endpoints }))

-- DELETE with the version, and the SELECT that tells why no row was affected.
abbrev pub delete_row :
    Driver → String → ℕ → Bool → Database → Option ManagedEndpoint → Error ⊎ (Bool × Database)
delete_row driver key expected data_too db none =
    guarded driver select_version (inl managed_endpoint_not_found)
delete_row driver key expected data_too db (some row) =
    if row.version == expected
    then and_then (delete_data driver data_too key (record db { managed = delete key db.managed }))
        (λ after. inr (true, after))
    else guarded driver select_version (inl managed_endpoint_version_mismatch)

-- `DeleteManagedEndpoint`; without an error it returns nothing, here `true`.
unfoldable pub delete_managed_endpoint {κ} :
    {W : Type κ}
    → Driver
    → String
    → ℕ
    → Bool
    → (W → Option Error × W)
    → Database
    → W
    → (Error ⊎ Bool) × Database × W
unfolding in_transaction
delete_managed_endpoint driver key expected data_too apply db w =
    in_transaction driver
      (λ db.
        guarded driver delete_managed
          (delete_row driver key expected data_too db (lookup key db.managed)))
      apply db w
