-- ===== src/Managed/Storage/Rows.antt =====
-- internal/storage/store/sql/managed_endpoints.go: what an insertion and a deletion leave in the
-- tables.
use mathlib.Core.Path.{Path}
use go_uptime.Managed.Storage.Steps.{
  Leaves, in_transaction-Leaves, guarded-inr, and_then-inr, inr-pair,
}
use go_uptime.Managed.Storage.{
  Database, Driver, guarded, in_transaction, select_version, insert_managed, insert_row,
  create_managed_endpoint, delete_managed_endpoint, delete_row, delete_data, delete_managed,
  delete_endpoints,
}
use go_uptime.Managed.{
  Error, ManagedEndpoint, managed_endpoint_version_mismatch, managed_endpoint_not_found,
}
use go_uptime.Common.{
  ℕ, String, Bool, true, false, Option, none, some, ◌==◌, ◌≡◌, refl, sym, ap, ◌∙◌, arith, ◌⊎◌, inl,
  inr, if◌then◌else◌, lookup, insert, delete, string_eq, Bool-cases, ==_iff,
}

else_of : {A : Type 0} (b : Bool) (x y : A) {z : A} → b ≡ false → (if b then x else y) ≡ z → y ≡ z
else_of b x y p h = ground (arith, p, h)

inserted :
    (row : ManagedEndpoint) (db : Database) (o : Option ManagedEndpoint) {a : ManagedEndpoint}
    {after : Database}
    → insert_row row db o ≡ inr (a, after)
    → (o ≡ none) × (a ≡ row) × (after ≡ record db { managed = insert row.key row db.managed })
inserted row db (some other) h = absurd cc
inserted row db none h = let (same, same') = inr-pair h in (refl, sym same, sym same')

pub create-Leaves :
    {W : Type 0} (driver : Driver) (now : ℕ) (m : ManagedEndpoint) (apply : W → Option Error × W)
    (db : Database) (w : W)
    → let out = create_managed_endpoint driver now m apply db w in
      let row : ManagedEndpoint = record m { version = 1; created_at = now; updated_at = now } in
      ((error : Error) × (out.0 ≡ inl error) × (out.1 ≡ db))
      ⊎ ((lookup m.key db.managed ≡ none)
          × (out.0 ≡ inr row)
          × (out.1 ≡ record db { managed = insert m.key row db.managed }))
unfolding create_managed_endpoint Leaves
create-Leaves driver now m apply db w =
    let row : ManagedEndpoint = record m { version = 1; created_at = now; updated_at = now } in
    let write : Database → Error ⊎ (ManagedEndpoint × Database) =
      λ db. guarded driver insert_managed (insert_row row db (lookup m.key db.managed)) in
    elim (in_transaction-Leaves driver write apply db w) [
      | inl failed ↦ inl failed
      | inr (a, written, is) ↦
          let step =
            guarded-inr driver insert_managed (insert_row row db (lookup m.key db.managed))
              written in
          let (absent, same, same') = inserted row db (lookup m.key db.managed) step in
          inr (absent, is ∙ ap (λ x. inr x) same, same')
    ]

delete_data-managed :
    (driver : Driver) (data_too : Bool) (key : String) (db after : Database)
    → delete_data driver data_too key db ≡ inr after
    → after.managed ≡ db.managed
delete_data-managed driver false key db after h = ground arith
delete_data-managed driver true key db after h =
    let changed : Database = record db { endpoints = delete key db.endpoints } in
    let step = guarded-inr driver delete_endpoints (inr changed) h in ground (arith, step)

then_of : {A : Type 0} (b : Bool) (x y : A) {z : A} → b ≡ true → (if b then x else y) ≡ z → x ≡ z
then_of b x y p h = ground (arith, p, h)

refused : {A : Type 0} {error : Error} {a : A} → Path (Error ⊎ A) (inl error) (inr a) → ⊥
refused h = cc

deleted_row :
    (driver : Driver) (key : String) (expected : ℕ) (data_too : Bool) (db : Database)
    (o : Option ManagedEndpoint) {a : Bool} {after : Database}
    → delete_row driver key expected data_too db o ≡ inr (a, after)
    → (row : ManagedEndpoint) × (o ≡ some row)
      × (row.version ≡ expected)
      × (delete_data driver data_too key (record db { managed = delete key db.managed })
          ≡ inr after)
deleted_row driver key expected data_too db none {a = a} {after = after} h =
    absurd (refused (guarded-inr driver select_version (inl managed_endpoint_not_found) h))
deleted_row driver key expected data_too db (some row) {a = a} {after = after} h =
    let without : Database = record db { managed = delete key db.managed } in
    elim (Bool-cases (row.version == expected)) [
      | inl p ↦
          let (d, is_d, same) =
            and_then-inr (delete_data driver data_too key without)
              (λ (after : Database). inr (true, after)) (then_of _ _ _ p h) in
          (row, refl, (==_iff row.version expected).0 p, is_d ∙ ap (λ x. inr x) (inr-pair same).1)
      | inr p ↦ absurd (
          refused (
            guarded-inr driver select_version (inl managed_endpoint_version_mismatch)
              (else_of _ _ _ p h)))
    ]

pub delete-Leaves :
    {W : Type 0} (driver : Driver) (key : String) (expected : ℕ) (data_too : Bool)
    (apply : W → Option Error × W) (db : Database) (w : W)
    → let out = delete_managed_endpoint driver key expected data_too apply db w in
      ((error : Error) × (out.0 ≡ inl error) × (out.1 ≡ db))
      ⊎ ((row : ManagedEndpoint) × (done : Bool) × (lookup key db.managed ≡ some row)
          × (row.version ≡ expected)
          × (out.0 ≡ inr done)
          × (delete_data driver data_too key (record db { managed = delete key db.managed })
              ≡ inr out.1)
          × (out.1.managed ≡ delete key db.managed))
unfolding delete_managed_endpoint Leaves
delete-Leaves driver key expected data_too apply db w =
    let write : Database → Error ⊎ (Bool × Database) = λ db.
      guarded driver delete_managed
        (delete_row driver key expected data_too db (lookup key db.managed)) in
    let without : Database = record db { managed = delete key db.managed } in
    elim (in_transaction-Leaves driver write apply db w) [
      | inl failed ↦ inl failed
      | inr (a, written, is) ↦
          let step =
            guarded-inr driver delete_managed
              (delete_row driver key expected data_too db (lookup key db.managed)) written in
          let (row, found, same, rest) =
            deleted_row driver key expected data_too db (lookup key db.managed) step in
          inr (
            row,
            a,
            found,
            same,
            is,
            rest,
            delete_data-managed driver data_too key without
                (in_transaction driver write apply db w).1 rest,
          )
    ]
