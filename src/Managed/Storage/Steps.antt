-- ===== src/Managed/Storage/Steps.antt =====
-- internal/storage/store/sql/managed_endpoints.go: what a transaction leaves.
use mathlib.Core.Path.{Path}
use go_uptime.Managed.Storage.{
  Database, Statement, Driver, guarded, required, in_transaction, with_version, updated_row,
  and_then, apply_written, commit_applied, update_managed_endpoint, commit, begin, update_written,
  select_version, update_managed,
}
use go_uptime.Managed.{Error, ManagedEndpoint, managed_endpoint_version_mismatch, driver_error}
use go_uptime.Common.{
  ℕ, Bool, true, false, not, Option, none, some, ◌==◌, ◌≡◌, refl, sym, ap, ◌∙◌, arith, ◌⊎◌, inl,
  inr, lookup, insert, string_eq, ==_iff, Bool-cases,
}

-- What a transaction leaves: the tables as they were and an error, or what was written.
unfoldable pub Leaves :
    {A : Type 0} {W : Type 0}
    → Error ⊎ (A × Database)
    → Database
    → (Error ⊎ A) × Database × W
    → Type 0
Leaves {A = A} written db (outcome, after, w) =
    ((error : Error) × (outcome ≡ inl error) × (after ≡ db))
    ⊎ ((a : A) × (written ≡ inr (a, after)) × (outcome ≡ inr a))

module _ {A : Type 0} {W : Type 0} (driver : Driver) where
  commit_applied-Leaves :
      (db : Database) (changed : A × Database) (applied : Option Error × W)
      → Leaves (inr changed) db (commit_applied driver db changed applied)
  unfolding Leaves
  commit_applied-Leaves db changed (some error, w) = inl (error, refl, refl)
  commit_applied-Leaves db (a, changed) (none, w) = elim (Bool-cases (driver.fails commit)) [
    | inl h ↦ rw h (inl (driver_error, refl, refl))
    | inr h ↦ rw h (inr (a, refl, refl))
  ]

  apply_written-Leaves :
      (apply : W → Option Error × W) (db : Database) (w : W) (written : Error ⊎ (A × Database))
      → Leaves written db (apply_written driver apply db w written)
  unfolding Leaves
  apply_written-Leaves apply db w (inl error) = inl (error, refl, refl)
  apply_written-Leaves apply db w (inr changed) = commit_applied-Leaves db changed (apply w)

  pub in_transaction-Leaves :
      (write : Database → Error ⊎ (A × Database)) (apply : W → Option Error × W) (db : Database)
      (w : W)
      → Leaves (write db) db (in_transaction driver write apply db w)
  unfolding in_transaction Leaves
  in_transaction-Leaves write apply db w = elim (Bool-cases (driver.fails begin)) [
    | inl h ↦ rw h (inl (driver_error, refl, refl))
    | inr h ↦ rw h (apply_written-Leaves apply db w (write db))
  ]

pub guarded-inr :
    {A : Type 0} (driver : Driver) (statement : Statement) (next : Error ⊎ A) {a : A}
    → guarded driver statement next ≡ inr a
    → next ≡ inr a
guarded-inr driver statement next h = elim (Bool-cases (driver.fails statement)) [
  | inl p ↦ absurd (ground (arith, h, p))
  | inr p ↦ ground (arith, h, p)
]

pub required-inr :
    {A : Type 0} (b : Bool) (error : Error) (next : Error ⊎ A) {a : A}
    → required b error next ≡ inr a
    → (b ≡ true) × (next ≡ inr a)
required-inr true error next h = (refl, h)
required-inr false error next h = absurd cc

pub and_then-inr :
    {A : Type 0} {B : Type 0} (o : Error ⊎ A) (f : A → Error ⊎ B) {b : B}
    → and_then o f ≡ inr b
    → (a : A) × (o ≡ inr a) × (f a ≡ inr b)
and_then-inr (inl error) f h = absurd cc
and_then-inr (inr a) f h = (a, refl, h)

pub inr-pair :
    {A : Type 0} {B : Type 0} {E : Type 0} {a a' : A} {b b' : B}
    → Path (E ⊎ (A × B)) (inr (a, b)) (inr (a', b'))
    → (a ≡ a') × (b ≡ b')
inr-pair h = (cc, cc)

pub with_version-inr :
    {A : Type 0} (expected : ℕ) (next : ManagedEndpoint → Error ⊎ A) (o : Option ManagedEndpoint)
    {a : A}
    → with_version expected next o ≡ inr a
    → (row : ManagedEndpoint) × (o ≡ some row) × (row.version ≡ expected) × (next row ≡ inr a)
with_version-inr expected next none h = absurd cc
with_version-inr expected next (some row) h =
    let (same, rest) =
      required-inr (row.version == expected) managed_endpoint_version_mismatch (next row) h in
    (row, refl, (==_iff row.version expected).0 same, rest)

pub update_written-row :
    (driver : Driver) (now : ℕ) (m : ManagedEndpoint) (expected : ℕ) (db after : Database)
    (a row : ManagedEndpoint)
    → update_written driver now m expected db row ≡ inr (a, after)
    → (a ≡ updated_row now expected m row)
      × (after ≡ record db { managed = insert m.key a db.managed })
update_written-row driver now m expected db after a row h =
    let b : ManagedEndpoint = updated_row now expected m row in
    let changed : Database = record db { managed = insert m.key b db.managed } in
    let written : Error ⊎ (ManagedEndpoint × Database) = inr (b, changed) in
    let step =
      guarded-inr driver update_managed
        (required (not driver.raced) managed_endpoint_version_mismatch written) h in
    let (untouched, is) =
      required-inr (not driver.raced) managed_endpoint_version_mismatch written step in
    let (same, same') = inr-pair is in
    (
      sym same,
      sym same'
          ∙ ap (λ (x : ManagedEndpoint). record db { managed = insert m.key x db.managed }) same,
    )

pub update-Leaves :
    {W : Type 0} (driver : Driver) (now : ℕ) (m : ManagedEndpoint) (expected : ℕ)
    (apply : W → Option Error × W) (db : Database) (w : W)
    → ((error : Error) × ((update_managed_endpoint driver now m expected apply db w).0 ≡ inl error)
        × ((update_managed_endpoint driver now m expected apply db w).1 ≡ db))
      ⊎ ((row : ManagedEndpoint) × (lookup m.key db.managed ≡ some row)
          × (row.version ≡ expected)
          × ((update_managed_endpoint driver now m expected apply db w).0
              ≡ inr (updated_row now expected m row))
          × ((update_managed_endpoint driver now m expected apply db w).1
              ≡ record db { managed = insert m.key (updated_row now expected m row) db.managed }))
unfolding update_managed_endpoint Leaves
update-Leaves driver now m expected apply db w =
    let write : Database → Error ⊎ (ManagedEndpoint × Database) = λ db.
      guarded driver select_version (
        with_version expected (update_written driver now m expected db)
          (lookup m.key db.managed)) in
    elim (in_transaction-Leaves driver write apply db w) [
      | inl failed ↦ inl failed
      | inr (a, written, is) ↦
          let step =
            guarded-inr driver select_version
              (with_version expected (update_written driver now m expected db)
                (lookup m.key db.managed))
              written in
          let (row, found, same, next) =
            with_version-inr expected (update_written driver now m expected db)
              (lookup m.key db.managed) step in
          let (is_row, is_db) =
            update_written-row driver now m expected db (in_transaction driver write apply db w).1 a
              row next in
          inr (
            row,
            found,
            same,
            is ∙ ap (λ x. inr x) is_row,
            is_db
                ∙ ap (λ (x : ManagedEndpoint). record db { managed = insert m.key x db.managed })
                    is_row,
          )
    ]
