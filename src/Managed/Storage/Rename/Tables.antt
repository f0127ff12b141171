-- ===== src/Managed/Storage/Rename/Tables.antt =====
-- internal/storage/store/sql/managed_endpoints.go: what a rename leaves in the tables.
use go_uptime.Managed.Storage.Steps.{
  Leaves, in_transaction-Leaves, guarded-inr, required-inr, and_then-inr, inr-pair,
  with_version-inr,
}
use go_uptime.Managed.Storage.Rename.{
  Rename, rename_managed_endpoint, rename_written, unless_used, move_history_of, update_pages,
}
use go_uptime.Managed.Storage.{
  History, Page, Database, Driver, guarded, required, in_transaction, with_version, updated_row,
  and_then, count_managed, count_endpoints, update_managed, select_version,
}
use go_uptime.Managed.{
  Error, ManagedEndpoint, managed_endpoint_version_mismatch, endpoint_key_in_use, is_present,
}
use go_uptime.Common.{
  ℕ, String, Bool, false, not, Option, some, List, ◌≡◌, sym, ap, ◌∙◌, arith, ◌⊎◌, inl, inr,
  if◌then◌else◌, lookup, insert, delete, string_eq, Bool-cases,
}

else_of : {A : Type 0} (b : Bool) (x y : A) {z : A} → b ≡ false → (if b then x else y) ≡ z → y ≡ z
else_of b x y p h = ground (arith, p, h)

unless_used-inr :
    {A : Type 0} (driver : Driver) (old_key key : String) (db : Database) (next : Error ⊎ A) {a : A}
    → unless_used driver old_key key db next ≡ inr a
    → next ≡ inr a
unless_used-inr driver old_key key db next h = elim (Bool-cases (string_eq.beq key old_key)) [
  | inl p ↦ ground (arith, h, p)
  | inr p ↦
      let free = required (not (is_present (lookup key db.endpoints))) endpoint_key_in_use next in
      let counted = guarded driver count_endpoints free in
      let h2 =
        guarded-inr driver count_managed
          (required (not (is_present (lookup key db.managed))) endpoint_key_in_use counted)
          (else_of (string_eq.beq key old_key) next
            (guarded driver count_managed
              (required (not (is_present (lookup key db.managed))) endpoint_key_in_use counted))
            p h) in
      let (u, h3) =
        required-inr (not (is_present (lookup key db.managed))) endpoint_key_in_use counted h2 in
      let h4 = guarded-inr driver count_endpoints free h3 in
      (required-inr (not (is_present (lookup key db.endpoints))) endpoint_key_in_use next h4).1
]

rename_written-tables :
    (driver : Driver) (now : ℕ) (m : ManagedEndpoint) (expected : ℕ) (r : Rename)
    (db after : Database) (a row : ManagedEndpoint)
    → rename_written driver now m expected r db row ≡ inr (a, after)
    → (a ≡ updated_row now expected m row)
      × (after.managed ≡ insert m.key a (delete r.old_key db.managed))
      × (move_history_of driver m.key r db.endpoints ≡ inr after.endpoints)
      × (update_pages driver now r.status_pages db.pages ≡ inr after.pages)
unfolding rename_written
rename_written-tables driver now m expected r db after a row h =
    let b : ManagedEndpoint = updated_row now expected m row in
    let written : List (String × History) → List (String × Page) → Database = λ endpoints pages.
      record {
        managed = insert m.key b (delete r.old_key db.managed);
        endpoints = endpoints;
        pages = pages;
      } in
    let with_pages : List (String × History) → Error ⊎ (ManagedEndpoint × Database) = λ endpoints.
      and_then (update_pages driver now r.status_pages db.pages)
        (λ pages. inr (b, written endpoints pages)) in
    let moved = and_then (move_history_of driver m.key r db.endpoints) with_pages in
    let unraced = required (not driver.raced) managed_endpoint_version_mismatch moved in
    let free = required (not driver.taken) endpoint_key_in_use unraced in
    let h1 = unless_used-inr driver r.old_key m.key db (guarded driver update_managed free) h in
    let h2 = guarded-inr driver update_managed free h1 in
    let (u, h3) = required-inr (not driver.taken) endpoint_key_in_use unraced h2 in
    let (v, h4) = required-inr (not driver.raced) managed_endpoint_version_mismatch moved h3 in
    let (endpoints, is_endpoints, h5) =
      and_then-inr (move_history_of driver m.key r db.endpoints) with_pages h4 in
    let (pages, is_pages, h6) =
      and_then-inr (update_pages driver now r.status_pages db.pages)
        (λ pages. inr (b, written endpoints pages)) h5 in
    let (same, same') = inr-pair h6 in
    (
      sym same,
      ap (λ (d : Database). d.managed) (sym same')
          ∙ ap (λ x. insert m.key x (delete r.old_key db.managed)) same,
      is_endpoints ∙ ap (λ (d : Database). inr d.endpoints) same',
      is_pages ∙ ap (λ (d : Database). inr d.pages) same',
    )

pub rename-Leaves :
    {W : Type 0} (driver : Driver) (now : ℕ) (m : ManagedEndpoint) (expected : ℕ) (r : Rename)
    (apply : W → Option Error × W) (db : Database) (w : W)
    → let out = rename_managed_endpoint driver now m expected r apply db w in
      ((error : Error) × (out.0 ≡ inl error) × (out.1 ≡ db))
      ⊎ ((row : ManagedEndpoint) × (lookup r.old_key db.managed ≡ some row)
          × (row.version ≡ expected)
          × (out.0 ≡ inr (updated_row now expected m row))
          × (out.1.managed
              ≡ insert m.key (updated_row now expected m row) (delete r.old_key db.managed))
          × (move_history_of driver m.key r db.endpoints ≡ inr out.1.endpoints)
          × (update_pages driver now r.status_pages db.pages ≡ inr out.1.pages))
unfolding rename_managed_endpoint Leaves
rename-Leaves driver now m expected r apply db w =
    let next : ManagedEndpoint → Error ⊎ (ManagedEndpoint × Database) =
      rename_written driver now m expected r db in
    let write : Database → Error ⊎ (ManagedEndpoint × Database) = λ db.
      guarded driver select_version (
        with_version expected (rename_written driver now m expected r db)
          (lookup r.old_key db.managed)) in
    elim (in_transaction-Leaves driver write apply db w) [
      | inl failed ↦ inl failed
      | inr (a, written, is) ↦
          let step =
            guarded-inr driver select_version
              (with_version expected next (lookup r.old_key db.managed)) written in
          let (row, found, same, rest) =
            with_version-inr expected next (lookup r.old_key db.managed) step in
          let (is_row, is_managed, is_endpoints, is_pages) =
            rename_written-tables driver now m expected r db
              (in_transaction driver write apply db w).1 a row rest in
          inr (
            row,
            found,
            same,
            is ∙ ap (λ x. inr x) is_row,
            is_managed ∙ ap (λ x. insert m.key x (delete r.old_key db.managed)) is_row,
            is_endpoints,
            is_pages,
          )
    ]
