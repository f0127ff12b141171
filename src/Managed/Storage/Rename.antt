-- ===== src/Managed/Storage/Rename.antt =====
-- `RenameManagedEndpoint` of internal/storage/store/sql/managed_endpoints.go.
pub mod Tables
use go_uptime.Managed.Storage.{
  History, Page, Database, Statement, Driver, guarded, required, in_transaction, with_version,
  updated_row, and_then, update_page, count_managed, count_endpoints, update_managed,
  update_endpoints, select_version,
}
use go_uptime.Managed.{
  Error, ManagedEndpoint, managed_endpoint_version_mismatch, endpoint_key_in_use,
  managed_status_page_version_mismatch, is_present,
}
use go_uptime.Common.{
  ℕ, suc, String, Bool, true, false, not, ◌&&◌, ◌||◌, Option, none, some, List, [], ◌∷◌, ◌==◌, ◌⊎◌,
  inl, inr, if◌then◌else◌, lookup, insert, delete, string_eq,
}

pub record PageUpdate : Type 0 where
  pub slug : String
  pub definition : String
  pub updated_by : String
  pub expected_version : ℕ

-- `ManagedEndpointRename`
pub record Rename : Type 0 where
  pub old_key : String
  pub name : String
  pub group : String
  pub move_history : Bool
  pub status_pages : List PageUpdate

-- The unique constraints of `endpoints`: no other row has the key, nor the name and the group.
abbrev pub is_named_in : String → String → String → List (String × History) → Bool
is_named_in key name group [] = false
is_named_in key name group ((j, h) ∷ others) =
    (string_eq.beq j key || (string_eq.beq h.name name && string_eq.beq h.group group))
    || is_named_in key name group others

abbrev pub moved_history :
    String → Rename → List (String × History) → Option History → Error ⊎ List (String × History)
moved_history key r endpoints none = inr endpoints
moved_history key r endpoints (some h) =
    let others = delete r.old_key endpoints in
    if is_named_in key r.name r.group others
    then inl endpoint_key_in_use
    else inr (insert key (record h { name = r.name; group = r.group }) others)

-- UPDATE endpoints, when the history moves.
abbrev pub move_history_of :
    Driver → String → Rename → List (String × History) → Error ⊎ List (String × History)
move_history_of driver key r endpoints =
    if r.move_history
    then guarded driver update_endpoints
        (moved_history key r endpoints (lookup r.old_key endpoints))
    else inr endpoints

abbrev updated_page :
    ℕ → PageUpdate → List (String × Page) → Option Page → Error ⊎ List (String × Page)
updated_page now u pages none = inl managed_status_page_version_mismatch
updated_page now u pages (some page) =
    let after : Page = record {
      definition = u.definition;
      version = suc u.expected_version;
      updated_at = now;
      updated_by = u.updated_by;
    } in
    required (page.version == u.expected_version) managed_status_page_version_mismatch
      (inr (insert u.slug after pages))

unfoldable pub update_pages :
    Driver → ℕ → List PageUpdate → List (String × Page) → Error ⊎ List (String × Page)
update_pages driver now [] pages = inr pages
update_pages driver now (u ∷ us) pages =
    and_then (guarded driver update_page (updated_page now u pages (lookup u.slug pages)))
      (update_pages driver now us)

-- The two SELECT COUNT(*) on the new key.
abbrev pub unless_used {ℓ} :
    {A : Type ℓ} → Driver → String → String → Database → Error ⊎ A → Error ⊎ A
unless_used driver old_key key db next =
    if string_eq.beq key old_key
    then next
    else guarded driver count_managed (
        required (not (is_present (lookup key db.managed))) endpoint_key_in_use (
          guarded driver count_endpoints
            (required (not (is_present (lookup key db.endpoints))) endpoint_key_in_use next)))

unfoldable pub rename_written :
    Driver
    → ℕ
    → ManagedEndpoint
    → ℕ
    → Rename
    → Database
    → ManagedEndpoint
    → Error ⊎ (ManagedEndpoint × Database)
unfolding update_pages
rename_written driver now m expected r db row =
    let after = updated_row now expected m row in
    unless_used driver r.old_key m.key db (
      guarded driver update_managed (
        required (not driver.taken) endpoint_key_in_use (
          required (not driver.raced) managed_endpoint_version_mismatch (
            and_then (move_history_of driver m.key r db.endpoints) (λ endpoints.
              and_then (update_pages driver now r.status_pages db.pages) (λ pages. inr (
                after,
                record {
                  managed = insert m.key after (delete r.old_key db.managed);
                  endpoints = endpoints;
                  pages = pages;
                },
              )))))))

unfoldable pub rename_managed_endpoint {κ} :
    {W : Type κ}
    → Driver
    → ℕ
    → ManagedEndpoint
    → ℕ
    → Rename
    → (W → Option Error × W)
    → Database
    → W
    → (Error ⊎ ManagedEndpoint) × Database × W
unfolding in_transaction rename_written
rename_managed_endpoint driver now m expected r apply db w =
    in_transaction driver
      (λ db. guarded driver select_version (
        with_version expected (rename_written driver now m expected r db)
          (lookup r.old_key db.managed)))
      apply db w
