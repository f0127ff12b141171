-- ===== src/Memory/Paging.antt =====
-- internal/storage/store/memory/util.go and internal/storage/store/common/paging: the page of the
-- results and of the events that a status is copied with. Page 1 holds the newest.
pub mod Pages
use go_uptime.Result.{Result, Event, Status}
use go_uptime.Common.{
  ℕ, suc, ◌-◌, Bool, true, false, ◌&&◌, ◌||◌, Option, none, some, List, [], ◌∷◌, leb, ltb, length,
  take, drop, if◌then◌else◌,
}
use go_uptime.Common.Int.{ℤ, pos, negsuc, ◌-ℤ◌, ◌*ℤ◌, ltb_ℤ, eq_ℤ, int64}

pub record EndpointStatusParams : Type 0 where
  pub events_page : ℤ
  pub events_page_size : ℤ
  pub results_page : ℤ
  pub results_page_size : ℤ

unfoldable pub get_start_index : ℕ → ℤ → ℤ → ℤ
unfolding int64 ◌-ℤ◌ ◌*ℤ◌
get_start_index n page page_size =
    let start = int64 (pos n -ℤ int64 (page *ℤ page_size)) in
    if ltb_ℤ (pos n) start then negsuc 0 else if ltb_ℤ start (pos 0) then pos 0 else start

unfoldable pub get_end_index : ℕ → ℤ → ℤ → ℤ
unfolding int64 ◌-ℤ◌ ◌*ℤ◌
get_end_index n page page_size =
    let end = int64 (pos n -ℤ int64 ((page -ℤ pos 1) *ℤ page_size)) in
    if ltb_ℤ (pos n) end then pos n else end

unfoldable pub get_start_and_end_index : ℕ → ℤ → ℤ → ℤ × ℤ
unfolding get_start_index get_end_index
get_start_and_end_index n page page_size =
    if ltb_ℤ page (pos 1) || ltb_ℤ page_size (pos 0)
    then (negsuc 0, negsuc 0)
    else (get_start_index n page page_size, get_end_index n page page_size)

-- `xs[start:end]`; `none` is the panic on bounds that are out of range.
unfoldable pub slice {ℓ} : {A : Type ℓ} → List A → ℕ → ℕ → Option (List A)
slice xs start end =
    if leb start end && leb end (length xs) then some (drop start (take end xs)) else none

-- The selection that a copy makes of a list.
unfoldable pub select_range {ℓ} : {A : Type ℓ} → List A → ℤ × ℤ → Option (List A)
unfolding slice
select_range xs (pos start, pos end) = slice xs start end
select_range xs (pos start, negsuc e) = some []
select_range xs (negsuc s, end) = some []

unfoldable pub page_of {ℓ} : {A : Type ℓ} → List A → ℤ → ℤ → Option (List A)
unfolding select_range get_start_and_end_index
page_of xs page page_size = select_range xs (get_start_and_end_index (length xs) page page_size)

abbrev is_zero : ℤ → Bool
is_zero z = eq_ℤ z (pos 0)

abbrev pub is_unpaged : EndpointStatusParams → Bool
is_unpaged params =
    is_zero params.results_page
    && is_zero params.results_page_size
    && is_zero params.events_page
    && is_zero params.events_page_size

-- `ShallowCopyEndpointStatus`; no params are nil. The copy has no uptime.
unfoldable pub shallow_copy_endpoint_status : Status → Option EndpointStatusParams → Option Status
unfolding page_of
shallow_copy_endpoint_status ss none = some (record ss { uptime = [] })
shallow_copy_endpoint_status ss (some params) =
    if is_unpaged params
    then some (record ss { uptime = [] })
    else (elim (page_of ss.results params.results_page params.results_page_size) [
      | none ↦ none
      | some results ↦ elim (page_of ss.events params.events_page params.events_page_size) [
        | none ↦ none
        | some events ↦ some (record ss { results = results; events = events; uptime = [] })
      ]
    ])
