-- ===== src/StatusPage/Selection.antt =====
-- internal/statuspage/selection.go: the endpoints that a status page shows, in order. Texts are
-- bytes, with the lower case and the spaces of ASCII.
pub mod Lists
pub mod Selected
use go_uptime.Common.{
  ℕ, zero, suc, ◌-◌, Bool, true, false, not, ◌&&◌, ◌||◌, Option, none, some, List, [], ◌∷◌, ◌++◌,
  ltb, ◌==◌, take, length, if◌then◌else◌, lookup, insert, contains, Bytes, bytes_eq, bytes_beq,
}
use go_uptime.Common.Text.{trim_space, to_lower}

pub record EndpointRef : Type 0 where
  pub key : Bytes
  pub name : Bytes
  pub group : Bytes

pub record Section : Type 0 where
  pub group : Bytes
  pub endpoints : List EndpointRef

pub record Selection : Type 0 where
  pub featured : List EndpointRef
  pub sections : List Section
  pub truncated : Bool

-- What `Select` reads of a page.
pub record Page : Type 0 where
  pub featured : List Bytes
  pub groups : List Bytes
  pub endpoints : List Bytes

-- `Refs`: the featured endpoints, then the sections.
unfoldable pub section_refs : List Section → List EndpointRef
section_refs [] = []
section_refs (s ∷ sections) = s.endpoints ++ section_refs sections

unfoldable pub refs_of : Selection → List EndpointRef
unfolding section_refs
refs_of s = s.featured ++ section_refs s.sections

-- The map of the references by key: the last one of a key is kept.
unfoldable pub refs_by_key :
    List EndpointRef → List (Bytes × EndpointRef) → List (Bytes × EndpointRef)
refs_by_key [] m = m
refs_by_key (ref ∷ refs) m = refs_by_key refs (insert ref.key ref m)

-- What is left of the limit, what was shown and whether something was left out.
pub record Featured : Type 0 where
  pub remaining : ℕ
  pub shown : List EndpointRef
  pub keys : List Bytes
  pub truncated : Bool

abbrev pub feature : Bytes → Option EndpointRef → Featured → Featured
feature key none f = f
feature key (some ref) f =
    if f.remaining == 0
    then record f { keys = key ∷ f.keys; truncated = true }
    else record f { remaining = f.remaining - 1; shown = f.shown ++ ref ∷ []; keys = key ∷ f.keys }

-- The loop over the featured keys.
unfoldable pub feature_keys : List (Bytes × EndpointRef) → List Bytes → Featured → Featured
feature_keys by_key [] f = f
feature_keys by_key (key ∷ keys) f = feature_keys by_key keys (feature key (lookup key by_key) f)

-- `groupOrder[group]`: the last position of a group.
unfoldable pub group_order : List Bytes → ℕ → Bytes → Option ℕ
group_order [] i group = none
group_order (g ∷ groups) i group =
    let later = group_order groups (suc i) group in
    elim later [ some j ↦ some j | none ↦ if bytes_beq g group then some i else none ]

-- `a < b` of two texts.
unfoldable pub bytes_less : Bytes → Bytes → Bool
bytes_less s [] = false
bytes_less [] (b ∷ t) = true
bytes_less (a ∷ s) (b ∷ t) = let rest = bytes_less s t in ltb a b || (a == b && rest)

abbrev is_empty : Bytes → Bool
is_empty [] = true
is_empty (b ∷ s) = false

abbrev unordered_less : Bytes → Bytes → Bool
unordered_less a b =
    if not (bytes_beq (to_lower a) (to_lower b))
    then bytes_less (to_lower a) (to_lower b)
    else bytes_less a b

-- `groupLess`
abbrev ordered_less : Bytes → Bytes → Option ℕ → Option ℕ → Bool
ordered_less a b (some i) (some j) = ltb i j
ordered_less a b (some i) none = true
ordered_less a b none (some j) = false
ordered_less a b none none =
    if (is_empty a && not (is_empty b)) || (is_empty b && not (is_empty a))
    then is_empty b
    else unordered_less a b

unfoldable pub group_less : List Bytes → Bytes → Bytes → Bool
unfolding group_order bytes_less
group_less groups a b = ordered_less a b (group_order groups 0 a) (group_order groups 0 b)

unfoldable pub ref_less : EndpointRef → EndpointRef → Bool
unfolding bytes_less
ref_less r s =
    if not (bytes_beq (to_lower r.name) (to_lower s.name))
    then bytes_less (to_lower r.name) (to_lower s.name)
    else bytes_less r.key s.key

-- `sort.Slice`
unfoldable pub insert_sorted {ℓ} : {A : Type ℓ} → (A → A → Bool) → A → List A → List A
insert_sorted less a [] = a ∷ []
insert_sorted less a (b ∷ bs) =
    let rest = insert_sorted less a bs in if less a b then a ∷ b ∷ bs else b ∷ rest

unfoldable pub sort {ℓ} : {A : Type ℓ} → (A → A → Bool) → List A → List A
unfolding insert_sorted
sort less [] = []
sort less (a ∷ rest) = insert_sorted less a (sort less rest)

-- The page selects an endpoint that is not featured by its group or by its key.
unfoldable pub is_listed : Page → EndpointRef → Bool
unfolding contains
is_listed page ref = contains page.groups (trim_space ref.group) || contains page.endpoints ref.key

abbrev pub or_empty : Option (List EndpointRef) → List EndpointRef
or_empty none = []
or_empty (some refs) = refs

-- `endpointsByGroup`
unfoldable pub by_group :
    Page
    → List Bytes
    → List EndpointRef
    → List (Bytes × List EndpointRef)
    → List (Bytes × List EndpointRef)
unfolding is_listed contains
by_group page featured [] m = m
by_group page featured (ref ∷ refs) m =
    let group = trim_space ref.group in
    let next =
      if contains featured ref.key || not (is_listed page ref)
      then m
      else insert group (or_empty (lookup group m) ++ ref ∷ []) m in
    by_group page featured refs next

-- The loop over the sorted groups: the sections, and whether something was left out.
unfoldable pub fill : List (Bytes × List EndpointRef) → ℕ → Bool → List Section × Bool
unfolding sort
fill [] remaining truncated = ([], truncated)
fill ((group, refs) ∷ groups) zero truncated = ([], true)
fill ((group, refs) ∷ groups) (suc n) truncated =
    let shown = take (suc n) (sort ref_less refs) in
    let (sections, left_out) =
      fill groups (suc n - length shown) (truncated || ltb (suc n) (length (sort ref_less refs))) in
    (record { group = group; endpoints = shown } ∷ sections, left_out)

-- `Select`, for a limit that is not negative.
unfoldable pub select : Page → List EndpointRef → ℕ → Selection
unfolding refs_by_key feature_keys by_group sort fill group_less
select page refs limit =
    let start : Featured = record { remaining = limit; shown = []; keys = []; truncated = false } in
    let f = feature_keys (refs_by_key refs []) page.featured start in
    let groups = sort (λ a b. group_less page.groups a.0 b.0) (by_group page f.keys refs []) in
    let (sections, truncated) = fill groups f.remaining f.truncated in
    record { featured = f.shown; sections = sections; truncated = truncated }
