-- ===== src/StatusPage/Selection/Selected.antt =====
-- internal/statuspage/selection.go: which endpoints a page shows, and how many.
use mathlib.Core.Path.{subst}
use go_uptime.StatusPage.Selection.Lists.{
  All, All-append, All-take, All-sort, some_is, or_true, contains-All,
}
use go_uptime.StatusPage.Selection.{
  EndpointRef, Page, Featured, section_refs, refs_of, refs_by_key, feature, feature_keys, sort,
  ref_less, is_listed, or_empty, by_group, fill, select, group_less,
}
use go_uptime.Common.Text.{trim_space}
use go_uptime.Common.{
  ℕ, zero, suc, ◌+◌, ◌-◌, ◌≤◌, ◌≡◌, refl, sym, ap, ◌∙◌, arith, Bool, true, false, not, ◌||◌, Option,
  none, some, List, [], ◌∷◌, ◌++◌, ltb, ◌==◌, take, length, length-append, length-take,
  if◌then◌else◌, lookup, insert, contains, Bytes, bytes_eq, Bool-cases, inl, inr, lookup-insert,
}

-- What a page selects: the featured endpoints, and those listed by their group or by their key.
abbrev pub is_selected : Page → EndpointRef → Bool
is_selected page ref = contains page.featured ref.key || is_listed page ref

within : (n a b c : ℕ) → c ≡ a + b → a ≤ suc n → b ≤ suc n - a → c ≤ suc n
within n a b c h k l = omega arith

shorter : (n : ℕ) (refs : List EndpointRef) → length (take (suc n) refs) ≤ suc n
shorter n refs = let short = length-take (suc n) refs in omega arith

or_first : (a b : Bool) → a ≡ true → (a || b) ≡ true
or_first a b h = ground arith

one_more :
    (shown : List EndpointRef) (ref : EndpointRef) (remaining limit : ℕ)
    → (remaining == 0) ≡ false
    → length shown + remaining ≡ limit
    → length (shown ++ ref ∷ []) + (remaining - 1) ≡ limit
one_more shown ref remaining limit room h =
    let longer = length-append shown (ref ∷ []) in ground arith

module _ (Q : EndpointRef → Type 0) (page : Page) where
  unfoldable pub Shown : EndpointRef → Type 0
  Shown ref = Q ref × (is_selected page ref ≡ true)

  -- The map by key holds references of the list, each under its key.
  unfoldable pub Kept : List (Bytes × EndpointRef) → Type 0
  Kept m = (key : Bytes) (ref : EndpointRef) → lookup key m ≡ some ref → Q ref × (ref.key ≡ key)

  insert-Kept :
      (ref : EndpointRef) (m : List (Bytes × EndpointRef))
      → Q ref
      → Kept m
      → Kept (insert ref.key ref m)
  unfolding Kept
  insert-Kept ref m q kept key found h = elim (Bool-cases (bytes_eq.beq ref.key key)) [
    | inl e ↦
        let is : ref ≡ found = some_is (sym (lookup-insert ref.key key ref m ∙ simp e refl) ∙ h) in
        (
          subst Q is q,
          ap (λ (r : EndpointRef). r.key) (sym is) ∙ (bytes_eq.beq_iff ref.key key).0 e,
        )
    | inr e ↦ kept key found (sym (lookup-insert ref.key key ref m ∙ simp e refl) ∙ h)
  ]

  refs_by_key-Kept :
      (refs : List EndpointRef) (m : List (Bytes × EndpointRef))
      → All Q refs
      → Kept m
      → Kept (refs_by_key refs m)
  unfolding refs_by_key
  refs_by_key-Kept [] m h kept = kept
  refs_by_key-Kept (ref ∷ refs) m (h, hs) kept =
      refs_by_key-Kept refs (insert ref.key ref m) hs (insert-Kept ref m h kept)

  -- The featured endpoints are selected, and with what is left of the limit they make up the limit.
  record IsFeatured (limit : ℕ) (f : Featured) : Type 0 where
    selected : All Shown f.shown
    counted : length f.shown + f.remaining ≡ limit

  feature-IsFeatured :
      (limit : ℕ) (key : Bytes) (o : Option EndpointRef) (f : Featured)
      → contains page.featured key ≡ true
      → ((ref : EndpointRef) → o ≡ some ref → Q ref × (ref.key ≡ key))
      → IsFeatured limit f
      → IsFeatured limit (feature key o f)
  unfolding Shown
  feature-IsFeatured limit key none f listed found ok = ok
  feature-IsFeatured limit key (some ref) f listed found ok = elim (Bool-cases (f.remaining == 0)) [
    | inl full ↦
        let kept : IsFeatured limit (record f { keys = key ∷ f.keys; truncated = true }) = record {
          selected = ok.selected;
          counted = ok.counted;
        } in
        simp full kept
    | inr room ↦
        let (q, same) = found ref refl in
        let shown : Shown ref = (
          q,
          or_first (contains page.featured ref.key) (is_listed page ref)
              (ap (contains page.featured) same ∙ listed),
        ) in
        let more : IsFeatured limit (record f {
          remaining = f.remaining - 1;
          shown = f.shown ++ ref ∷ [];
          keys = key ∷ f.keys;
        }) =
          record {
            selected = All-append Shown f.shown (ref ∷ []) ok.selected (shown, tt);
            counted = one_more f.shown ref f.remaining limit room ok.counted;
          } in
        simp room more
  ]

  feature_keys-IsFeatured :
      (limit : ℕ) (m : List (Bytes × EndpointRef)) (keys : List Bytes) (f : Featured)
      → Kept m
      → All (λ k. contains page.featured k ≡ true) keys
      → IsFeatured limit f
      → IsFeatured limit (feature_keys m keys f)
  unfolding feature_keys Kept
  feature_keys-IsFeatured limit m [] f kept listed ok = ok
  feature_keys-IsFeatured limit m (key ∷ keys) f kept (h, hs) ok =
      feature_keys-IsFeatured limit m keys (feature key (lookup key m) f) kept hs
        (feature-IsFeatured limit key (lookup key m) f h (λ ref found. kept key ref found) ok)

  -- The endpoints of the groups are selected.
  abbrev InGroups : List (Bytes × List EndpointRef) → Type 0
  InGroups m = All (λ (g : Bytes × List EndpointRef). All Shown g.1) m

  kept_if :
      (a listed : Bool) (m n : List (Bytes × List EndpointRef))
      → listed ≡ false
      → InGroups m
      → InGroups (if a || not listed then m else n)
  kept_if true listed m n off h = h
  kept_if false true m n off h = absurd cc
  kept_if false false m n off h = h

  either_if :
      (b : Bool) (m n : List (Bytes × List EndpointRef))
      → InGroups m
      → InGroups n
      → InGroups (if b then m else n)
  either_if true m n h k = h
  either_if false m n h k = k

  insert-InGroups :
      (group : Bytes) (refs : List EndpointRef) (m : List (Bytes × List EndpointRef))
      → All Shown refs
      → InGroups m
      → InGroups (insert group refs m)
  unfolding insert
  insert-InGroups group refs [] h k = (h, tt)
  insert-InGroups group refs ((g, rs) ∷ m) h (k, ks) = elim (Bool-cases (bytes_eq.beq g group)) [
    | inl e ↦ rw e (h, ks)
    | inr e ↦ rw e (k, insert-InGroups group refs m h ks)
  ]

  lookup-InGroups :
      (group : Bytes) (m : List (Bytes × List EndpointRef))
      → InGroups m
      → All Shown (or_empty (lookup group m))
  unfolding lookup
  lookup-InGroups group [] h = tt
  lookup-InGroups group ((g, rs) ∷ m) (k, ks) = elim (Bool-cases (bytes_eq.beq g group)) [
    | inl e ↦ rw e k
    | inr e ↦ rw e (lookup-InGroups group m ks)
  ]

  by_group-InGroups :
      (featured : List Bytes) (refs : List EndpointRef) (m : List (Bytes × List EndpointRef))
      → All Q refs
      → InGroups m
      → InGroups (by_group page featured refs m)
  unfolding by_group Shown
  by_group-InGroups featured [] m h k = k
  by_group-InGroups featured (ref ∷ refs) m (h, hs) k =
      let group = trim_space ref.group in
      elim (Bool-cases (is_listed page ref)) [
        | inr unlisted ↦
            by_group-InGroups featured refs _ hs
              (kept_if (contains featured ref.key) (is_listed page ref) m _ unlisted k)
        | inl listed ↦
            let shown : Shown ref =
              (h, or_true (contains page.featured ref.key) (is_listed page ref) listed) in
            by_group-InGroups featured refs _ hs (
              either_if (contains featured ref.key || not (is_listed page ref)) m _ k (
                insert-InGroups group (or_empty (lookup group m) ++ ref ∷ []) m
                  (All-append Shown (or_empty (lookup group m)) (ref ∷ [])
                    (lookup-InGroups group m k) (shown, tt))
                  k))
      ]

  fill-Shown :
      (groups : List (Bytes × List EndpointRef)) (n : ℕ) (truncated : Bool)
      → InGroups groups
      → All Shown (section_refs (fill groups n truncated).0)
        × (length (section_refs (fill groups n truncated).0) ≤ n)
  unfolding fill section_refs
  fill-Shown [] n truncated h = (tt, omega arith)
  fill-Shown ((group, refs) ∷ groups) zero truncated h = (tt, omega arith)
  fill-Shown ((group, refs) ∷ groups) (suc n) truncated (h, hs) =
      let sorted = sort ref_less refs in
      let shown = take (suc n) sorted in
      let left_out = truncated || ltb (suc n) (length sorted) in
      let (rest, bound) = fill-Shown groups (suc n - length shown) left_out hs in
      let others = section_refs (fill groups (suc n - length shown) left_out).0 in
      (
        All-append Shown shown others
            (All-take Shown (suc n) sorted (All-sort Shown ref_less refs h)) rest,
        within n (length shown) (length others) (length (shown ++ others))
            (length-append shown others) (shorter n sorted) bound,
      )

no_keys : (Q : EndpointRef → Type 0) (page : Page) → Kept Q page []
unfolding Kept lookup
no_keys Q page key ref h = absurd cc

total_bound : (a b r limit c : ℕ) → c ≡ a + b → a + r ≡ limit → b ≤ r → c ≤ limit
total_bound a b r limit c h k l = omega arith

-- Every endpoint that a page shows is one of the references given (it satisfies any predicate that
-- all of them satisfy), and the page selects it: it is featured, or its group or its key is listed.
-- No more endpoints are shown than the limit, the featured ones included.
pub select-Shown :
    (Q : EndpointRef → Type 0) (page : Page) (refs : List EndpointRef) (limit : ℕ)
    → All Q refs
    → All (Shown Q page) (refs_of (select page refs limit))
      × (length (refs_of (select page refs limit)) ≤ limit)
unfolding select refs_of
select-Shown Q page refs limit h =
    let start : Featured = record { remaining = limit; shown = []; keys = []; truncated = false } in
    let m = refs_by_key refs [] in
    let f = feature_keys m page.featured start in
    let groups =
      sort (λ (a b : Bytes × List EndpointRef). group_less page.groups a.0 b.0)
        (by_group page f.keys refs []) in
    let featured =
      feature_keys-IsFeatured Q page limit m page.featured start
        (refs_by_key-Kept Q page refs [] h (no_keys Q page)) (contains-All page.featured)
        (record { selected = tt; counted = omega arith }) in
    let (shown, bound) = fill-Shown Q page groups f.remaining f.truncated (
      All-sort (λ (g : Bytes × List EndpointRef). All (Shown Q page) g.1)
        (λ (a b : Bytes × List EndpointRef). group_less page.groups a.0 b.0)
        (by_group page f.keys refs []) (by_group-InGroups Q page f.keys refs [] h tt)) in
    let others = section_refs (fill groups f.remaining f.truncated).0 in
    (
      All-append (Shown Q page) f.shown others featured.selected shown,
      total_bound (length f.shown) (length others) f.remaining limit (length (f.shown ++ others))
          (length-append f.shown others) featured.counted bound,
    )
