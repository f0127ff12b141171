-- ===== src/Watchdog/Registry/Entries.antt =====
-- internal/watchdog/registry.go: the map of the entries and the list of the cancelled contexts.
use go_uptime.Watchdog.Registry.{Monitored, is_cancelled, contexts_of}
use go_uptime.Common.{
  ℕ, suc, ◌<◌, ◌≡◌, ◌≢◌, refl, sym, ap, ◌∙◌, String, Bool, true, false, none, some, List, [], ◌∷◌,
  arith, lookup, insert, delete, lookup-insert, lookup-delete, string_eq, str_eq, str_eq_iff,
  Bool-cases, if◌then◌else◌, inl, inr, ◌⊎◌,
}

abbrev pub AllKnown : ℕ → List (String × Monitored) → Type 0
AllKnown bound [] = Unit
AllKnown bound ((key, e) ∷ entries) = (e.context < bound) × AllKnown bound entries

pub AllKnown-lookup :
    (bound : ℕ) (key : String) (entries : List (String × Monitored)) (e : Monitored)
    → AllKnown bound entries
    → lookup key entries ≡ some e
    → e.context < bound
unfolding lookup
AllKnown-lookup bound key [] e a h = absurd cc
AllKnown-lookup bound key ((j, f) ∷ entries) e (first, a) h = ground (
  arith,
  AllKnown-lookup bound key entries e a,
  λ (p : f ≡ e). ap (λ (x : Monitored). x.context) p,
)

pub AllKnown-suc :
    (bound : ℕ) (entries : List (String × Monitored))
    → AllKnown bound entries
    → AllKnown (suc bound) entries
AllKnown-suc bound [] a = tt
AllKnown-suc bound ((j, f) ∷ entries) (first, a) = (omega arith, AllKnown-suc bound entries a)

pub AllKnown-insert :
    (bound : ℕ) (key : String) (e : Monitored) (entries : List (String × Monitored))
    → AllKnown bound entries
    → e.context < bound
    → AllKnown bound (insert key e entries)
unfolding insert
AllKnown-insert bound key e [] a h = (h, tt)
AllKnown-insert bound key e ((j, f) ∷ entries) (first, a) h =
    let rest = AllKnown-insert bound key e entries a h in
    elim (Bool-cases (str_eq j key)) [
      | inl same ↦ rw same (h, a)
      | inr other ↦ rw other (first, rest)
    ]

pub AllKnown-delete :
    (bound : ℕ) (key : String) (entries : List (String × Monitored))
    → AllKnown bound entries
    → AllKnown bound (delete key entries)
unfolding delete
AllKnown-delete bound key [] a = tt
AllKnown-delete bound key ((j, f) ∷ entries) (first, a) =
    let rest = AllKnown-delete bound key entries a in
    elim (Bool-cases (str_eq j key)) [
      | inl same ↦ rw same rest
      | inr other ↦ rw other (first, rest)
    ]

pub is_cancelled-entry :
    (key : String) (entries : List (String × Monitored)) (cancelled : List ℕ) (e : Monitored)
    → lookup key entries ≡ some e
    → is_cancelled e.context (contexts_of entries cancelled) ≡ true
unfolding lookup is_cancelled contexts_of
is_cancelled-entry key [] cancelled e h = absurd cc
is_cancelled-entry key ((j, f) ∷ entries) cancelled e h = ground (
  arith,
  is_cancelled-entry key entries cancelled e,
  λ (p : f ≡ e). ap (λ (x : Monitored). x.context) p,
)

pub cancelled-contexts_of :
    (bound c : ℕ) (entries : List (String × Monitored)) (cancelled : List ℕ)
    → AllKnown bound entries
    → is_cancelled c (contexts_of entries cancelled) ≡ true
    → (is_cancelled c cancelled ≡ true → c < bound)
    → c < bound
unfolding is_cancelled contexts_of
cancelled-contexts_of bound c [] cancelled a h k = k h
cancelled-contexts_of bound c ((j, f) ∷ entries) cancelled (first, a) h k = ground (
  arith,
  λ (p : is_cancelled c (contexts_of entries cancelled) ≡ true).
      cancelled-contexts_of bound c entries cancelled a p k,
)

pub lookup-delete-some :
    (key j : String) (m : List (String × Monitored)) (f : Monitored)
    → lookup j (delete key m) ≡ some f
    → (lookup j m ≡ some f) × (key ≢ j)
lookup-delete-some key j m f h = split (str_eq key j) refl (sym (lookup-delete key j m) ∙ h)
  where
    split :
        (b : Bool)
        → str_eq key j ≡ b
        → (if b then none else lookup j m) ≡ some f
        → (lookup j m ≡ some f) × (key ≢ j)
    split true same h = absurd cc
    split false other h =
        (h, λ p. let same : str_eq key j ≡ true = (str_eq_iff key j).1 p in absurd cc)

pub is_cancelled-other :
    (c d : ℕ) (cancelled : List ℕ)
    → c ≢ d
    → is_cancelled d (c ∷ cancelled) ≡ is_cancelled d cancelled
unfolding is_cancelled
is_cancelled-other c d cancelled h = ground arith

pub lookup-insert-some :
    (key j : String) (e f : Monitored) (m : List (String × Monitored))
    → lookup j (insert key e m) ≡ some f
    → ((key ≡ j) × (e ≡ f)) ⊎ (lookup j m ≡ some f)
lookup-insert-some key j e f m h = split (str_eq key j) refl (sym (lookup-insert key j e m) ∙ h)
  where
    split :
        (b : Bool)
        → str_eq key j ≡ b
        → (if b then some e else lookup j m) ≡ some f
        → ((key ≡ j) × (e ≡ f)) ⊎ (lookup j m ≡ some f)
    split true same h = inl ((str_eq_iff key j).0 same, cc)
    split false other h = inr h

pub is_cancelled-own : (c : ℕ) (cancelled : List ℕ) → is_cancelled c (c ∷ cancelled) ≡ true
unfolding is_cancelled
is_cancelled-own c cancelled = ground arith
