-- ===== src/StatusPage/Selection/Lists.antt =====
-- internal/statuspage/selection.go: predicates on the lists that are sorted and cut.
use go_uptime.StatusPage.Selection.{insert_sorted, sort}
use go_uptime.Common.{
  ℕ, zero, suc, ◌≡◌, refl, arith, Bool, true, ◌||◌, some, List, [], ◌∷◌, ◌++◌, take, contains,
  Bytes, bytes_eq, Bool-cases, inl, inr, beq_refl,
}

-- A predicate on every element of a list.
abbrev pub All {ℓ} : {A : Type ℓ} → (A → Type 0) → List A → Type 0
All P [] = Unit
All P (a ∷ as') = P a × All P as'

module _ {A : Type 0} (P : A → Type 0) where
  pub All-append : (xs ys : List A) → All P xs → All P ys → All P (xs ++ ys)
  All-append [] ys h k = k
  All-append (x ∷ xs) ys (h, hs) k = (h, All-append xs ys hs k)

  pub All-take : (n : ℕ) (xs : List A) → All P xs → All P (take n xs)
  All-take zero xs h = tt
  All-take (suc n) [] h = tt
  All-take (suc n) (x ∷ xs) (h, hs) = (h, All-take n xs hs)

  All-insert_sorted :
      (less : A → A → Bool) (a : A) (xs : List A) → P a → All P xs → All P (insert_sorted less a xs)
  unfolding insert_sorted
  All-insert_sorted less a [] p h = (p, tt)
  All-insert_sorted less a (b ∷ xs) p (h, hs) = elim (Bool-cases (less a b)) [
    | inl l ↦ rw l (p, (h, hs))
    | inr l ↦ rw l (h, All-insert_sorted less a xs p hs)
  ]

  pub All-sort : (less : A → A → Bool) (xs : List A) → All P xs → All P (sort less xs)
  unfolding sort
  All-sort less [] h = tt
  All-sort less (a ∷ xs) (h, hs) = All-insert_sorted less a (sort less xs) h (All-sort less xs hs)

pub some_is : {A : Type 0} {a b : A} → some a ≡ some b → a ≡ b
some_is h = cc

All-weaken :
    {A : Type 0} {P Q : A → Type 0} (xs : List A) → ((x : A) → P x → Q x) → All P xs → All Q xs
All-weaken [] f h = tt
All-weaken (x ∷ xs) f (h, hs) = (f x h, All-weaken xs f hs)

pub or_true : (a b : Bool) → b ≡ true → (a || b) ≡ true
or_true a b h = ground arith

pub contains-All : (keys : List Bytes) → All (λ k. contains keys k ≡ true) keys
unfolding contains
contains-All [] = tt
contains-All (k ∷ keys) = (
  simp (beq_refl k) refl,
  All-weaken keys (λ j h. or_true (bytes_eq.beq k j) (contains keys j) h) (contains-All keys),
)
