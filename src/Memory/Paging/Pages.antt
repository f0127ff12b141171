-- ===== src/Memory/Paging/Pages.antt =====
-- internal/storage/store/memory/util.go: what a page holds, and that the pages make up the list.
use go_uptime.Memory.Paging.{
  get_start_index, get_end_index, get_start_and_end_index, slice, select_range, page_of,
}
use go_uptime.Common.{
  ℕ, zero, suc, ◌-◌, ◌*◌, ◌^◌, ◌≤◌, ◌<◌, ◌≡◌, refl, sym, ap, true, false, Option, none, some, List,
  [], ◌∷◌, ◌++◌, ◌||◌, ◌&&◌, ◌≢◌, arith, leb, length, take, drop, inl, inr, Bool-cases,
}
use go_uptime.Common.Int.{ℤ, pos, negsuc, pos_part, ltb_ℤ, sub_ℕ}

start_index :
    (n k s : ℕ)
    → n < 2 ^ 63
    → suc k * s < 2 ^ 63
    → get_start_index n (pos (suc k)) (pos s) ≡ pos (n - suc k * s)
unfolding get_start_index
start_index n k s hn hk = ground arith

end_index :
    (n k s : ℕ)
    → n < 2 ^ 63
    → suc k * s < 2 ^ 63
    → get_end_index n (pos (suc k)) (pos s) ≡ sub_ℕ n (k * s)
unfolding get_end_index
end_index n k s hn hk = ground arith

indices :
    (n k s : ℕ)
    → n < 2 ^ 63
    → suc k * s < 2 ^ 63
    → get_start_and_end_index n (pos (suc k)) (pos s) ≡ (pos (n - suc k * s), sub_ℕ n (k * s))
unfolding get_start_and_end_index
indices n k s hn hk =
    let paged : (ltb_ℤ (pos (suc k)) (pos 1) || ltb_ℤ (pos s) (pos 0)) ≡ false = ground arith in
    rw (paged, start_index n k s hn hk, end_index n k s hn hk)

module _ {ℓ} {A : Type ℓ} where
  drop-nil : (n : ℕ) → drop {A = A} n [] ≡ []
  drop-nil zero = refl
  drop-nil (suc n) = refl

  drop-all : (xs : List A) → drop (length xs) xs ≡ []
  drop-all [] = refl
  drop-all (x ∷ xs) = drop-all xs

  select_range_sub :
      (xs : List A) (a b : ℕ)
      → a ≤ length xs - b
      → select_range xs (pos a, sub_ℕ (length xs) b) ≡ some (drop a (take (length xs - b) xs))
  unfolding select_range
  select_range_sub xs a b h = elim (Bool-cases (leb b (length xs))) [
    | inl le ↦
        let inside : (leb a (length xs - b) && leb (length xs - b) (length xs)) ≡ true =
          ground arith in
        rw (le, slice, inside)
    | inr gt ↦
        let nothing : length xs - b ≡ 0 = ground arith in
        rw (gt, nothing) (ap some (sym (drop-nil a)))
  ]

  -- Page `k + 1` of a list holds its `s` elements before the last `k * s` ones, as far as they
  -- exist, where neither the length nor `(k + 1) * s` reaches 2 ^ 63.
  pub page_of_lem :
      (xs : List A) (k s : ℕ)
      → length xs < 2 ^ 63
      → suc k * s < 2 ^ 63
      → page_of xs (pos (suc k)) (pos s)
        ≡ some (drop (length xs - suc k * s) (take (length xs - k * s) xs))
  unfolding page_of
  page_of_lem xs k s hn hk =
      rw (indices (length xs) k s hn hk)
        (select_range_sub xs (length xs - suc k * s) (k * s) (grind arith))

  drop-take-drop : (a b : ℕ) (xs : List A) → a ≤ b → drop a (take b xs) ++ drop b xs ≡ drop a xs
  drop-take-drop zero zero xs h = refl
  drop-take-drop zero (suc b) [] h = refl
  drop-take-drop zero (suc b) (x ∷ xs) h = rw (drop-take-drop zero b xs (omega arith))
  drop-take-drop (suc a) zero xs h = absurd (omega arith)
  drop-take-drop (suc a) (suc b) [] h = refl
  drop-take-drop (suc a) (suc b) (x ∷ xs) h = drop-take-drop a b xs (omega arith)

  join : Option (List A) → Option (List A) → Option (List A)
  join (some older) (some newer) = some (older ++ newer)
  join older newer = none

  -- The pages from number `m` down to page 1, one after the other: the oldest elements first.
  unfoldable pub pages : ℕ → ℕ → List A → Option (List A)
  unfolding join
  pages zero s xs = some []
  pages (suc m) s xs = join (page_of xs (pos (suc m)) (pos s)) (pages m s xs)

  pages-eq-drop :
      (m s : ℕ) (xs : List A)
      → length xs < 2 ^ 63
      → m * s < 2 ^ 63
      → pages m s xs ≡ some (drop (length xs - m * s) xs)
  unfolding pages
  pages-eq-drop zero s xs hn hm =
      let all : length xs - 0 * s ≡ length xs = omega arith in rw all (ap some (sym (drop-all xs)))
  pages-eq-drop (suc m) s xs hn hm =
      rw (page_of_lem xs m s hn hm, pages-eq-drop m s xs hn (grind arith))
        (ap some (drop-take-drop (length xs - suc m * s) (length xs - m * s) xs (grind arith)))

  -- As many pages as it takes to cover a list make up the list: no element is left out, repeated
  -- or moved, where neither the length nor the product of the pages and their size reaches 2 ^ 63.
  pub pages-cover :
      (m s : ℕ) (xs : List A)
      → length xs < 2 ^ 63
      → m * s < 2 ^ 63
      → length xs ≤ m * s
      → pages m s xs ≡ some xs
  pages-cover m s xs hn hm h =
      let whole : length xs - m * s ≡ 0 = omega arith in rw (pages-eq-drop m s xs hn hm, whole)

  out_of_range :
      (xs : List A) (page page_size : ℤ)
      → (ltb_ℤ page (pos 1) || ltb_ℤ page_size (pos 0)) ≡ true
      → page_of xs page page_size ≢ none
  unfolding page_of
  out_of_range xs page page_size h = rw h (λ e. cc)

  -- No page is a panic: the bounds are always in range, also where the page or its size is
  -- negative, or the page lies beyond the list, as long as neither the length nor the product of
  -- the page and its size reaches 2 ^ 63.
  pub page_of_total :
      (xs : List A) (page page_size : ℤ)
      → length xs < 2 ^ 63
      → pos_part page * pos_part page_size < 2 ^ 63
      → page_of xs page page_size ≢ none
  page_of_total xs (negsuc p) page_size hn hm = out_of_range xs (negsuc p) page_size (ground arith)
  page_of_total xs (pos zero) page_size hn hm = out_of_range xs (pos zero) page_size (ground arith)
  page_of_total xs (pos (suc k)) (negsuc s) hn hm =
      out_of_range xs (pos (suc k)) (negsuc s) (ground arith)
  page_of_total xs (pos (suc k)) (pos s) hn hm = rw (page_of_lem xs k s hn hm) (λ e. cc)
