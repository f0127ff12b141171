-- ===== src/Memory/History/Kept.antt =====
-- internal/storage/store/memory/util.go: `AddResult` keeps the newest results.
use go_uptime.Memory.History.{keep_last, add_result}
use go_uptime.Result.{Result, Status}
use go_uptime.Clock.{Time}
use Prim.Native.Nat.{min}
use native.Mathlib.Nat.{zero-add, suc-add}
use go_uptime.Common.{
  ℕ, zero, suc, ◌+◌, ◌-◌, ◌≤◌, ◌≡◌, refl, sym, ap, ◌∙◌, List, [], ◌∷◌, ◌++◌, arith, ltb, length,
  length-append, length-drop, take-append-drop, take, drop, inl, inr, Bool-cases,
}

pub drop-append {ℓ} :
    {A : Type ℓ} (n : ℕ) (xs ys : List A) → n ≤ length xs → drop n (xs ++ ys) ≡ drop n xs ++ ys
drop-append zero xs ys h = refl
drop-append (suc n) [] ys h = absurd (omega arith)
drop-append (suc n) (x ∷ xs) ys h = drop-append n xs ys (omega arith)

drop-nil {ℓ} : {A : Type ℓ} (n : ℕ) → drop {A = A} n [] ≡ []
drop-nil zero = refl
drop-nil (suc n) = refl

drop-drop {ℓ} : {A : Type ℓ} (m n : ℕ) (xs : List A) → drop m (drop n xs) ≡ drop (n + m) xs
drop-drop m zero xs = rw zero-add
drop-drop m (suc n) [] = rw suc-add (drop-nil m)
drop-drop m (suc n) (x ∷ xs) = rw suc-add (drop-drop m n xs)

pub keep_last-eq-drop {ℓ} :
    {A : Type ℓ} (maximum : ℕ) (xs : List A) → keep_last maximum xs ≡ drop (length xs - maximum) xs
unfolding keep_last
keep_last-eq-drop maximum xs = elim (Bool-cases (ltb maximum (length xs))) [
  | inl e ↦ rw e
  | inr e ↦ let none_left : length xs - maximum ≡ 0 = ground arith in rw (e, none_left)
]

pub length-keep_last {ℓ} :
    {A : Type ℓ} (maximum : ℕ) (xs : List A) → length (keep_last maximum xs) ≤ maximum
length-keep_last maximum xs =
    rw keep_last-eq-drop (omega (arith, length-drop (length xs - maximum) xs))

keep_last-nil {ℓ} : {A : Type ℓ} (maximum : ℕ) → keep_last {A = A} maximum [] ≡ []
keep_last-nil maximum = keep_last-eq-drop maximum [] ∙ drop-nil (0 - maximum)

keep_last-snoc {ℓ} :
    {A : Type ℓ} (maximum : ℕ) (xs : List A) (x : A)
    → keep_last maximum (keep_last maximum xs ++ x ∷ []) ≡ keep_last maximum (xs ++ x ∷ [])
keep_last-snoc maximum xs x =
    let extra = length xs - maximum in
    let kept = drop extra xs in
    rw
      (
        keep_last-eq-drop maximum xs,
        keep_last-eq-drop maximum (kept ++ x ∷ []),
        keep_last-eq-drop maximum (xs ++ x ∷ []),
        ← drop-append extra xs (x ∷ []) (omega arith),
        drop-drop,
      )
      (ap (λ n. drop n (xs ++ x ∷ []))
        (omega (arith, length-append xs (x ∷ []), length-drop extra (xs ++ x ∷ []))))

-- A result, and the time at which the storage receives it. The newest stands first.
abbrev pub Received : Type 0
Received = Time × Result

unfoldable pub status_after : ℕ → ℕ → List Received → Status → Status
status_after maximum_results maximum_events [] status = status
status_after maximum_results maximum_events ((now, result) ∷ earlier) status =
    add_result now maximum_results maximum_events result
      (status_after maximum_results maximum_events earlier status)

-- The results that were received, the oldest first.
unfoldable pub received : List Received → List Result
received [] = []
received ((now, result) ∷ earlier) = received earlier ++ result ∷ []

results-keep_last :
    (maximum_results maximum_events : ℕ) (rs : List Received) (status : Status)
    → status.results ≡ []
    → (status_after maximum_results maximum_events rs status).results
      ≡ keep_last maximum_results (received rs)
unfolding status_after received add_result
results-keep_last m e [] status h = rw h (sym (keep_last-nil m))
results-keep_last m e ((now, r) ∷ rs) status h =
    rw (results-keep_last m e rs status h) (keep_last-snoc m (received rs) r)

-- What is kept of a list is a last part of it, as long as the maximum allows.
keep_last-newest {ℓ} :
    {A : Type ℓ} (maximum : ℕ) (xs : List A)
    → (older : List A) × (xs ≡ older ++ keep_last maximum xs)
      × (length (keep_last maximum xs) ≡ min maximum (length xs))
keep_last-newest maximum xs =
    let extra = length xs - maximum in
    (
      take extra xs,
      sym (
          ap (λ ys. take extra xs ++ ys) (keep_last-eq-drop maximum xs)
          ∙ take-append-drop extra xs),
      ap length (keep_last-eq-drop maximum xs) ∙ ground (arith, length-drop extra xs),
    )

-- Whatever results a status without results receives, what it holds is the newest part of them, in
-- the order of their arrival: as many results as were received, or the maximum where more were.
pub results-status_after :
    (maximum_results maximum_events : ℕ) (rs : List Received) (status : Status)
    → status.results ≡ []
    → (older : List Result) × (received rs
        ≡ older ++ (status_after maximum_results maximum_events rs status).results)
      × (length (status_after maximum_results maximum_events rs status).results
          ≡ min maximum_results (length (received rs)))
results-status_after m e rs status h =
    rw (results-keep_last m e rs status h) (keep_last-newest m (received rs))
