-- ===== src/Watchdog/Retries.antt =====
-- internal/watchdog/push.go: the failures that retries turn into pending results.
use go_uptime.Result.{Result}
use go_uptime.Watchdog.{ExternalEndpoint, or_zero, apply_retries}
use go_uptime.Common.{
  ℕ, zero, suc, ◌+◌, ◌≤◌, ◌≡◌, refl, ap, ◌∙◌, String, Bool, true, false, some, List, [], ◌∷◌, map,
  arith, length, lookup, insert, lookup-insert, string_eq, beq_refl,
}
use go_uptime.Common.Int.{pos}

-- A list of results, the first one first, outside of maintenance.
unfoldable pub apply_all :
    ExternalEndpoint → List Result → List (String × ℕ) → List Result × List (String × ℕ)
apply_all ee [] retries = ([], retries)
apply_all ee (r ∷ rs) retries =
    let (result, left) = apply_retries ee r false retries in
    let (results, rest) = apply_all ee rs left in (result ∷ results, rest)

abbrev pub AllFailures : List Result → Type 0
AllFailures [] = Unit
AllFailures (r ∷ rs) = (r.pending ≡ false) × (r.success ≡ false) × AllFailures rs

-- The first `left` of `n` failures are pending.
unfoldable pub pending_first : ℕ → ℕ → List Bool
pending_first left zero = []
pending_first zero (suc n) = false ∷ pending_first zero n
pending_first (suc left) (suc n) = true ∷ pending_first left n

used_after_insert :
    (key : String) (n : ℕ) (m : List (String × ℕ)) → or_zero (lookup key (insert key n m)) ≡ n
used_after_insert key n m =
    let found : lookup key (insert key n m) ≡ some n =
      lookup-insert key key n m ∙ (rw (beq_refl key)) in
    ap or_zero found

converted :
    (ee : ExternalEndpoint) (r : Result) (m : List (String × ℕ)) (retries used left : ℕ)
    → ee.heartbeat_retries ≡ pos retries
    → or_zero (lookup ee.key m) ≡ used
    → r.pending ≡ false
    → r.success ≡ false
    → retries ≡ used + suc left
    → ((apply_retries ee r false m).0.pending ≡ true)
      × ((apply_retries ee r false m).1 ≡ insert ee.key (suc used) m)
unfolding apply_retries
converted ee r m retries used left hr hu np ns h = ground arith

exhausted :
    (ee : ExternalEndpoint) (r : Result) (m : List (String × ℕ)) (retries : ℕ)
    → ee.heartbeat_retries ≡ pos retries
    → retries ≤ or_zero (lookup ee.key m)
    → r.pending ≡ false
    → r.success ≡ false
    → ((apply_retries ee r false m).0.pending ≡ false)
      × (retries ≤ or_zero (lookup ee.key (apply_retries ee r false m).1))
unfolding apply_retries
exhausted ee r m retries hr hu np ns =
    ground (arith, used_after_insert ee.key (or_zero (lookup ee.key m)) m)

pending_exhausted :
    (ee : ExternalEndpoint) (rs : List Result) (m : List (String × ℕ)) (retries : ℕ)
    → ee.heartbeat_retries ≡ pos retries
    → retries ≤ or_zero (lookup ee.key m)
    → AllFailures rs
    → map (λ (r : Result). r.pending) (apply_all ee rs m).0 ≡ pending_first 0 (length rs)
unfolding apply_all pending_first
pending_exhausted ee [] m retries hr hu f = refl
pending_exhausted ee (r ∷ rs) m retries hr hu (np, ns, f) =
    let (now, still) = exhausted ee r m retries hr hu np ns in
    rw (now, pending_exhausted ee rs (apply_retries ee r false m).1 retries hr still f)

-- Of the failures in a row outside of maintenance, exactly those that the retries still cover are
-- stored as pending, the first ones, and every later one is stored as a failure.
pub pending-apply_all :
    (ee : ExternalEndpoint) (rs : List Result) (m : List (String × ℕ)) (left used : ℕ)
    → ee.heartbeat_retries ≡ pos (used + left)
    → or_zero (lookup ee.key m) ≡ used
    → AllFailures rs
    → map (λ (r : Result). r.pending) (apply_all ee rs m).0 ≡ pending_first left (length rs)
unfolding apply_all pending_first
pending-apply_all ee [] m zero used hr hu f = refl
pending-apply_all ee [] m (suc left) used hr hu f = refl
pending-apply_all ee (r ∷ rs) m zero used hr hu f =
    pending_exhausted ee (r ∷ rs) m (used + 0) hr (omega arith) f
pending-apply_all ee (r ∷ rs) m (suc left) used hr hu (np, ns, f) =
    let (now, counted) = converted ee r m (used + suc left) used left hr hu np ns refl in
    let rest : List (String × ℕ) = (apply_retries ee r false m).1 in
    let used' : or_zero (lookup ee.key rest) ≡ suc used =
      ap (λ x. or_zero (lookup ee.key x)) counted ∙ used_after_insert ee.key (suc used) m in
    rw (now, pending-apply_all ee rs rest left (suc used) (hr ∙ ap pos (omega arith)) used' f)
