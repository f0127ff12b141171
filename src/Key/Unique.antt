-- ===== src/Key/Unique.antt =====
-- internal/config/key/key.go: a key tells the group and the name that it was made from, up to what
-- `sanitize` forgets.
use go_uptime.Key.{sanitize, convert_group_and_name_to_key}
use go_uptime.Common.{◌↔◌, ℕ, ◌≡◌, ◌≢◌, refl, Bytes, [], ◌∷◌, ◌++◌, arith, ◌==◌, if◌then◌else◌}
use go_uptime.Common.Text.{codes, has_prefix, replace_from, replace_all, trim_space, to_lower}

abbrev Lacks : ℕ → Bytes → Type 0
Lacks c [] = Unit
Lacks c (b ∷ s) = (b ≢ c) × Lacks c s

-- The replacement of one byte by another one.
swap : ℕ → ℕ → Bytes → Bytes
swap old new [] = []
swap old new (b ∷ s) = (if b == old then new else b) ∷ swap old new s

replace_all-eq-swap :
    (old new : ℕ) (s : Bytes) → replace_all s (old ∷ []) (new ∷ []) ≡ swap old new s
unfolding replace_all replace_from has_prefix swap
replace_all-eq-swap old new [] = refl
replace_all-eq-swap old new (b ∷ s) = ground (arith, replace_all-eq-swap old new s)

Lacks-swap_own : (old new : ℕ) (s : Bytes) → new ≢ old → Lacks old (swap old new s)
unfolding swap
Lacks-swap_own old new [] h = tt
Lacks-swap_own old new (b ∷ s) h = (ground arith, Lacks-swap_own old new s h)

Lacks-swap_other : (c old new : ℕ) (s : Bytes) → new ≢ c → Lacks c s → Lacks c (swap old new s)
unfolding swap
Lacks-swap_other c old new [] h l = tt
Lacks-swap_other c old new (b ∷ s) h (n, l) = (ground arith, Lacks-swap_other c old new s h l)

Lacks-replace :
    (old : ℕ) (s : Bytes) → Lacks b'_' s → Lacks b'_' (replace_all s (old ∷ []) (codes "-"))
Lacks-replace old s l =
    rw (replace_all-eq-swap old b'-' s) (Lacks-swap_other b'_' old b'-' s (ground arith) l)

Lacks-replace_own : (s : Bytes) → Lacks b'_' (replace_all s (codes "_") (codes "-"))
Lacks-replace_own s =
    rw (replace_all-eq-swap b'_' b'-' s) (Lacks-swap_own b'_' b'-' s (ground arith))

Lacks-sanitize : (s : Bytes) → Lacks b'_' (sanitize s)
unfolding sanitize
Lacks-sanitize text =
    let s0 = replace_all (trim_space (to_lower text)) (codes "/") (codes "-") in
    let s1 = replace_all s0 (codes "_") (codes "-") in
    let s2 = replace_all s1 (codes ".") (codes "-") in
    let s3 = replace_all s2 (codes ",") (codes "-") in
    let s4 = replace_all s3 (codes " ") (codes "-") in
    let s5 = replace_all s4 (codes "#") (codes "-") in
    let s6 = replace_all s5 (codes "+") (codes "-") in
    let l1 = Lacks-replace_own s0 in
    let l2 = Lacks-replace b'.' s1 l1 in
    let l3 = Lacks-replace b',' s2 l2 in
    let l4 = Lacks-replace b' ' s3 l3 in
    let l5 = Lacks-replace b'#' s4 l4 in Lacks-replace b'&' s6 (Lacks-replace b'+' s5 l5)

cut_at :
    (c : ℕ) (s t u v : Bytes)
    → Lacks c s
    → Lacks c u
    → s ++ (c ∷ t) ≡ u ++ (c ∷ v)
    → (s ≡ u) × (t ≡ v)
cut_at c [] t [] v l m h = (refl, cc)
cut_at c [] t (b ∷ u) v l (n, m) h = absurd (n (ground arith))
cut_at c (b ∷ s) t [] v (n, l) m h = absurd (n (ground arith))
cut_at c (b ∷ s) t (d ∷ u) v (n, l) (o, m) h =
    let head : b ≡ d = ground arith in
    let tail : s ++ (c ∷ t) ≡ u ++ (c ∷ v) = ground arith in
    let (p, q) = cut_at c s t u v l m tail in (cc, q)

-- Two pairs of a group and a name have one key exactly if the groups have one sanitized form and
-- the names have one.
pub key-Unique :
    (group name group' name' : Bytes)
    → (convert_group_and_name_to_key group name ≡ convert_group_and_name_to_key group' name')
      ↔ ((sanitize group ≡ sanitize group') × (sanitize name ≡ sanitize name'))
unfolding convert_group_and_name_to_key
key-Unique group name group' name' = (
  λ h.
      cut_at b'_' (sanitize group) (sanitize name) (sanitize group') (sanitize name')
        (Lacks-sanitize group) (Lacks-sanitize group') h,
  λ (p, q). cc,
)
