-- ===== src/Common/Text/Affixes.antt =====
-- Texts that end in or begin with another text.
use mathlib.Core.List.{reverse, reverse-append}
use go_uptime.Common.{
  ℕ, ◌-◌, ◌≡◌, refl, true, false, [], ◌∷◌, ◌++◌, Bytes, ◌==◌, length, take, drop, length-append,
  arith,
}
use go_uptime.Common.Text.{has_prefix, has_suffix, trim_suffix}

pub drop-length_append : (p s : Bytes) → drop (length p) (p ++ s) ≡ s
drop-length_append [] s = refl
drop-length_append (b ∷ p) s = drop-length_append p s

has_prefix_refl : (s t : Bytes) → has_prefix (s ++ t) s ≡ true
unfolding has_prefix
has_prefix_refl [] t = refl
has_prefix_refl (b ∷ s) t = ground (arith, has_prefix_refl s t)

pub has_suffix-append : (s t : Bytes) → has_suffix (s ++ t) t ≡ true
unfolding has_suffix
has_suffix-append s t = rw (reverse-append s t) (has_prefix_refl (reverse t) (reverse s))

pub take-length_append : (s t : Bytes) → take (length s) (s ++ t) ≡ s
take-length_append [] t = refl
take-length_append (b ∷ s) t = rw (take-length_append s t)

pub trim_suffix-append : (s t : Bytes) → trim_suffix (s ++ t) t ≡ s
unfolding trim_suffix
trim_suffix-append s t =
    let lengths = length-append s t in
    let rest : length (s ++ t) - length t ≡ length s = omega arith in
    rw (has_suffix-append s t, rest) (take-length_append s t)

-- A text that ends in another byte.
pub has_suffix-last :
    (s t : Bytes) (a b : ℕ) → (a == b) ≡ false → has_suffix (s ++ (a ∷ [])) (t ++ (b ∷ [])) ≡ false
unfolding has_suffix has_prefix
has_suffix-last s t a b h = rw (reverse-append s (a ∷ []), reverse-append t (b ∷ []), h) refl

pub trim_suffix-other : (s t : Bytes) → has_suffix s t ≡ false → trim_suffix s t ≡ s
unfolding trim_suffix
trim_suffix-other s t h = rw (h) refl
