-- ===== src/Conditions/Display/Durations.antt =====
-- internal/config/endpoint/condition.go: the durations that `formatDuration` cuts too far.
use mathlib.Core.List.{append_assoc}
use go_uptime.Conditions.Display.{natural, seconds_string, duration_string, format_duration}
use go_uptime.Common.{
  ℕ, zero, suc, ◌+◌, ◌*◌, ◌/◌, ◌%◌, ◌<◌, ◌≡◌, ◌≢◌, refl, sym, ap, ◌∙◌, Bool, true, false, [], ◌∷◌,
  ◌++◌, Bytes, bytes_beq, bytes_beq_iff, ltb, if◌then◌else◌, length, length-append, arith, ◌==◌,
  Bool-cases, inl, inr,
}
use go_uptime.Common.Int.{ℤ, pos}
use go_uptime.Common.Text.{codes, itoa, trim_suffix}
use go_uptime.Common.Text.Affixes.{
  has_suffix-append, has_suffix-last, trim_suffix-append, trim_suffix-other,
}
use go_uptime.Clock.{second}

-- What stands before the seconds.
front : ℕ → Bytes
front n =
    let minutes = natural (n / 60 % 60) ++ codes "m" in
    if ltb n 60
    then []
    else if ltb n 3600
    then minutes
    else natural (n / 3600) ++ (codes "h" ++ minutes)

joined :
    (a b : Bool) (h m tail : Bytes)
    → (if a
        then tail
        else if b
        then m ++ (codes "m" ++ tail)
        else h ++ (codes "h" ++ (m ++ (codes "m" ++ tail))))
      ≡ (if a then [] else if b then m ++ codes "m" else h ++ (codes "h" ++ (m ++ codes "m")))
        ++ tail
joined true b h m tail = refl
joined false true h m tail = sym (append_assoc m (codes "m") tail)
joined false false h m tail =
    let minutes = append_assoc m (codes "m") tail in
    let hours = append_assoc h (codes "h" ++ (m ++ codes "m")) tail in
    sym (hours ∙ ap (λ (x : Bytes). h ++ (codes "h" ++ x)) minutes)

seconds_string-front : (n : ℕ) → seconds_string n ≡ front n ++ (natural (n % 60) ++ codes "s")
unfolding front seconds_string
seconds_string-front n =
    joined (ltb n 60) (ltb n 3600) (natural (n / 3600)) (natural (n / 60 % 60))
      (natural (n % 60) ++ codes "s")

ten_natural : (t : ℕ) → 0 < t → t < 6 → natural (10 * t) ≡ (b'0' + t) ∷ codes "0"
unfolding itoa
ten_natural zero p q = absurd (omega arith)
ten_natural (suc zero) p q = refl
ten_natural (suc (suc zero)) p q = refl
ten_natural (suc (suc (suc zero))) p q = refl
ten_natural (suc (suc (suc (suc zero)))) p q = refl
ten_natural (suc (suc (suc (suc (suc zero))))) p q = refl
ten_natural (suc (suc (suc (suc (suc (suc t)))))) p q = absurd (omega arith)

last_tens :
    (t x : ℕ)
    → x ≡ 10 * t
    → 0 < t
    → t < 6
    → natural x ++ codes "s" ≡ ((b'0' + t) ∷ []) ++ codes "0s"
last_tens t x same p q = rw (same, ten_natural t p q) refl

-- A text that ends in a digit and `0s` loses both characters.
format_tens :
    (s : Bytes) (t : ℕ) (d : ℤ)
    → t < 6
    → duration_string d ≡ (s ++ ((b'0' + t) ∷ [])) ++ codes "0s"
    → format_duration d ≡ s ++ ((b'0' + t) ∷ [])
unfolding format_duration
format_tens s t d small same =
    let kept = s ++ ((b'0' + t) ∷ []) in
    let lengths = length-append s ((b'0' + t) ∷ []) in
    let whole = length-append kept (codes "0s") in
    let other : bytes_beq (kept ++ codes "0s") (codes "0s") ≡ false =
      elim (Bool-cases (bytes_beq (kept ++ codes "0s") (codes "0s"))) [
        | inl found ↦
            let equal = ap length ((bytes_beq_iff (kept ++ codes "0s") (codes "0s")).0 found) in
            absurd (omega arith)
        | inr found ↦ found
      ] in
    let digit : (b'0' + t == b'm') ≡ false = ground arith in
    let minute_kept : trim_suffix kept (codes "0m") ≡ kept =
      trim_suffix-other kept (codes "0m") (has_suffix-last s (codes "0") (b'0' + t) b'm' digit) in
    rw (same, other, trim_suffix-append kept (codes "0s"), has_suffix-append kept (codes "0s"))
      minute_kept

-- A duration of whole seconds, where the seconds that are left of the minutes are 10, 20, 30, 40 or
-- 50, is shown without its last character and without the unit: what is missing is the text `0s`.
pub format_duration-tens :
    (n : ℕ)
    → n % 10 ≡ 0
    → n % 60 ≢ 0
    → duration_string (pos (n * second)) ≡ format_duration (pos (n * second)) ++ codes "0s"
unfolding duration_string
format_duration-tens n tens rest =
    let t = n % 60 / 10 in
    let seconds : n * second / second ≡ n = omega arith in
    let ten : n % 60 ≡ 10 * t = omega arith in
    let positive : 0 < t = omega arith in
    let small : t < 6 = omega arith in
    let last : natural (n % 60) ++ codes "s" ≡ ((b'0' + t) ∷ []) ++ codes "0s" =
      last_tens t (n % 60) ten positive small in
    let whole : duration_string (pos (n * second)) ≡ (front n ++ ((b'0' + t) ∷ [])) ++ codes "0s" =
      rw (seconds, seconds_string-front n, last)
        (sym (append_assoc (front n) ((b'0' + t) ∷ []) (codes "0s"))) in
    rw (format_tens (front n) t (pos (n * second)) small whole) whole
