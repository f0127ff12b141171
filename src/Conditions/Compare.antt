-- ===== src/Conditions/Compare.antt =====
-- internal/config/endpoint/condition.go and internal/pattern/pattern.go: the comparisons of two
-- texts and of two numbers.
pub mod Any
use go_uptime.Conditions.{
  Check, Library, pattern_function_prefix, any_function_prefix, function_suffix,
}
use go_uptime.Conditions.Placeholder.{milliseconds, resolve_placeholder}
use go_uptime.Common.{
  Bool, true, false, not, ◌&&◌, ◌||◌, Option, none, some, List, [], ◌∷◌, Bytes, bytes_beq,
  if◌then◌else◌, map,
}
use go_uptime.Common.Int.{ℤ, pos, negsuc, eq_ℤ}
use go_uptime.Common.Text.{
  codes, has_prefix, has_suffix, trim_prefix, trim_suffix, trim_space, replace_all, split,
}
use go_uptime.Gontext.{Gontext}

-- `Match` of pattern.go, on a system whose separator is '/'.
unfoldable pub match_pattern : Library → Bytes → Bytes → Bool
match_pattern lib pattern s =
    if bytes_beq pattern (codes "*")
    then true
    else lib.match (replace_all pattern (codes "/") []) (replace_all s (codes "/") [])

abbrev pub is_call : Bytes → Bytes → Bool
is_call prefix s = has_prefix s prefix && has_suffix s function_suffix

-- The argument of a function, or the text where it is not called.
abbrev pub argument : Bytes → Bytes → Bytes
argument prefix s =
    if is_call prefix s then trim_suffix (trim_prefix s prefix) function_suffix else s

-- The loop over the options.
unfoldable pub is_any : List Bytes → Bytes → Bool
is_any [] s = false
is_any (option ∷ options) s = bytes_beq (trim_space option) s || is_any options s

-- Two integers are compared as such, anything else as texts.
unfoldable pub is_same : Library → Bytes → Bytes → Bool
is_same lib first second = elim (lib.parse_int first) [
  | none ↦ bytes_beq first second
  | some a ↦ elim (lib.parse_int second) [ none ↦ bytes_beq first second | some b ↦ eq_ℤ a b ]
]

-- The part of `isEqual` on the function `any`. The suffixes are those of the texts as they came.
unfoldable pub is_equal_any : Library → Bool → Bool → Bytes → Bytes → Bool
unfolding is_any is_same
is_equal_any lib first_suffix second_suffix first second =
    let first_any = has_prefix first any_function_prefix && first_suffix in
    let second_any = has_prefix second any_function_prefix && second_suffix in
    let first' =
      if first_any
      then trim_suffix (trim_prefix first any_function_prefix) function_suffix
      else first in
    let second' =
      if second_any
      then trim_suffix (trim_prefix second any_function_prefix) function_suffix
      else second in
    if first_any && not second_any
    then is_any (split first' (codes ",")) second'
    else if not first_any && second_any
    then is_any (split second' (codes ",")) first'
    else is_same lib first' second'

-- `isEqual`
unfoldable pub is_equal : Library → Bytes → Bytes → Bool
unfolding match_pattern is_equal_any
is_equal lib first second =
    let first_suffix = has_suffix first function_suffix in
    let second_suffix = has_suffix second function_suffix in
    let first_pattern = is_call pattern_function_prefix first in
    let second_pattern = is_call pattern_function_prefix second in
    let first' = argument pattern_function_prefix first in
    let second' = argument pattern_function_prefix second in
    if first_suffix || second_suffix
    then (if first_pattern && not second_pattern
        then match_pattern lib first' second'
        else if not first_pattern && second_pattern
        then match_pattern lib second' first'
        else is_equal_any lib first_suffix second_suffix first' second')
    else is_same lib first second

abbrev pub cons_resolved : Option Bytes → Option (List Bytes) → Option (List Bytes)
cons_resolved none rest = none
cons_resolved (some resolved) none = none
cons_resolved (some resolved) (some rest) = some (resolved ∷ rest)

-- `sanitizeAndResolveWithContext`: what the elements without their outer spaces stand for. An error
-- of a placeholder does not occur.
unfoldable pub resolve_all : Library → Check → Option Gontext → List Bytes → Option (List Bytes)
unfolding resolve_placeholder
resolve_all lib r context [] = some []
resolve_all lib r context (element ∷ elements) =
    cons_resolved (resolve_placeholder lib r context (trim_space element))
      (resolve_all lib r context elements)

abbrev or_zero : Option ℤ → ℤ
or_zero none = pos 0
or_zero (some n) = n

abbrev int_or_float : Library → Bytes → Option ℤ → ℤ
int_or_float lib element (some n) = n
int_or_float lib element none = or_zero (lib.parse_float element)

abbrev duration_or_number : Library → Bytes → Option ℤ → ℤ
duration_or_number lib element none = int_or_float lib element (lib.parse_int element)
duration_or_number lib element (some d) =
    if eq_ℤ d (pos 0) then int_or_float lib element (lib.parse_int element) else milliseconds d

-- The loop of `sanitizeAndResolveNumericalWithContext`: a duration in milliseconds, an integer, a
-- float that was cut, or zero.
unfoldable pub numerical : Library → Bytes → ℤ
numerical lib element = duration_or_number lib element (lib.parse_duration element)
