-- ===== src/Conditions/Display.antt =====
-- internal/config/endpoint/condition.go: how a condition is shown with its values.
pub mod Durations
use go_uptime.Conditions.{
  Library, pattern_function_prefix, function_suffix, invalid_condition_element_suffix,
  certificate_expiration_placeholder, domain_expiration_placeholder,
}
use go_uptime.Conditions.Placeholder.{invalid}
use go_uptime.Conditions.Compare.{is_call}
use go_uptime.Common.{
  ℕ, zero, suc, ◌-◌, ◌*◌, ◌/◌, ◌%◌, Bool, true, false, not, ◌&&◌, ◌||◌, ◌==◌, Option, none, some,
  List, [], ◌∷◌, ◌++◌, Bytes, bytes_beq, ltb, if◌then◌else◌, length, get_or,
}
use go_uptime.Common.Int.{ℤ, pos, negsuc, ◌*ℤ◌, int64}
use go_uptime.Common.Text.{codes, has_suffix, trim_suffix, itoa}
use go_uptime.Clock.{Duration, second, millisecond}
use go_uptime.Result.{rune_start}

abbrev pub maximum_length_before_truncating_when_compared_with_pattern : ℕ
maximum_length_before_truncating_when_compared_with_pattern = 25

-- The first characters of a text, as `%.25s` prints them.
unfoldable pub take_runes : ℕ → Bytes → Bytes
unfolding rune_start
take_runes n [] = []
take_runes zero (b ∷ s) = elim (rune_start b) [ true ↦ [] | false ↦ b ∷ take_runes zero s ]
take_runes (suc n) (b ∷ s) = elim (rune_start b) [
  | true ↦ b ∷ take_runes n s
  | false ↦ b ∷ take_runes (suc n) s
]

abbrev natural : ℕ → Bytes
natural n = itoa (pos n)

-- `Duration.String` of a whole number of seconds that is not negative.
unfoldable pub seconds_string : ℕ → Bytes
seconds_string n =
    let tail = natural (n % 60) ++ codes "s" in
    let minutes = natural (n / 60 % 60) ++ (codes "m" ++ tail) in
    if ltb n 60
    then tail
    else if ltb n 3600
    then minutes
    else natural (n / 3600) ++ (codes "h" ++ minutes)

-- `Duration.String` of a duration cut to seconds.
unfoldable pub duration_string : Duration → Bytes
unfolding seconds_string
duration_string (pos d) = seconds_string (d / second)
duration_string (negsuc d) =
    let n = suc d / second in if n == 0 then seconds_string 0 else codes "-" ++ seconds_string n

-- `formatDuration`
unfoldable pub format_duration : Duration → Bytes
unfolding duration_string
format_duration d =
    let s = duration_string d in
    if bytes_beq s (codes "0s")
    then codes "0s"
    else if has_suffix s (codes "0s")
    then trim_suffix (trim_suffix s (codes "0s")) (codes "0m")
    else s

-- The text next to a pattern is cut.
abbrev truncate : Bytes → Bytes → Bytes
truncate parameter resolved =
    if is_call pattern_function_prefix parameter
      && ltb maximum_length_before_truncating_when_compared_with_pattern (length resolved)
    then take_runes 25 resolved ++ codes "...(truncated)"
    else resolved

-- One side of the condition.
abbrev side : Bytes → Bytes → Bytes
side parameter resolved =
    if bytes_beq resolved (invalid parameter)
    then resolved
    else if bytes_beq parameter resolved
    then parameter
    else parameter ++ (codes " (" ++ (resolved ++ codes ")"))

-- `prettify`, which reads the first two parameters.
unfoldable pub prettify : List Bytes → List Bytes → Bytes → Bytes
unfolding take_runes
prettify parameters resolved operator =
    let first = get_or parameters 0 [] in
    let second = get_or parameters 1 [] in
    let right = truncate first (get_or resolved 1 []) in
    let left = truncate second (get_or resolved 0 []) in
    side first left ++ (codes " " ++ (operator ++ (codes " " ++ side second right)))

abbrev format_number : Bytes → ℤ → Option Duration → Bytes
format_number parameter n none = itoa n
format_number parameter n (some d) = format_duration (int64 (n *ℤ pos millisecond))

-- A number as a duration where the parameter is one or is about the expiration of a certificate or
-- a domain.
abbrev resolved_string : Library → Bytes → ℤ → Bytes
resolved_string lib parameter n =
    if bytes_beq parameter certificate_expiration_placeholder
      || bytes_beq parameter domain_expiration_placeholder
    then format_duration (int64 (n *ℤ pos millisecond))
    else format_number parameter n (lib.parse_duration parameter)

-- `prettifyNumericalParameters`
unfoldable pub prettify_numerical_parameters : Library → List Bytes → List ℤ → Bytes → Bytes
unfolding prettify format_duration
prettify_numerical_parameters lib parameters resolved operator =
    let left = resolved_string lib (get_or parameters 0 []) (get_or resolved 0 (pos 0)) in
    let right = resolved_string lib (get_or parameters 1 []) (get_or resolved 1 (pos 0)) in
    prettify parameters (left ∷ right ∷ []) operator
