-- ===== src/Conditions/Compare/Any.antt =====
-- internal/config/endpoint/condition.go: the function `any` on one side of a comparison.
use go_uptime.Conditions.{Library, any_function_prefix, pattern_function_prefix, function_suffix}
use go_uptime.Conditions.Compare.{is_any, is_equal_any, is_equal}
use go_uptime.Common.{◌≡◌, refl, Bool, true, false, ◌&&◌, ◌||◌, Bytes, ◌++◌}
use go_uptime.Common.Text.{codes, has_prefix, has_suffix, trim_prefix, trim_suffix, split}
use go_uptime.Common.Text.Affixes.{has_suffix-append, trim_suffix-append}

abbrev pub any_call : Bytes → Bytes
any_call options = any_function_prefix ++ (options ++ function_suffix)

and_false : (b : Bool) → (b && false) ≡ false
and_false true = refl
and_false false = refl

or_true : (b : Bool) → (b || true) ≡ true
or_true true = refl
or_true false = refl

any_call-suffix : (options : Bytes) → has_suffix (any_call options) function_suffix ≡ true
any_call-suffix options = has_suffix-append (any_function_prefix ++ options) function_suffix

any_call-stripped :
    (options : Bytes)
    → trim_suffix (trim_prefix (any_call options) any_function_prefix) function_suffix ≡ options
unfolding trim_prefix has_prefix
any_call-stripped options = trim_suffix-append options function_suffix

any_call-no_pattern :
    (options : Bytes) → has_prefix (any_call options) pattern_function_prefix ≡ false
unfolding has_prefix
any_call-no_pattern options = refl

any_call-prefix : (options : Bytes) → has_prefix (any_call options) any_function_prefix ≡ true
unfolding has_prefix
any_call-prefix options = refl

-- A text that does not end in a parenthesis equals `any(...)`, on either side, exactly if it is one
-- of the options without its outer spaces.
pub is_equal-any :
    (lib : Library) (text options : Bytes)
    → has_suffix text function_suffix ≡ false
    → (is_equal lib text (any_call options) ≡ is_any (split options (codes ",")) text)
      × (is_equal lib (any_call options) text ≡ is_any (split options (codes ",")) text)
unfolding is_equal is_equal_any
is_equal-any lib text options h = (
  simp (
    h,
    any_call-suffix options,
    and_false (has_prefix text pattern_function_prefix),
    and_false (has_prefix text any_function_prefix),
    any_call-no_pattern options,
    any_call-prefix options,
    any_call-stripped options,
  ),
  simp (
    h,
    any_call-suffix options,
    and_false (has_prefix text pattern_function_prefix),
    and_false (has_prefix text any_function_prefix),
    any_call-no_pattern options,
    any_call-prefix options,
    any_call-stripped options,
  ),
)
