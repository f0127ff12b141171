-- ===== src/Common/Text.antt =====
-- Go's package strings on texts as bytes, as far as the program uses it. Letters and spaces are
-- those of ASCII: other characters have no upper or lower case here, and are no space.
pub mod Affixes
use Prim.Native.Char.{code}
use mathlib.Core.List.{reverse}
use go_uptime.Common.{
  ℕ, zero, suc, ◌+◌, ◌-◌, ◌*◌, ◌/◌, ◌%◌, ◌≡◌, ◌≢◌, refl, Bool, true, false, ◌&&◌, ◌||◌, List, [],
  ◌∷◌, ◌++◌, String, Bytes, ltb, leb, ◌==◌, if◌then◌else◌, length, take, drop, map, bytes_beq,
  arith,
}
use go_uptime.Common.Int.{ℤ, pos, negsuc}

-- The bytes of a text of ASCII.
abbrev pub codes : String → Bytes
codes String.[] = []
codes (String.◌∷◌ c s) = code c ∷ codes s

-- `strconv.FormatBool`
abbrev pub format_bool : Bool → Bytes
format_bool true = codes "true"
format_bool false = codes "false"

unfoldable pub is_space : ℕ → Bool
is_space b = leb 9 b && leb b 13 || b == 32

unfoldable pub trim_left : Bytes → Bytes
unfolding is_space
trim_left [] = []
trim_left (b ∷ s) = if is_space b then trim_left s else b ∷ s

-- `strings.TrimSpace`
unfoldable pub trim_space : Bytes → Bytes
unfolding trim_left
trim_space s = reverse (trim_left (reverse (trim_left s)))

-- `strings.ToLower` and `strings.ToUpper`
abbrev pub lower_byte : ℕ → ℕ
lower_byte b = if leb b'A' b && leb b b'Z' then b + 32 else b

abbrev pub upper_byte : ℕ → ℕ
upper_byte b = if leb b'a' b && leb b b'z' then b - 32 else b

unfoldable pub to_lower : Bytes → Bytes
to_lower s = map lower_byte s

unfoldable pub to_upper : Bytes → Bytes
to_upper s = map upper_byte s

unfoldable pub has_prefix : Bytes → Bytes → Bool
has_prefix s [] = true
has_prefix [] (p ∷ ps) = false
has_prefix (b ∷ s) (p ∷ ps) = b == p && has_prefix s ps

unfoldable pub has_suffix : Bytes → Bytes → Bool
unfolding has_prefix
has_suffix s suffix = has_prefix (reverse s) (reverse suffix)

unfoldable pub trim_prefix : Bytes → Bytes → Bytes
unfolding has_prefix
trim_prefix s prefix = if has_prefix s prefix then drop (length prefix) s else s

unfoldable pub trim_suffix : Bytes → Bytes → Bytes
unfolding has_suffix
trim_suffix s suffix = if has_suffix s suffix then take (length s - length suffix) s else s

-- `strings.Contains`
unfoldable pub contains_text : Bytes → Bytes → Bool
unfolding has_prefix
contains_text [] sub = has_prefix [] sub
contains_text (b ∷ s) sub = has_prefix (b ∷ s) sub || contains_text s sub

-- The bytes of a separator that is found are skipped.
unfoldable pub split_from : Bytes → ℕ → Bytes → Bytes → List Bytes
unfolding has_prefix
split_from sep skip part [] = part ∷ []
split_from sep (suc skip) part (b ∷ s) = split_from sep skip part s
split_from sep zero part (b ∷ s) = elim (has_prefix (b ∷ s) sep) [
  | true ↦ part ∷ split_from sep (length sep - 1) [] s
  | false ↦ split_from sep zero (part ++ b ∷ []) s
]

-- `strings.Split`, for a separator that is not empty.
unfoldable pub split : Bytes → Bytes → List Bytes
unfolding split_from
split s sep = split_from sep 0 [] s

unfoldable pub replace_from : Bytes → Bytes → ℕ → Bytes → Bytes
unfolding has_prefix
replace_from old new skip [] = []
replace_from old new (suc skip) (b ∷ s) = replace_from old new skip s
replace_from old new zero (b ∷ s) = elim (has_prefix (b ∷ s) old) [
  | true ↦ new ++ replace_from old new (length old - 1) s
  | false ↦ b ∷ replace_from old new zero s
]

-- The new text before each byte and at the end.
unfoldable pub intersperse : Bytes → Bytes → Bytes
intersperse new [] = new
intersperse new (b ∷ s) = new ++ (b ∷ intersperse new s)

-- `strings.ReplaceAll`
unfoldable pub replace_all : Bytes → Bytes → Bytes → Bytes
unfolding replace_from intersperse
replace_all s [] new = intersperse new s
replace_all s (o ∷ old) new = replace_from (o ∷ old) new 0 s

-- `strings.Replace` of the first occurrence of a text that is not empty.
unfoldable pub replace_first : Bytes → Bytes → Bytes → Bytes
unfolding has_prefix
replace_first [] old new = []
replace_first (b ∷ s) old new =
    if has_prefix (b ∷ s) old then new ++ drop (length old) (b ∷ s) else b ∷ replace_first s old new

unfoldable pub digits : ℕ → ℕ → Bytes → Bytes
digits zero n out = out
digits (suc fuel) n out =
    let next = (b'0' + n % 10) ∷ out in
    let rest = digits fuel (n / 10) next in if n / 10 == 0 then next else rest

-- `strconv.Itoa` and `strconv.FormatInt` in base 10: a number has at most as many digits as its
-- value and one more.
unfoldable pub itoa : ℤ → Bytes
unfolding digits
itoa (pos n) = digits (suc n) n []
itoa (negsuc n) = b'-' ∷ digits (suc (suc n)) (suc n) []
