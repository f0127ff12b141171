-- ===== src/JsonPath/Walks.antt =====
-- internal/jsonpath/jsonpath.go: what a path without brackets reads, key by key.
use mathlib.Core.List.{append_assoc}
use go_uptime.JsonPath.{
  Value, null, boolean, number, text, array, object, Json, extracted, length_items, plain_value,
  first_key, extract_value, Evaluated, evaluated, failed, printed, walk_value, walk, walk_document,
  eval,
}
use go_uptime.Common.{
  ℕ, zero, suc, ◌<◌, ◌≡◌, ◌≢◌, refl, sym, ap, inl, inr, Bool, true, false, ◌&&◌, List, [], ◌∷◌,
  ◌++◌, Option, none, some, Bytes, bytes_beq, bytes_beq_iff, ◌==◌, if◌then◌else◌, length,
  length-append, arith, Bool-cases,
}
use go_uptime.Common.Text.Affixes.{drop-length_append}
use go_uptime.Common.Text.{codes, has_prefix, has_suffix, contains_text, replace_first}

-- No dot and no bracket.
abbrev pub IsPlain : Bytes → Type 0
IsPlain [] = Unit
IsPlain (b ∷ s) = (b ≢ b'.') × (b ≢ b'[') × (b ≢ b']') × IsPlain s

abbrev pub AllPlain : List Bytes → Type 0
AllPlain [] = Unit
AllPlain (k ∷ ks) = IsPlain k × AllPlain ks

abbrev pub join_keys : List Bytes → Bytes
join_keys [] = []
join_keys (k ∷ []) = k
join_keys (k ∷ j ∷ ks) = k ++ (b'.' ∷ join_keys (j ∷ ks))

abbrev pub is_end : List Bytes → Bool
is_end [] = true
is_end (k ∷ ks) = false

-- The value of the first key, where `inner` reads the keys after it in an object. A text ends a
-- path; an array, a number and a boolean end it too, and what is left of the path is not looked at.
abbrev pub read_value : Json → Bool → (Value → Evaluated) → Value → Evaluated
read_value json last inner null = failed
read_value json last inner (boolean b) = printed (json.print (boolean b))
read_value json last inner (number n) = printed (json.print (number n))
read_value json last inner (text s) = if last then printed s else failed
read_value json last inner (array vs) = evaluated (json.print (array vs)) (length_items vs)
read_value json last inner (object fs) =
    if last then printed (json.marshal (object fs)) else inner (object fs)

unfoldable pub read_keys : Json → List Bytes → Value → Evaluated
read_keys json [] value = failed
read_keys json (k ∷ ks) value =
    read_value json (is_end ks) (λ (v : Value). read_keys json ks v) (plain_value k value)

first_key_last : (k : Bytes) → IsPlain k → first_key 0 0 k ≡ (k, false)
unfolding first_key
first_key_last [] p = refl
first_key_last (b ∷ s) (d, o, c, p) = ground (arith, first_key_last s p)

first_key_more : (k rest : Bytes) → IsPlain k → first_key 0 0 (k ++ (b'.' ∷ rest)) ≡ (k, true)
unfolding first_key
first_key_more [] rest p = refl
first_key_more (b ∷ s) rest (d, o, c, p) = ground (arith, first_key_more s rest p)

contains_text-plain : (k : Bytes) → IsPlain k → contains_text k (codes "[") ≡ false
unfolding contains_text has_prefix
contains_text-plain [] p = refl
contains_text-plain (b ∷ s) (d, o, c, p) = ground (arith, contains_text-plain s p)

and_false : (b : Bool) {c : Bool} → c ≡ false → (b && c) ≡ false
and_false true h = h
and_false false h = refl

extract_value-plain :
    (fuel : ℕ) (k : Bytes) (value : Value)
    → IsPlain k
    → extract_value (suc fuel) k value ≡ extracted (plain_value k value)
unfolding extract_value
extract_value-plain fuel k value p =
    rw (and_false (has_suffix k (codes "]")) (contains_text-plain k p))

has_prefix-length : (s p : Bytes) → length s < length p → has_prefix s p ≡ false
unfolding has_prefix
has_prefix-length s [] h = absurd (omega arith)
has_prefix-length [] (p ∷ ps) h = refl
has_prefix-length (b ∷ s) (p ∷ ps) h = ground (arith, has_prefix-length s ps)

replace_first-short : (s old new : Bytes) → length s < length old → replace_first s old new ≡ s
unfolding replace_first
replace_first-short [] old new h = refl
replace_first-short (b ∷ s) old new h =
    rw (has_prefix-length (b ∷ s) old h) (ap (◌∷◌ b) (replace_first-short s old new (omega arith)))

has_prefix-append : (p s : Bytes) → has_prefix (p ++ s) p ≡ true
unfolding has_prefix
has_prefix-append [] s = refl
has_prefix-append (b ∷ p) s = ground (arith, has_prefix-append p s)

replace_first-prefix : (p s : Bytes) → p ≢ [] → replace_first (p ++ s) p [] ≡ s
unfolding replace_first
replace_first-prefix [] s h = absurd (h refl)
replace_first-prefix (b ∷ p) s h = rw (has_prefix-append (b ∷ p) s) (drop-length_append p s)

bytes_beq_self : (s : Bytes) → bytes_beq s s ≡ true
bytes_beq_self s = (bytes_beq_iff s s).1 refl

bytes_beq-shorter : (s t : Bytes) → length t < length s → bytes_beq s t ≡ false
bytes_beq-shorter s t h = elim (Bool-cases (bytes_beq s t)) [
  | inl same ↦ let lengths = ap length ((bytes_beq_iff s t).0 same) in absurd (omega arith)
  | inr other ↦ other
]

walk_value-last :
    (json : Json) (inner outer : Value → Evaluated) (v : Value)
    → walk_value json false true inner (extracted v) ≡ read_value json true outer v
walk_value-last json inner outer null = refl
walk_value-last json inner outer (boolean b) = refl
walk_value-last json inner outer (number n) = refl
walk_value-last json inner outer (text s) = refl
walk_value-last json inner outer (array vs) = refl
walk_value-last json inner outer (object fs) = refl

walk_value-more :
    (json : Json) (inner outer : Value → Evaluated) (v : Value)
    → ((w : Value) → inner w ≡ outer w)
    → walk_value json true false inner (extracted v) ≡ read_value json false outer v
walk_value-more json inner outer null same = refl
walk_value-more json inner outer (boolean b) same = refl
walk_value-more json inner outer (number n) same = refl
walk_value-more json inner outer (text s) same = refl
walk_value-more json inner outer (array vs) same = refl
walk_value-more json inner outer (object fs) same = same (object fs)

walk-last :
    (json : Json) (fuel : ℕ) (k : Bytes) (value : Value)
    → IsPlain k
    → walk json (suc fuel) k value ≡ read_keys json (k ∷ []) value
unfolding walk read_keys
walk-last json fuel k value p =
    let short : replace_first k (k ++ codes ".") [] ≡ k =
      replace_first-short k (k ++ codes ".") [] (rw (length-append k (codes ".")) (omega arith)) in
    rw (first_key_last k p) (
      rw (short) (
        rw (extract_value-plain (length k) k value p, bytes_beq_self k)
          (walk_value-last json (λ (v : Value). walk json fuel k v)
            (λ (v : Value). read_keys json [] v) (plain_value k value))))

append-not_empty : (k s : Bytes) (b : ℕ) → k ++ (b ∷ s) ≢ []
append-not_empty k s b h =
    let lengths = length-append k (b ∷ s) in
    let none : length (k ++ (b ∷ s)) ≡ 0 = ap length h in absurd (omega arith)

next_path : (k rest : Bytes) → replace_first (k ++ (b'.' ∷ rest)) (k ++ codes ".") [] ≡ rest
next_path k rest =
    rw (sym (append_assoc k (codes ".") rest))
      (replace_first-prefix (k ++ codes ".") rest (append-not_empty k [] b'.'))

walk-more :
    (json : Json) (fuel : ℕ) (k rest : Bytes) (ks : List Bytes) (value : Value)
    → IsPlain k
    → is_end ks ≡ false
    → ((v : Value) → walk json fuel rest v ≡ read_keys json ks v)
    → walk json (suc fuel) (k ++ (b'.' ∷ rest)) value ≡ read_keys json (k ∷ ks) value
unfolding walk read_keys
walk-more json fuel k rest ks value p more same =
    let lengths = length-append k (b'.' ∷ rest) in
    let next = next_path k rest in
    rw (first_key_more k rest p) (
      rw (next, bytes_beq-shorter (k ++ (b'.' ∷ rest)) rest (omega arith), more)
        (rw (extract_value-plain (length k) k value p) (
          walk_value-more json (λ (v : Value). walk json fuel rest v)
            (λ (v : Value). read_keys json ks v) (plain_value k value) same)))

walk-read_keys :
    (json : Json) (fuel : ℕ) (k : Bytes) (ks : List Bytes) (value : Value)
    → AllPlain (k ∷ ks)
    → length (join_keys (k ∷ ks)) < fuel
    → walk json fuel (join_keys (k ∷ ks)) value ≡ read_keys json (k ∷ ks) value
walk-read_keys json zero k ks value p enough = absurd (omega arith)
walk-read_keys json (suc fuel) k [] value (p, q) enough = walk-last json fuel k value p
walk-read_keys json (suc fuel) k (j ∷ js) value (p, q) enough =
    let lengths = length-append k (b'.' ∷ join_keys (j ∷ js)) in
    walk-more json fuel k (join_keys (j ∷ js)) (j ∷ js) value p refl
      (λ v. walk-read_keys json fuel j js v q (omega arith))

-- The document read key by key, where `none` is one that does not parse.
abbrev pub read_document : Json → List Bytes → Option Value → Evaluated
read_document json keys none = failed
read_document json keys (some value) = read_keys json keys value

walk_document-read :
    (json : Json) (k : Bytes) (ks : List Bytes) (document : Option Value)
    → AllPlain (k ∷ ks)
    → walk_document json (join_keys (k ∷ ks)) document ≡ read_document json (k ∷ ks) document
walk_document-read json k ks none p = refl
walk_document-read json k ks (some value) p =
    walk-read_keys json (suc (length (join_keys (k ∷ ks)))) k ks value p (omega arith)

-- Evaluating keys without dots and brackets, joined by dots, reads the parsed document key by key:
-- it fails where the document does not parse, and never panics or runs out of fuel. The path is not
-- empty.
pub eval-read_keys :
    (json : Json) (k : Bytes) (ks : List Bytes) (body : Bytes)
    → AllPlain (k ∷ ks)
    → length (join_keys (k ∷ ks)) ≢ 0
    → eval json (join_keys (k ∷ ks)) body ≡ read_document json (k ∷ ks) (json.unmarshal body)
unfolding eval
eval-read_keys json k ks body p filled =
    let tested : (length (join_keys (k ∷ ks)) == 0) ≡ false = ground arith in
    rw (tested) (walk_document-read json k ks (json.unmarshal body) p)
