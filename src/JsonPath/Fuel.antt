-- ===== src/JsonPath/Fuel.antt =====
-- internal/jsonpath/jsonpath.go: the recursions end. A path and a key with an index get shorter.
use mathlib.Core.Bool.{true≢false}
use go_uptime.JsonPath.{
  Value, null, boolean, number, text, array, object, Json, Extracted, extracted, panicked,
  find_bracket, or_zero, first_key, extract_value, pick_indexed, index_of, plain_value, Evaluated,
  walk_value, walk,
}
use go_uptime.Common.{
  ℕ, zero, suc, ◌<◌, ◌≡◌, refl, sym, ap, ◌∙◌, ◌⊎◌, inl, inr, Bool, true, false, ◌&&◌, [], ◌∷◌, ◌++◌,
  Bytes, bytes_beq, bytes_beq_iff, ◌==◌, if◌then◌else◌, length, drop, take, get_or, length-append,
  length-drop, arith, Bool-cases,
}
use go_uptime.Common.Text.{codes, has_prefix, has_suffix, contains_text, replace_first}

replace_first-shorter :
    (s old : Bytes)
    → 0 < length old
    → (replace_first s old [] ≡ s) ⊎ (length (replace_first s old []) < length s)
unfolding replace_first
replace_first-shorter [] old h = inl refl
replace_first-shorter (b ∷ s) old h = elim (Bool-cases (has_prefix (b ∷ s) old)) [
  | inl found ↦ let lengths = length-drop (length old) (b ∷ s) in inr (rw (found) (omega arith))
  | inr other ↦ elim (replace_first-shorter s old h) [
    | inl same ↦ inl (rw (other) (ap (◌∷◌ b) same))
    | inr shorter ↦ inr (rw (other) (omega arith))
  ]
]

-- Any fuel above the length of the key gives one value.
extract_value_enough :
    (fuel fuel' : ℕ) (key : Bytes) (value : Value)
    → length key < fuel
    → length key < fuel'
    → extract_value fuel key value ≡ extract_value fuel' key value
unfolding extract_value has_suffix has_prefix
extract_value_enough zero fuel' key value h h' = absurd (omega arith)
extract_value_enough (suc fuel) zero key value h h' = absurd (omega arith)
extract_value_enough (suc fuel) (suc fuel') [] value h h' = refl
extract_value_enough (suc fuel) (suc fuel') (b ∷ s) value h h' =
    let key = b ∷ s in
    let bracket = find_bracket 0 0 0 key in
    let stop = or_zero bracket.stop in
    let nested = get_or key (suc stop) 0 == b'[' in
    let shorter = length-drop (suc stop) key in
    let inner : (v : Value)
        → extract_value fuel (drop (suc stop) key) v ≡ extract_value fuel' (drop (suc stop) key) v =
      λ v. extract_value_enough fuel fuel' (drop (suc stop) key) v (omega arith) (omega arith) in
    ap
      (λ (f : Value → Extracted).
        if has_suffix key (codes "]") && contains_text key (codes "[")
        then pick_indexed nested f (take bracket.start key) value
            (index_of key bracket bracket.stop)
        else extracted (plain_value key value))
      (λ i v. inner v i)

walk_value-inner :
    (json : Json) (more is_last : Bool) (f g : Value → Evaluated) (e : Extracted)
    → (is_last ≡ false → (v : Value) → f v ≡ g v)
    → walk_value json more is_last f e ≡ walk_value json more is_last g e
walk_value-inner json more is_last f g panicked same = refl
walk_value-inner json more is_last f g (extracted null) same = refl
walk_value-inner json more is_last f g (extracted (boolean b)) same = refl
walk_value-inner json more is_last f g (extracted (number n)) same = refl
walk_value-inner json more is_last f g (extracted (text s)) same = refl
walk_value-inner json more is_last f g (extracted (array vs)) same = refl
walk_value-inner json more true f g (extracted (object fs)) same = refl
walk_value-inner json more false f g (extracted (object fs)) same = same refl (object fs)

next-shorter :
    (path key : Bytes)
    → bytes_beq path (replace_first path (key ++ codes ".") []) ≡ false
    → length (replace_first path (key ++ codes ".") []) < length path
next-shorter path key h =
    let lengths = length-append key (codes ".") in
    elim (replace_first-shorter path (key ++ codes ".") (omega arith)) [
      | inl same ↦ absurd (
          true≢false (
            sym ((bytes_beq_iff path (replace_first path (key ++ codes ".") [])).1 (sym same)) ∙ h))
      | inr shorter ↦ shorter
    ]

-- Any fuel above the length of the path gives one result, so the fuel of the evaluation, the length
-- and one more, never runs out.
walk_enough :
    (json : Json) (fuel fuel' : ℕ) (path : Bytes) (value : Value)
    → length path < fuel
    → length path < fuel'
    → walk json fuel path value ≡ walk json fuel' path value
unfolding walk
walk_enough json zero fuel' path value h h' = absurd (omega arith)
walk_enough json (suc fuel) zero path value h h' = absurd (omega arith)
walk_enough json (suc fuel) (suc fuel') path value h h' =
    let key = (first_key 0 0 path).0 in
    let next = replace_first path (key ++ codes ".") [] in
    walk_value-inner json (first_key 0 0 path).1 (bytes_beq path next)
      (λ (v : Value). walk json fuel next v) (λ (v : Value). walk json fuel' next v)
      (extract_value (suc (length key)) key value)
      (λ differs v.
        let shorter = next-shorter path key differs in
        walk_enough json fuel fuel' next v (omega arith) (omega arith))
