-- ===== src/Gontext/Paths.antt =====
-- internal/config/gontext/gontext.go: what is read back after a value was stored.
use mathlib.Core.List.{nil≢cons}
use go_uptime.JsonPath.{Value, null, boolean, number, text, array, object, Fields, end, field}
use go_uptime.Gontext.{Gontext, lookup, store, get_parts, get, next_map, set_parts, set}
use go_uptime.Common.{
  ◌≡◌, ◌≢◌, refl, sym, ap, ◌∙◌, true, false, Option, none, some, List, [], ◌∷◌, ◌++◌, Bytes,
  bytes_beq, bytes_beq_iff, Bool-cases, ◌⊎◌, inl, inr, ℕ, zero, suc, length, ◌-◌,
}
use go_uptime.Common.Text.{codes, split, split_from, has_prefix}

lookup-store_same :
    (key : Bytes) (value : Value) (fs : Fields) → lookup key (store key value fs) ≡ some value
unfolding lookup store
lookup-store_same key value end = rw ((bytes_beq_iff key key).1 refl) refl
lookup-store_same key value (field k v fs) = elim (Bool-cases (bytes_beq k key)) [
  | inl same ↦ simp (same)
  | inr other ↦ simp (other, lookup-store_same key value fs)
]

lookup-store_other :
    (key key' : Bytes) (value : Value) (fs : Fields)
    → key ≢ key'
    → lookup key' (store key value fs) ≡ lookup key' fs
unfolding lookup store
lookup-store_other key key' value end h = elim (Bool-cases (bytes_beq key key')) [
  | inl same ↦ absurd (h ((bytes_beq_iff key key').0 same))
  | inr other ↦ simp (other)
]
lookup-store_other key key' value (field k v fs) h = elim (Bool-cases (bytes_beq k key)) [
  | inl same ↦ elim (Bool-cases (bytes_beq k key')) [
    | inl same' ↦ absurd (h (sym ((bytes_beq_iff k key).0 same) ∙ (bytes_beq_iff k key').0 same'))
    | inr other' ↦ simp (same, other')
  ]
  | inr other ↦ simp (other, lookup-store_other key key' value fs h)
]

-- Two paths that differ at some part that both have.
abbrev pub IsApart : List Bytes → List Bytes → Type 0
IsApart [] parts' = ⊥
IsApart (part ∷ parts) [] = ⊥
IsApart (part ∷ parts) (part' ∷ parts') = (part ≢ part') ⊎ ((part ≡ part') × IsApart parts parts')

abbrev get_option : List Bytes → Option Value → Option Value
get_option parts none = none
get_option parts (some v) = get_parts parts v

get_parts-next_map :
    (part : Bytes) (parts : List Bytes) (found : Option Value)
    → get_parts (part ∷ parts) (object (next_map found)) ≡ get_option (part ∷ parts) found
unfolding get_parts lookup
get_parts-next_map part parts none = refl
get_parts-next_map part parts (some null) = refl
get_parts-next_map part parts (some (boolean b)) = refl
get_parts-next_map part parts (some (number n)) = refl
get_parts-next_map part parts (some (text s)) = refl
get_parts-next_map part parts (some (array vs)) = refl
get_parts-next_map part parts (some (object fs)) = refl

get_parts-object :
    (part : Bytes) (parts : List Bytes) (fs : Fields)
    → get_parts (part ∷ parts) (object fs) ≡ get_option parts (lookup part fs)
unfolding get_parts
get_parts-object part parts fs = refl

get_parts-set_same :
    (part : Bytes) (parts : List Bytes) (value : Value) (fs : Fields)
    → get_parts (part ∷ parts) (object (set_parts (part ∷ parts) value fs)) ≡ some value
unfolding get_parts set_parts
get_parts-set_same part [] value fs = ap (get_option []) (lookup-store_same part value fs)
get_parts-set_same part (next ∷ parts) value fs =
    let rest = set_parts (next ∷ parts) value (next_map (lookup part fs)) in
    ap (get_option (next ∷ parts)) (lookup-store_same part (object rest) fs)
    ∙ get_parts-set_same next parts value (next_map (lookup part fs))

lookup-set_other :
    (part part' : Bytes) (parts : List Bytes) (value : Value) (fs : Fields)
    → part ≢ part'
    → lookup part' (set_parts (part ∷ parts) value fs) ≡ lookup part' fs
unfolding set_parts
lookup-set_other part part' [] value fs h = lookup-store_other part part' value fs h
lookup-set_other part part' (next ∷ parts) value fs h =
    lookup-store_other part part'
      (object (set_parts (next ∷ parts) value (next_map (lookup part fs)))) fs h

get_parts-set_apart :
    (parts parts' : List Bytes) (value : Value) (fs : Fields)
    → IsApart parts parts'
    → get_parts parts' (object (set_parts parts value fs)) ≡ get_parts parts' (object fs)
unfolding get_parts set_parts
get_parts-set_apart [] parts' value fs h = absurd h
get_parts-set_apart (part ∷ parts) [] value fs h = absurd h
get_parts-set_apart (part ∷ parts) (part' ∷ parts') value fs (inl h) =
    ap (get_option parts') (lookup-set_other part part' parts value fs h)
get_parts-set_apart (part ∷ []) (part' ∷ parts') value fs (inr (p, h)) = absurd h
get_parts-set_apart (part ∷ next ∷ parts) (part' ∷ []) value fs (inr (p, h)) = absurd h
get_parts-set_apart (part ∷ next ∷ parts) (part' ∷ next' ∷ parts') value fs (inr (p, h)) =
    let inner = next_map (lookup part fs) in
    let rest = set_parts (next ∷ parts) value inner in
    let found : lookup part' (store part (object rest) fs) ≡ some (object rest) =
      ap (λ (k : Bytes). lookup k (store part (object rest) fs)) (sym p)
      ∙ lookup-store_same part (object rest) fs in
    ap (get_option (next' ∷ parts')) found
    ∙ get_parts-set_apart (next ∷ parts) (next' ∷ parts') value inner h
    ∙ get_parts-next_map next' parts' (lookup part fs)
    ∙ ap (λ (k : Bytes). get_option (next' ∷ parts') (lookup k fs)) p

split_from_found :
    (sep part s : Bytes) (b : ℕ)
    → has_prefix (b ∷ s) sep ≡ true
    → split_from sep zero part (b ∷ s) ≡ part ∷ split_from sep (length sep - 1) [] s
unfolding split_from
split_from_found sep part s b h = rw (split_from, h) refl

split_from_next :
    (sep part s : Bytes) (b : ℕ)
    → has_prefix (b ∷ s) sep ≡ false
    → split_from sep zero part (b ∷ s) ≡ split_from sep zero (part ++ b ∷ []) s
unfolding split_from
split_from_next sep part s b h = rw (split_from, h) refl

split_from_filled : (sep : Bytes) (skip : ℕ) (part s : Bytes) → split_from sep skip part s ≢ []
unfolding split_from
split_from_filled sep skip part [] = λ h. nil≢cons (sym h)
split_from_filled sep (suc skip) part (b ∷ s) = split_from_filled sep skip part s
split_from_filled sep zero part (b ∷ s) = elim (Bool-cases (has_prefix (b ∷ s) sep)) [
  | inl found ↦ λ h. nil≢cons (sym h ∙ split_from_found sep part s b found)
  | inr other ↦ λ h.
      split_from_filled sep zero (part ++ b ∷ []) s (sym (split_from_next sep part s b other) ∙ h)
]

get_parts-set_filled :
    (parts : List Bytes) (value : Value) (fs : Fields)
    → parts ≢ []
    → get_parts parts (object (set_parts parts value fs)) ≡ some value
get_parts-set_filled [] value fs h = absurd (h refl)
get_parts-set_filled (part ∷ parts) value fs h = get_parts-set_same part parts value fs

abbrev pub parts_of : Bytes → List Bytes
parts_of path = split path (codes ".")

-- A value stored under a path is read back from that path, and the paths that part from it at some
-- key keep their values: a value on the way that is no map is replaced by one.
pub get-set :
    (path : Bytes) (value : Value) (g : Gontext)
    → (get path (set path value g) ≡ some value)
      × ((path' : Bytes)
          → IsApart (parts_of path) (parts_of path')
          → get path' (set path value g) ≡ get path' g)
unfolding get set split
get-set path value g = (
  get_parts-set_filled (parts_of path) value g.values (split_from_filled (codes ".") 0 [] path),
  λ path' apart. get_parts-set_apart (parts_of path) (parts_of path') value g.values apart,
)
