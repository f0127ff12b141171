-- ===== src/JsonPath/Panics.antt =====
-- internal/jsonpath/jsonpath.go: an index into a value that is no object.
use mathlib.Core.List.{append_assoc}
use go_uptime.JsonPath.{
  Value, null, boolean, number, text, array, object, Json, panicked, atoi, first_key, find_bracket,
  extract_value, crashed, walk, walk_document, eval, Bracket, index_of, member,
}
use go_uptime.JsonPath.Walks.{IsPlain}
use go_uptime.Common.{
  ℕ, suc, ◌+◌, ◌≡◌, ◌≢◌, refl, sym, ap, ◌∙◌, true, false, [], ◌∷◌, ◌++◌, none, some, Bytes, ◌==◌,
  length, length-append, arith,
}
use go_uptime.Common.Text.Affixes.{drop-length_append, take-length_append, has_suffix-append}
use go_uptime.Common.Text.{codes, has_prefix, has_suffix, contains_text}

-- A name with an index, as in `data[0]`.
abbrev pub indexed_key : Bytes → Bytes → Bytes
indexed_key name index = name ++ (b'[' ∷ (index ++ codes "]"))

-- What is neither null nor an object.
abbrev pub HasNoFields : Value → Type 0
HasNoFields null = ⊥
HasNoFields (object fs) = ⊥
HasNoFields v = Unit

first_key_plain :
    (opened closed : ℕ) (s : Bytes)
    → IsPlain s
    → first_key opened closed (s ++ codes "]") ≡ (s ++ codes "]", false)
unfolding first_key
first_key_plain opened closed [] p = ground arith
first_key_plain opened closed (b ∷ s) (d, o, c, p) =
    ground (arith, first_key_plain opened closed s p)

first_key-indexed_key :
    (opened closed : ℕ) (name index : Bytes)
    → IsPlain name
    → IsPlain index
    → first_key opened closed (indexed_key name index) ≡ (indexed_key name index, false)
unfolding first_key
first_key-indexed_key opened closed [] index p q =
    ground (arith, first_key_plain (suc opened) closed index q)
first_key-indexed_key opened closed (b ∷ s) index (d, o, c, p) q =
    ground (arith, first_key-indexed_key opened closed s index p q)

-- The bracket that starts and stops at two positions.
abbrev between : ℕ → ℕ → Bracket
between start stop = record { start = start; stop = some stop }

find_bracket_index :
    (i start stop : ℕ) (s : Bytes)
    → IsPlain s
    → stop ≡ length s + i
    → find_bracket i start 1 (s ++ codes "]") ≡ between start stop
unfolding find_bracket
find_bracket_index i start stop [] p same = let here : stop ≡ i = omega arith in rw (here) refl
find_bracket_index i start stop (b ∷ s) (d, o, c, p) same =
    ground (arith, find_bracket_index (suc i) start stop s p (omega arith))

find_bracket-indexed_key :
    (i start first last : ℕ) (name index : Bytes)
    → IsPlain name
    → IsPlain index
    → first ≡ length name + i
    → last ≡ suc (length index + first)
    → find_bracket i start 0 (indexed_key name index) ≡ between first last
unfolding find_bracket
find_bracket-indexed_key i start first last [] index p q same same' =
    let here : first ≡ i = omega arith in
    rw (here) (find_bracket_index (suc i) i last index q (omega arith))
find_bracket-indexed_key i start first last (b ∷ s) index (d, o, c, p) q same same' =
    ground
      (arith, find_bracket-indexed_key (suc i) start first last s index p q (omega arith) same')

contains_text-indexed_key :
    (name index : Bytes) → contains_text (indexed_key name index) (codes "[") ≡ true
unfolding contains_text has_prefix
contains_text-indexed_key [] index = refl
contains_text-indexed_key (b ∷ s) index = ground (arith, contains_text-indexed_key s index)

has_suffix-indexed_key :
    (name index : Bytes) → has_suffix (indexed_key name index) (codes "]") ≡ true
has_suffix-indexed_key name index =
    let split : indexed_key name index ≡ (name ++ (b'[' ∷ index)) ++ codes "]" =
      sym (append_assoc name (b'[' ∷ index) (codes "]")) in
    rw (split) (has_suffix-append (name ++ (b'[' ∷ index)) (codes "]"))

index_of-indexed_key :
    (name index : Bytes) (first last : ℕ)
    → first ≡ length name
    → last ≡ suc (length index + first)
    → index_of (indexed_key name index) (between first last) (some last) ≡ atoi index
index_of-indexed_key name index first last same same' =
    let split : indexed_key name index ≡ (name ++ (b'[' ∷ index)) ++ codes "]" =
      sym (append_assoc name (b'[' ∷ index) (codes "]")) in
    let front : name ++ (b'[' ∷ index) ≡ (name ++ codes "[") ++ index =
      sym (append_assoc name (codes "[") index) in
    let open_length = length-append name (codes "[") in
    let front_length = length-append name (b'[' ∷ index) in
    let one : suc first ≡ length (name ++ codes "[") = omega arith in
    let two : last ≡ length (name ++ (b'[' ∷ index)) = omega arith in
    rw (split, two, take-length_append (name ++ (b'[' ∷ index)) (codes "]"))
      (rw (one, front) (ap atoi (drop-length_append (name ++ codes "[") index)))

member-HasNoFields : (key : Bytes) (v : Value) → HasNoFields v → member key v ≡ none
member-HasNoFields key null h = absurd h
member-HasNoFields key (object fs) h = absurd h
member-HasNoFields key (boolean b) h = refl
member-HasNoFields key (number n) h = refl
member-HasNoFields key (text s) h = refl
member-HasNoFields key (array vs) h = refl

name_length : (name : Bytes) → name ≢ [] → (length name == 0) ≡ false
name_length [] h = absurd (h refl)
name_length (b ∷ s) h = ground arith

extract_value-panics :
    (fuel : ℕ) (name index : Bytes) (n : ℕ) (value : Value)
    → IsPlain name
    → name ≢ []
    → IsPlain index
    → atoi index ≡ some n
    → HasNoFields value
    → extract_value (suc fuel) (indexed_key name index) value ≡ panicked
unfolding extract_value
extract_value-panics fuel name index n value p filled q parsed h =
    let key = indexed_key name index in
    let last = suc (length index + length name) in
    let bracket =
      find_bracket-indexed_key 0 0 (length name) last name index p q (omega arith) refl in
    let number = index_of-indexed_key name index (length name) last refl refl ∙ parsed in
    let named = name_length name filled in
    rw (has_suffix-indexed_key name index, contains_text-indexed_key name index)
      (rw (bracket, number)
        (rw (take-length_append name (b'[' ∷ (index ++ codes "]")), named)
          (rw (member-HasNoFields name value h) refl)))

walk_document-panics :
    (json : Json) (name index : Bytes) (n : ℕ) (value : Value)
    → IsPlain name
    → name ≢ []
    → IsPlain index
    → atoi index ≡ some n
    → HasNoFields value
    → walk_document json (indexed_key name index) (some value) ≡ crashed
unfolding walk
walk_document-panics json name index n value p filled q parsed h =
    rw (first_key-indexed_key 0 0 name index p q) (
      rw
        (extract_value-panics (length (indexed_key name index)) name index n value p filled q parsed
          h)
        refl)

-- A path made of a name and a bracketed index, both without dots and brackets, the name not empty
-- and the index an integer that is not negative, panics on a document that parses to an array, a
-- text, a number or a boolean.
pub eval-panics :
    (json : Json) (name index body : Bytes) (n : ℕ) (value : Value)
    → IsPlain name
    → name ≢ []
    → IsPlain index
    → atoi index ≡ some n
    → json.unmarshal body ≡ some value
    → HasNoFields value
    → eval json (indexed_key name index) body ≡ crashed
unfolding eval
eval-panics json name index body n value p filled q parsed document h =
    let lengths = length-append name (b'[' ∷ (index ++ codes "]")) in
    let tested : (length (indexed_key name index) == 0) ≡ false = ground arith in
    rw (tested, document) (walk_document-panics json name index n value p filled q parsed h)
