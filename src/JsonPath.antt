-- ===== src/JsonPath.antt =====
-- internal/jsonpath/jsonpath.go: the small JSON path dialect of the conditions. encoding/json and
-- the printing of a value are parameters.
pub mod Walks
pub mod Panics
pub mod Fuel
mod Examples
use go_uptime.Common.{
  ℕ, zero, suc, ◌+◌, ◌-◌, ◌*◌, ◌^◌, Bool, true, false, not, ◌&&◌, ◌||◌, Option, none, some, List,
  [], ◌∷◌, ◌++◌, Bytes, bytes_beq, ltb, leb, ◌==◌, if◌then◌else◌, length, take, drop, get_or,
}
use go_uptime.Common.Int.{ℤ, pos, negsuc}
use go_uptime.Common.Text.{codes, has_suffix, contains_text, replace_first}

-- What `json.Unmarshal` makes of a document, as an interface{}. A number is its printed form; the
-- keys of an object differ.
mutual
  pub data Value : Type 0 where
    null : Value
    boolean : Bool → Value
    number : Bytes → Value
    text : Bytes → Value
    array : Items → Value
    object : Fields → Value

  pub data Items : Type 0 where
    nil : Items
    cons : Value → Items → Items

  pub data Fields : Type 0 where
    end : Fields
    field : Bytes → Value → Fields → Fields

-- `json.Unmarshal`, where `none` is an error, `json.Marshal` of an object, and
-- `fmt.Sprintf("%v", value)`.
pub record Json : Type 0 where
  pub unmarshal : Bytes → Option Value
  pub marshal : Value → Bytes
  pub print : Value → Bytes

unfoldable pub length_items : Items → ℕ
length_items nil = 0
length_items (cons v vs) = suc (length_items vs)

-- An index out of range gives the nil value.
unfoldable pub item_at : Items → ℕ → Value
item_at nil i = null
item_at (cons v vs) zero = v
item_at (cons v vs) (suc i) = item_at vs i

-- A key that is missing gives the nil value.
unfoldable pub field_at : Bytes → Fields → Value
field_at key end = null
field_at key (field k v fs) = if bytes_beq k key then v else field_at key fs

-- What a function returns, or that it panics.
pub data Extracted : Type 0 where
  extracted : Value → Extracted
  panicked : Extracted

unfoldable pub is_digits : Bytes → Bool
is_digits [] = true
is_digits (b ∷ s) = leb b'0' b && leb b b'9' && is_digits s

unfoldable pub decimal : ℕ → Bytes → ℕ
decimal n [] = n
decimal n (b ∷ s) = decimal (n * 10 + (b - b'0')) s

abbrev pub natural : Bytes → Option ℕ
natural [] = none
natural (b ∷ s) =
    if is_digits (b ∷ s) && ltb (decimal 0 (b ∷ s)) (2 ^ 63) then some (decimal 0 (b ∷ s)) else none

abbrev pub zero_only : Option ℕ → Option ℕ
zero_only none = none
zero_only (some n) = if n == 0 then some 0 else none

-- `strconv.Atoi`, where `none` is an error or a negative number.
unfoldable pub atoi : Bytes → Option ℕ
unfolding is_digits decimal
atoi [] = none
atoi (b ∷ s) =
    if b == b'+' then natural s else if b == b'-' then zero_only (natural s) else natural (b ∷ s)

-- The loop over the bytes of a key: the position of the last '[' and of the ']' that ends the
-- index. Without such a ']' the index stays empty, and the positions are those at the end.
pub record Bracket : Type 0 where
  pub start : ℕ
  pub stop : Option ℕ

unfoldable pub find_bracket : ℕ → ℕ → ℕ → Bytes → Bracket
find_bracket i start depth [] = record { start = start; stop = none }
find_bracket i start depth (b ∷ s) =
    if b == b'['
    then find_bracket (suc i) i (suc depth) s
    else if b == b']' && depth == 1
    then record { start = start; stop = some i }
    else find_bracket (suc i) start depth s

abbrev pub index_of : Bytes → Bracket → Option ℕ → Option ℕ
index_of key bracket none = none
index_of key bracket (some stop) = atoi (drop (suc bracket.start) (take stop key))

abbrev pub or_zero : Option ℕ → ℕ
or_zero none = 0
or_zero (some n) = n

-- The array behind `value.([]interface{})`, nil for any other value.
abbrev pub items_of : Value → Items
items_of (array vs) = vs
items_of v = nil

-- `value == nil || value.(map[string]interface{})[key] == nil`, where `none` is the panic of the
-- type assertion, and what the key holds otherwise.
abbrev pub member : Bytes → Value → Option Value
member key null = some null
member key (object fs) = some (field_at key fs)
member key v = none

abbrev pub plain_value : Bytes → Value → Value
plain_value key (array vs) = array vs
plain_value key (object fs) = field_at key fs
plain_value key v = v

-- The element of an array, which is walked into where more indices follow.
abbrev pub pick : Bool → (Value → Extracted) → Items → ℕ → Extracted
pick nested inner vs i =
    if ltb i (length_items vs)
    then (if nested then inner (item_at vs i) else extracted (item_at vs i))
    else extracted null

abbrev pub pick_member : Bool → (Value → Extracted) → Option Value → ℕ → Extracted
pick_member nested inner none i = panicked
pick_member nested inner (some v) i = pick nested inner (items_of v) i

abbrev pub pick_indexed : Bool → (Value → Extracted) → Bytes → Value → Option ℕ → Extracted
pick_indexed nested inner name value none = extracted null
pick_indexed nested inner name value (some i) =
    if length name == 0
    then pick nested inner (items_of value) i
    else pick_member nested inner (member name value) i

-- `extractValue`: each nested index makes the key shorter.
unfoldable pub extract_value : ℕ → Bytes → Value → Extracted
extract_value zero key value = extracted null
extract_value (suc fuel) key value =
    let bracket = find_bracket 0 0 0 key in
    let stop = or_zero bracket.stop in
    let nested = get_or key (suc stop) 0 == b'[' in
    let inner = λ (v : Value). extract_value fuel (drop (suc stop) key) v in
    if has_suffix key (codes "]") && contains_text key (codes "[")
    then pick_indexed nested inner (take bracket.start key) value
        (index_of key bracket bracket.stop)
    else extracted (plain_value key value)

-- The loop of `walk`: the path up to its first dot outside of brackets, and whether there is one.
-- Depths are written with two numbers, the '[' and the ']' read so far.
unfoldable pub first_key : ℕ → ℕ → Bytes → Bytes × Bool
first_key opened closed [] = ([], false)
first_key opened closed (b ∷ s) =
    let opened' = if b == b'[' then suc opened else opened in
    let closed' = if b == b']' then suc closed else closed in
    let (rest, found) = first_key opened' closed' s in
    if b == b'.' && opened == closed then ([], true) else (b ∷ rest, found)

pub data Evaluated : Type 0 where
  evaluated : Bytes → ℕ → Evaluated
  failed : Evaluated
  crashed : Evaluated

abbrev pub printed : Bytes → Evaluated
printed s = evaluated s (length s)

-- What `walk` does with the value of the first key: `inner` walks the rest of the path.
abbrev pub walk_value : Json → Bool → Bool → (Value → Evaluated) → Extracted → Evaluated
walk_value json more is_last inner panicked = crashed
walk_value json more is_last inner (extracted null) = failed
walk_value json more is_last inner (extracted (boolean b)) = printed (json.print (boolean b))
walk_value json more is_last inner (extracted (number n)) = printed (json.print (number n))
walk_value json more is_last inner (extracted (text s)) = if more then failed else printed s
walk_value json more is_last inner (extracted (array vs)) =
    evaluated (json.print (array vs)) (length_items vs)
walk_value json more is_last inner (extracted (object fs)) =
    if is_last then printed (json.marshal (object fs)) else inner (object fs)

-- `walk`: the first of the keys is looked up, and the rest of the path is walked in an object.
unfoldable pub walk : Json → ℕ → Bytes → Value → Evaluated
walk json zero path value = failed
walk json (suc fuel) path value =
    let (key, more) = first_key 0 0 path in
    let next = replace_first path (key ++ codes ".") [] in
    walk_value json more (bytes_beq path next) (λ (v : Value). walk json fuel next v)
      (extract_value (suc (length key)) key value)

abbrev pub walk_document : Json → Bytes → Option Value → Evaluated
walk_document json path none = failed
walk_document json path (some value) = walk json (suc (length path)) path value

-- Whether the bytes begin and end like a JSON array.
abbrev pub is_bracketed : Bytes → Bool
is_bracketed body =
    not (length body == 0) && get_or body 0 0 == b'[' && get_or body (length body - 1) 0 == b']'

-- `Eval`
unfoldable pub eval : Json → Bytes → Bytes → Evaluated
eval json path body =
    if length path == 0 && not (is_bracketed body)
    then evaluated body (length body)
    else walk_document json path (json.unmarshal body)
