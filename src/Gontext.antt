-- ===== src/Gontext.antt =====
-- internal/config/gontext/gontext.go: the context that the endpoints of a suite share. A value that
-- is stored is taken as it is at that moment.
pub mod Paths
mod Examples
use go_uptime.JsonPath.{
  Value, null, boolean, number, text, array, object, Items, nil, cons, Fields, end, field,
}
use go_uptime.Common.{
  true, false, Option, none, some, List, [], ◌∷◌, Bytes, bytes_beq, if◌then◌else◌,
}
use go_uptime.Common.Text.{codes, split}

pub record Gontext : Type 0 where
  pub values : Fields

-- `val, exists := v[part]`
unfoldable pub lookup : Bytes → Fields → Option Value
lookup key end = none
lookup key (field k v fs) = if bytes_beq k key then some v else lookup key fs

-- `current[part] = value`
unfoldable pub store : Bytes → Value → Fields → Fields
store key value end = field key value end
store key value (field k v fs) =
    if bytes_beq k key then field k value fs else field k v (store key value fs)

unfoldable mutual
  pub deep_copy_value : Value → Value
  deep_copy_value (object fs) = object (copy_fields fs)
  deep_copy_value (array vs) = array (copy_items vs)
  deep_copy_value null = null
  deep_copy_value (boolean b) = boolean b
  deep_copy_value (number n) = number n
  deep_copy_value (text s) = text s

  pub copy_fields : Fields → Fields
  copy_fields end = end
  copy_fields (field k v fs) = field k (deep_copy_value v) (copy_fields fs)

  pub copy_items : Items → Items
  copy_items nil = nil
  copy_items (cons v vs) = cons (deep_copy_value v) (copy_items vs)

abbrev pub initial_fields : Option Fields → Fields
initial_fields none = end
initial_fields (some fs) = fs

-- `New`, where `none` is the nil map.
unfoldable pub new : Option Fields → Gontext
unfolding copy_fields
new initial = record { values = copy_fields (initial_fields initial) }

-- The loop of `Get`, where `none` is `ErrGontextPathNotFound`.
unfoldable pub get_parts : List Bytes → Value → Option Value
unfolding lookup
get_parts [] current = some current
get_parts (part ∷ parts) (object fs) = elim (lookup part fs) [
  | none ↦ none
  | some v ↦ get_parts parts v
]
get_parts (part ∷ parts) v = none

unfoldable pub get : Bytes → Gontext → Option Value
unfolding get_parts
get path g = get_parts (split path (codes ".")) (object g.values)

-- The map that `Set` goes on with: the value of the part, or a new map where there is none or it is
-- no map.
abbrev pub next_map : Option Value → Fields
next_map (some (object fs)) = fs
next_map v = end

-- The loop of `Set`. A split path has at least one part.
unfoldable pub set_parts : List Bytes → Value → Fields → Fields
unfolding lookup store
set_parts [] value current = current
set_parts (part ∷ []) value current = store part value current
set_parts (part ∷ next ∷ parts) value current =
    store part (object (set_parts (next ∷ parts) value (next_map (lookup part current)))) current

unfoldable pub set : Bytes → Value → Gontext → Gontext
unfolding set_parts
set path value g = record g { values = set_parts (split path (codes ".")) value g.values }

-- `GetAll`
unfoldable pub get_all : Gontext → Fields
unfolding copy_fields
get_all g = copy_fields g.values
