-- ===== src/JsonPath/Examples.antt =====
-- internal/jsonpath/jsonpath.go: a path of two keys, and an index into an array.
use go_uptime.JsonPath.{
  Value, text, number, array, object, cons, nil, field, end, Json, atoi, is_digits, decimal,
  crashed, eval,
}
use go_uptime.JsonPath.Walks.{join_keys, read_document, eval-read_keys}
use go_uptime.JsonPath.Panics.{indexed_key, eval-panics}
use go_uptime.Common.{◌≡◌, refl, some, [], ◌∷◌, arith}
use go_uptime.Common.Text.{codes}

-- A parser that answers with one document.
abbrev json_of : Value → Json
json_of value = record { unmarshal = λ body. some value; marshal = λ v. []; print = λ v. [] }

abbrev document : Value
document = object (field (codes "a") (object (field (codes "b") (text (codes "x")) end)) end)

abbrev list : Value
list = array (cons (number (codes "1")) nil)

eval-read_keys_example :
    eval (json_of document) (join_keys (codes "a" ∷ codes "b" ∷ [])) (codes "{}")
    ≡ read_document (json_of document) (codes "a" ∷ codes "b" ∷ []) (some document)
eval-read_keys_example =
    eval-read_keys (json_of document) (codes "a") (codes "b" ∷ []) (codes "{}")
      (
        (ground arith, ground arith, ground arith, tt),
        ((ground arith, ground arith, ground arith, tt), tt),
      )
      (ground arith)

eval-panics_example :
    eval (json_of list) (indexed_key (codes "d") (codes "0")) (codes "[1]") ≡ crashed
unfolding atoi is_digits decimal
eval-panics_example =
    eval-panics (json_of list) (codes "d") (codes "0") (codes "[1]") 0 list
      (ground arith, ground arith, ground arith, tt) (λ h. cc)
      (ground arith, ground arith, ground arith, tt) refl refl tt
