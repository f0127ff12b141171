-- ===== src/Memory/Store/Lists.antt =====
-- The cache of the memory storage as a list of keys and statuses, without limits.
use go_uptime.Memory.Store.{Cache, Lawful}
use go_uptime.Result.{Status}
use go_uptime.Common.{
  ℕ, ◌-◌, ◌≡◌, refl, ◌∙◌, String, Bool, true, false, not, Option, none, List, [], ◌∷◌,
  if◌then◌else◌, string_eq, contains, lookup, insert, keep, length, lookup-insert, lookup-keep,
  arith,
}

abbrev pub Statuses : Type 0
Statuses = List (String × Status)

unfoldable pub keys_of : Statuses → List String
keys_of [] = []
keys_of ((key, status) ∷ c) = key ∷ keys_of c

abbrev pub delete_keys : List String → Statuses → Statuses × ℕ
delete_keys keys c =
    let rest = keep (λ (key : String). not (contains keys key)) c in (rest, length c - length rest)

abbrev pub list_cache : Cache Statuses
list_cache = record {
  get = λ key c. lookup key c;
  set = λ key status c. insert key status c;
  keys = λ c. keys_of c;
  delete_all = λ keys c. delete_keys keys c;
  clear = λ c. [];
}

if_not : (b : Bool) (v : Option Status) → (if not b then v else none) ≡ (if b then none else v)
if_not true v = refl
if_not false v = refl

lookup-keys_of :
    (key : String) (c : Statuses) → contains (keys_of c) key ≡ false → lookup key c ≡ none
unfolding keys_of contains lookup
lookup-keys_of key [] h = refl
lookup-keys_of key ((j, status) ∷ c) h = ground (arith, lookup-keys_of key c)

pub list_cache-Lawful : Lawful list_cache
unfolding lookup
list_cache-Lawful = record {
  get-set = λ key other status c. lookup-insert key other status c;
  get-delete_all = λ keys key c.
      lookup-keep (λ (k : String). not (contains keys k)) key c
      ∙ if_not (contains keys key) (lookup key c);
  get-clear = λ key c. refl;
  contains-keys = λ key c h. lookup-keys_of key c h;
}
