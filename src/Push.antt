-- ===== src/Push.antt =====
-- internal/config/push/push.go: the configuration of the pushes. A text is its bytes.
pub mod Resolver
pub mod Validation
mod Examples
use go_uptime.Common.{
  ℕ, zero, suc, ◌-◌, Bool, true, false, not, ◌&&◌, ◌||◌, List, [], ◌∷◌, ◌++◌, ◌⊎◌, inl, inr, Bytes,
  ltb, leb, ◌==◌, length, drop, contains, bytes_eq, if◌then◌else◌,
}

abbrev pub minimum_key_token_length : ℕ
minimum_key_token_length = 16

abbrev pub minimum_endpoint_token_length : ℕ
minimum_endpoint_token_length = 8

abbrev pub maximum_token_length : ℕ
maximum_token_length = 128

abbrev pub maximum_key_name_length : ℕ
maximum_key_name_length = 64

abbrev pub hint_length : ℕ
hint_length = 4

-- Functions of Go's standard library: strings.TrimSpace, strings.ToLower,
-- utf8.RuneCountInString and sha256.Sum256.
pub record Library : Type 0 where
  pub trim_space : Bytes → Bytes
  pub to_lower : Bytes → Bytes
  pub rune_count : Bytes → ℕ
  pub sum256 : Bytes → Bytes

pub data PushError : Type 0 where
  invalid_key_name duplicate_key_name invalid_key_token invalid_endpoint_token : PushError
  duplicate_token endpoint_key_required duplicate_endpoint : PushError

-- `Key`; `hash` is set by the validation.
pub record Key : Type 0 where
  pub name : Bytes
  pub token : Bytes
  pub hash : Bytes

-- `Endpoint`; no token is the empty text.
pub record PushEndpoint : Type 0 where
  pub key : Bytes
  pub token : Bytes

pub record Config : Type 0 where
  pub keys : List Key
  pub endpoints : List PushEndpoint

abbrev pub between : ℕ → ℕ → ℕ → Bool
between a b c = leb a c && leb c b

-- A letter, a digit, '-' or '_'.
abbrev pub is_token_byte : ℕ → Bool
is_token_byte b = between 65 90 b || between 97 122 b || between 48 57 b || b == 45 || b == 95

unfoldable pub all_token_bytes : Bytes → Bool
all_token_bytes [] = true
all_token_bytes (b ∷ bs) = is_token_byte b && all_token_bytes bs

abbrev pub is_empty_text : Bytes → Bool
is_empty_text [] = true
is_empty_text (b ∷ bs) = false

-- The pattern asks for one byte at least.
unfoldable pub valid_token : Bytes → ℕ → Bool
unfolding all_token_bytes
valid_token token minimum_length =
    leb minimum_length (length token)
    && leb (length token) maximum_token_length
    && not (is_empty_text token)
    && all_token_bytes token

unfoldable pub token_hint : Bytes → Bytes
token_hint token =
    if leb (length token) hint_length then [] else drop (length token - hint_length) token

unfoldable pub key_tokens : List Key → List Bytes
key_tokens [] = []
key_tokens (k ∷ ks) = k.token ∷ key_tokens ks

unfoldable pub endpoint_tokens : List PushEndpoint → List Bytes
endpoint_tokens [] = []
endpoint_tokens (e ∷ es) =
    if is_empty_text e.token then endpoint_tokens es else e.token ∷ endpoint_tokens es

-- `Tokens`
unfoldable pub tokens : Config → List Bytes
unfolding key_tokens endpoint_tokens
tokens c = key_tokens c.keys ++ endpoint_tokens c.endpoints

abbrev pub add_key : Key → List Key × List Bytes ⊎ PushError → List Key × List Bytes ⊎ PushError
add_key k (inl (ks, used)) = inl (k ∷ ks, used)
add_key k (inr error) = inr error

-- The loop over the keys, with the names and the tokens seen so far: the keys as they are changed,
-- and the tokens seen after it.
unfoldable pub validate_keys :
    Library → List Key → List Bytes → List Bytes → List Key × List Bytes ⊎ PushError
unfolding contains valid_token
validate_keys lib [] names used = inl ([], used)
validate_keys lib (k ∷ ks) names used =
    let name = lib.trim_space k.name in
    let count = lib.rune_count name in
    let changed : Key = record { name = name; token = k.token; hash = lib.sum256 k.token } in
    let rest = validate_keys lib ks (name ∷ names) (k.token ∷ used) in
    if count == 0 || ltb maximum_key_name_length count
    then inr invalid_key_name
    else if contains names name
    then inr duplicate_key_name
    else if not (valid_token k.token minimum_key_token_length)
    then inr invalid_key_token
    else if contains used k.token
    then inr duplicate_token
    else add_key changed rest

abbrev pub add_endpoint :
    PushEndpoint → List PushEndpoint ⊎ PushError → List PushEndpoint ⊎ PushError
add_endpoint e (inl es) = inl (e ∷ es)
add_endpoint e (inr error) = inr error

unfoldable pub validate_endpoints :
    Library → List PushEndpoint → List Bytes → List Bytes → List PushEndpoint ⊎ PushError
unfolding contains valid_token
validate_endpoints lib [] keys used = inl []
validate_endpoints lib (e ∷ es) keys used =
    let key = lib.to_lower (lib.trim_space e.key) in
    let changed : PushEndpoint = record e { key = key } in
    let without = validate_endpoints lib es (key ∷ keys) used in
    let rest = validate_endpoints lib es (key ∷ keys) (e.token ∷ used) in
    if is_empty_text key
    then inr endpoint_key_required
    else if contains keys key
    then inr duplicate_endpoint
    else if is_empty_text e.token
    then add_endpoint changed without
    else if not (valid_token e.token minimum_endpoint_token_length)
    then inr invalid_endpoint_token
    else if contains used e.token
    then inr duplicate_token
    else add_endpoint changed rest

abbrev pub with_endpoints : List Key → List PushEndpoint ⊎ PushError → Config ⊎ PushError
with_endpoints keys (inl endpoints) = inl (record { keys = keys; endpoints = endpoints })
with_endpoints keys (inr error) = inr error

abbrev pub then_endpoints :
    Library → Config → List Key × List Bytes ⊎ PushError → Config ⊎ PushError
then_endpoints lib c (inl (keys, used)) =
    with_endpoints keys (validate_endpoints lib c.endpoints [] used)
then_endpoints lib c (inr error) = inr error

-- `ValidateAndSetDefaults`: the configuration as it is changed. What it changes before an error is
-- not kept, since the program stops at it.
unfoldable pub validate_and_set_defaults : Library → Config → Config ⊎ PushError
validate_and_set_defaults lib c = then_endpoints lib c (validate_keys lib c.keys [] [])
