-- ===== src/Push/Validation.antt =====
-- internal/config/push/push.go: what a configuration that is accepted looks like.
use mathlib.Core.Path.{subst}
use go_uptime.Push.{
  Library, PushError, Key, PushEndpoint, Config, is_empty_text, key_tokens, endpoint_tokens, tokens,
  add_key, validate_keys, add_endpoint, validate_endpoints, with_endpoints, then_endpoints,
  validate_and_set_defaults,
}
use go_uptime.Common.{
  ◌≡◌, refl, sym, Bool, true, false, List, [], ◌∷◌, ◌++◌, ◌⊎◌, inl, inr, Bytes, contains, bytes_eq,
  if◌then◌else◌,
}

-- No text of the list is among those seen before or stands twice in the list.
abbrev pub Fresh : List Bytes → List Bytes → Type 0
Fresh seen [] = Unit
Fresh seen (x ∷ xs) = (contains seen x ≡ false) × Fresh (x ∷ seen) xs

unfoldable see : List Bytes → List Bytes → List Bytes
see [] seen = seen
see (x ∷ xs) seen = see xs (x ∷ seen)

Fresh-append :
    (seen xs ys : List Bytes) → Fresh seen xs → Fresh (see xs seen) ys → Fresh seen (xs ++ ys)
unfolding see
Fresh-append seen [] ys f g = g
Fresh-append seen (x ∷ xs) ys (new, f) g = (new, Fresh-append (x ∷ seen) xs ys f g)

-- What the loop over the keys returns for the first key.
keys_step :
    (b c d e : Bool) (k : Key) (rest : List Key × List Bytes ⊎ PushError)
    (o : List Key × List Bytes)
    → (if b
        then inr PushError.invalid_key_name
        else if c
        then inr PushError.duplicate_key_name
        else if d
        then inr PushError.invalid_key_token
        else if e
        then inr PushError.duplicate_token
        else add_key k rest)
      ≡ inl o
    → (e ≡ false) × (p : List Key × List Bytes) × (rest ≡ inl p) × (o ≡ (k ∷ p.0, p.1))
keys_step true c d e k rest o h = absurd cc
keys_step false true d e k rest o h = absurd cc
keys_step false false true e k rest o h = absurd cc
keys_step false false false true k rest o h = absurd cc
keys_step false false false false k (inl (ks, used)) o h = (refl, (ks, used), refl, cc)
keys_step false false false false k (inr error) o h = absurd cc

validate_keys-Fresh :
    (lib : Library) (ks : List Key) (names used : List Bytes) (o : List Key × List Bytes)
    → validate_keys lib ks names used ≡ inl o
    → Fresh used (key_tokens o.0) × (o.1 ≡ see (key_tokens o.0) used)
unfolding validate_keys key_tokens see
validate_keys-Fresh lib [] names used (ks', used') h =
    let none_left : [] ≡ ks' = cc in
    let same : used ≡ used' = cc in
    subst (λ l. Fresh used (key_tokens l) × (used' ≡ see (key_tokens l) used)) none_left
      (tt, sym same)
validate_keys-Fresh lib (k ∷ ks) names used o h =
    let name = lib.trim_space k.name in
    let changed : Key = record { name = name; token = k.token; hash = lib.sum256 k.token } in
    let rest = validate_keys lib ks (name ∷ names) (k.token ∷ used) in
    let (new, p, is, whole) = keys_step _ _ _ _ changed rest o h in
    let (fresh, seen) = validate_keys-Fresh lib ks (name ∷ names) (k.token ∷ used) p is in
    subst (λ o. Fresh used (key_tokens o.0) × (o.1 ≡ see (key_tokens o.0) used)) (sym whole)
      ((new, fresh), seen)

endpoints_step :
    (b c d e f : Bool) (x : PushEndpoint) (without rest : List PushEndpoint ⊎ PushError)
    (o : List PushEndpoint)
    → (if b
        then inr PushError.endpoint_key_required
        else if c
        then inr PushError.duplicate_endpoint
        else if d
        then add_endpoint x without
        else if e
        then inr PushError.invalid_endpoint_token
        else if f
        then inr PushError.duplicate_token
        else add_endpoint x rest)
      ≡ inl o
    → ((d ≡ true) × (p : List PushEndpoint) × (without ≡ inl p) × (o ≡ (x ∷ p)))
      ⊎ ((d ≡ false) × (f ≡ false) × (p : List PushEndpoint) × (rest ≡ inl p) × (o ≡ (x ∷ p)))
endpoints_step true c d e f x without rest o h = absurd cc
endpoints_step false true d e f x without rest o h = absurd cc
endpoints_step false false true e f x (inl p) rest o h = inl (refl, p, refl, cc)
endpoints_step false false true e f x (inr error) rest o h = absurd cc
endpoints_step false false false true f x without rest o h = absurd cc
endpoints_step false false false false true x without rest o h = absurd cc
endpoints_step false false false false false x without (inl p) o h = inr (refl, refl, p, refl, cc)
endpoints_step false false false false false x without (inr error) o h = absurd cc

validate_endpoints-Fresh :
    (lib : Library) (es : List PushEndpoint) (keys used : List Bytes) (o : List PushEndpoint)
    → validate_endpoints lib es keys used ≡ inl o
    → Fresh used (endpoint_tokens o)
unfolding validate_endpoints endpoint_tokens
validate_endpoints-Fresh lib [] keys used o h =
    let none_left : [] ≡ o = cc in subst (λ l. Fresh used (endpoint_tokens l)) none_left tt
validate_endpoints-Fresh lib (e ∷ es) keys used o h =
    let key = lib.to_lower (lib.trim_space e.key) in
    let changed : PushEndpoint = record e { key = key } in
    let without = validate_endpoints lib es (key ∷ keys) used in
    let rest = validate_endpoints lib es (key ∷ keys) (e.token ∷ used) in
    elim (endpoints_step _ _ (is_empty_text e.token) _ _ changed without rest o h) [
      | inl (blank, p, is, whole) ↦
          subst (λ l. Fresh used (endpoint_tokens l)) (sym whole)
            (rw blank (validate_endpoints-Fresh lib es (key ∷ keys) used p is))
      | inr (filled, new, p, is, whole) ↦
          subst (λ l. Fresh used (endpoint_tokens l)) (sym whole)
            (rw filled (new, validate_endpoints-Fresh lib es (key ∷ keys) (e.token ∷ used) p is))
    ]

endpoints-Fresh :
    (ks : List Key) (endpoints : List PushEndpoint ⊎ PushError) (c : Config)
    → Fresh [] (key_tokens ks)
    → ((es : List PushEndpoint)
        → endpoints ≡ inl es
        → Fresh (see (key_tokens ks) []) (endpoint_tokens es))
    → with_endpoints ks endpoints ≡ inl c
    → Fresh [] (tokens c)
unfolding tokens
endpoints-Fresh ks (inl es) c fresh later h =
    let whole : record { keys = ks; endpoints = es } ≡ c = cc in
    subst (λ (c : Config). Fresh [] (key_tokens c.keys ++ endpoint_tokens c.endpoints)) whole
      (Fresh-append [] (key_tokens ks) (endpoint_tokens es) fresh (later es refl))
endpoints-Fresh ks (inr error) c fresh later h = absurd cc

-- In a configuration that the validation accepts, no push token is used twice, whether by two keys,
-- by two endpoints or by a key and an endpoint.
pub validate-Fresh :
    (lib : Library) (c : Config) {accepted : Config}
    → validate_and_set_defaults lib c ≡ inl accepted
    → Fresh [] (tokens accepted)
unfolding validate_and_set_defaults
validate-Fresh lib c {accepted} h = split (validate_keys lib c.keys [] []) refl h
  where
    split :
        (first : List Key × List Bytes ⊎ PushError)
        → validate_keys lib c.keys [] [] ≡ first
        → then_endpoints lib c first ≡ inl accepted
        → Fresh [] (tokens accepted)
    split (inl (ks, used)) is h =
        let (fresh, seen) = validate_keys-Fresh lib c.keys [] [] (ks, used) is in
        endpoints-Fresh ks (validate_endpoints lib c.endpoints [] used) accepted fresh
          (λ es found.
            subst (λ u. Fresh u (endpoint_tokens es)) seen
              (validate_endpoints-Fresh lib c.endpoints [] used es found))
          h
    split (inr error) is h = absurd cc
