-- ===== src/Push/Resolver/Tokens.antt =====
-- internal/push/resolver.go: the endpoint that a push token identifies.
use go_uptime.Push.Resolver.Known.{users, only, lookup-receivers, tokens-add_global_keys}
use go_uptime.Push.Resolver.Users.{
  users_of, users-append, users-external, users-listed, user-is_known,
}
use go_uptime.Push.{Library, Key, PushEndpoint, is_empty_text}
use go_uptime.Push.Resolver.{
  Receiver, Resolver, Candidate, add_receivers, add_global_keys, external_receivers,
  listed_receivers, empty_building, new_resolver, Administration, Target, by_token, resolve,
  unnamed, or_no_target,
}
use go_uptime.Push.Resolver.Targets.{
  external_users, listed_keys, targets-add_global_keys, target_of-both,
}
use go_uptime.Common.{
  not, ◌≡◌, refl, ap, ◌∙◌, false, Option, none, some, List, [], ◌++◌, Bytes, bytes_eq, contains,
  lookup,
}

-- What a push is for: the endpoint of the key, external unless a listed endpoint has the key, or what
-- the administration knows of the token.
unfoldable pub identified :
    Administration → Bytes → List Bytes → Option Bytes → Option (Target × Bytes)
identified admin token listed_ones (some key) =
    some (record { key = key; external = not (contains listed_ones key); managed = false }, [])
identified admin token listed_ones none = elim (admin.target_by_token token) [
  | none ↦ none
  | some t ↦ some (t, [])
]

by_token-identified :
    (admin : Administration) (token : Bytes) (r : Resolver) (listed_ones : List Bytes)
    (o : Option Bytes)
    → ((key : Bytes)
        → o ≡ some key
        → lookup key r.targets
          ≡ some (record { key = key; external = not (contains listed_ones key); managed = false }))
    → by_token admin r token o ≡ identified admin token listed_ones o
unfolding identified
by_token-identified admin token r listed_ones none h = asked (admin.target_by_token token)
  where
    asked : (o : Option Target) → unnamed o ≡ (elim o [ none ↦ none | some t ↦ some (t, []) ])
    asked none = refl
    asked (some t) = refl
by_token-identified admin token r listed_ones (some key) h =
    ap (λ (o : Option Target). some (or_no_target o, [])) (h key refl)

-- The token of a push, when it is not empty, identifies the only one that uses it of the external
-- endpoints and of the endpoints of push.endpoints, those left out that are disabled or that the
-- configuration lacks. The target has the key of that endpoint, and is external unless an endpoint of
-- push.endpoints has the key. A token that several endpoints use identifies none of them, and then,
-- as for a token that none uses, the administration is asked.
pub resolve-new_resolver :
    (lib : Library) (admin : Administration) (get_endpoint_by_key : Bytes → Option Candidate)
    (externals : List Candidate) (endpoints : List PushEndpoint) (keys : List Key) (token : Bytes)
    → is_empty_text token ≡ false
    → let r = new_resolver get_endpoint_by_key externals endpoints keys in
      resolve lib admin token [] r
      ≡ identified admin token
          (listed_keys get_endpoint_by_key endpoints)
          (only (users_of token get_endpoint_by_key externals endpoints))
unfolding resolve new_resolver
resolve-new_resolver lib admin get externals endpoints keys token h =
    let receivers : List Receiver =
      external_receivers externals ++ listed_receivers get endpoints in
    let built = add_receivers receivers empty_building in
    let r = add_global_keys keys built.resolver in
    let users_are : users token receivers ≡ users_of token get externals endpoints =
      unfold users_of in
      users-append token (external_receivers externals) (listed_receivers get endpoints)
      ∙ ap (λ (ks : List Bytes). ks ++ users token (listed_receivers get endpoints))
          (users-external token externals)
      ∙ ap (λ (ks : List Bytes). external_users token externals ++ ks)
          (users-listed token get endpoints) in
    let found : lookup token r.tokens ≡ only (users_of token get externals endpoints) =
      ap (lookup token) (tokens-add_global_keys keys built.resolver)
      ∙ lookup-receivers token receivers h
      ∙ ap only users_are in
    simp h (
      ap (by_token admin r token) found
      ∙ by_token-identified admin token r (listed_keys get endpoints)
          (only (users_of token get externals endpoints))
          (λ key one.
            ap (lookup key) (targets-add_global_keys keys built.resolver)
            ∙ target_of-both key get externals endpoints empty_building
                (user-is_known token key get externals endpoints one)))
