-- ===== src/Push/Resolver.antt =====
-- internal/push/resolver.go: the endpoint that a push is for. The pushes and the keys that the
-- administration manages are parameters.
pub mod Known
pub mod Targets
pub mod Users
pub mod Tokens
use go_uptime.Push.{Library, Key, PushEndpoint, is_empty_text}
use go_uptime.Common.{
  Bool, true, false, not, ◌&&◌, Option, none, some, List, [], ◌∷◌, ◌++◌, Bytes, bytes_beq, contains,
  bytes_eq, if◌then◌else◌, lookup, insert, delete,
}

-- `Target`; `external` is whether an external endpoint receives the push.
pub record Target : Type 0 where
  pub key : Bytes
  pub external : Bool
  pub managed : Bool

pub record Resolver : Type 0 where
  pub targets : List (Bytes × Target)
  pub tokens : List (Bytes × Bytes)
  pub endpoint_tokens : List (Bytes × Bytes)
  pub global_keys : List (Bytes × Bytes)

-- An enabled endpoint that receives push: an external endpoint, or one listed in push.endpoints.
pub record Receiver : Type 0 where
  pub key : Bytes
  pub external : Bool
  pub token : Bytes

-- An external endpoint, or an endpoint of the configuration, with its key.
pub record Candidate : Type 0 where
  pub key : Bytes
  pub enabled : Option Bool
  pub token : Bytes

abbrev pub is_candidate_enabled : Option Bool → Bool
is_candidate_enabled none = true
is_candidate_enabled (some value) = value

-- The loop over the external endpoints.
unfoldable pub external_receivers : List Candidate → List Receiver
external_receivers [] = []
external_receivers (c ∷ cs) =
    let rest = external_receivers cs in
    if is_candidate_enabled c.enabled
    then record { key = c.key; external = true; token = c.token } ∷ rest
    else rest

abbrev pub listed : PushEndpoint → Option Candidate → List Receiver → List Receiver
listed e none rest = rest
listed e (some c) rest =
    if is_candidate_enabled c.enabled
    then record { key = c.key; external = false; token = e.token } ∷ rest
    else rest

-- The loop over push.endpoints; `get_endpoint_by_key` finds the endpoint of the configuration.
unfoldable pub listed_receivers : (Bytes → Option Candidate) → List PushEndpoint → List Receiver
listed_receivers get_endpoint_by_key [] = []
listed_receivers get_endpoint_by_key (e ∷ es) =
    listed e (get_endpoint_by_key e.key) (listed_receivers get_endpoint_by_key es)

-- The resolver while it is built, with the tokens used by more than one endpoint.
pub record Building : Type 0 where
  pub resolver : Resolver
  pub ambiguous : List Bytes

abbrev pub register : Bytes → Bytes → Building → Option Bytes → Building
register token key b none = record b {
  resolver = record b.resolver { tokens = insert token key b.resolver.tokens };
}
register token key b (some other) = record {
  resolver = record b.resolver { tokens = delete token b.resolver.tokens };
  ambiguous = token ∷ b.ambiguous;
}

-- `addToken`
unfoldable pub add_token : Bytes → Bytes → Building → Building
unfolding contains
add_token token key b =
    let noted : Building = record b {
      resolver = record b.resolver {
        endpoint_tokens = insert key token b.resolver.endpoint_tokens;
      };
    } in
    if contains b.ambiguous token
    then noted
    else register token key noted (lookup token b.resolver.tokens)

unfoldable pub add_receiver : Receiver → Building → Building
unfolding add_token
add_receiver receiver b =
    let target : Target = record {
      key = receiver.key;
      external = receiver.external;
      managed = false;
    } in
    let noted : Building = record b {
      resolver = record b.resolver { targets = insert receiver.key target b.resolver.targets };
    } in
    if is_empty_text receiver.token then noted else add_token receiver.token receiver.key noted

unfoldable pub add_receivers : List Receiver → Building → Building
unfolding add_receiver
add_receivers [] b = b
add_receivers (r ∷ rs) b = add_receivers rs (add_receiver r b)

unfoldable pub add_global_keys : List Key → Resolver → Resolver
add_global_keys [] r = r
add_global_keys (k ∷ ks) r =
    add_global_keys ks (record r { global_keys = insert k.hash k.name r.global_keys })

abbrev pub empty_building : Building
empty_building = record {
  resolver = record { targets = []; tokens = []; endpoint_tokens = []; global_keys = [] };
  ambiguous = [];
}

-- `NewResolver`: the enabled external endpoints first, then the enabled endpoints that are listed.
unfoldable pub new_resolver :
    (Bytes → Option Candidate) → List Candidate → List PushEndpoint → List Key → Resolver
unfolding add_receivers add_global_keys external_receivers listed_receivers
new_resolver get_endpoint_by_key externals endpoints keys =
    let receivers =
      external_receivers externals ++ listed_receivers get_endpoint_by_key endpoints in
    add_global_keys keys (add_receivers receivers empty_building).resolver

-- What the administration knows: managedendpoint.PushTargetByToken, PushTargetByKey and
-- PushTokenOf, and pushkey.Lookup.
pub record Administration : Type 0 where
  pub target_by_token : Bytes → Option Target
  pub target_by_key : Bytes → Option Target
  pub token_of : Bytes → Bytes
  pub lookup_key : Bytes → Option Bytes

abbrev pub no_target : Target
no_target = record { key = []; external = false; managed = false }

abbrev pub or_no_target : Option Target → Target
or_no_target none = no_target
or_no_target (some t) = t

abbrev pub or_empty : Option Bytes → Bytes
or_empty none = []
or_empty (some b) = b

abbrev pub unnamed : Option Target → Option (Target × Bytes)
unnamed none = none
unnamed (some t) = some (t, [])

abbrev pub by_token : Administration → Resolver → Bytes → Option Bytes → Option (Target × Bytes)
by_token admin r token none = unnamed (admin.target_by_token token)
by_token admin r token (some key) = some (or_no_target (lookup key r.targets), [])

abbrev pub named : Target → Option Bytes → Option Bytes → Option (Target × Bytes)
named t (some name) other = some (t, name)
named t none (some name) = some (t, name)
named t none none = none

-- The push of a target that is known, with its own token.
abbrev pub accept :
    Library → Administration → Resolver → Bytes → Target → Bytes → Option (Target × Bytes)
accept lib admin r token target own =
    let by_key = named target (lookup (lib.sum256 token) r.global_keys) (admin.lookup_key token) in
    if not (is_empty_text own) && bytes_beq own token then some (target, []) else by_key

abbrev pub accept_managed :
    Library → Administration → Resolver → Bytes → Bytes → Option Target → Option (Target × Bytes)
accept_managed lib admin r token key none = none
accept_managed lib admin r token key (some target) =
    accept lib admin r token target (admin.token_of key)

abbrev pub by_key :
    Library → Administration → Resolver → Bytes → Bytes → Option Target → Option (Target × Bytes)
by_key lib admin r token key none = accept_managed lib admin r token key (admin.target_by_key key)
by_key lib admin r token key (some target) =
    accept lib admin r token target (or_empty (lookup key r.endpoint_tokens))

-- `Resolve`: the target and the name of the global key used, if any.
unfoldable pub resolve :
    Library → Administration → Bytes → Bytes → Resolver → Option (Target × Bytes)
resolve lib admin token endpoint_key r =
    let key = lib.to_lower endpoint_key in
    if is_empty_text token
    then none
    else if is_empty_text endpoint_key
    then by_token admin r token (lookup token r.tokens)
    else by_key lib admin r token key (lookup key r.targets)
