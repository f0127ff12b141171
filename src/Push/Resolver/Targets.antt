-- ===== src/Push/Resolver/Targets.antt =====
-- internal/push/resolver.go: the endpoint that the resolver records for a key, and the endpoints
-- that use a token.
use go_uptime.Push.{PushEndpoint, Key, is_empty_text}
use go_uptime.Push.Resolver.{
  Target, Resolver, Receiver, Candidate, Building, add_token, add_receiver, add_receivers,
  add_global_keys, external_receivers, listed_receivers, is_candidate_enabled, listed,
}
use go_uptime.Common.{
  ◌≡◌, refl, ap, ◌∙◌, Bool, true, false, not, ◌&&◌, ◌||◌, Option, none, some, List, [], ◌∷◌, ◌++◌,
  Bytes, bytes_beq, bytes_beq_iff, bytes_eq, contains, lookup, insert, lookup-insert, if◌then◌else◌,
  Bool-cases, inl, inr, arith,
}

-- Whether an endpoint is not disabled.
unfoldable pub is_on : Option Bool → Bool
is_on none = true
is_on (some false) = false
is_on (some true) = true

-- The keys of the external endpoints that are not disabled.
unfoldable pub external_keys : List Candidate → List Bytes
external_keys [] = []
external_keys (c ∷ cs) =
    let rest = external_keys cs in if is_on c.enabled then c.key ∷ rest else rest

-- Those of them that use a token.
unfoldable pub external_users : Bytes → List Candidate → List Bytes
external_users token [] = []
external_users token (c ∷ cs) =
    let rest = external_users token cs in
    if is_on c.enabled && bytes_beq c.token token then c.key ∷ rest else rest

-- The keys of the endpoints of push.endpoints that the configuration has and that are not disabled.
unfoldable pub listed_keys : (Bytes → Option Candidate) → List PushEndpoint → List Bytes
listed_keys get [] = []
listed_keys get (e ∷ es) =
    let rest = listed_keys get es in
    elim (get e.key) [ none ↦ rest | some c ↦ if is_on c.enabled then c.key ∷ rest else rest ]

-- Those of them whose entry has a token.
unfoldable pub listed_users : Bytes → (Bytes → Option Candidate) → List PushEndpoint → List Bytes
listed_users token get [] = []
listed_users token get (e ∷ es) =
    let rest = listed_users token get es in
    elim (get e.key) [
      | none ↦ rest
      | some c ↦ if is_on c.enabled && bytes_beq e.token token then c.key ∷ rest else rest
    ]

pub enabled-is_on : (o : Option Bool) → is_candidate_enabled o ≡ is_on o
unfolding is_on
enabled-is_on none = refl
enabled-is_on (some false) = refl
enabled-is_on (some true) = refl

add_receivers-append :
    (rs ss : List Receiver) (b : Building)
    → add_receivers (rs ++ ss) b ≡ add_receivers ss (add_receivers rs b)
unfolding add_receivers
add_receivers-append [] ss b = refl
add_receivers-append (r ∷ rs) ss b = add_receivers-append rs ss (add_receiver r b)

targets-add_token :
    (token key : Bytes) (b : Building)
    → (add_token token key b).resolver.targets ≡ b.resolver.targets
unfolding add_token
targets-add_token token key b = ground arith

pub targets-add_global_keys :
    (ks : List Key) (r : Resolver) → (add_global_keys ks r).targets ≡ r.targets
unfolding add_global_keys
targets-add_global_keys [] r = refl
targets-add_global_keys (k ∷ ks) r =
    targets-add_global_keys ks (record r { global_keys = insert k.hash k.name r.global_keys })

-- The target recorded for a key.
abbrev target_of : Bytes → Building → Option Target
target_of key b = lookup key b.resolver.targets

abbrev plain : Bytes → Bool → Target
plain key external = record { key = key; external = external; managed = false }

targets-add_receiver :
    (r : Receiver) (b : Building)
    → (add_receiver r b).resolver.targets ≡ insert r.key (plain r.key r.external) b.resolver.targets
unfolding add_receiver
targets-add_receiver r b =
    let noted : Building = record b {
      resolver = record b.resolver {
        targets = insert r.key (plain r.key r.external) b.resolver.targets;
      };
    } in
    elim (Bool-cases (is_empty_text r.token)) [
      | inl h ↦ simp h
      | inr h ↦ simp h (targets-add_token r.token r.key noted)
    ]

target_of-add_receiver :
    (key : Bytes) (r : Receiver) (b : Building)
    → target_of key (add_receiver r b)
      ≡ (if bytes_beq r.key key then some (plain key r.external) else target_of key b)
target_of-add_receiver key r b =
    ap (lookup key) (targets-add_receiver r b)
    ∙ lookup-insert r.key key (plain r.key r.external) b.resolver.targets
    ∙ named (bytes_beq r.key key) refl
  where
    named :
        (c : Bool)
        → bytes_beq r.key key ≡ c
        → (if c then some (plain r.key r.external) else target_of key b)
          ≡ (if c then some (plain key r.external) else target_of key b)
    named true h = ap (λ (k : Bytes). some (plain k r.external)) ((bytes_beq_iff r.key key).0 h)
    named false h = refl

if_twice :
    {A : Type 0} (c d : Bool) (x y : A)
    → (if c then x else (if d then x else y)) ≡ (if d || c then x else y)
if_twice true true x y = refl
if_twice true false x y = refl
if_twice false true x y = refl
if_twice false false x y = refl

target_of-receivers :
    (key : Bytes) (external : Bool) (rs : List Receiver) (ks : List Bytes) (r : Receiver)
    (b : Building)
    → r.external ≡ external
    → target_of key (add_receivers rs (add_receiver r b))
      ≡ (if contains ks key then some (plain key external) else target_of key (add_receiver r b))
    → target_of key (add_receivers rs (add_receiver r b))
      ≡ (if contains (r.key ∷ ks) key then some (plain key external) else target_of key b)
unfolding contains
target_of-receivers key external rs ks r b same rest =
    rest
    ∙ ap (λ (o : Option Target). if contains ks key then some (plain key external) else o)
        (target_of-add_receiver key r b
          ∙ ap (λ (x : Bool). if bytes_beq r.key key then some (plain key x) else target_of key b)
              same)
    ∙ if_twice (contains ks key) (bytes_beq r.key key) (some (plain key external)) (target_of key b)

target_of-external :
    (key : Bytes) (cs : List Candidate) (b : Building)
    → target_of key (add_receivers (external_receivers cs) b)
      ≡ (if contains (external_keys cs) key then some (plain key true) else target_of key b)
unfolding external_receivers external_keys add_receivers contains
target_of-external key [] b = refl
target_of-external key (c ∷ cs) b = elim (Bool-cases (is_on c.enabled)) [
  | inl on ↦
      let r : Receiver = record { key = c.key; external = true; token = c.token } in
      rw (enabled-is_on c.enabled, on)
        (target_of-receivers key true (external_receivers cs) (external_keys cs) r b refl
          (target_of-external key cs (add_receiver r b)))
  | inr off ↦ rw (enabled-is_on c.enabled, off) (target_of-external key cs b)
]

target_of-listed :
    (key : Bytes) (get : Bytes → Option Candidate) (es : List PushEndpoint) (b : Building)
    → target_of key (add_receivers (listed_receivers get es) b)
      ≡ (if contains (listed_keys get es) key then some (plain key false) else target_of key b)
unfolding listed_receivers listed_keys add_receivers contains
target_of-listed key get [] b = refl
target_of-listed key get (e ∷ es) b =
    by_candidate (λ b'. target_of-listed key get es b') (get e.key)
  where
    by_candidate :
        ((b' : Building)
          → target_of key (add_receivers (listed_receivers get es) b') ≡ (
              if contains (listed_keys get es) key
              then some (plain key false)
              else target_of key b'))
        → (o : Option Candidate)
        → let keys : List Bytes = elim o [
          | none ↦ listed_keys get es
          | some c ↦ if is_on c.enabled then c.key ∷ listed_keys get es else listed_keys get es
        ] in
          target_of key (add_receivers (listed e o (listed_receivers get es)) b)
          ≡ (if contains keys key then some (plain key false) else target_of key b)
    by_candidate rest none = rest b
    by_candidate rest (some c) = elim (Bool-cases (is_on c.enabled)) [
      | inl on ↦
          let r : Receiver = record { key = c.key; external = false; token = e.token } in
          rw (enabled-is_on c.enabled, on)
            (target_of-receivers key false (listed_receivers get es) (listed_keys get es) r b refl
              (rest (add_receiver r b)))
      | inr off ↦ rw (enabled-is_on c.enabled, off) (rest b)
    ]

-- A key is that of a listed endpoint, if one has it, or else that of an external endpoint.
pub target_of-both :
    (key : Bytes) (get : Bytes → Option Candidate) (cs : List Candidate) (es : List PushEndpoint)
    (b : Building)
    → (contains (external_keys cs) key || contains (listed_keys get es) key) ≡ true
    → lookup key
        (add_receivers (external_receivers cs ++ listed_receivers get es) b).resolver.targets
      ≡ some (record {
        key = key;
        external = not (contains (listed_keys get es) key);
        managed = false;
      })
target_of-both key get cs es b h =
    ap (target_of key) (add_receivers-append (external_receivers cs) (listed_receivers get es) b)
    ∙ target_of-listed key get es (add_receivers (external_receivers cs) b)
    ∙ ap
        (λ (o : Option Target).
          if contains (listed_keys get es) key then some (plain key false) else o)
        (target_of-external key cs b)
    ∙ decide (contains (listed_keys get es) key) (contains (external_keys cs) key) h
  where
    decide :
        (c d : Bool)
        → (d || c) ≡ true
        → (if c
            then some (plain key false)
            else (if d then some (plain key true) else target_of key b))
          ≡ some (plain key (not c))
    decide true d p = refl
    decide false true p = refl
    decide false false p = absurd cc
