-- ===== src/Push/Resolver/Users.antt =====
-- internal/push/resolver.go: the endpoints that use a token.
use go_uptime.Push.Resolver.Known.{users, only}
use go_uptime.Push.{PushEndpoint}
use go_uptime.Push.Resolver.{Receiver, Candidate, external_receivers, listed_receivers, listed}
use go_uptime.Push.Resolver.Targets.{
  is_on, external_keys, external_users, listed_keys, listed_users, enabled-is_on,
}
use go_uptime.Common.{
  ◌&&◌, ◌||◌, sym, ◌≡◌, refl, ap, ◌∙◌, true, Option, none, some, List, [], ◌∷◌, ◌++◌, arith, Bytes,
  bytes_beq, bytes_eq, beq_refl, contains, if◌then◌else◌, Bool-cases, inl, inr,
}

pub users-append :
    (token : Bytes) (rs ss : List Receiver)
    → users token (rs ++ ss) ≡ users token rs ++ users token ss
unfolding users
users-append token [] ss = refl
users-append token (r ∷ rs) ss = elim (Bool-cases (bytes_beq r.token token)) [
  | inl e ↦ rw e (ap (λ (ks : List Bytes). r.key ∷ ks) (users-append token rs ss))
  | inr e ↦ rw e (users-append token rs ss)
]

pub users-external :
    (token : Bytes) (cs : List Candidate)
    → users token (external_receivers cs) ≡ external_users token cs
unfolding users external_receivers external_users
users-external token [] = refl
users-external token (c ∷ cs) =
    let rest = users-external token cs in
    elim (Bool-cases (is_on c.enabled)) [
      | inl on ↦
          rw (enabled-is_on c.enabled, on)
            (ap (λ (ks : List Bytes). if bytes_beq c.token token then c.key ∷ ks else ks) rest)
      | inr off ↦ rw (enabled-is_on c.enabled, off) rest
    ]

pub users-listed :
    (token : Bytes) (get : Bytes → Option Candidate) (es : List PushEndpoint)
    → users token (listed_receivers get es) ≡ listed_users token get es
unfolding users listed_receivers listed_users
users-listed token get [] = refl
users-listed token get (e ∷ es) = by_candidate (users-listed token get es) (get e.key)
  where
    by_candidate :
        users token (listed_receivers get es) ≡ listed_users token get es
        → (o : Option Candidate)
        → let keys : List Bytes = elim o [
          | none ↦ listed_users token get es
          | some c ↦
              if is_on c.enabled && bytes_beq e.token token
              then c.key ∷ listed_users token get es
              else listed_users token get es
        ] in
          users token (listed e o (listed_receivers get es)) ≡ keys
    by_candidate rest none = rest
    by_candidate rest (some c) = elim (Bool-cases (is_on c.enabled)) [
      | inl on ↦
          rw (enabled-is_on c.enabled, on)
            (ap (λ (ks : List Bytes). if bytes_beq e.token token then c.key ∷ ks else ks) rest)
      | inr off ↦ rw (enabled-is_on c.enabled, off) rest
    ]

external_users-keys :
    (token key : Bytes) (cs : List Candidate)
    → contains (external_users token cs) key ≡ true
    → contains (external_keys cs) key ≡ true
unfolding external_users external_keys contains
external_users-keys token key [] h = h
external_users-keys token key (c ∷ cs) h = ground (arith, external_users-keys token key cs)

listed_users-keys :
    (token key : Bytes) (get : Bytes → Option Candidate) (es : List PushEndpoint)
    → contains (listed_users token get es) key ≡ true
    → contains (listed_keys get es) key ≡ true
unfolding listed_users listed_keys contains
listed_users-keys token key get [] h = h
listed_users-keys token key get (e ∷ es) h = ground (arith, listed_users-keys token key get es)

contains-append :
    (xs ys : List Bytes) (key : Bytes)
    → contains (xs ++ ys) key ≡ (contains xs key || contains ys key)
unfolding contains
contains-append [] ys key = refl
contains-append (x ∷ xs) ys key = ground (arith, contains-append xs ys key)

only-contains : (ks : List Bytes) (key : Bytes) → only ks ≡ some key → contains ks key ≡ true
unfolding only contains
only-contains [] key h = absurd cc
only-contains (k ∷ []) key h = let same : k ≡ key = cc in rw same (ground (arith, beq_refl key))
only-contains (k ∷ l ∷ ks) key h = absurd cc

-- The keys of the endpoints that use a token, of those that are not disabled.
unfoldable pub users_of :
    Bytes → (Bytes → Option Candidate) → List Candidate → List PushEndpoint → List Bytes
users_of token get externals endpoints =
    external_users token externals ++ listed_users token get endpoints

pub user-is_known :
    (token key : Bytes) (get : Bytes → Option Candidate) (cs : List Candidate)
    (es : List PushEndpoint)
    → only (users_of token get cs es) ≡ some key
    → (contains (external_keys cs) key || contains (listed_keys get es) key) ≡ true
unfolding users_of
user-is_known token key get cs es h =
    let found =
      sym (contains-append (external_users token cs) (listed_users token get es) key)
      ∙ only-contains (external_users token cs ++ listed_users token get es) key h in
    ground (arith, external_users-keys token key cs, listed_users-keys token key get es)
