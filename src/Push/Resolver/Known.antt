-- ===== src/Push/Resolver/Known.antt =====
-- internal/push/resolver.go: what the resolver knows of a token, after any
-- receivers.
use mathlib.Core.Path.{subst}
use go_uptime.Push.{Key, is_empty_text}
use go_uptime.Push.Resolver.{
  Receiver, Resolver, Building, add_token, add_receiver, add_receivers, add_global_keys,
  empty_building, Target,
}
use go_uptime.Common.{
  ◌≡◌, refl, ap, ◌∙◌, Bool, true, false, Option, none, some, List, [], ◌∷◌, arith, Bytes, bytes_beq,
  bytes_beq_iff, bytes_eq, beq_refl, contains, lookup, insert, lookup-insert, lookup-delete,
  if◌then◌else◌, Bool-cases, inl, inr,
}

-- The keys of the receivers that use a token.
unfoldable pub users : Bytes → List Receiver → List Bytes
users token [] = []
users token (r ∷ rs) =
    let rest = users token rs in if bytes_beq r.token token then r.key ∷ rest else rest

-- The only one of a list, if there is one.
unfoldable pub only : List Bytes → Option Bytes
only [] = none
only (k ∷ []) = some k
only (k ∷ l ∷ ks) = none

-- What the resolver knows of a token: the endpoint that uses it, and whether more than one does.
unfoldable knows : Bytes → Building → Option Bytes × Bool
knows token b = (lookup token b.resolver.tokens, contains b.ambiguous token)

abbrev next : Option Bytes × Bool → Bytes → Option Bytes × Bool
next (o, true) key = (o, true)
next (none, false) key = (some key, false)
next (some k, false) key = (none, true)

unfoldable run : Option Bytes × Bool → List Bytes → Option Bytes × Bool
run s [] = s
run s (k ∷ ks) = run (next s k) ks

knows-add_token_own :
    (token key : Bytes) (b : Building)
    → knows token (add_token token key b) ≡ next (knows token b) key
unfolding knows add_token contains
knows-add_token_own token key b = ground (
  arith,
  lookup-insert token token key b.resolver.tokens,
  lookup-delete token token b.resolver.tokens,
  beq_refl token,
)

knows-add_token_other :
    (u token key : Bytes) (b : Building)
    → bytes_beq token u ≡ false
    → knows u (add_token token key b) ≡ knows u b
unfolding knows add_token contains
knows-add_token_other u token key b h =
    ground
      (arith, lookup-insert token u key b.resolver.tokens, lookup-delete token u b.resolver.tokens)

run-ambiguous : (ks : List Bytes) (o : Option Bytes) → run (o, true) ks ≡ (o, true)
unfolding run
run-ambiguous [] o = refl
run-ambiguous (k ∷ ks) o = run-ambiguous ks o

run-only : (ks : List Bytes) → (run (none, false) ks).0 ≡ only ks
unfolding run only
run-only [] = refl
run-only (k ∷ []) = refl
run-only (k ∷ l ∷ ks) = ap (λ (s : Option Bytes × Bool). s.0) (run-ambiguous ks none)

pub tokens-add_global_keys :
    (ks : List Key) (r : Resolver) → (add_global_keys ks r).tokens ≡ r.tokens
unfolding add_global_keys
tokens-add_global_keys [] r = refl
tokens-add_global_keys (k ∷ ks) r =
    tokens-add_global_keys ks (record r { global_keys = insert k.hash k.name r.global_keys })

knows-targets :
    (token : Bytes) (b : Building) (targets : List (Bytes × Target))
    → knows token (record b { resolver = record b.resolver { targets = targets } }) ≡ knows token b
unfolding knows
knows-targets token b targets = refl

knows-add_receiver_own :
    (r : Receiver) (b : Building)
    → is_empty_text r.token ≡ false
    → knows r.token (add_receiver r b) ≡ next (knows r.token b) r.key
unfolding add_receiver
knows-add_receiver_own r b h =
    let target : Target = record { key = r.key; external = r.external; managed = false } in
    let targets = insert r.key target b.resolver.targets in
    let noted : Building = record b { resolver = record b.resolver { targets = targets } } in
    simp h (
      knows-add_token_own r.token r.key noted
      ∙ ap (λ s. next s r.key) (knows-targets r.token b targets))

knows-add_receiver_other :
    (token : Bytes) (r : Receiver) (b : Building)
    → bytes_beq r.token token ≡ false
    → knows token (add_receiver r b) ≡ knows token b
unfolding add_receiver
knows-add_receiver_other token r b e =
    let target : Target = record { key = r.key; external = r.external; managed = false } in
    let targets = insert r.key target b.resolver.targets in
    let noted : Building = record b { resolver = record b.resolver { targets = targets } } in
    elim (Bool-cases (is_empty_text r.token)) [
      | inl h ↦ simp h (knows-targets token b targets)
      | inr h ↦
          simp h (knows-add_token_other token r.token r.key noted e ∙ knows-targets token b targets)
    ]

knows-add_receivers :
    (token : Bytes) (rs : List Receiver) (b : Building)
    → is_empty_text token ≡ false
    → knows token (add_receivers rs b) ≡ run (knows token b) (users token rs)
unfolding add_receivers run users
knows-add_receivers token [] b h = refl
knows-add_receivers token (r ∷ rs) b h =
    let rest = knows-add_receivers token rs (add_receiver r b) h in
    elim (Bool-cases (bytes_beq r.token token)) [
      | inl e ↦
          let same : r.token ≡ token = (bytes_beq_iff r.token token).0 e in
          let filled : is_empty_text r.token ≡ false = ap is_empty_text same ∙ h in
          let own : knows token (add_receiver r b) ≡ next (knows token b) r.key =
            subst (λ t. knows t (add_receiver r b) ≡ next (knows t b) r.key) same
              (knows-add_receiver_own r b filled) in
          rw e (rest ∙ ap (λ s. run s (users token rs)) own)
      | inr e ↦
          rw e (rest ∙ ap (λ s. run s (users token rs)) (knows-add_receiver_other token r b e))
    ]

pub lookup-receivers :
    (token : Bytes) (receivers : List Receiver)
    → is_empty_text token ≡ false
    → lookup token (add_receivers receivers empty_building).resolver.tokens
      ≡ only (users token receivers)
unfolding knows lookup contains
lookup-receivers token receivers h =
    ap (λ (s : Option Bytes × Bool). s.0) (knows-add_receivers token receivers empty_building h)
    ∙ run-only (users token receivers)
