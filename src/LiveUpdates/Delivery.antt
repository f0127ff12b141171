-- ===== src/LiveUpdates/Delivery.antt =====
-- internal/liveupdates/liveupdates.go: no subscriber misses a result.
use mathlib.Core.Option.{map as option_map}
use go_uptime.LiveUpdates.Sequences.{publishes}
use go_uptime.LiveUpdates.{
  Subscription, State, or_nil, subscribers_of, notify, publish, subscribe, remove, cancel,
  take_notice, receive, reopen, forget, forget_except, Operation, published, subscribed, forgotten,
  cancelled, received, closed_all, opened, forgotten_except, state_of, perform, schedule,
}
use go_uptime.Common.{
  ℕ, ◌≤◌, ◌<◌, ◌≡◌, ◌≢◌, refl, sym, ap, ◌∙◌, ◌⊎◌, String, Bool, true, false, ◌||◌, Option, none,
  some, List, [], ◌∷◌, map, arith, ◌==◌, str_eq, str_eq_iff, if◌then◌else◌, inl, inr, Bool-cases,
  lookup, insert, modify, lookup-modify, delete, lookup-insert, lookup-delete, string_eq,
}

-- Whether a subscription is there, and whether it holds a notification.
unfoldable pub find : ℕ → List Subscription → Option Bool
find id [] = none
find id (x ∷ xs) = if x.id == id then some x.notified else find id xs

unfoldable pub notified : String → ℕ → State → Option Bool
unfolding find subscribers_of
notified key id s = find id (subscribers_of key s)

-- The schedule neither cancels the subscription nor reads its notification, and never closes the
-- live updates.
abbrev pub Quiet : String → ℕ → List Operation → Type 0
Quiet key id [] = Unit
Quiet key id (cancelled k j ∷ ops) = ((k ≢ key) ⊎ (j ≢ id)) × Quiet key id ops
Quiet key id (received k j ∷ ops) = ((k ≢ key) ⊎ (j ≢ id)) × Quiet key id ops
Quiet key id (closed_all ∷ ops) = ⊥
Quiet key id (op ∷ ops) = Quiet key id ops

find-notify :
    (id : ℕ) (xs : List Subscription) {b : Bool}
    → find id xs ≡ some b
    → find id (map notify xs) ≡ some true
unfolding find
find-notify id [] h = cc
find-notify id (x ∷ xs) {b} h = ground (arith, find-notify id xs {b = b})

find-remove : (id j : ℕ) (xs : List Subscription) → j ≢ id → find id (remove j xs) ≡ find id xs
unfolding find remove
find-remove id j [] h = refl
find-remove id j (x ∷ xs) h = ground (arith, find-remove id j xs h)

find-take_notice :
    (id j : ℕ) (xs : List Subscription) → j ≢ id → find id (take_notice j xs) ≡ find id xs
unfolding find take_notice
find-take_notice id j [] h = refl
find-take_notice id j (x ∷ xs) h = ground (arith, find-take_notice id j xs h)

or_nil-if :
    (b : Bool) (xs : List Subscription) (o : Option (List Subscription))
    → or_nil (if b then some xs else o) ≡ (if b then xs else or_nil o)
or_nil-if true xs o = refl
or_nil-if false xs o = refl

subscribers-insert :
    (k key : String) (xs : List Subscription) (m : List (String × List Subscription))
    → or_nil (lookup key (insert k xs m)) ≡ (if str_eq k key then xs else or_nil (lookup key m))
subscribers-insert k key xs m =
    ap or_nil (lookup-insert k key xs m) ∙ or_nil-if (str_eq k key) xs (lookup key m)

subscribers-modify :
    (k key : String) (f : List Subscription → List Subscription)
    (m : List (String × List Subscription))
    → f [] ≡ []
    → or_nil (lookup key (modify k f m))
      ≡ (if str_eq k key then f (or_nil (lookup key m)) else or_nil (lookup key m))
subscribers-modify k key f m h =
    ap or_nil (lookup-modify k key f m) ∙ if_map (str_eq k key) (lookup key m)
  where
    if_map :
        (b : Bool) (o : Option (List Subscription))
        → or_nil (if b then option_map f o else o) ≡ (if b then f (or_nil o) else or_nil o)
    if_map true none = sym h
    if_map true (some xs) = refl
    if_map false o = refl

subscribers-delete :
    (k key : String) (m : List (String × List Subscription))
    → or_nil (lookup key (delete k m)) ≡ (if str_eq k key then [] else or_nil (lookup key m))
subscribers-delete k key m =
    ap or_nil (lookup-delete k key m) ∙ if_none (str_eq k key) (lookup key m)
  where
    if_none :
        (b : Bool) (o : Option (List Subscription))
        → or_nil (if b then none else o) ≡ (if b then [] else or_nil o)
    if_none true o = refl
    if_none false o = refl

module _ (key : String) (id : ℕ) (s : State) {b : Bool} (here : notified key id s ≡ some b) where
  notified-publish :
      (k : String) → notified key id (publish k s) ≡ some (if str_eq k key then true else b)
  unfolding notified publish
  notified-publish k = ground (
    arith,
    str_eq_iff k key,
    subscribers-modify k key (map notify) s.subscribers refl,
    find-notify id (or_nil (lookup key s.subscribers)) {b = b},
  )

  notified-subscribe :
      (k : String) → id < s.next_id → notified key id (state_of s (subscribe k s)) ≡ some b
  unfolding notified subscribe
  notified-subscribe k fresh = ground (
    arith,
    str_eq_iff k key,
    subscribers-insert k key
        (record { id = s.next_id; notified = false } ∷ or_nil (lookup k s.subscribers))
        s.subscribers,
  )

  notified-receive :
      (k : String) (j : ℕ) → (k ≢ key) ⊎ (j ≢ id) → notified key id (receive k j s) ≡ some b
  unfolding notified receive
  notified-receive k j apart = ground (
    arith,
    str_eq_iff k key,
    subscribers-modify k key (take_notice j) s.subscribers (unfold take_notice in refl),
    find-take_notice id j (or_nil (lookup key s.subscribers)),
  )

  notified-cancel :
      (k : String) (j : ℕ) → (k ≢ key) ⊎ (j ≢ id) → notified key id (cancel k j s) ≡ some b
  unfolding notified cancel
  notified-cancel k j apart = ground (
    arith,
    str_eq_iff k key,
    subscribers-insert k key (remove j (or_nil (lookup k s.subscribers))) s.subscribers,
    subscribers-delete k key s.subscribers,
    find-remove id j (or_nil (lookup key s.subscribers)),
  )

or-false : (b : Bool) → (b || false) ≡ b
or-false true = refl
or-false false = refl

or-true : (b : Bool) → (b || true) ≡ true
or-true true = refl
or-true false = refl

next_id-subscribe : (k : String) (s : State) → s.next_id ≤ (state_of s (subscribe k s)).next_id
unfolding subscribe
next_id-subscribe k s = ground arith

next_id-cancel : (k : String) (j : ℕ) (s : State) → (cancel k j s).next_id ≡ s.next_id
unfolding cancel
next_id-cancel k j s = ground arith

-- A subscriber that neither cancels nor reads, while the live updates are not closed, is still
-- subscribed after any schedule, and holds a notification exactly if it held one before or its key
-- was published: no result is missed, and there is no notification without a result.
pub notified-schedule :
    (key : String) (id : ℕ) (ops : List Operation) (s : State) {b : Bool}
    → notified key id s ≡ some b
    → id < s.next_id
    → Quiet key id ops
    → notified key id (schedule ops s) ≡ some (b || publishes key ops)
unfolding publishes schedule perform
notified-schedule key id [] s {b} here fresh q = here ∙ ap some (sym (or-false b))
notified-schedule key id (published k ∷ ops) s {b} here fresh q =
    let now = notified-publish key id s here k in
    let fresh' : id < (publish k s).next_id = unfold publish in fresh in
    elim (Bool-cases (str_eq k key)) [
      | inl same ↦ rw same (
          notified-schedule key id ops (publish k s) {b = true} (now ∙ (rw same)) fresh' q
          ∙ ap some (sym (or-true b)))
      | inr other ↦
          rw other (notified-schedule key id ops (publish k s) {b = b} (now ∙ (rw other)) fresh' q)
    ]
notified-schedule key id (subscribed k ∷ ops) s here fresh q =
    notified-schedule key id ops (state_of s (subscribe k s))
      (notified-subscribe key id s here k fresh) (omega (arith, next_id-subscribe k s)) q
notified-schedule key id (forgotten k ∷ ops) s here fresh q =
    notified-schedule key id ops (forget k s) (unfold notified forget in here)
      (unfold forget in fresh) q
notified-schedule key id (cancelled k j ∷ ops) s here fresh (apart, q) =
    notified-schedule key id ops (cancel k j s) (notified-cancel key id s here k j apart)
      (omega (arith, next_id-cancel k j s)) q
notified-schedule key id (received k j ∷ ops) s here fresh (apart, q) =
    notified-schedule key id ops (receive k j s) (notified-receive key id s here k j apart)
      (unfold receive in fresh) q
notified-schedule key id (closed_all ∷ ops) s here fresh q = elim q [ ]
notified-schedule key id (opened ∷ ops) s here fresh q =
    notified-schedule key id ops (reopen s) (unfold notified reopen in here)
      (unfold reopen in fresh) q
notified-schedule key id (forgotten_except keys ∷ ops) s here fresh q =
    notified-schedule key id ops (forget_except keys s) (unfold notified forget_except in here)
      (unfold forget_except in fresh) q
