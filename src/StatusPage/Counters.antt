-- ===== src/StatusPage/Counters.antt =====
-- internal/statuspage/limiter.go: how many clients are tracked, and what their counters say.
use mathlib.Core.Path.{subst}
use go_uptime.StatusPage.{
  LimiterEntry, Limiter, limiter_window, new_limiter, set_limit, window_start_of, entry_or_new,
  put_front, advance, is_over, decide, record_hit, hit,
}
use go_uptime.Common.{
  ℕ, zero, suc, ◌+◌, ◌-◌, ◌*◌, ◌≤◌, ◌≡◌, refl, arith, String, false, Option, none, some, List, [],
  ◌∷◌, ◌==◌, ltb, length, take, delete, lookup, string_eq, inl, inr, Bool-cases, ==_iff,
  length-take,
}

-- Every counter is within the limit.
abbrev pub AllWithin : ℕ → List (String × LimiterEntry) → Type 0
AllWithin limit [] = Unit
AllWithin limit ((key, entry) ∷ entries) =
    (entry.current ≤ limit) × (entry.previous ≤ limit) × AllWithin limit entries

AllWithin-take :
    (limit n : ℕ) (entries : List (String × LimiterEntry))
    → AllWithin limit entries
    → AllWithin limit (take n entries)
AllWithin-take limit zero entries h = tt
AllWithin-take limit (suc n) [] h = tt
AllWithin-take limit (suc n) ((key, entry) ∷ entries) (c, p, h) =
    (c, p, AllWithin-take limit n entries h)

AllWithin-delete :
    (limit : ℕ) (key : String) (entries : List (String × LimiterEntry))
    → AllWithin limit entries
    → AllWithin limit (delete key entries)
unfolding delete
AllWithin-delete limit key [] h = tt
AllWithin-delete limit key ((j, entry) ∷ entries) (c, p, h) =
    elim (Bool-cases (string_eq.beq j key)) [
      | inl e ↦ rw e (AllWithin-delete limit key entries h)
      | inr e ↦ rw e (c, p, AllWithin-delete limit key entries h)
    ]

AllWithin-lookup :
    (limit : ℕ) (key : String) (entries : List (String × LimiterEntry)) (entry : LimiterEntry)
    → AllWithin limit entries
    → lookup key entries ≡ some entry
    → (entry.current ≤ limit) × (entry.previous ≤ limit)
unfolding lookup
AllWithin-lookup limit key [] entry h found = absurd cc
AllWithin-lookup limit key ((j, e) ∷ entries) entry (c, p, h) found =
    elim (Bool-cases (string_eq.beq j key)) [
      | inl q ↦ ground (arith, found, q, c, p)
      | inr q ↦ AllWithin-lookup limit key entries entry h (ground (arith, found, q))
    ]

length-delete_le :
    (key : String) (entries : List (String × LimiterEntry))
    → length (delete key entries) ≤ length entries
unfolding delete
length-delete_le key [] = omega arith
length-delete_le key ((j, e) ∷ entries) = ground (arith, length-delete_le key entries)

longer : (n m : ℕ) → n ≤ m → suc n ≤ suc m
longer n m h = omega arith

length-delete_found :
    (key : String) (entries : List (String × LimiterEntry)) (entry : LimiterEntry)
    → lookup key entries ≡ some entry
    → suc (length (delete key entries)) ≤ length entries
unfolding delete lookup
length-delete_found key [] entry found = absurd cc
length-delete_found key ((j, e) ∷ entries) entry found = elim (Bool-cases (string_eq.beq j key)) [
  | inl q ↦ rw q (longer _ _ (length-delete_le key entries))
  | inr q ↦ rw q (longer _ _ (length-delete_found key entries entry (ground (arith, found, q))))
]

advance-within :
    (limit start : ℕ) (entry : LimiterEntry)
    → entry.current ≤ limit
    → entry.previous ≤ limit
    → ((advance start entry).current ≤ limit) × ((advance start entry).previous ≤ limit)
unfolding advance
advance-within limit start entry c p = ground arith

fits_le :
    (limit weight count : ℕ)
    → ltb (limit * limiter_window) (weight + count * limiter_window) ≡ false
    → count ≤ limit
fits_le limit weight count h = ground arith

-- A response that is allowed fits in the limit.
counted_le :
    (limit now start : ℕ) (entry : LimiterEntry)
    → is_over limit now start entry ≡ false
    → suc entry.current ≤ limit
unfolding is_over
counted_le limit now start entry h =
    fits_le limit (entry.previous * (limiter_window - (now - start))) (suc entry.current) h

decide-within :
    (limit now start : ℕ) (entry : LimiterEntry)
    → entry.current ≤ limit
    → entry.previous ≤ limit
    → ((decide limit now start entry).1.current ≤ limit)
      × ((decide limit now start entry).1.previous ≤ limit)
unfolding decide
decide-within limit now start entry c p = elim (Bool-cases (is_over limit now start entry)) [
  | inl over ↦ rw over (c, p)
  | inr fits ↦ rw fits (counted_le limit now start entry fits, p)
]

-- At most the maximum of clients is tracked, with counters within the limit.
pub record IsBounded (l : Limiter) : Type 0 where
  pub tracked : length l.entries ≤ l.maximum_keys
  pub counted : AllWithin l.limit l.entries

put_front-length :
    (l : Limiter) (key : String) (o : Option LimiterEntry) (after : LimiterEntry)
    → lookup key l.entries ≡ o
    → length l.entries ≤ l.maximum_keys
    → length (put_front l key o after) ≤ l.maximum_keys
put_front-length l key none after found h =
    let short = length-take l.maximum_keys ((key, after) ∷ l.entries) in omega arith
put_front-length l key (some entry) after found h =
    let shorter = length-delete_found key l.entries entry found in omega arith

put_front-within :
    (l : Limiter) (key : String) (o : Option LimiterEntry) (after : LimiterEntry)
    → AllWithin l.limit l.entries
    → after.current ≤ l.limit
    → after.previous ≤ l.limit
    → AllWithin l.limit (put_front l key o after)
put_front-within l key none after h c p =
    AllWithin-take l.limit l.maximum_keys ((key, after) ∷ l.entries) (c, p, h)
put_front-within l key (some entry) after h c p = (c, p, AllWithin-delete l.limit key l.entries h)

found-within :
    (l : Limiter) (key : String) (start : ℕ) (o : Option LimiterEntry)
    → lookup key l.entries ≡ o
    → AllWithin l.limit l.entries
    → ((entry_or_new start o).current ≤ l.limit) × ((entry_or_new start o).previous ≤ l.limit)
found-within l key start none found h = (omega arith, omega arith)
found-within l key start (some entry) found h = AllWithin-lookup l.limit key l.entries entry h found

hit-IsBounded : (key : String) (now : ℕ) (l : Limiter) → IsBounded l → IsBounded (hit key now l).1
unfolding hit record_hit
hit-IsBounded key now l ok = elim (Bool-cases (l.limit == 0)) [
  | inl off ↦ simp off ok
  | inr on ↦
      let start = window_start_of now in
      let found = lookup key l.entries in
      let entry = entry_or_new start found in
      let (c, p) = found-within l key start found refl ok.counted in
      let (c1, p1) = advance-within l.limit start entry c p in
      let (c2, p2) = decide-within l.limit now start (advance start entry) c1 p1 in
      let after = (decide l.limit now start (advance start entry)).1 in
      let bounded : IsBounded (record l { entries = put_front l key found after }) = record {
        tracked = put_front-length l key found after refl ok.tracked;
        counted = put_front-within l key found after ok.counted c2 p2;
      } in
      simp on bounded
]

set_limit-IsBounded : (limit : ℕ) (l : Limiter) → IsBounded l → IsBounded (set_limit limit l)
unfolding set_limit
set_limit-IsBounded limit l ok = elim (Bool-cases (l.limit == limit)) [
  | inl e ↦
      let same : l.limit ≡ limit = (==_iff l.limit limit).0 e in
      let kept : IsBounded (record l { limit = limit }) = record {
        tracked = ok.tracked;
        counted = subst (λ n. AllWithin n l.entries) same ok.counted;
      } in
      simp e kept
  | inr e ↦
      let empty : IsBounded (record l { limit = limit; entries = [] }) = record {
        tracked = omega arith;
        counted = tt;
      } in
      simp e empty
]

-- What the public pages do to the limiter, one call after the other.
pub data Reaches : Limiter → Limiter → Type 0 where
  here : {l : Limiter} → Reaches l l
  then_hit : {l m : Limiter} (key : String) (now : ℕ) → Reaches l m → Reaches l (hit key now m).1
  then_set_limit : {l m : Limiter} (limit : ℕ) → Reaches l m → Reaches l (set_limit limit m)

kept-IsBounded : {l m : Limiter} → Reaches l m → IsBounded l → IsBounded m
kept-IsBounded here ok = ok
kept-IsBounded (then_hit {m = m} key now before) ok =
    hit-IsBounded key now m (kept-IsBounded before ok)
kept-IsBounded (then_set_limit {m = m} limit before) ok =
    set_limit-IsBounded limit m (kept-IsBounded before ok)

-- In every limiter that hits and changes of the limit reach, no more than the maximum of clients is
-- tracked, whatever the order of the clients, and no client has more responses counted in its
-- current or its previous minute than the limit that is set.
pub IsBounded-Reaches :
    (limit maximum_keys : ℕ) {l : Limiter}
    → Reaches (new_limiter limit maximum_keys) l
    → IsBounded l
unfolding new_limiter
IsBounded-Reaches limit maximum_keys before =
    kept-IsBounded before (record { tracked = omega arith; counted = tt })
