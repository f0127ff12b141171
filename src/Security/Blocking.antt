-- ===== src/Security/Blocking.antt =====
-- internal/security/limiter.go: when a client is blocked, and how many clients are tracked.
use mathlib.Core.Path.{subst}
use go_uptime.Security.{
  Entry, FailureLimiter, blocked_by, blocked, evict, count_failure, recorded, failure,
}
use go_uptime.Clock.{Time}
use go_uptime.Common.{
  ℕ, suc, ◌+◌, ◌≤◌, ◌<◌, ◌≡◌, refl, ap, ◌∙◌, String, true, false, Option, none, some, List, [], ◌∷◌,
  arith, ltb, length, take, delete, lookup, string_eq, beq_refl, Option-cases, length-take, inl,
  inr, if◌then◌else◌,
}

-- What the limiter keeps of a client after a failure at a time.
unfoldable pub next_entry : FailureLimiter → Time → Option Entry → Entry
unfolding count_failure
next_entry limiter now none = record { window_start = now; failures = 1 }
next_entry limiter now (some entry) = count_failure limiter now entry

lookup-front :
    (key : String) (e : Entry) (m : List (String × Entry)) → lookup key ((key, e) ∷ m) ≡ some e
unfolding lookup
lookup-front key e m = rw (beq_refl key)

-- A failure is always recorded, also where the oldest entries have to go.
pub lookup-failure :
    (key : String) (now : Time) (limiter : FailureLimiter) (keys : ℕ)
    → limiter.maximum_keys ≡ suc keys
    → lookup key (failure key now limiter).entries
      ≡ some (next_entry limiter now (lookup key limiter.entries))
unfolding failure next_entry evict
lookup-failure key now limiter keys h = go (lookup key limiter.entries)
  where
    go :
        (o : Option Entry)
        → lookup key (recorded limiter key now o) ≡ some (next_entry limiter now o)
    go none =
        rw h (
          lookup-front key (record { window_start = now; failures = 1 })
            (take keys limiter.entries))
    go (some entry) =
        lookup-front key (count_failure limiter now entry) (delete key limiter.entries)

-- The failures of one client, the first one first.
unfoldable pub failures_at : String → List Time → FailureLimiter → FailureLimiter
failures_at key [] limiter = limiter
failures_at key (t ∷ ts) limiter = failures_at key ts (failure key t limiter)

-- The times are within a window.
abbrev pub AllWithin : ℕ → List Time → Type 0
AllWithin end [] = Unit
AllWithin end (t ∷ ts) = (t < end) × AllWithin end ts

record Tracked (key : String) (start failures window maximum keys : ℕ) (l : FailureLimiter)
    : Type 0 where
  entry : lookup key l.entries ≡ some (record { window_start = start; failures = failures })
  window_is : l.window ≡ window
  maximum_is : l.maximum_failures ≡ maximum
  keys_is : l.maximum_keys ≡ suc keys

failure-Tracked :
    (key : String) (start n window maximum keys now : ℕ) (l : FailureLimiter)
    → Tracked key start n window maximum keys l
    → now < start + window
    → Tracked key start (suc n) window maximum keys (failure key now l)
unfolding failure next_entry count_failure
failure-Tracked key start n window maximum keys now l t within = record {
  entry =
      lookup-failure key now l keys t.keys_is
      ∙ ap (λ o. some (next_entry l now o)) t.entry
      ∙ counted l now start n window t.window_is within;
  window_is = t.window_is;
  maximum_is = t.maximum_is;
  keys_is = t.keys_is;
}
  where
    counted :
        (l : FailureLimiter) (now start n window : ℕ)
        → l.window ≡ window
        → now < start + window
        → some (next_entry l now (some (record { window_start = start; failures = n })))
          ≡ some (record { window_start = start; failures = suc n })
    counted l now start n window e within = ground arith

failures_at-Tracked :
    (key : String) (start n window maximum keys : ℕ) (ts : List Time) (l : FailureLimiter)
    → Tracked key start n window maximum keys l
    → AllWithin (start + window) ts
    → Tracked key start (n + length ts) window maximum keys (failures_at key ts l)
unfolding failures_at
failures_at-Tracked key start n window maximum keys [] l t w =
    let same : n + 0 ≡ n = omega arith in rw same t
failures_at-Tracked key start n window maximum keys (now ∷ ts) l t (within, w) =
    let more : n + suc (length ts) ≡ suc n + length ts = omega arith in
    rw more (
      failures_at-Tracked key start (suc n) window maximum keys ts (failure key now l)
        (failure-Tracked key start n window maximum keys now l t within) w)

blocked-Tracked :
    (key : String) (start n window maximum keys now : ℕ) (l : FailureLimiter)
    → Tracked key start n window maximum keys l
    → now < start + window
    → (blocked key now l).0 ≡ (if ltb n maximum then false else true)
unfolding blocked
blocked-Tracked key start n window maximum keys now l t within =
    ap (λ o. (blocked_by l now o).0) t.entry ∙ answer l now start n t.window_is t.maximum_is within
  where
    answer :
        (l : FailureLimiter) (now start n : ℕ)
        → l.window ≡ window
        → l.maximum_failures ≡ maximum
        → now < start + window
        → (blocked_by l now (some (record { window_start = start; failures = n }))).0
          ≡ (if ltb n maximum then false else true)
    answer l now start n e f within = ground arith

-- A client that was not tracked and then fails within one window is blocked until the end of the
-- window exactly if its failures have reached the maximum, where the limiter tracks clients at all.
pub blocked-failures_at :
    (key : String) (first now : Time) (ts : List Time) (limiter : FailureLimiter) (keys : ℕ)
    → limiter.maximum_keys ≡ suc keys
    → lookup key limiter.entries ≡ none
    → AllWithin (first + limiter.window) ts
    → now < first + limiter.window
    → (blocked key now (failures_at key (first ∷ ts) limiter)).0
      ≡ (if ltb (suc (length ts)) limiter.maximum_failures then false else true)
unfolding failures_at failure next_entry
blocked-failures_at key first now ts limiter keys room fresh within here =
    let count : 1 + length ts ≡ suc (length ts) = omega arith in
    blocked-Tracked key first (suc (length ts)) limiter.window limiter.maximum_failures keys now
      (failures_at key ts (failure key first limiter))
      (subst
        (λ n.
          Tracked key first n limiter.window limiter.maximum_failures keys
            (failures_at key ts (failure key first limiter)))
        count
        (failures_at-Tracked key first 1 limiter.window limiter.maximum_failures keys ts
          (failure key first limiter) start within))
      here
  where
    start :
        Tracked key first 1 limiter.window limiter.maximum_failures keys (failure key first limiter)
    start = record {
      entry =
          lookup-failure key first limiter keys room
          ∙ ap (λ o. some (next_entry limiter first o)) fresh;
      window_is = refl;
      maximum_is = refl;
      keys_is = room;
    }

length-delete : (key : String) (m : List (String × Entry)) → length (delete key m) ≤ length m
unfolding delete
length-delete key [] = omega arith
length-delete key ((j, e) ∷ m) = ground (arith, length-delete key m)

length-delete_known :
    (key : String) (m : List (String × Entry)) {e : Entry}
    → lookup key m ≡ some e
    → length (delete key m) < length m
unfolding delete lookup
length-delete_known key [] h = absurd cc
length-delete_known key ((j, e') ∷ m) {e} h =
    ground (arith, length-delete key m, length-delete_known key m {e = e})

-- No failure makes the limiter track more clients than its maximum.
pub length-failure :
    (key : String) (now : Time) (limiter : FailureLimiter)
    → length limiter.entries ≤ limiter.maximum_keys
    → length (failure key now limiter).entries ≤ limiter.maximum_keys
unfolding failure evict
length-failure key now limiter h = elim (Option-cases (lookup key limiter.entries)) [
  | inl new ↦ rw new (
      omega (
        arith,
        length-take limiter.maximum_keys
            ((key, record { window_start = now; failures = 1 }) ∷ limiter.entries),
      ))
  | inr (e, known) ↦ rw known (omega (arith, length-delete_known key limiter.entries {e = e} known))
]
