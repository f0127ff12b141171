-- ===== src/StatusPage/Answers.antt =====
-- internal/statuspage/limiter.go: the answers to the hits of one client within a minute.
use mathlib.Core.Path.{subst}
use go_uptime.StatusPage.{
  LimiterEntry, Limiter, window_start_of, entry_or_new, put_front, advance, is_over, retry_after,
  decide, record_hit, hit,
}
use go_uptime.Common.{
  ℕ, zero, suc, ◌-◌, ◌≤◌, ◌<◌, ◌≡◌, refl, sym, ap, ◌∙◌, arith, String, Bool, true, false, Option,
  none, some, List, [], ◌∷◌, ◌==◌, ltb, ltb→lt, take, delete, lookup, string_eq, beq_refl, inl, inr,
  Bool-cases,
}

-- The answers to the hits of a client, the first one first.
unfoldable pub answers : String → List ℕ → Limiter → List Bool
answers key [] l = []
answers key (now ∷ times) l =
    let ((allowed, wait), after) = hit key now l in allowed ∷ answers key times after

-- As many answers as there are hits: the first ones allow, the others refuse.
unfoldable pub first_allowed : ℕ → List ℕ → List Bool
first_allowed n [] = []
first_allowed zero (now ∷ times) = false ∷ first_allowed zero times
first_allowed (suc n) (now ∷ times) = true ∷ first_allowed n times

-- The times of one window.
abbrev pub AllIn : ℕ → List ℕ → Type 0
AllIn start [] = Unit
AllIn start (now ∷ times) = (window_start_of now ≡ start) × AllIn start times

-- A client with some responses counted in a window, and none before it.
record Tracked (key : String) (start count limit keys : ℕ) (l : Limiter) : Type 0 where
  entry :
      entry_or_new start (lookup key l.entries)
      ≡ record { window_start = start; current = count; previous = 0 }
  limit_is : l.limit ≡ suc limit
  keys_is : l.maximum_keys ≡ suc keys

lookup-front :
    (key : String) (e : LimiterEntry) (m : List (String × LimiterEntry))
    → lookup key ((key, e) ∷ m) ≡ some e
unfolding lookup
lookup-front key e m = rw (beq_refl key) refl

advance-same :
    (start count : ℕ)
    → let e : LimiterEntry = record { window_start = start; current = count; previous = 0 } in
      advance start e ≡ e
unfolding advance
advance-same start count =
    let none_elapsed : start - start ≡ 0 = omega arith in simp none_elapsed refl

over-fresh :
    (limit now start count : ℕ)
    → is_over limit now start (record { window_start = start; current = count; previous = 0 })
      ≡ ltb limit (suc count)
unfolding is_over
over-fresh limit now start count = ground arith

lookup-put_front :
    (l : Limiter) (key : String) (keys : ℕ) (o : Option LimiterEntry) (after : LimiterEntry)
    → l.maximum_keys ≡ suc keys
    → lookup key (put_front l key o after) ≡ some after
lookup-put_front l key keys (some entry) after h = lookup-front key after (delete key l.entries)
lookup-put_front l key keys none after h =
    ap (λ n. lookup key (take n ((key, after) ∷ l.entries))) h
    ∙ lookup-front key after (take keys l.entries)

not_zero : (n m : ℕ) → n ≡ suc m → (n == 0) ≡ false
not_zero n m h = ground arith

hit-limited :
    (key : String) (now : ℕ) (l : Limiter)
    → (l.limit == 0) ≡ false
    → hit key now l ≡ record_hit l key now (window_start_of now) (lookup key l.entries)
unfolding hit
hit-limited key now l h = simp h refl

-- A hit of a client in its window, without a limit of zero.
hit_entry :
    (key : String) (now start count limit keys : ℕ) (l : Limiter)
    → Tracked key start count limit keys l
    → window_start_of now ≡ start
    → let e : LimiterEntry = record { window_start = start; current = count; previous = 0 } in
      hit key now l ≡ (
        (decide (suc limit) now start e).0,
        record l {
          entries = put_front l key (lookup key l.entries) (decide (suc limit) now start e).1;
        },
      )
unfolding record_hit
hit_entry key now start count limit keys l t at =
    let found = lookup key l.entries in
    let answered : ℕ → LimiterEntry → (Bool × ℕ) × Limiter = λ n e. (
      (decide n now start e).0,
      record l { entries = put_front l key found (decide n now start e).1 },
    ) in
    hit-limited key now l (not_zero l.limit limit t.limit_is)
    ∙ ap (λ s. record_hit l key now s found) at
    ∙ ap (λ e. answered l.limit (advance start e)) t.entry
    ∙ ap (answered l.limit) (advance-same start count)
    ∙ ap (λ n. answered n (record { window_start = start; current = count; previous = 0 }))
        t.limit_is

decide-fits :
    (limit now start count : ℕ)
    → count ≤ limit
    → let e : LimiterEntry = record { window_start = start; current = count; previous = 0 } in
      decide (suc limit) now start e
      ≡ ((true, 0), record { window_start = start; current = suc count; previous = 0 })
unfolding decide
decide-fits limit now start count h =
    let room : ltb (suc limit) (suc count) ≡ false = ground arith in
    let fits = over-fresh (suc limit) now start count ∙ room in simp fits refl

decide-over :
    (limit now start count : ℕ)
    → limit < count
    → let e : LimiterEntry = record { window_start = start; current = count; previous = 0 } in
      decide (suc limit) now start e ≡ ((false, retry_after now start), e)
unfolding decide
decide-over limit now start count h =
    let full : ltb (suc limit) (suc count) ≡ true = ground arith in
    let over = over-fresh (suc limit) now start count ∙ full in simp over refl

put_front-Tracked :
    (key : String) (start count limit keys : ℕ) (l : Limiter) (after : LimiterEntry)
    → l.limit ≡ suc limit
    → l.maximum_keys ≡ suc keys
    → after ≡ record { window_start = start; current = count; previous = 0 }
    → Tracked key start count limit keys
        (record l { entries = put_front l key (lookup key l.entries) after })
put_front-Tracked key start count limit keys l after limit_is keys_is is = record {
  entry =
      ap (entry_or_new start) (lookup-put_front l key keys (lookup key l.entries) after keys_is)
      ∙ is;
  limit_is = limit_is;
  keys_is = keys_is;
}

-- What the answers and the limiter become with the answer to a hit.
after_hit :
    (key : String) (now start count limit keys : ℕ) (l : Limiter)
    → Tracked key start count limit keys l
    → window_start_of now ≡ start
    → (answer : Bool × ℕ) (after : LimiterEntry) (count' : ℕ)
    → (decide (suc limit) now start (record { window_start = start; current = count; previous = 0 })
        ≡ (answer, after))
    → after ≡ record { window_start = start; current = count'; previous = 0 }
    → ((hit key now l).0.0 ≡ answer.0) × Tracked key start count' limit keys (hit key now l).1
after_hit key now start count limit keys l t at answer after count' decided is =
    let found = lookup key l.entries in
    let same =
      hit_entry key now start count limit keys l t at
      ∙ ap
          (λ (d : (Bool × ℕ) × LimiterEntry).
            (d.0, record l { entries = put_front l key found d.1 }))
          decided in
    (
      ap (λ (x : (Bool × ℕ) × Limiter). x.0.0) same,
      subst (λ (x : (Bool × ℕ) × Limiter). Tracked key start count' limit keys x.1) (sym same)
          (put_front-Tracked key start count' limit keys l after t.limit_is t.keys_is is),
    )

none_left : (limit count : ℕ) → limit < count → suc limit - count ≡ 0
none_left limit count h = omega arith

one_less : (limit count : ℕ) → count ≤ limit → suc limit - count ≡ suc (suc limit - suc count)
one_less limit count h = omega arith

answers-Tracked :
    (key : String) (start count limit keys : ℕ) (times : List ℕ) (l : Limiter)
    → Tracked key start count limit keys l
    → AllIn start times
    → answers key times l ≡ first_allowed (suc limit - count) times
unfolding answers first_allowed
answers-Tracked key start count limit keys [] l t within = refl
answers-Tracked key start count limit keys (now ∷ times) l t (at, within) =
    elim (Bool-cases (ltb limit count)) [
      | inl full ↦
          let over = ltb→lt limit count full in
          let (refused, next) =
            after_hit key now start count limit keys l t at _ _ count
              (decide-over limit now start count over) refl in
          let rest =
            answers-Tracked key start count limit keys times (hit key now l).1 next within in
          let nothing = none_left limit count over in
          ap (λ a. a ∷ answers key times (hit key now l).1) refused
          ∙ ap (λ r. false ∷ r) (rest ∙ ap (λ n. first_allowed n times) nothing)
          ∙ ap (λ n. first_allowed n (now ∷ times)) (sym nothing)
      | inr room ↦
          let fits : count ≤ limit = ground arith in
          let (allowed, next) =
            after_hit key now start count limit keys l t at _ _ (suc count)
              (decide-fits limit now start count fits) refl in
          let rest =
            answers-Tracked key start (suc count) limit keys times (hit key now l).1 next within in
          ap (λ a. a ∷ answers key times (hit key now l).1) allowed
          ∙ ap (λ r. true ∷ r) rest
          ∙ ap (λ n. first_allowed n (now ∷ times)) (sym (one_less limit count fits))
    ]

-- The hits within one minute of a client that is not tracked: as many as the limit are allowed, the
-- first ones, and all that follow are refused, where there is a limit and clients are tracked.
pub answers-first_allowed :
    (key : String) (start limit keys : ℕ) (times : List ℕ) (l : Limiter)
    → l.limit ≡ suc limit
    → l.maximum_keys ≡ suc keys
    → lookup key l.entries ≡ none
    → AllIn start times
    → answers key times l ≡ first_allowed (suc limit) times
answers-first_allowed key start limit keys times l limit_is keys_is absent within =
    let whole : suc limit - 0 ≡ suc limit = omega arith in
    answers-Tracked key start 0 limit keys times l
      (record { entry = ap (entry_or_new start) absent; limit_is = limit_is; keys_is = keys_is })
      within
    ∙ ap (λ n. first_allowed n times) whole
