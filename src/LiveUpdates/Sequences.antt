-- ===== src/LiveUpdates/Sequences.antt =====
-- internal/liveupdates/liveupdates.go: the sequence of an endpoint tells whether it was published.
use go_uptime.LiveUpdates.{
  State, or_zero, publish, sequence_of, subscribe, forget, forget_except, cancel, close, reopen,
  receive, Operation, published, subscribed, forgotten, cancelled, received, closed_all, opened,
  forgotten_except, state_of, perform, schedule,
}
use go_uptime.Common.{
  ℕ, suc, ◌+◌, ◌%◌, ◌^◌, ◌≤◌, ◌<◌, ◌≡◌, refl, ap, ◌∙◌, String, Bool, true, false, Option, some,
  List, [], ◌∷◌, arith, str_eq, if◌then◌else◌, inl, inr, Bool-cases, contains, lookup, delete, keep,
  lookup-insert, lookup-delete, lookup-keep, string_eq,
}

-- Whether a schedule publishes a key.
unfoldable pub publishes : String → List Operation → Bool
publishes key [] = false
publishes key (published k ∷ ops) = if str_eq k key then true else publishes key ops
publishes key (op ∷ ops) = publishes key ops

unfoldable pub publications : List Operation → ℕ
publications [] = 0
publications (published k ∷ ops) = suc (publications ops)
publications (op ∷ ops) = publications ops

-- The schedule does not forget the key.
abbrev pub Remembers : String → List Operation → Type 0
Remembers key [] = Unit
Remembers key (forgotten k ∷ ops) = (str_eq k key ≡ false) × Remembers key ops
Remembers key (forgotten_except keys ∷ ops) = (contains keys key ≡ true) × Remembers key ops
Remembers key (op ∷ ops) = Remembers key ops

or_zero-if :
    (b : Bool) (n : ℕ) (o : Option ℕ)
    → or_zero (if b then some n else o) ≡ (if b then n else or_zero o)
or_zero-if true n o = refl
or_zero-if false n o = refl

sequence-publish :
    (key k : String) (s : State)
    → sequence_of k (publish key s)
      ≡ (if str_eq key k then (s.sequence + 1) % 2 ^ 64 else sequence_of k s)
unfolding publish sequence_of
sequence-publish key k s =
    ap or_zero (lookup-insert key k ((s.sequence + 1) % 2 ^ 64) s.sequences)
    ∙ or_zero-if (str_eq key k) ((s.sequence + 1) % 2 ^ 64) (lookup k s.sequences)

sequence-subscribe :
    (key k : String) (s : State) → sequence_of k (state_of s (subscribe key s)) ≡ sequence_of k s
unfolding subscribe sequence_of
sequence-subscribe key k s = ground arith

counter-subscribe :
    (key : String) (s : State) → (state_of s (subscribe key s)).sequence ≡ s.sequence
unfolding subscribe
counter-subscribe key s = ground arith

sequence-cancel :
    (key k : String) (id : ℕ) (s : State)
    → (sequence_of k (cancel key id s) ≡ sequence_of k s)
      × ((cancel key id s).sequence ≡ s.sequence)
unfolding cancel sequence_of
sequence-cancel key k id s = ground arith

sequence-forget :
    (key k : String) (s : State)
    → str_eq key k ≡ false
    → sequence_of k (forget key s) ≡ sequence_of k s
unfolding forget sequence_of
sequence-forget key k s h =
    let found : lookup k (delete key s.sequences) ≡ lookup k s.sequences =
      lookup-delete key k s.sequences ∙ rw h in
    ap or_zero found

sequence-forget_except :
    (keys : List String) (k : String) (s : State)
    → contains keys k ≡ true
    → sequence_of k (forget_except keys s) ≡ sequence_of k s
unfolding forget_except sequence_of
sequence-forget_except keys k s h =
    let found : lookup k (keep (λ key. contains keys key) s.sequences) ≡ lookup k s.sequences =
      lookup-keep (λ key. contains keys key) k s.sequences ∙ rw h in
    ap or_zero found

-- What a schedule may do to the sequence of a key: grow if it publishes the key, stay if not.
abbrev pub Follows : Bool → ℕ → ℕ → Type 0
Follows true before after = before < after
Follows false before after = after ≡ before

Follows-of_lt : (b : Bool) (x y z : ℕ) → x < y → Follows b y z → x < z
Follows-of_lt true x y z h f = omega arith
Follows-of_lt false x y z h f = omega arith

-- What no operation but `publish` and the two `forget` changes.
record Same (key : String) (s t : State) : Type 0 where
  of_key : sequence_of key t ≡ sequence_of key s
  counter : t.sequence ≡ s.sequence

Same-step :
    (key : String) (b : Bool) (n : ℕ) (s t : State) (after : ℕ)
    → Same key s t
    → sequence_of key s ≤ s.sequence
    → s.sequence + n < 2 ^ 64
    → (sequence_of key t ≤ t.sequence
        → t.sequence + n < 2 ^ 64
        → Follows b (sequence_of key t) after)
    → Follows b (sequence_of key s) after
Same-step key b n s t after same le bound rest =
    rw same.of_key at (rest (omega arith) (omega arith))

-- As long as a schedule does not forget a key, and the counter of 64 bits does not wrap, the
-- sequence of the key is unchanged if the schedule never publishes the key, and greater if it does:
-- a page that compares sequences sees exactly whether there is a new result.
pub sequence-schedule :
    (key : String) (ops : List Operation) (s : State)
    → Remembers key ops
    → sequence_of key s ≤ s.sequence
    → s.sequence + publications ops < 2 ^ 64
    → Follows (publishes key ops) (sequence_of key s) (sequence_of key (schedule ops s))
unfolding publishes publications schedule perform
sequence-schedule key [] s m le bound = refl
sequence-schedule key (published k ∷ ops) s m le bound =
    let t = publish k s in
    let law = sequence-publish k key s in
    let counter : t.sequence ≡ s.sequence + 1 = unfold publish in (ground arith) in
    elim (Bool-cases (str_eq k key)) [
      | inl same ↦
          let now : sequence_of key t ≡ s.sequence + 1 = law ∙ (rw same (omega arith)) in
          rw same (
            Follows-of_lt (publishes key ops) (sequence_of key s) (sequence_of key t) _
              (omega arith) (sequence-schedule key ops t m (omega arith) (omega arith)))
      | inr other ↦
          let now : sequence_of key t ≡ sequence_of key s = law ∙ (rw other) in
          rw (other, ← now) (sequence-schedule key ops t m (omega arith) (omega arith))
    ]
sequence-schedule key (subscribed k ∷ ops) s m le bound =
    let t = state_of s (subscribe k s) in
    Same-step key _ (publications ops) s t _
      (record { of_key = sequence-subscribe k key s; counter = counter-subscribe k s }) le bound
      (sequence-schedule key ops t m)
sequence-schedule key (forgotten k ∷ ops) s (other, m) le bound =
    Same-step key _ (publications ops) s (forget k s) _
      (record { of_key = sequence-forget k key s other; counter = unfold forget in refl }) le bound
      (sequence-schedule key ops (forget k s) m)
sequence-schedule key (cancelled k id ∷ ops) s m le bound =
    let (of_key, counter) = sequence-cancel k key id s in
    Same-step key _ (publications ops) s (cancel k id s) _
      (record { of_key = of_key; counter = counter }) le bound
      (sequence-schedule key ops (cancel k id s) m)
sequence-schedule key (received k id ∷ ops) s m le bound =
    Same-step key _ (publications ops) s (receive k id s) _
      (record { of_key = unfold receive sequence_of in refl; counter = unfold receive in refl }) le
      bound (sequence-schedule key ops (receive k id s) m)
sequence-schedule key (closed_all ∷ ops) s m le bound =
    Same-step key _ (publications ops) s (close s) _
      (record { of_key = unfold close sequence_of in refl; counter = unfold close in refl }) le
      bound (sequence-schedule key ops (close s) m)
sequence-schedule key (opened ∷ ops) s m le bound =
    Same-step key _ (publications ops) s (reopen s) _
      (record { of_key = unfold reopen sequence_of in refl; counter = unfold reopen in refl }) le
      bound (sequence-schedule key ops (reopen s) m)
sequence-schedule key (forgotten_except keys ∷ ops) s (kept, m) le bound =
    Same-step key _ (publications ops) s (forget_except keys s) _
      (record {
        of_key = sequence-forget_except keys key s kept;
        counter = unfold forget_except in refl;
      })
      le bound (sequence-schedule key ops (forget_except keys s) m)
