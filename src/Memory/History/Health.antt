-- ===== src/Memory/History/Health.antt =====
-- internal/storage/store/memory/util.go: the events of an endpoint are its changes of health.
use mathlib.Core.List.{reverse, reverse-cons}
use go_uptime.Memory.History.Kept.{
  Received, status_after, keep_last-eq-drop, length-keep_last, drop-append,
}
use go_uptime.Memory.History.{
  is_health, same_type, first_health_event_type, last_health_event_type, keep_last, is_new_event,
  add_event, add_result,
}
use go_uptime.Result.{Result, Event, EventType, start, Status, new_event_from_result}
use go_uptime.Clock.{Time}
use go_uptime.Common.{
  ℕ, zero, suc, ◌-◌, ◌≤◌, ◌≡◌, ◌≢◌, refl, true, false, Option, none, some, List, [], ◌∷◌, ◌++◌,
  arith, length, length-append, drop, inl, inr, Bool-cases, if◌then◌else◌,
}

first_health-append :
    (xs : List Event) (e : Event)
    → first_health_event_type (xs ++ e ∷ []) ≡ elim (first_health_event_type xs) [
      | none ↦ if is_health e.type then some e.type else none
      | some t ↦ some t
    ]
unfolding first_health_event_type
first_health-append [] e = ground arith
first_health-append (x ∷ xs) e = ground (arith, first_health-append xs e)

last_health-cons :
    (e : Event) (xs : List Event)
    → last_health_event_type (e ∷ xs) ≡ elim (last_health_event_type xs) [
      | none ↦ if is_health e.type then some e.type else none
      | some t ↦ some t
    ]
unfolding last_health_event_type
last_health-cons e xs = rw reverse-cons (first_health-append (reverse xs) e)

last_health-nil : last_health_event_type [] ≡ none
unfolding last_health_event_type
last_health-nil = refl

last_health-snoc :
    (xs : List Event) (e : Event)
    → is_health e.type ≡ true
    → last_health_event_type (xs ++ e ∷ []) ≡ some e.type
last_health-snoc [] e h = rw (last_health-cons, last_health-nil, h)
last_health-snoc (x ∷ xs) e h = rw (last_health-cons, last_health-snoc xs e h)

-- The types are those of a life: no two events in a row are of one type, and only the first event
-- can be the start. The argument is the type of the event before.
abbrev pub Alternating : Option EventType → List Event → Type 0
Alternating before [] = Unit
Alternating before (e ∷ events) =
    (before ≢ some e.type) × (before ≢ none → e.type ≢ start) × Alternating (some e.type) events

abbrev last_type : Option EventType → List Event → Option EventType
last_type before [] = before
last_type before (e ∷ events) = last_type (some e.type) events

last_health-of_last_type :
    (e : Event) (xs : List Event) (t : EventType)
    → is_health t ≡ true
    → last_type (some e.type) xs ≡ some t
    → last_health_event_type (e ∷ xs) ≡ some t
last_health-of_last_type e [] t h l = rw (last_health-cons, last_health-nil) (ground arith)
last_health-of_last_type e (x ∷ xs) t h l =
    rw (last_health-cons e (x ∷ xs), last_health-of_last_type x xs t h l)

Alternating-none :
    (before : Option EventType) (xs : List Event) → Alternating before xs → Alternating none xs
Alternating-none before [] a = tt
Alternating-none before (x ∷ xs) (p, q, a) = (λ h. cc, λ h. absurd (h refl), a)

Alternating-drop : (n : ℕ) (xs : List Event) → Alternating none xs → Alternating none (drop n xs)
Alternating-drop zero xs a = a
Alternating-drop (suc n) [] a = tt
Alternating-drop (suc n) (x ∷ xs) (p, q, a) =
    Alternating-drop n xs (Alternating-none (some x.type) xs a)

health-ne-start : (t : EventType) → is_health t ≡ true → t ≢ start
health-ne-start t h s = ground arith

same_type_refl : (t : EventType) → same_type t t ≡ true
same_type_refl t = ground arith

Alternating-snoc :
    (before : Option EventType) (xs : List Event) (e : Event)
    → Alternating before xs
    → is_health e.type ≡ true
    → last_type before xs ≢ some e.type
    → Alternating before (xs ++ e ∷ [])
Alternating-snoc before [] e a h l = (l, λ _ s. health-ne-start e.type h s, tt)
Alternating-snoc before (x ∷ xs) e (p, q, a) h l = (p, q, Alternating-snoc (some x.type) xs e a h l)

keep_last-Alternating :
    (m : ℕ) (xs : List Event) → Alternating none xs → Alternating none (keep_last m xs)
keep_last-Alternating m xs a = rw keep_last-eq-drop (Alternating-drop (length xs - m) xs a)

new_event-is_health : (r : Result) → is_health (new_event_from_result r).type ≡ true
unfolding new_event_from_result
new_event-is_health r = ground arith

last_type-new :
    (xs : List Event) (t : EventType)
    → is_health t ≡ true
    → is_new_event (last_health_event_type xs) t ≡ true
    → last_type none xs ≢ some t
unfolding is_new_event
last_type-new [] t h n l = cc
last_type-new (x ∷ xs) t h n l =
    let seen = last_health-of_last_type x xs t h l in ground (arith, same_type_refl t)

add_event-Alternating :
    (m : ℕ) (r : Result) (xs : List Event)
    → Alternating none xs
    → Alternating none (add_event m r xs)
unfolding add_event
add_event-Alternating m r xs a =
    let e = new_event_from_result r in
    let h = new_event-is_health r in
    elim (Bool-cases r.pending) [
      | inl p ↦ simp p a
      | inr q ↦ elim (Bool-cases (is_new_event (last_health_event_type xs) e.type)) [
        | inl new ↦
            simp (q, new)
              (keep_last-Alternating m (xs ++ e ∷ [])
                (Alternating-snoc none xs e a h (last_type-new xs e.type h new)))
        | inr old ↦ simp (q, old) a
      ]
    ]

last_health-keep_last :
    (m : ℕ) (xs : List Event) (e : Event)
    → is_health e.type ≡ true
    → last_health_event_type (keep_last (suc m) (xs ++ e ∷ [])) ≡ some e.type
last_health-keep_last m xs e h =
    let extra = length (xs ++ e ∷ []) - suc m in
    let fits : extra ≤ length xs = omega (arith, length-append xs (e ∷ [])) in
    rw (keep_last-eq-drop, drop-append extra xs (e ∷ []) fits)
      (last_health-snoc (drop extra xs) e h)

-- The event type that the newest result that is not pending stands for.
unfoldable pub newest_health : List Received → Option EventType
newest_health [] = none
newest_health ((now, r) ∷ earlier) =
    if r.pending then newest_health earlier else some (new_event_from_result r).type

known_event :
    (last : Option EventType) (t : EventType) → is_new_event last t ≡ false → last ≡ some t
unfolding is_new_event
known_event last t h = ground arith

add_event-last_health :
    (m : ℕ) (r : Result) (xs : List Event)
    → last_health_event_type (add_event (suc m) r xs)
      ≡ (if r.pending then last_health_event_type xs else some (new_event_from_result r).type)
unfolding add_event
add_event-last_health m r xs =
    let e = new_event_from_result r in
    elim (Bool-cases r.pending) [
      | inl p ↦ simp p
      | inr q ↦ elim (Bool-cases (is_new_event (last_health_event_type xs) e.type)) [
        | inl new ↦ simp (q, new) (last_health-keep_last m xs e (new_event-is_health r))
        | inr old ↦ simp (q, old) (known_event _ e.type old)
      ]
    ]

length-add_event :
    (m : ℕ) (r : Result) (xs : List Event) → length xs ≤ m → length (add_event m r xs) ≤ m
unfolding add_event
length-add_event m r xs h = ground (arith, length-keep_last m (xs ++ new_event_from_result r ∷ []))

-- Whatever results an endpoint receives, pending ones among them, from a status whose only event is
-- its start: its events never exceed their maximum, no two in a row are of one type, the start can
-- only be the first, and the last change of health among them is the health of the newest result
-- that is not pending (none if there is no such result).
pub events-status_after :
    (maximum_results m : ℕ) (rs : List Received) (status : Status) (since : Time)
    → status.events ≡ record { type = start; timestamp = since } ∷ []
    → let events = (status_after maximum_results (suc m) rs status).events in
      (length events ≤ suc m)
      × Alternating none events
      × (last_health_event_type events ≡ newest_health rs)
unfolding status_after add_result newest_health
events-status_after n m [] status since h =
    rw h (omega arith, (λ e. cc, λ e. absurd (e refl), tt), rw (last_health-cons, last_health-nil))
events-status_after n m ((now, r) ∷ rs) status since h =
    let (short, alternating, last) = events-status_after n m rs status since h in
    let events = (status_after n (suc m) rs status).events in
    (
      length-add_event (suc m) r events short,
      add_event-Alternating (suc m) r events alternating,
      rw (add_event-last_health, last) refl,
    )
