-- ===== src/Memory/History.antt =====
-- internal/storage/store/memory/util.go: the results and the events of an endpoint, each cut to a
-- maximum, and the events as the changes of health.
pub mod Kept
pub mod Health
use go_uptime.Memory.Uptime.{process_uptime_after_result}
use go_uptime.Result.{
  Result, Event, EventType, start, healthy, unhealthy, Status, new_event_from_result,
}
use go_uptime.Clock.{Time}
use go_uptime.Common.{
  ℕ, ◌-◌, Bool, true, false, Option, none, some, List, [], ◌∷◌, ◌++◌, ltb, length, drop,
  if◌then◌else◌,
}
use mathlib.Core.List.{reverse}

abbrev pub is_health : EventType → Bool
is_health start = false
is_health healthy = true
is_health unhealthy = true

abbrev pub same_type : EventType → EventType → Bool
same_type start start = true
same_type healthy healthy = true
same_type unhealthy unhealthy = true
same_type a b = false

-- The loop of `lastHealthEventType` runs from the last event to the first.
unfoldable pub first_health_event_type : List Event → Option EventType
first_health_event_type [] = none
first_health_event_type (e ∷ events) =
    if is_health e.type then some e.type else first_health_event_type events

unfoldable pub last_health_event_type : List Event → Option EventType
unfolding first_health_event_type
last_health_event_type events = first_health_event_type (reverse events)

-- `list[len(list)-maximum:]`, where the list is longer than the maximum.
unfoldable pub keep_last {ℓ} : {A : Type ℓ} → ℕ → List A → List A
keep_last maximum xs = if ltb maximum (length xs) then drop (length xs - maximum) xs else xs

unfoldable pub is_new_event : Option EventType → EventType → Bool
is_new_event none t = true
is_new_event (some last) t = if same_type last t then false else true

unfoldable pub add_event : ℕ → Result → List Event → List Event
unfolding is_new_event
add_event maximum result events =
    let event = new_event_from_result result in
    if result.pending
    then events
    else if is_new_event (last_health_event_type events) event.type
    then keep_last maximum (events ++ event ∷ [])
    else events

-- `AddResult` at the time `now`, on a status that is not nil.
unfoldable pub add_result : Time → ℕ → ℕ → Result → Status → Status
unfolding add_event
add_result now maximum_results maximum_events result status = record status {
  events = add_event maximum_events result status.events;
  results = keep_last maximum_results (status.results ++ result ∷ []);
  uptime = process_uptime_after_result now result status.uptime;
}
