-- ===== src/LiveUpdates.antt =====
-- internal/liveupdates/liveupdates.go: the notifications of new results. Every function holds the
-- mutex, so a schedule of calls is a list of operations, one after the other.
pub mod Sequences
pub mod Delivery
mod Examples
use go_uptime.Common.{
  ℕ, suc, ◌+◌, ◌%◌, ◌^◌, String, Bool, true, false, Option, none, some, List, [], ◌∷◌, map, ◌==◌,
  if◌then◌else◌, contains, lookup, insert, modify, delete, keep, string_eq,
}

-- A subscription; `notified` is whether its channel, of capacity 1, holds a notification. The
-- identity stands for the pointer.
pub record Subscription : Type 0 where
  pub id : ℕ
  pub notified : Bool

-- The variables of the package, and the number of subscriptions made so far.
pub record State : Type 0 where
  pub closed : Bool
  pub sequence : ℕ  -- uint64
  pub sequences : List (String × ℕ)
  pub subscribers : List (String × List Subscription)
  pub next_id : ℕ

abbrev pub initial_state : State
initial_state = record {
  closed = false;
  sequence = 0;
  sequences = [];
  subscribers = [];
  next_id = 0;
}

-- The entry of a map of sets: nil where there is none.
abbrev pub or_nil : Option (List Subscription) → List Subscription
or_nil none = []
or_nil (some subscriptions) = subscriptions

abbrev pub or_zero : Option ℕ → ℕ
or_zero none = 0
or_zero (some n) = n

unfoldable pub subscribers_of : String → State → List Subscription
subscribers_of key s = or_nil (lookup key s.subscribers)

-- A send that does not block: a channel that is full stays as it is.
abbrev pub notify : Subscription → Subscription
notify subscription = record subscription { notified = true }

unfoldable pub publish : String → State → State
publish key s =
    let sequence = (s.sequence + 1) % 2 ^ 64 in
    record s {
      sequence = sequence;
      sequences = insert key sequence s.sequences;
      subscribers = modify key (map notify) s.subscribers;
    }

-- `Sequence`
unfoldable pub sequence_of : String → State → ℕ
sequence_of key s = or_zero (lookup key s.sequences)

-- `Subscribe`: the new state with the identity of the subscription and the sequence of the
-- endpoint; `none` is ErrClosed.
unfoldable pub subscribe : String → State → Option (State × ℕ × ℕ)
unfolding sequence_of
subscribe key s =
    let subscription : Subscription = record { id = s.next_id; notified = false } in
    if s.closed
    then none
    else some (
      record s {
        subscribers = insert key (subscription ∷ or_nil (lookup key s.subscribers)) s.subscribers;
        next_id = suc s.next_id;
      },
      s.next_id,
      sequence_of key s,
    )

unfoldable pub remove : ℕ → List Subscription → List Subscription
remove id [] = []
remove id (x ∷ xs) = if x.id == id then remove id xs else x ∷ remove id xs

unfoldable pub has : ℕ → List Subscription → Bool
has id [] = false
has id (x ∷ xs) = if x.id == id then true else has id xs

abbrev is_empty : List Subscription → Bool
is_empty [] = true
is_empty (x ∷ xs) = false

-- The function that `Subscribe` returns.
unfoldable pub cancel : String → ℕ → State → State
unfolding remove has
cancel key id s =
    let here = or_nil (lookup key s.subscribers) in
    let rest = remove id here in
    if has id here
    then record s {
      subscribers =
          if is_empty rest then delete key s.subscribers else insert key rest s.subscribers;
    }
    else s

-- `Close`: every channel that the map holds is closed, and the map is emptied.
unfoldable pub close : State → State
close s = record s { closed = true; subscribers = [] }

unfoldable pub reopen : State → State
reopen s = record s { closed = false }

unfoldable pub forget : String → State → State
forget key s = record s { sequences = delete key s.sequences }

unfoldable pub forget_except : List String → State → State
unfolding contains
forget_except keys s = record s { sequences = keep (λ key. contains keys key) s.sequences }

-- A page that reads the notification of its channel.
unfoldable pub take_notice : ℕ → List Subscription → List Subscription
take_notice id [] = []
take_notice id (x ∷ xs) =
    (if x.id == id then record x { notified = false } else x) ∷ take_notice id xs

unfoldable pub receive : String → ℕ → State → State
unfolding take_notice
receive key id s = record s { subscribers = modify key (take_notice id) s.subscribers }

pub data Operation : Type 0 where
  published subscribed forgotten : String → Operation
  cancelled received : String → ℕ → Operation
  closed_all opened : Operation
  forgotten_except : List String → Operation

abbrev pub state_of : State → Option (State × ℕ × ℕ) → State
state_of s none = s
state_of s (some (t, id, sequence)) = t

unfoldable pub perform : Operation → State → State
unfolding publish subscribe cancel close reopen forget forget_except receive
perform (published key) s = publish key s
perform (subscribed key) s = state_of s (subscribe key s)
perform (forgotten key) s = forget key s
perform (cancelled key id) s = cancel key id s
perform (received key id) s = receive key id s
perform closed_all s = close s
perform opened s = reopen s
perform (forgotten_except keys) s = forget_except keys s

-- A schedule, the first operation first.
unfoldable pub schedule : List Operation → State → State
schedule [] s = s
schedule (op ∷ ops) s = schedule ops (perform op s)
