-- ===== src/LiveUpdates/Examples.antt =====
-- internal/liveupdates/liveupdates.go: a page that subscribes before a result is stored.
use go_uptime.LiveUpdates.Sequences.{Follows, publications, publishes, sequence-schedule}
use go_uptime.LiveUpdates.Delivery.{notified, notified-schedule}
use go_uptime.LiveUpdates.{
  State, initial_state, sequence_of, perform, schedule, Operation, published, subscribed, cancelled,
  closed_all,
}
use go_uptime.Common.{◌≡◌, refl, inr, true, some, none, List, [], ◌∷◌, arith, lookup, insert}

abbrev start : State
start = schedule (subscribed "erp_site" ∷ []) initial_state

abbrev calls : List Operation
calls =
    published "erp_other"
    ∷ subscribed "erp_site"
    ∷ cancelled "erp_site" 1
    ∷ published "erp_site"
    ∷ []

closed_test : notified "erp_site" 0 (schedule (closed_all ∷ []) start) ≡ none
unfolding schedule perform notified lookup insert
closed_test = refl

sequence-schedule_example :
    Follows true (sequence_of "erp_site" start) (sequence_of "erp_site" (schedule calls start))
unfolding publishes publications schedule perform lookup insert
sequence-schedule_example =
    sequence-schedule "erp_site" calls start tt (unfold sequence_of in omega arith) (omega arith)

notified-schedule_example : notified "erp_site" 0 (schedule calls start) ≡ some true
unfolding publishes schedule perform notified lookup insert
notified-schedule_example =
    notified-schedule "erp_site" 0 calls start refl (omega arith) (inr (omega arith), tt)
