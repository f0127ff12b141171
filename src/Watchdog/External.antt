-- ===== src/Watchdog/External.antt =====
-- internal/watchdog/push.go and external_endpoint.go: the processing of the results of an external
-- endpoint.
use go_uptime.Clock.{Time, time_sub}
use go_uptime.Result.{Result}
use go_uptime.Watchdog.{
  ExternalEndpoint, Pushes, or_zero, last_push, load_or_store, apply_retries, Context, stored,
  announced, process_external_endpoint_result, execute_external_endpoint_heartbeat,
}
use go_uptime.Common.{
  ℕ, suc, ◌≡◌, refl, ap, ◌∙◌, inl, inr, Bool, true, false, ◌||◌, Bytes, String, none, some, List,
  [], ◌∷◌, arith, lookup, insert, lookup-insert, beq_refl, string_eq, Bool-cases,
}
use go_uptime.Common.Int.{pos, leb_ℤ, ltb_ℤ}

-- Where the storage takes it, a result that is stored as pending, or during a maintenance, is stored
-- and announced, in that order, and does nothing else to the endpoint: its alerts and counters
-- stay, and no alert is handled.
pub process_quiet :
    (c : Context) (pushed : Bool) (ee : ExternalEndpoint) (r : Result) (p : Pushes)
    → c.storage_fails ≡ false
    → (c.under_maintenance || (apply_retries ee r c.under_maintenance p.retries_used).0.pending)
      ≡ true
    → let done = process_external_endpoint_result c pushed ee r p in
      (done.endpoint ≡ ee)
      × (done.actions
          ≡ stored (apply_retries ee r c.under_maintenance p.retries_used).0
            ∷ announced ee.key
            ∷ [])
unfolding process_external_endpoint_result
process_quiet c pushed ee r p sf h = (simp (sf, h), simp (sf, h))

lookup-insert_self {ℓ} :
    {V : Type ℓ} (key : String) (v : V) (m : List (String × V))
    → lookup key (insert key v m) ≡ some v
lookup-insert_self key v m = lookup-insert key key v m ∙ rw (beq_refl key)

retry_counted :
    (ee : ExternalEndpoint) (r : Result) (m : List (String × ℕ)) (under : Bool) (used : ℕ)
    → under ≡ false
    → r.pending ≡ false
    → r.success ≡ false
    → or_zero (lookup ee.key m) ≡ used
    → leb_ℤ ee.heartbeat_retries (pos used) ≡ false
    → (apply_retries ee r under m).1 ≡ insert ee.key (suc used) m
unfolding apply_retries
retry_counted ee r m under used um np ns hu left = ground arith

-- Where the storage fails, a failure outside of maintenance that has retries left uses one of them
-- all the same: the error is returned, nothing else is done, and the retries of the key have grown.
pub failed_storage_uses_retry :
    (c : Context) (pushed : Bool) (ee : ExternalEndpoint) (r : Result) (p : Pushes) (used : ℕ)
    → c.storage_fails ≡ true
    → c.under_maintenance ≡ false
    → r.pending ≡ false
    → r.success ≡ false
    → or_zero (lookup ee.key p.retries_used) ≡ used
    → leb_ℤ ee.heartbeat_retries (pos used) ≡ false
    → let done = process_external_endpoint_result c pushed ee r p in
      (done.failed ≡ true)
      × (done.actions ≡ [])
      × (lookup ee.key done.pushes.retries_used ≡ some (suc used))
unfolding process_external_endpoint_result
failed_storage_uses_retry c pushed ee r p used sf um np ns hu left =
    let counted = retry_counted ee r p.retries_used c.under_maintenance used um np ns hu left in
    (simp sf, simp sf, simp (sf, counted) (lookup-insert_self ee.key (suc used) p.retries_used))

last_pushes-process :
    (c : Context) (ee : ExternalEndpoint) (r : Result) (p : Pushes)
    → c.storage_fails ≡ false
    → (process_external_endpoint_result c true ee r p).pushes.last_pushes
      ≡ insert ee.key c.now p.last_pushes
unfolding process_external_endpoint_result
last_pushes-process c ee r p sf =
    let quiet =
      c.under_maintenance || (apply_retries ee r c.under_maintenance p.retries_used).0.pending in
    elim (Bool-cases quiet) [ inl h ↦ simp (sf, h) | inr h ↦ simp (sf, h) ]

last_push-known :
    (now t : Time) (key : String) (p : Pushes)
    → lookup key p.last_pushes ≡ some t
    → last_push now key p ≡ (t, p)
unfolding last_push
last_push-known now t key p h = ap (λ o. load_or_store o now key p) h

execute-early :
    (c : Context) (may_run cancelled : Bool) (text : Bytes) (last : Time) (ee : ExternalEndpoint)
    (p : Pushes)
    → ltb_ℤ (time_sub c.now last) ee.heartbeat_interval ≡ true
    → execute_external_endpoint_heartbeat c may_run cancelled text last ee p ≡ none
unfolding execute_external_endpoint_heartbeat
execute-early c true cancelled text last ee p early = rw early
execute-early c false cancelled text last ee p early = refl

-- A push that the storage takes restarts the interval: until a full interval has passed, no
-- heartbeat records anything.
pub push-restarts_interval :
    (c c' : Context) (ee : ExternalEndpoint) (r : Result) (p : Pushes) (may_run cancelled : Bool)
    (text : Bytes)
    → c.storage_fails ≡ false
    → ltb_ℤ (time_sub c'.now c.now) ee.heartbeat_interval ≡ true
    → let after = (process_external_endpoint_result c true ee r p).pushes in
      let (last, kept) = last_push c'.now ee.key after in
      execute_external_endpoint_heartbeat c' may_run cancelled text last ee kept ≡ none
push-restarts_interval c c' ee r p may_run cancelled text sf early =
    let after = (process_external_endpoint_result c true ee r p).pushes in
    let found : lookup ee.key after.last_pushes ≡ some c.now =
      ap (lookup ee.key) (last_pushes-process c ee r p sf)
      ∙ lookup-insert_self ee.key c.now p.last_pushes in
    rw (last_push-known c'.now c.now ee.key after found)
      (execute-early c' may_run cancelled text c.now ee after early)
