-- ===== src/Memory/Store.antt =====
-- internal/storage/store/memory/memory.go and endpoint_uptime_batch.go: the endpoints of the memory
-- storage, over the cache of third_party/github.com/TwiN/gocache, which is a parameter. The cache of
-- the suites is left out.
pub mod Tracks
pub mod Lists
use go_uptime.Memory.History.{add_result, keep_last}
use go_uptime.Memory.Paging.{EndpointStatusParams, shallow_copy_endpoint_status}
use go_uptime.Memory.Uptime.{StoreError, endpoint_not_found, Totals, no_totals, uint64, get_uptime}
use go_uptime.Memory.Buckets.{BucketStore, add_response_time_buckets, forget_response_time_buckets}
use go_uptime.Result.{Result, Event, start, Status, new_status, HourlyStatistics}
use go_uptime.Clock.{Time, hour, truncate_hour, unix}
use go_uptime.Common.{
  ℕ, ◌+◌, ◌-◌, ◌*◌, ◌/◌, ◌≡◌, ◌≢◌, String, Bool, true, false, not, ◌&&◌, ◌||◌, ltb, ◌==◌, Option,
  none, some, List, [], ◌∷◌, ◌++◌, ◌⊎◌, inl, inr, if◌then◌else◌, string_eq, str_eq, contains,
}
use go_uptime.Common.Int.{ℤ, ltb_ℤ}
use mathlib.Core.Option.{map}

-- The calls of a cache without a limit: `GetValue` and `Get`, `Set`, `GetKeysByPattern("*", 0)`,
-- `DeleteAll` with the number of keys deleted, and `Clear`.
pub record Cache (C : Type 0) : Type 0 where
  pub get : String → C → Option Status
  pub set : String → Status → C → C
  pub keys : C → List String
  pub delete_all : List String → C → C × ℕ
  pub clear : C → C

-- What the storage relies on: a key holds what was set last, unless it was deleted.
pub record Lawful {C : Type 0} (cache : Cache C) : Type 0 where
  pub get-set :
      (key other : String) (status : Status) (c : C)
      → cache.get other (cache.set key status c)
        ≡ (if str_eq key other then some status else cache.get other c)
  pub get-delete_all :
      (keys : List String) (key : String) (c : C)
      → cache.get key (cache.delete_all keys c).0
        ≡ (if contains keys key then none else cache.get key c)
  pub get-clear : (key : String) (c : C) → cache.get key (cache.clear c) ≡ none
  pub contains-keys :
      (key : String) (c : C) → contains (cache.keys c) key ≡ false → cache.get key c ≡ none

-- `Store`, as far as it is about endpoints.
pub record Store (C : Type 0) : Type 0 where
  pub endpoint_cache : C
  pub maximum_number_of_results : ℕ
  pub maximum_number_of_events : ℕ
  pub response_time_buckets : BucketStore

-- The status of an endpoint without one: it begins with the event of its start.
abbrev pub or_new : Time → String → String → String → Option Status → Status
or_new now key group name (some status) = status
or_new now key group name none =
    let status = new_status key group name in
    record status { events = status.events ++ record { type = start; timestamp = now } ∷ [] }

-- The keys that exist and are not to be kept.
unfoldable pub missing : List String → List String → List String
missing keys [] = []
missing keys (k ∷ existing) =
    if contains keys k then missing keys existing else k ∷ missing keys existing

-- The loop over the results of `HasEndpointStatusNewerThan`.
unfoldable pub any_newer : Time → List Result → Bool
any_newer timestamp [] = false
any_newer timestamp (r ∷ results) = ltb timestamp r.timestamp || any_newer timestamp results

abbrev newer_of : Time → Option Status → Bool
newer_of timestamp none = false
newer_of timestamp (some status) = any_newer timestamp status.results

abbrev uptime_of : Status → HourlyStatistics
uptime_of status = status.uptime

abbrev copy_of : Option EndpointStatusParams → Option Status → StoreError ⊎ Option Status
copy_of params none = inl endpoint_not_found
copy_of params (some status) = inr (shallow_copy_endpoint_status status params)

-- The totals of the hours from the start of a period to an end.
unfoldable pub period_totals : ℤ → ℤ → HourlyStatistics → Totals → Totals
period_totals period_start end [] acc = acc
period_totals period_start end ((hour_key, stats) ∷ hours) acc =
    let next : Totals = record {
      successful = uint64 (acc.successful + stats.successful_executions);
      executions = uint64 (acc.executions + stats.total_executions);
      response_time = uint64 (acc.response_time + stats.total_executions_response_time);
    } in
    period_totals period_start end hours
      (if ltb_ℤ end hour_key || ltb_ℤ hour_key period_start then acc else next)

abbrev period : Time → ℕ → HourlyStatistics → Totals
period now days uptime =
    period_totals (unix (truncate_hour (now - days * (24 * hour)))) (unix now) uptime no_totals

pub record EndpointUptimes : Type 0 where
  pub last_24_hours : Totals
  pub last_7_days : Totals
  pub last_30_days : Totals

-- `uptimesOf`, with the totals that the ratios and averages are the quotients of.
unfoldable pub uptimes_of : Time → Status → Option EndpointUptimes
unfolding period_totals
uptimes_of now status =
    let month = period now 30 status.uptime in
    let uptimes : EndpointUptimes = record {
      last_24_hours = period now 1 status.uptime;
      last_7_days = period now 7 status.uptime;
      last_30_days = month;
    } in
    if month.executions == 0 then none else some uptimes

module _ {C : Type 0} (cache : Cache C) where
  -- `InsertEndpointResult` at the time `now` of the buckets and of the clean-up.
  unfoldable pub insert_endpoint_result :
      Time → String → String → String → Result → Store C → Store C
  unfolding add_result add_response_time_buckets
  insert_endpoint_result now key group name result s =
      let status = or_new now key group name (cache.get key s.endpoint_cache) in
      let added =
        add_result now s.maximum_number_of_results s.maximum_number_of_events result status in
      record s {
        endpoint_cache = cache.set key added s.endpoint_cache;
        response_time_buckets = add_response_time_buckets now key result s.response_time_buckets;
      }

  -- `DeleteAllEndpointStatusesNotInKeys`
  unfoldable pub delete_all_endpoint_statuses_not_in_keys : List String → Store C → Store C × ℕ
  unfolding missing forget_response_time_buckets
  delete_all_endpoint_statuses_not_in_keys keys s =
      let (rest, deleted) =
        cache.delete_all (missing keys (cache.keys s.endpoint_cache)) s.endpoint_cache in
      (
        record s {
          endpoint_cache = rest;
          response_time_buckets = forget_response_time_buckets keys s.response_time_buckets;
        },
        deleted,
      )

  -- `Clear`
  unfoldable pub clear : Store C → Store C
  clear s = record s {
    endpoint_cache = cache.clear s.endpoint_cache;
    response_time_buckets = record { buckets = []; clean_ups = [] };
  }

  -- `GetEndpointStatusByKey`; `none` on the right is the panic on a page out of range.
  unfoldable pub get_endpoint_status_by_key :
      String → Option EndpointStatusParams → Store C → StoreError ⊎ Option Status
  unfolding shallow_copy_endpoint_status
  get_endpoint_status_by_key key params s = copy_of params (cache.get key s.endpoint_cache)

  -- `GetUptimeByKey` and `GetAverageResponseTimeByKey`, which make quotients of the totals.
  unfoldable pub get_totals_by_key : String → Time → Time → Store C → Option (Totals ⊎ StoreError)
  unfolding get_uptime
  get_totals_by_key key from to s =
      get_uptime (map uptime_of (cache.get key s.endpoint_cache)) from to

  -- `HasEndpointStatusNewerThan`
  unfoldable pub has_endpoint_status_newer_than : String → Time → Store C → Bool
  unfolding any_newer
  has_endpoint_status_newer_than key timestamp s =
      newer_of timestamp (cache.get key s.endpoint_cache)
