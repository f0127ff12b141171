-- ===== src/Memory/Examples.antt =====
-- internal/storage/store/memory: runs of the operations on the data of an endpoint.
use Prim.Native.Nat.{min}
use go_uptime.Memory.Paging.{page_of}
use go_uptime.Memory.Paging.Pages.{pages, pages-cover}
use go_uptime.Memory.History.{last_health_event_type}
use go_uptime.Memory.History.Kept.{Received, status_after, received, results-status_after}
use go_uptime.Memory.History.Health.{Alternating, newest_health, events-status_after}
use go_uptime.Memory.Uptime.{uint64, statistics_at, no_totals, get_uptime}
use go_uptime.Memory.Uptime.Hours.{
  hour_of, uptime_after, executions_in, successes_in, response_time_in, statistics-uptime_after,
}
use go_uptime.Memory.Uptime.Range.{add_hours, get_uptime_lem}
use go_uptime.Memory.Buckets.{
  BucketStore, BucketKey, bucket_key, response_time_bucket_timestamp, is_outdated,
}
use go_uptime.Memory.Buckets.Counts.{
  counts_of, bucket_at, counts_in, buckets_after, counts-buckets_after,
}
use go_uptime.Memory.Store.{Store}
use go_uptime.Memory.Store.Lists.{Statuses, list_cache, list_cache-Lawful}
use go_uptime.Memory.Store.Tracks.{Operation, inserted, kept_only, run, track_all, get-run}
use go_uptime.Memory.Sessions.{LoginSession, Sessions}
use go_uptime.Common.{◌++◌, inr, lookup, string_eq}
use go_uptime.Result.{Result, start, HourlyUptimeStatistics, HourlyStatistics, Status, new_status}
use go_uptime.Clock.{hour, minute, truncate_hour, unix}
use go_uptime.Common.{
  ℕ, suc, ◌+◌, ◌-◌, ◌*◌, ◌/◌, ◌≤◌, ◌≡◌, refl, inl, true, false, none, some, List, [], ◌∷◌, arith,
  length,
}
use go_uptime.Common.Int.{pos}

abbrev up : Result
up = record {
  duration = pos 25000000;
  errors = [];
  message = [];
  origin = "";
  pending = false;
  success = true;
  timestamp = 40 * hour;
}

abbrev down : Result
down = record up { success = false; timestamp = 40 * hour + minute }

abbrev checks : List Received
checks = (41 * hour, down) ∷ (41 * hour, up) ∷ (41 * hour, up) ∷ []

abbrev empty : Status
empty = new_status "erp_site" "erp" "site"

abbrev started : Status
started = record empty { events = record { type = start; timestamp = 0 } ∷ [] }

abbrev five : List ℕ
five = 1 ∷ 2 ∷ 3 ∷ 4 ∷ 5 ∷ []

abbrev one_hour : HourlyUptimeStatistics
one_hour = record {
  total_executions = 3;
  successful_executions = 2;
  total_executions_response_time = 75;
}

abbrev hours : HourlyStatistics
hours = (unix (truncate_hour (40 * hour)), one_hour) ∷ []

second_page_test : page_of five (pos 2) (pos 2) ≡ some (2 ∷ 3 ∷ [])
unfolding page_of
second_page_test = refl

pages-cover_example : pages 3 2 five ≡ some five
pages-cover_example = pages-cover 3 2 five (omega arith) (omega arith) (omega arith)

results-status_after_example :
    (older : List Result) × (received checks ≡ older ++ (status_after 2 50 checks empty).results)
    × (length (status_after 2 50 checks empty).results ≡ min 2 (length (received checks)))
results-status_after_example = results-status_after 2 50 checks empty (unfold new_status in refl)

events-status_after_example :
    let events = (status_after 100 (suc 1) checks started).events in
    (length events ≤ suc 1)
    × Alternating none events
    × (last_health_event_type events ≡ newest_health checks)
events-status_after_example = events-status_after 100 1 checks started 0 refl

statistics-uptime_after_example :
    let stats = statistics_at (hour_of up) (uptime_after checks []) in
    (stats.total_executions ≡ uint64 (executions_in (hour_of up) checks))
    × (stats.successful_executions ≡ uint64 (successes_in (hour_of up) checks))
    × (stats.total_executions_response_time ≡ uint64 (response_time_in (hour_of up) checks))
unfolding unix truncate_hour
statistics-uptime_after_example =
    statistics-uptime_after (hour_of up) checks (refl, (refl, (refl, tt)))

get_uptime_lem_example :
    get_uptime (some hours) (39 * hour) (41 * hour)
    ≡ some (inl (add_hours (suc ((41 * hour - 39 * hour) / hour)) hours (39 * hour) no_totals))
get_uptime_lem_example = get_uptime_lem hours (39 * hour) (41 * hour) (omega arith)

abbrev buckets : BucketStore
buckets = record { buckets = []; clean_ups = [] }

abbrev at_forty : BucketKey
at_forty = bucket_key up 3600

counts-buckets_after_example :
    counts_of (bucket_at "erp_site" at_forty (buckets_after "erp_site" checks buckets))
    ≡ counts_in at_forty checks
unfolding bucket_at response_time_bucket_timestamp is_outdated unix lookup
counts-buckets_after_example =
    counts-buckets_after "erp_site" at_forty checks buckets (inr refl) (refl, (refl, (refl, tt)))
      refl

abbrev session : LoginSession
session = record {
  token_hash = "a1";
  username = "admin";
  credential_fingerprint = "f0";
  created_at = 0;
  expires_at = hour;
}

abbrev sessions : Sessions
sessions =
    ("a1", session) ∷ ("b2", record session { token_hash = "b2"; expires_at = 9 * hour }) ∷ []

abbrev store : Store Statuses
store = record {
  endpoint_cache = [];
  maximum_number_of_results = 2;
  maximum_number_of_events = 2;
  response_time_buckets = record { buckets = []; clean_ups = [] };
}

abbrev operations : List Operation
operations =
    inserted (41 * hour) "erp_site" "erp" "site" up
    ∷ inserted (41 * hour) "erp_db" "erp" "db" down
    ∷ kept_only ("erp_site" ∷ [])
    ∷ []

get-run_example :
    lookup "erp_site" (run list_cache operations store).endpoint_cache
    ≡ track_all 2 2 "erp_site" operations none
unfolding lookup
get-run_example = get-run list_cache list_cache-Lawful operations "erp_site" store
