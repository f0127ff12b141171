-- ===== src/Memory/Uptime.antt =====
-- internal/storage/store/memory/uptime.go and the uptime queries of memory.go: the results of an
-- endpoint counted by hour. Counters are uint64, and wrap.
pub mod Hours
pub mod Range
use go_uptime.Result.{Result, HourlyUptimeStatistics, HourlyStatistics}
use go_uptime.Clock.{Time, Duration, hour, millisecond, truncate_hour, unix}
use go_uptime.Common.{
  ℕ, zero, suc, ◌+◌, ◌-◌, ◌*◌, ◌/◌, ◌%◌, ◌^◌, not, Option, none, some, ltb, ◌==◌, length, ◌⊎◌, inl,
  inr, Eq, lookup, insert, keep, if◌then◌else◌,
}
use mathlib.Core.Option.{map}
use go_uptime.Common.Int.{ℤ, pos, negsuc, ltb_ℤ, eq_ℤ, eq_ℤ_iff}

instance abbrev pub int_eq : Eq ℤ
int_eq = record { beq = eq_ℤ; beq_iff = eq_ℤ_iff }

abbrev pub uint64 : ℕ → ℕ
uint64 n = n % 2 ^ 64

-- `uint64(d.Milliseconds())`, which rounds towards zero and wraps a negative number.
unfoldable pub milliseconds_uint64 : Duration → ℕ
milliseconds_uint64 (pos n) = uint64 (n / millisecond)
milliseconds_uint64 (negsuc n) = uint64 (2 ^ 64 - (n + 1) / millisecond)

abbrev pub uptime_clean_up_threshold : ℕ
uptime_clean_up_threshold = 768

-- 30 days
abbrev pub uptime_retention : ℕ
uptime_retention = 720 * hour

abbrev pub no_statistics : HourlyUptimeStatistics
no_statistics = record {
  total_executions = 0;
  successful_executions = 0;
  total_executions_response_time = 0;
}

unfoldable pub count_result : Result → HourlyUptimeStatistics → HourlyUptimeStatistics
unfolding milliseconds_uint64
count_result result stats = record {
  total_executions = uint64 (stats.total_executions + 1);
  successful_executions =
      if result.success
      then uint64 (stats.successful_executions + 1)
      else stats.successful_executions;
  total_executions_response_time =
      uint64 (stats.total_executions_response_time + milliseconds_uint64 result.duration);
}

-- An hour that the map lacks counts nothing.
abbrev pub or_none : Option HourlyUptimeStatistics → HourlyUptimeStatistics
or_none none = no_statistics
or_none (some stats) = stats

abbrev pub statistics_at : ℤ → HourlyStatistics → HourlyUptimeStatistics
statistics_at hour_key uptime = or_none (lookup hour_key uptime)

-- Deletes what is older than the retention and an hour, once there are more hours than needed. The
-- clock is past the first month of the year 1, so the subtraction does not stop at the zero time.
unfoldable pub clean_up : Time → HourlyStatistics → HourlyStatistics
clean_up now uptime =
    let threshold = unix (now - (uptime_retention + hour)) in
    if ltb uptime_clean_up_threshold (length uptime)
    then keep (λ hour_key. not (ltb_ℤ hour_key threshold)) uptime
    else uptime

unfoldable pub process_uptime_after_result : Time → Result → HourlyStatistics → HourlyStatistics
unfolding clean_up count_result
process_uptime_after_result now result uptime =
    let hour_key = unix (truncate_hour result.timestamp) in
    clean_up now (insert hour_key (count_result result (statistics_at hour_key uptime)) uptime)

-- The sums that the queries make over the hours of a range.
pub record Totals : Type 0 where
  pub successful : ℕ
  pub executions : ℕ
  pub response_time : ℕ

abbrev pub no_totals : Totals
no_totals = record { successful = 0; executions = 0; response_time = 0 }

-- The loop `for to.Sub(current) >= 0`, with a bound on the tests of its condition: `none` is a loop
-- that has not ended within them. An hour without an execution adds nothing.
unfoldable pub sum_hours : ℕ → HourlyStatistics → Time → Time → Totals → Option Totals
sum_hours zero uptime current to acc = none
sum_hours (suc fuel) uptime current to acc =
    let stats = statistics_at (unix (truncate_hour current)) uptime in
    let next : Totals = record {
      successful = uint64 (acc.successful + stats.successful_executions);
      executions = uint64 (acc.executions + stats.total_executions);
      response_time = uint64 (acc.response_time + stats.total_executions_response_time);
    } in
    let rest =
      sum_hours fuel uptime (current + hour) to
        (if stats.total_executions == 0 then acc else next) in
    if ltb to current then some acc else rest

pub data StoreError : Type 0 where
  invalid_time_range endpoint_not_found : StoreError

-- The tests of the loop's condition: one for each hour of the range, both ends included, and the one
-- that ends it.
abbrev pub rounds : Time → Time → ℕ
rounds from to = suc (suc ((to - from) / hour))

-- `GetUptimeByKey`: the quotient of the two numbers, or 0 where there is no execution, as the pair
-- of the numbers. An `uptime` of `none` is an endpoint that the storage does not know; a result of
-- `none` is a loop that has not ended within the bound.
unfoldable pub get_uptime : Option HourlyStatistics → Time → Time → Option (Totals ⊎ StoreError)
get_uptime uptime from to = if ltb to from then some (inr invalid_time_range) else (elim uptime [
  | none ↦ some (inr endpoint_not_found)
  | some hours ↦ map inl (sum_hours (rounds from to) hours from to no_totals)
])
