-- ===== src/Memory/Uptime/Range.antt =====
-- internal/storage/store/memory/memory.go: the hours that `GetUptimeByKey` and
-- `GetAverageResponseTimeByKey` sum.
use go_uptime.Memory.Uptime.{
  uint64, no_statistics, statistics_at, Totals, no_totals, sum_hours, rounds, get_uptime, int_eq,
}
use go_uptime.Result.{HourlyUptimeStatistics, HourlyStatistics}
use go_uptime.Clock.{Time, hour, second, truncate_hour, unix}
use mathlib.Core.Option.{map}
use go_uptime.Common.{
  ℕ, zero, suc, ◌+◌, ◌-◌, ◌*◌, ◌/◌, ◌%◌, ◌≤◌, ◌<◌, ◌≡◌, ◌≢◌, refl, ap, ◌∙◌, true, false, some, [],
  ◌∷◌, arith, ltb, ◌==◌, if◌then◌else◌, inl, lookup,
}
use go_uptime.Common.Int.{ℤ, eq_ℤ_iff, pos_part, neg_part}

-- The sums with one more hour, the one that a time lies in.
unfoldable pub add_hour : HourlyStatistics → Time → Totals → Totals
add_hour uptime t acc =
    let stats = statistics_at (unix (truncate_hour t)) uptime in
    if stats.total_executions == 0 then acc else record {
      successful = uint64 (acc.successful + stats.successful_executions);
      executions = uint64 (acc.executions + stats.total_executions);
      response_time = uint64 (acc.response_time + stats.total_executions_response_time);
    }

-- The hours of `n` times, an hour apart.
unfoldable pub add_hours : ℕ → HourlyStatistics → Time → Totals → Totals
add_hours zero uptime t acc = acc
add_hours (suc n) uptime t acc = add_hours n uptime (t + hour) (add_hour uptime t acc)

sum_hours-past :
    (fuel : ℕ) (uptime : HourlyStatistics) (t to : Time) (acc : Totals)
    → to < t
    → sum_hours (suc fuel) uptime t to acc ≡ some acc
unfolding sum_hours
sum_hours-past fuel uptime t to acc h = let past : ltb to t ≡ true = ground arith in rw past

-- The loop ends by its own test, and adds the hours of `from`, `from + 1h`, and so on up to `to`,
-- each once and in that order: any bound that leaves a test after the last hour gives the same sums.
pub sum_hours-eq-add_hours :
    (n fuel : ℕ) (uptime : HourlyStatistics) (from to : Time) (acc : Totals)
    → from ≤ to
    → n ≡ (to - from) / hour
    → suc n < fuel
    → sum_hours fuel uptime from to acc ≡ some (add_hours (suc n) uptime from acc)
unfolding sum_hours add_hours add_hour
sum_hours-eq-add_hours n zero uptime from to acc le e h = absurd (omega arith)
sum_hours-eq-add_hours n (suc zero) uptime from to acc le e h = absurd (omega arith)
sum_hours-eq-add_hours zero (suc (suc fuel)) uptime from to acc le e h =
    let inside : ltb to from ≡ false = ground arith in
    rw inside (sum_hours-past fuel uptime (from + hour) to (add_hour uptime from acc) (omega arith))
sum_hours-eq-add_hours (suc n) (suc (suc fuel)) uptime from to acc le e h =
    let inside : ltb to from ≡ false = ground arith in
    rw inside (
      sum_hours-eq-add_hours n (suc fuel) uptime (from + hour) to (add_hour uptime from acc)
        (omega arith) (omega arith) (omega arith))

-- The uptime query of an endpoint that the storage knows, for a range that does not end before it
-- begins, ends by the test of its loop, within as many tests as the range has hours and one more,
-- with the sums over the hours of `from`, `from + 1h`, and so on up to `to`.
pub get_uptime_lem :
    (uptime : HourlyStatistics) (from to : Time)
    → from ≤ to
    → get_uptime (some uptime) from to
      ≡ some (inl (add_hours (suc ((to - from) / hour)) uptime from no_totals))
unfolding get_uptime
get_uptime_lem uptime from to le =
    let inside : ltb to from ≡ false = ground arith in
    rw inside (
      ap (map inl) (
        sum_hours-eq-add_hours ((to - from) / hour) (rounds from to) uptime from to no_totals le
          refl (omega arith)))

unix_seconds : (t u : Time) → unix t ≡ unix u → t / second ≡ u / second
unfolding unix
unix_seconds t u h = ground (arith, ap pos_part h, ap neg_part h)

-- The keys of two times are equal only for times of one hour.
pub unix-truncate_hour_injective :
    (t u : Time) → unix (truncate_hour t) ≡ unix (truncate_hour u) → t / hour ≡ u / hour
unfolding truncate_hour
unix-truncate_hour_injective t u h = omega (arith, unix_seconds (t - t % hour) (u - u % hour) h)

add_hour-of_empty :
    (uptime : HourlyStatistics) (t : Time) (acc : Totals)
    → (statistics_at (unix (truncate_hour t)) uptime).total_executions ≡ 0
    → add_hour uptime t acc ≡ acc
unfolding add_hour
add_hour-of_empty uptime t acc h = ground arith

-- Hours that hold nothing add nothing.
add_hours-of_empty :
    (n : ℕ) (uptime : HourlyStatistics) (t : Time) (acc : Totals)
    → ((u : Time)
        → t ≤ u
        → u < t + n * hour
        → u % hour ≡ t % hour
        → (statistics_at (unix (truncate_hour u)) uptime).total_executions ≡ 0)
    → add_hours n uptime t acc ≡ acc
unfolding add_hours
add_hours-of_empty zero uptime t acc h = refl
add_hours-of_empty (suc n) uptime t acc h =
    rw (add_hour-of_empty uptime t acc (h t (omega arith) (omega arith) refl)) (
      add_hours-of_empty n uptime (t + hour) acc
        (λ u p q r. h u (omega arith) (omega arith) (omega arith)))

statistics-elsewhere :
    (stats : HourlyUptimeStatistics) (k j : ℤ)
    → k ≢ j
    → statistics_at j ((k, stats) ∷ []) ≡ no_statistics
unfolding lookup
statistics-elsewhere stats k j h = ground (arith, eq_ℤ_iff k j)

-- Where the range ends earlier in its hour than it began in its own, the results of its last hour
-- are left out: an uptime whose executions are all in the hour in which the range ends counts as
-- if there were none.
pub get_uptime_last_hour :
    (stats : HourlyUptimeStatistics) (from to : Time)
    → from ≤ to
    → to % hour < from % hour
    → get_uptime (some ((unix (truncate_hour to), stats) ∷ [])) from to ≡ some (inl no_totals)
get_uptime_last_hour stats from to le h =
    let uptime : HourlyStatistics = (unix (truncate_hour to), stats) ∷ [] in
    let n = suc ((to - from) / hour) in
    let empty : (u : Time)
        → from ≤ u
        → u < from + n * hour
        → u % hour ≡ from % hour
        → (statistics_at (unix (truncate_hour u)) uptime).total_executions ≡ 0 =
      λ u p q r.
        ap (λ s. s.total_executions)
          (statistics-elsewhere stats (unix (truncate_hour to)) (unix (truncate_hour u))
            (λ e. omega (arith, unix-truncate_hour_injective to u e))) in
    get_uptime_lem uptime from to le
    ∙ ap (λ (x : Totals). some (inl x)) (add_hours-of_empty n uptime from no_totals empty)
