-- ===== src/Memory/Uptime/Hours.antt =====
-- internal/storage/store/memory/uptime.go: what an hour counts.
use go_uptime.Memory.Uptime.{
  uint64, milliseconds_uint64, uptime_retention, count_result, or_none, statistics_at, clean_up,
  process_uptime_after_result, int_eq,
}
use go_uptime.Result.{Result, HourlyUptimeStatistics, HourlyStatistics}
use go_uptime.Clock.{Time, hour, truncate_hour, unix}
use go_uptime.Common.{
  ℕ, ◌+◌, ◌-◌, ◌≡◌, refl, ap, ◌∙◌, Bool, true, false, not, some, List, [], ◌∷◌, arith, ltb, length,
  if◌then◌else◌, inl, inr, Bool-cases, lookup, insert, keep, lookup-insert, lookup-keep,
}
use go_uptime.Common.Int.{ℤ, ltb_ℤ, eq_ℤ, eq_ℤ_iff}

abbrev pub hour_of : Result → ℤ
hour_of r = unix (truncate_hour r.timestamp)

-- A result, and the time at which the storage receives it. The newest stands first.
unfoldable pub uptime_after : List (Time × Result) → HourlyStatistics → HourlyStatistics
uptime_after [] uptime = uptime
uptime_after ((now, r) ∷ earlier) uptime =
    process_uptime_after_result now r (uptime_after earlier uptime)

-- The results of an hour, its successes and their time, as plain numbers.
unfoldable pub executions_in : ℤ → List (Time × Result) → ℕ
executions_in h [] = 0
executions_in h ((now, r) ∷ earlier) =
    (if eq_ℤ (hour_of r) h then 1 else 0) + executions_in h earlier

unfoldable pub successes_in : ℤ → List (Time × Result) → ℕ
successes_in h [] = 0
successes_in h ((now, r) ∷ earlier) =
    (if eq_ℤ (hour_of r) h then (if r.success then 1 else 0) else 0) + successes_in h earlier

unfoldable pub response_time_in : ℤ → List (Time × Result) → ℕ
response_time_in h [] = 0
response_time_in h ((now, r) ∷ earlier) =
    (if eq_ℤ (hour_of r) h then milliseconds_uint64 r.duration else 0) + response_time_in h earlier

-- The hour is within the retention, and an hour more, at each of the times.
abbrev pub IsRetained : ℤ → List (Time × Result) → Type 0
IsRetained h [] = Unit
IsRetained h ((now, r) ∷ earlier) =
    (ltb_ℤ h (unix (now - (uptime_retention + hour))) ≡ false) × IsRetained h earlier

abbrev is_kept : Time → ℤ → Bool
is_kept now hour_key = not (ltb_ℤ hour_key (unix (now - (uptime_retention + hour))))

statistics-clean_up :
    (now : Time) (h : ℤ) (uptime : HourlyStatistics)
    → ltb_ℤ h (unix (now - (uptime_retention + hour))) ≡ false
    → statistics_at h (clean_up now uptime) ≡ statistics_at h uptime
unfolding clean_up
statistics-clean_up now h uptime kept = elim (Bool-cases (ltb 768 (length uptime))) [
  | inl many ↦
      let found : lookup h (keep (is_kept now) uptime) ≡ lookup h uptime =
        lookup-keep (is_kept now) h uptime ∙ rw kept in
      rw many (ap or_none found)
  | inr few ↦ rw few
]

statistics_if :
    (key h : ℤ) (counted : HourlyUptimeStatistics)
    (f : HourlyUptimeStatistics → HourlyUptimeStatistics) (uptime : HourlyStatistics)
    → counted ≡ f (statistics_at key uptime)
    → or_none (if eq_ℤ key h then some counted else lookup h uptime)
      ≡ (if eq_ℤ key h then f (statistics_at h uptime) else statistics_at h uptime)
statistics_if key h counted f uptime e = elim (Bool-cases (eq_ℤ key h)) [
  | inl same ↦
      let at_h : key ≡ h = (eq_ℤ_iff key h).0 same in
      rw same (e ∙ ap (λ k. f (statistics_at k uptime)) at_h)
  | inr other ↦ rw other
]

statistics-process :
    (now : Time) (r : Result) (h : ℤ) (uptime : HourlyStatistics)
    → ltb_ℤ h (unix (now - (uptime_retention + hour))) ≡ false
    → statistics_at h (process_uptime_after_result now r uptime) ≡ (
        if eq_ℤ (hour_of r) h
        then count_result r (statistics_at h uptime)
        else statistics_at h uptime)
unfolding process_uptime_after_result
statistics-process now r h uptime kept =
    let key = hour_of r in
    let counted = count_result r (statistics_at key uptime) in
    statistics-clean_up now h (insert key counted uptime) kept
    ∙ ap or_none (lookup-insert key h counted uptime)
    ∙ statistics_if key h counted (count_result r) uptime refl

count_step :
    (b : Bool) (r : Result) (old : HourlyUptimeStatistics) (n s t : ℕ)
    → old.total_executions ≡ uint64 n
    → old.successful_executions ≡ uint64 s
    → old.total_executions_response_time ≡ uint64 t
    → let new = if b then count_result r old else old in
      (new.total_executions ≡ uint64 ((if b then 1 else 0) + n))
      × (new.successful_executions ≡ uint64 ((if b then (if r.success then 1 else 0) else 0) + s))
      × (new.total_executions_response_time
          ≡ uint64 ((if b then milliseconds_uint64 r.duration else 0) + t))
unfolding count_result
count_step true r old n s t hn hs ht = (ground arith, ground arith, ground arith)
count_step false r old n s t hn hs ht = (ground arith, ground arith, ground arith)

-- While an hour is within the retention, each of its counters is the plain count over all the
-- results received so far, modulo 2 ^ 64: no result is lost or counted twice, and the clean up
-- takes nothing away.
pub statistics-uptime_after :
    (h : ℤ) (rs : List (Time × Result))
    → IsRetained h rs
    → let stats = statistics_at h (uptime_after rs []) in
      (stats.total_executions ≡ uint64 (executions_in h rs))
      × (stats.successful_executions ≡ uint64 (successes_in h rs))
      × (stats.total_executions_response_time ≡ uint64 (response_time_in h rs))
unfolding uptime_after executions_in successes_in response_time_in
statistics-uptime_after h [] kept = unfold lookup in (refl, refl, refl)
statistics-uptime_after h ((now, r) ∷ rs) (kept, keeps) =
    let (n, s, t) = statistics-uptime_after h rs keeps in
    let step = statistics-process now r h (uptime_after rs []) kept in
    rw step (
      count_step (eq_ℤ (hour_of r) h) r (statistics_at h (uptime_after rs [])) (executions_in h rs)
        (successes_in h rs) (response_time_in h rs) n s t)
