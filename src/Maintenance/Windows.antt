-- ===== src/Maintenance/Windows.antt =====
-- internal/config/maintenance/maintenance.go: the moments that are under maintenance.
use mathlib.Core.Path.{subst}
use mathlib.Core.Bool.{false≢true}
use go_uptime.Maintenance.{
  Config, is_enabled, day, local_time, is_scheduled, adjusted_date, is_under_maintenance,
}
use go_uptime.Common.{
  ℕ, ◌+◌, ◌-◌, ◌*◌, ◌%◌, ◌≤◌, ◌<◌, ◌≡◌, ◌↔◌, refl, sym, ◌∙◌, Bool, true, false, ◌&&◌, ltb, arith,
}
use go_uptime.Common.Int.{pos, ltb_ℤ, ◌+ℤ◌}
use go_uptime.Clock.{Time, hour}

-- A moment lies in the window that starts on a day: after its start, before its end, and before the
-- hour of the start on the next day.
abbrev pub IsInside : Config → ℕ → Time → Type 0
IsInside c n t =
    let start = n * day + c.duration_to_start_from_midnight in
    (start < t)
    × (ltb_ℤ (pos t) (pos start +ℤ c.duration) ≡ true)
    × (t
        < (n + 1) * day
          + (c.duration_to_start_from_midnight - c.duration_to_start_from_midnight % hour))

date_of_inside :
    (c : Config) (n : ℕ) (t : Time)
    → c.duration_to_start_from_midnight < day
    → IsInside c n t
    → adjusted_date c t ≡ n
unfolding adjusted_date
date_of_inside c n t s (after, before, cut) = ground arith

inside_date :
    (c : Config) (t : Time)
    → c.duration_to_start_from_midnight < day
    → day ≤ t
    → t
      < (adjusted_date c t + 1) * day
        + (c.duration_to_start_from_midnight - c.duration_to_start_from_midnight % hour)
unfolding adjusted_date
inside_date c t s h = ground arith

-- What is left of the code once the day is chosen.
abbrev is_in_window : Config → ℕ → Time → Bool
is_in_window c n t =
    let start = n * day + c.duration_to_start_from_midnight in
    is_scheduled c n && ltb start t && ltb_ℤ (pos t) (pos start +ℤ c.duration)

three_iff : (a b c : Bool) → ((a && b && c) ≡ true) ↔ ((a ≡ true) × (b ≡ true) × (c ≡ true))
three_iff true true true = (λ h. (refl, refl, refl), λ h. refl)
three_iff true true false = (λ h. (refl, refl, h), λ (p, q, r). r)
three_iff true false c = (λ h. absurd (false≢true h), λ (p, q, r). q)
three_iff false b c = (λ h. absurd (false≢true h), λ (p, q, r). p)

is_in_window_iff :
    (c : Config) (n : ℕ) (t : Time)
    → (is_in_window c n t ≡ true) ↔ (
        (is_scheduled c n ≡ true)
        × (n * day + c.duration_to_start_from_midnight < t)
        × (ltb_ℤ (pos t) (pos (n * day + c.duration_to_start_from_midnight) +ℤ c.duration) ≡ true))
is_in_window_iff c n t =
    let start = n * day + c.duration_to_start_from_midnight in
    let three =
      three_iff (is_scheduled c n) (ltb start t) (ltb_ℤ (pos t) (pos start +ℤ c.duration)) in
    (
      λ h. let (p, q, r) = three.0 h in (p, ground arith, r),
      λ (p, q, r). three.1 (p, ground arith, r),
    )

-- A moment is under the maintenance of an enabled configuration, whose start lies within a day,
-- exactly if some day on which a window starts has the moment inside: after the start and before the
-- end of the window, and before the hour of the start on the next day. So a window that is longer
-- than 24 hours less the minutes of its start loses its last minutes. Times are local, from the
-- second day of the calendar on.
pub is_under_maintenance-IsInside :
    (c : Config) (now : Time)
    → is_enabled c ≡ true
    → c.duration_to_start_from_midnight < day
    → day ≤ local_time c now
    → (is_under_maintenance c now ≡ true)
      ↔ ((n : ℕ) × (is_scheduled c n ≡ true) × IsInside c n (local_time c now))
unfolding is_under_maintenance
is_under_maintenance-IsInside c now enabled s late =
    let t = local_time c now in
    let date = adjusted_date c t in
    let same : is_under_maintenance c now ≡ is_in_window c date t = rw (enabled) refl in
    let iff = is_in_window_iff c date t in
    (
      λ under.
          let (scheduled, after, before) = iff.0 (sym same ∙ under) in
          (date, scheduled, (after, before, inside_date c t s late)),
      λ (n, scheduled, inside).
          let (after, before, cut) = inside in
          let chosen = date_of_inside c n t s inside in
          same
          ∙ subst (λ k. is_in_window c k t ≡ true) (sym chosen)
              ((is_in_window_iff c n t).1 (scheduled, after, before)),
    )
