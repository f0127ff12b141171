-- ===== src/Maintenance/Examples.antt =====
-- internal/config/maintenance/maintenance.go: a window that starts at 00:30 on any day.
use go_uptime.Maintenance.{Config, is_enabled, is_scheduled, is_under_maintenance, day, utc}
use go_uptime.Maintenance.Windows.{IsInside, is_under_maintenance-IsInside}
use go_uptime.Common.{ℕ, ◌*◌, ◌+◌, ◌≡◌, ◌↔◌, refl, none, some, true, [], arith}
use go_uptime.Common.Int.{pos}
use go_uptime.Common.Text.{codes}
use go_uptime.Clock.{Time, minute}

abbrev half_past_midnight : Config
half_past_midnight = record {
  enabled = none;
  start = codes "00:30";
  duration = pos day;
  timezone = codes "UTC";
  every = [];
  timezone_location = some utc;
  duration_to_start_from_midnight = 30 * minute;
}

abbrev moment : Time
moment = 1000 * day + 45 * minute

is_under_maintenance-IsInside_example :
    (is_under_maintenance half_past_midnight moment ≡ true)
    ↔ ((n : ℕ) × (is_scheduled half_past_midnight n ≡ true) × IsInside half_past_midnight n moment)
unfolding is_enabled
is_under_maintenance-IsInside_example =
    is_under_maintenance-IsInside half_past_midnight moment refl (ground arith) (ground arith)
