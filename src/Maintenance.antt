-- ===== src/Maintenance.antt =====
-- internal/config/maintenance/maintenance.go: the maintenance windows. A location is the shift from
-- UTC to its clock, which is not changed during the year; time.LoadLocation is a parameter.
pub mod Windows
mod Examples
use go_uptime.Common.{
  ℕ, zero, suc, ◌+◌, ◌-◌, ◌*◌, ◌/◌, ◌%◌, ◌==◌, ltb, leb, Bool, true, false, not, ◌&&◌, ◌||◌, Option,
  none, some, List, [], ◌∷◌, Bytes, bytes_eq, contains, if◌then◌else◌, length, take, drop, ◌⊎◌, inl,
  inr, get_or,
}
use go_uptime.Common.Int.{ℤ, pos, negsuc, leb_ℤ, ltb_ℤ, ◌+ℤ◌}
use go_uptime.Common.Text.{codes, trim_prefix}
use go_uptime.Clock.{Time, Duration, hour, minute}
use go_uptime.JsonPath.{natural}

-- The local time of a moment.
abbrev pub Location : Type 0
Location = Time → Time

abbrev pub utc : Location
utc t = t

pub record Config : Type 0 where
  pub enabled : Option Bool
  pub start : Bytes
  pub duration : Duration
  pub timezone : Bytes
  pub every : List Bytes
  pub timezone_location : Option Location
  pub duration_to_start_from_midnight : ℕ

pub data MaintenanceError : Type 0 where
  invalid_maintenance_start_format invalid_number invalid_maintenance_duration : MaintenanceError
  invalid_day_name invalid_timezone : MaintenanceError

abbrev pub long_day_names : List Bytes
long_day_names =
    codes "Sunday"
    ∷ codes "Monday"
    ∷ codes "Tuesday"
    ∷ codes "Wednesday"
    ∷ codes "Thursday"
    ∷ codes "Friday"
    ∷ codes "Saturday"
    ∷ []

abbrev or_true : Option Bool → Bool
or_true none = true
or_true (some b) = b

unfoldable pub is_enabled : Config → Bool
is_enabled c = or_true c.enabled

unfoldable pub get_default_config : Config
get_default_config = record {
  enabled = some false;
  start = [];
  duration = pos 0;
  timezone = [];
  every = [];
  timezone_location = none;
  duration_to_start_from_midnight = 0;
}

abbrev negated : Option ℕ → Option ℤ
negated none = none
negated (some zero) = some (pos 0)
negated (some (suc n)) = some (negsuc n)

abbrev positive : Option ℕ → Option ℤ
positive none = none
positive (some n) = some (pos n)

-- `strconv.Atoi`, where `none` is an error.
unfoldable pub parse_number : Bytes → Option ℤ
parse_number [] = none
parse_number (b ∷ s) =
    if b == b'-'
    then negated (natural s)
    else if b == b'+'
    then positive (natural s)
    else positive (natural (b ∷ s))

-- `extractNumericalValueFromPotentiallyZeroPaddedString`
unfoldable pub extract_numerical_value : Bytes → Option ℤ
unfolding parse_number
extract_numerical_value s = parse_number (trim_prefix s (codes "0"))

abbrev is_between : ℤ → ℕ → Bool
is_between n last = leb_ℤ (pos 0) n && leb_ℤ n (pos last)

abbrev number_of : ℤ → ℕ
number_of (pos n) = n
number_of (negsuc n) = 0

abbrev clock_duration : Option ℤ → Option ℤ → MaintenanceError ⊎ ℕ
clock_duration none minutes = inl invalid_number
clock_duration (some hours) none = inl invalid_number
clock_duration (some hours) (some minutes) =
    if is_between hours 23 && is_between minutes 59
    then inr (number_of hours * hour + number_of minutes * minute)
    else inl invalid_maintenance_start_format

-- `hhmmToDuration`. The character between the hours and the minutes is not looked at.
unfoldable pub hhmm_to_duration : Bytes → MaintenanceError ⊎ ℕ
unfolding extract_numerical_value
hhmm_to_duration s =
    if length s == 5
    then clock_duration (extract_numerical_value (take 2 s))
        (extract_numerical_value (take 2 (drop 3 s)))
    else inl invalid_maintenance_start_format

abbrev pub day : ℕ
day = 86400000000000

abbrev all_day_names : List Bytes → Bool
all_day_names [] = true
all_day_names (name ∷ names) = contains long_day_names name && all_day_names names

abbrev with_location : Config → Option Location → MaintenanceError ⊎ Config
with_location c none = inl invalid_timezone
with_location c (some location) = inr (record c { timezone_location = some location })

abbrev set_timezone : (Bytes → Option Location) → Config → MaintenanceError ⊎ Config
set_timezone load_location c =
    if length c.timezone == 0
    then inr (record c { timezone = codes "UTC"; timezone_location = some utc })
    else with_location c (load_location c.timezone)

abbrev set_start :
    (Bytes → Option Location) → Config → MaintenanceError ⊎ ℕ → MaintenanceError ⊎ Config
set_start load_location c (inl e) = inl e
set_start load_location c (inr start) =
    if leb_ℤ c.duration (pos 0) || ltb_ℤ (pos day) c.duration
    then inl invalid_maintenance_duration
    else set_timezone load_location (record c { duration_to_start_from_midnight = start })

-- `ValidateAndSetDefaults` of a configuration that is not nil.
unfoldable pub validate_and_set_defaults :
    (Bytes → Option Location) → Config → MaintenanceError ⊎ Config
unfolding is_enabled hhmm_to_duration
validate_and_set_defaults load_location c =
    if not (is_enabled c)
    then inr c
    else if all_day_names c.every
    then set_start load_location c (hhmm_to_duration c.start)
    else inl invalid_day_name

abbrev in_location : Option Location → Time → Time
in_location none now = now
in_location (some location) now = location now

abbrev pub local_time : Config → Time → Time
local_time c now = in_location c.timezone_location now

-- The name of the day with a number: the first day of the zero time is a Monday.
abbrev pub weekday : ℕ → Bytes
weekday n = get_or long_day_names ((n + 1) % 7) []

-- Whether a window starts on the day with a number.
unfoldable pub is_scheduled : Config → ℕ → Bool
is_scheduled c n = length c.every == 0 || contains c.every (weekday n)

-- The day on which the window would start: the hours are compared, not the minutes.
unfoldable pub adjusted_date : Config → Time → ℕ
adjusted_date c t =
    if ltb (t % day / hour) (c.duration_to_start_from_midnight / hour) then t / day - 1 else t / day

-- `IsUnderMaintenance`
unfoldable pub is_under_maintenance : Config → Time → Bool
unfolding is_enabled is_scheduled adjusted_date
is_under_maintenance c now =
    let t = local_time c now in
    let date = adjusted_date c t in
    let start = date * day + c.duration_to_start_from_midnight in
    is_enabled c && is_scheduled c date && ltb start t && ltb_ℤ (pos t) (pos start +ℤ c.duration)
