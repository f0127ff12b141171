-- ===== src/Clock.antt =====
-- The parts of Go's package time that the program uses. A time.Time is the number of nanoseconds
-- since the zero Time (January 1 of the year 1, UTC); a time.Duration is a signed integer.
use go_uptime.Common.{ℕ, ◌-◌, ◌/◌, ◌%◌, ltb, leb, if◌then◌else◌}
use go_uptime.Common.Int.{ℤ, pos, negsuc, sub_ℕ}

abbrev pub Time : Type 0
Time = ℕ

abbrev pub Duration : Type 0
Duration = ℤ

abbrev pub zero_time : Time
zero_time = 0

abbrev pub millisecond : ℕ
millisecond = 1000000

abbrev pub second : ℕ
second = 1000000000

abbrev pub minute : ℕ
minute = 60000000000

abbrev pub hour : ℕ
hour = 3600000000000

-- The greatest time.Duration, about 292 years.
abbrev pub max_duration : ℕ
max_duration = 9223372036854775807

-- `t.Sub(u)`: the difference, which saturates at the limits of a Duration.
unfoldable pub time_sub : Time → Time → Duration
time_sub t u =
    if leb u t
    then (if leb max_duration (t - u) then pos max_duration else pos (t - u))
    else (if ltb max_duration (u - t) then negsuc max_duration else negsuc (u - t - 1))

-- `t.Truncate(time.Hour)`, which rounds down to a multiple since the zero time.
unfoldable pub truncate_hour : Time → Time
truncate_hour t = t - t % hour

-- `t.Unix()`: the seconds since January 1, 1970.
unfoldable pub unix : Time → ℤ
unix t = sub_ℕ (t / second) 62135596800
