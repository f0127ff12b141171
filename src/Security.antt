-- ===== src/Security.antt =====
-- internal/security/limiter.go: the failures of authentication, counted for each client in a window
-- that starts at its first failure. Every method holds the mutex.
pub mod Blocking
mod Examples
use go_uptime.Clock.{Time, Duration, minute, second, time_sub}
use go_uptime.Common.{
  ℕ, zero, suc, ◌+◌, ◌-◌, String, Bool, true, false, not, ◌&&◌, ◌||◌, Option, none, some, List, [],
  ◌∷◌, ltb, leb, length, take, if◌then◌else◌, lookup, delete, string_eq,
}
use go_uptime.Common.Int.{ℤ, pos, ltb_ℤ}

abbrev pub failure_limiter_window : ℕ
failure_limiter_window = minute

abbrev pub failure_limiter_maximum_failures : ℕ
failure_limiter_maximum_failures = 10

abbrev pub failure_limiter_maximum_keys : ℕ
failure_limiter_maximum_keys = 10000

pub record Entry : Type 0 where
  pub window_start : Time
  pub failures : ℕ

-- `failureLimiter`: the entries in the order of `recency`, the most recent failure first; the map
-- holds the same entries. A key is the text of the prefix of a client.
pub record FailureLimiter : Type 0 where
  pub window : ℕ
  pub maximum_failures : ℕ
  pub maximum_keys : ℕ
  pub entries : List (String × Entry)

unfoldable pub new_failure_limiter_with_window : ℕ → ℕ → ℕ → FailureLimiter
new_failure_limiter_with_window window maximum_failures maximum_keys = record {
  window = window;
  maximum_failures = maximum_failures;
  maximum_keys = maximum_keys;
  entries = [];
}

unfoldable pub new_failure_limiter : ℕ → ℕ → FailureLimiter
unfolding new_failure_limiter_with_window
new_failure_limiter maximum_failures maximum_keys =
    new_failure_limiter_with_window failure_limiter_window maximum_failures maximum_keys

abbrev pub at_least_second : Duration → Duration
at_least_second d = if ltb_ℤ d (pos second) then pos second else d

-- How long an entry blocks its client.
abbrev pub blocked_by : FailureLimiter → Time → Option Entry → Bool × Duration
blocked_by limiter now none = (false, pos 0)
blocked_by limiter now (some entry) =
    let window_end = entry.window_start + limiter.window in
    if ltb entry.failures limiter.maximum_failures || not (ltb now window_end)
    then (false, pos 0)
    else (true, at_least_second (time_sub window_end now))

-- `Blocked`
unfoldable pub blocked : String → Time → FailureLimiter → Bool × Duration
blocked key now limiter = blocked_by limiter now (lookup key limiter.entries)

-- The loop that removes the oldest entries.
unfoldable pub evict : ℕ → List (String × Entry) → List (String × Entry)
evict maximum_keys entries = take maximum_keys entries

unfoldable pub count_failure : FailureLimiter → Time → Entry → Entry
count_failure limiter now entry =
    if ltb now (entry.window_start + limiter.window)
    then record entry { failures = suc entry.failures }
    else record { window_start = now; failures = 1 }

-- The entries after a failure of the client.
abbrev pub recorded : FailureLimiter → String → Time → Option Entry → List (String × Entry)
recorded limiter key now none =
    evict limiter.maximum_keys
      ((key, record { window_start = now; failures = 1 }) ∷ limiter.entries)
recorded limiter key now (some entry) =
    (key, count_failure limiter now entry) ∷ delete key limiter.entries

-- `Failure`
unfoldable pub failure : String → Time → FailureLimiter → FailureLimiter
failure key now limiter = record limiter {
  entries = recorded limiter key now (lookup key limiter.entries);
}
