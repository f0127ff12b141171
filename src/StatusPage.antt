-- ===== src/StatusPage.antt =====
-- internal/statuspage/limiter.go: the costly responses of the public status pages, counted for each
-- client in the current and the previous minute. Every method holds the mutex.
pub mod Counters
pub mod Answers
pub mod Selection
mod Examples
use go_uptime.Clock.{minute, second}
use go_uptime.Common.{
  ℕ, zero, suc, ◌+◌, ◌-◌, ◌*◌, ◌/◌, ◌%◌, String, Bool, true, false, Option, none, some, List, [],
  ◌∷◌, ◌==◌, ltb, take, if◌then◌else◌, lookup, delete, string_eq,
}

-- `limiterEntry`, without its key.
pub record LimiterEntry : Type 0 where
  pub window_start : ℕ
  pub current : ℕ
  pub previous : ℕ

-- `Limiter`: the entries in the order of `recency`, the most recently seen client first; the map
-- holds the same entries. A key is the text of the prefix of a client.
pub record Limiter : Type 0 where
  pub limit : ℕ
  pub maximum_keys : ℕ
  pub entries : List (String × LimiterEntry)

abbrev pub limiter_window : ℕ
limiter_window = minute

unfoldable pub new_limiter : ℕ → ℕ → Limiter
new_limiter limit maximum_keys = record { limit = limit; maximum_keys = maximum_keys; entries = [] }

-- `SetLimit`
unfoldable pub set_limit : ℕ → Limiter → Limiter
set_limit limit l = record l { limit = limit; entries = if l.limit == limit then l.entries else [] }

unfoldable pub window_start_of : ℕ → ℕ
window_start_of now = now - now % limiter_window

-- The entry of the client, a new one where it is not tracked.
abbrev pub entry_or_new : ℕ → Option LimiterEntry → LimiterEntry
entry_or_new start (some entry) = entry
entry_or_new start none = record { window_start = start; current = 0; previous = 0 }

-- The client moves to the front; for a new one the oldest entries are forgotten, itself too where
-- no client is tracked.
abbrev pub put_front :
    Limiter → String → Option LimiterEntry → LimiterEntry → List (String × LimiterEntry)
put_front l key (some entry) after = (key, after) ∷ delete key l.entries
put_front l key none after = take l.maximum_keys ((key, after) ∷ l.entries)

-- The counters, moved on to the current window.
unfoldable pub advance : ℕ → LimiterEntry → LimiterEntry
advance start entry =
    let elapsed = (start - entry.window_start) / limiter_window in
    if elapsed == 1
    then record { window_start = start; current = 0; previous = entry.current }
    else if ltb 1 elapsed
    then record { window_start = start; current = 0; previous = 0 }
    else entry

-- `estimated+1 > float64(limiter.limit)`, with exact fractions.
unfoldable pub is_over : ℕ → ℕ → ℕ → LimiterEntry → Bool
is_over limit now start entry =
    ltb (limit * limiter_window)
      (entry.previous * (limiter_window - (now - start)) + suc entry.current * limiter_window)

unfoldable pub retry_after : ℕ → ℕ → ℕ
retry_after now start =
    let wait = start + limiter_window - now in if ltb wait second then second else wait

-- The answer to a hit, and the entry after it.
unfoldable pub decide : ℕ → ℕ → ℕ → LimiterEntry → (Bool × ℕ) × LimiterEntry
unfolding is_over retry_after
decide limit now start entry =
    if is_over limit now start entry
    then ((false, retry_after now start), entry)
    else ((true, 0), record entry { current = suc entry.current })

unfoldable pub record_hit : Limiter → String → ℕ → ℕ → Option LimiterEntry → (Bool × ℕ) × Limiter
unfolding decide advance
record_hit l key now start found =
    let (answer, after) = decide l.limit now start (advance start (entry_or_new start found)) in
    (answer, record l { entries = put_front l key found after })

-- `Hit`
unfoldable pub hit : String → ℕ → Limiter → (Bool × ℕ) × Limiter
unfolding record_hit window_start_of
hit key now l =
    if l.limit == 0
    then ((true, 0), l)
    else record_hit l key now (window_start_of now) (lookup key l.entries)
