-- ===== src/Memory/Buckets.antt =====
-- internal/storage/store/common/response_time_chart.go and
-- internal/storage/store/memory/response_time_buckets.go: the results of an endpoint counted by
-- minute and by hour, for the response time chart.
pub mod Counts
use go_uptime.Result.{Result}
use go_uptime.Clock.{Time, Duration, hour, second, millisecond, time_sub, unix}
use go_uptime.Common.{
  ℕ, ◌+◌, ◌-◌, ◌*◌, ◌/◌, ◌%◌, ◌≡◌, ◌↔◌, arith, String, Bool, true, false, not, ◌&&◌, ◌||◌, Option,
  none, some, List, [], ◌∷◌, ltb, leb, length, ◌==◌, if◌then◌else◌, Eq, contains, lookup, insert,
  delete, keep, string_eq,
}
use go_uptime.Common.Int.{ℤ, pos, negsuc, ◌+ℤ◌, ltb_ℤ, eq_ℤ, eq_ℤ_iff, int64}

abbrev pub minute_bucket_seconds : ℕ
minute_bucket_seconds = 60

abbrev pub hour_bucket_seconds : ℕ
hour_bucket_seconds = 3600

abbrev pub minute_bucket_retention : ℕ
minute_bucket_retention = 24 * hour

abbrev pub hour_bucket_retention : ℕ
hour_bucket_retention = 168 * hour

-- `ResponseTimeBucket`; `timestamp` is the start in seconds since 1970.
pub record Bucket : Type 0 where
  pub timestamp : ℤ
  pub up : ℕ
  pub down : ℕ
  pub pending : ℕ
  pub timed_up : ℕ
  pub total_ms : ℤ
  pub min_ms : Option ℤ
  pub max_ms : Option ℤ

abbrev pub empty_bucket : ℤ → Bucket
empty_bucket timestamp = record {
  timestamp = timestamp;
  up = 0;
  down = 0;
  pending = 0;
  timed_up = 0;
  total_ms = pos 0;
  min_ms = none;
  max_ms = none;
}

-- `d.Milliseconds()`, which rounds towards zero.
unfoldable pub milliseconds : Duration → ℤ
milliseconds (pos n) = pos (n / millisecond)
milliseconds (negsuc n) = let m = (n + 1) / millisecond in if m == 0 then pos 0 else negsuc (m - 1)

unfoldable pub response_time_bucket_timestamp : Time → ℕ → ℤ
response_time_bucket_timestamp t bucket_seconds = unix (t - t % (bucket_seconds * second))

unfoldable pub new_response_time_bucket : Result → ℕ → Bucket
new_response_time_bucket result bucket_seconds =
    let bucket = empty_bucket (response_time_bucket_timestamp result.timestamp bucket_seconds) in
    let ms = milliseconds result.duration in
    if result.pending
    then record bucket { pending = 1 }
    else if result.success
    then if ltb_ℤ (pos 0) ms
      then record bucket { up = 1; timed_up = 1; total_ms = ms; min_ms = some ms; max_ms = some ms }
      else record bucket { up = 1 }
    else record bucket { down = 1 }

unfoldable pub lesser : Option ℤ → Option ℤ → Option ℤ
lesser mine none = mine
lesser none (some theirs) = some theirs
lesser (some mine) (some theirs) = if ltb_ℤ theirs mine then some theirs else some mine

unfoldable pub greater : Option ℤ → Option ℤ → Option ℤ
greater mine none = mine
greater none (some theirs) = some theirs
greater (some mine) (some theirs) = if ltb_ℤ mine theirs then some theirs else some mine

-- `ResponseTimeBucket.Add`
unfoldable pub add_bucket : Bucket → Bucket → Bucket
unfolding lesser greater
add_bucket bucket other = record bucket {
  up = bucket.up + other.up;
  down = bucket.down + other.down;
  pending = bucket.pending + other.pending;
  timed_up = bucket.timed_up + other.timed_up;
  total_ms = int64 (bucket.total_ms +ℤ other.total_ms);
  min_ms = lesser bucket.min_ms other.min_ms;
  max_ms = greater bucket.max_ms other.max_ms;
}

pub record BucketKey : Type 0 where
  pub seconds : ℕ
  pub timestamp : ℤ

abbrev pub bucket_key_beq : BucketKey → BucketKey → Bool
bucket_key_beq j k = j.seconds == k.seconds && eq_ℤ j.timestamp k.timestamp

pub bucket_key_beq_iff : (j k : BucketKey) → (bucket_key_beq j k ≡ true) ↔ (j ≡ k)
bucket_key_beq_iff j k = ground (arith, eq_ℤ_iff j.timestamp k.timestamp)

instance abbrev pub bucket_key_eq : Eq BucketKey
bucket_key_eq = record { beq = bucket_key_beq; beq_iff = bucket_key_beq_iff }

abbrev pub Buckets : Type 0
Buckets = List (BucketKey × Bucket)

-- The two maps of the store, by key of an endpoint.
pub record BucketStore : Type 0 where
  pub buckets : List (String × Buckets)
  pub clean_ups : List (String × Time)

abbrev pub or_empty : Option Buckets → Buckets
or_empty none = []
or_empty (some buckets) = buckets

abbrev pub merge : Option Bucket → Bucket → Bucket
merge none added = added
merge (some bucket) added = add_bucket bucket added

abbrev pub bucket_key : Result → ℕ → BucketKey
bucket_key result bucket_seconds = record {
  seconds = bucket_seconds;
  timestamp = response_time_bucket_timestamp result.timestamp bucket_seconds;
}

-- One round of the loop over the two sizes.
unfoldable pub add_to_bucket : Result → ℕ → Buckets → Buckets
add_to_bucket result bucket_seconds buckets =
    let key = bucket_key result bucket_seconds in
    insert key (merge (lookup key buckets) (new_response_time_bucket result bucket_seconds)) buckets

-- The clock is past the first month of the year 1, so the subtraction does not stop at zero.
unfoldable pub is_outdated : Time → BucketKey → Bool
is_outdated now key =
    let minute_threshold = unix (now - (minute_bucket_retention + hour)) in
    let hour_threshold = unix (now - (hour_bucket_retention + hour)) in
    key.seconds == minute_bucket_seconds && ltb_ℤ key.timestamp minute_threshold
    || key.seconds == hour_bucket_seconds && ltb_ℤ key.timestamp hour_threshold

-- The clean-up runs at most once per hour, and also when the clock was set back.
unfoldable pub is_clean_up_due : Time → Option Time → Bool
is_clean_up_due now none = true
is_clean_up_due now (some last) = not (ltb_ℤ (time_sub now last) (pos hour) && not (ltb now last))

unfoldable pub add_response_time_buckets : Time → String → Result → BucketStore → BucketStore
unfolding add_to_bucket is_clean_up_due
add_response_time_buckets now key result s =
    let buckets =
      add_to_bucket result hour_bucket_seconds
        (add_to_bucket result minute_bucket_seconds (or_empty (lookup key s.buckets))) in
    if is_clean_up_due now (lookup key s.clean_ups)
    then record {
      buckets = insert key (keep (λ k. not (is_outdated now k)) buckets) s.buckets;
      clean_ups = insert key now s.clean_ups;
    }
    else record s { buckets = insert key buckets s.buckets }

abbrev is_none : Option Buckets → Bool
is_none none = true
is_none (some b) = false

-- A clean-up time is only forgotten together with the buckets of its key.
unfoldable pub forget_response_time_buckets : List String → BucketStore → BucketStore
unfolding contains
forget_response_time_buckets keys s = record {
  buckets = keep (λ key. contains keys key) s.buckets;
  clean_ups = keep (λ key. contains keys key || is_none (lookup key s.buckets)) s.clean_ups;
}

-- `sort.Slice` by timestamp.
unfoldable pub insert_sorted : Bucket → List Bucket → List Bucket
insert_sorted b [] = b ∷ []
insert_sorted b (c ∷ cs) =
    if ltb_ℤ c.timestamp b.timestamp then c ∷ insert_sorted b cs else b ∷ c ∷ cs

-- The loop of `GetResponseTimeBuckets`, and its sort.
unfoldable pub select_buckets : ℕ → ℤ → ℤ → Buckets → List Bucket
unfolding insert_sorted
select_buckets bucket_seconds from to [] = []
select_buckets bucket_seconds from to ((key, bucket) ∷ buckets) =
    let copied : Bucket = record (add_bucket (empty_bucket (pos 0)) bucket) {
      timestamp = bucket.timestamp;
    } in
    let rest = select_buckets bucket_seconds from to buckets in
    if not (key.seconds == bucket_seconds) || ltb_ℤ key.timestamp from || ltb_ℤ to key.timestamp
    then rest
    else insert_sorted copied rest

unfoldable pub get_response_time_buckets : String → ℕ → Time → Time → BucketStore → List Bucket
unfolding select_buckets
get_response_time_buckets key bucket_seconds from to s =
    select_buckets bucket_seconds (unix from) (unix to) (or_empty (lookup key s.buckets))
