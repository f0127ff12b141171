-- ===== src/Memory/Buckets/Counts.antt =====
-- internal/storage/store/memory/response_time_buckets.go: what the bucket of a minute or of an hour
-- counts.
use go_uptime.Memory.Buckets.{
  minute_bucket_seconds, hour_bucket_seconds, Bucket, new_response_time_bucket, add_bucket,
  BucketKey, bucket_key_beq, bucket_key_eq, Buckets, BucketStore, or_empty, merge, bucket_key,
  add_to_bucket, is_outdated, is_clean_up_due, add_response_time_buckets,
}
use go_uptime.Result.{Result}
use go_uptime.Clock.{Time}
use go_uptime.Common.{
  ℕ, ◌+◌, ◌≡◌, refl, sym, ap, ◌∙◌, String, Bool, true, false, not, Option, none, some, List, [],
  ◌∷◌, ◌⊎◌, inl, inr, arith, ◌==◌, Bool-cases, lookup, insert, lookup-insert, keep, lookup-keep,
  string_eq, beq_refl, if◌then◌else◌,
}

-- The numbers of a bucket: up, down and pending. A bucket that is not there counts nothing.
pub record Counts : Type 0 where
  pub up : ℕ
  pub down : ℕ
  pub pending : ℕ

abbrev pub no_counts : Counts
no_counts = record { up = 0; down = 0; pending = 0 }

abbrev pub counts_of : Option Bucket → Counts
counts_of none = no_counts
counts_of (some b) = record { up = b.up; down = b.down; pending = b.pending }

abbrev pub add_counts : Counts → Counts → Counts
add_counts c d = record {
  up = c.up + d.up;
  down = c.down + d.down;
  pending = c.pending + d.pending;
}

-- The number that a result goes to.
abbrev pub counts_of_result : Result → Counts
counts_of_result r =
    if r.pending
    then record no_counts { pending = 1 }
    else if r.success
    then record no_counts { up = 1 }
    else record no_counts { down = 1 }

-- The bucket of an endpoint.
unfoldable pub bucket_at : String → BucketKey → BucketStore → Option Bucket
bucket_at key k s = lookup k (or_empty (lookup key s.buckets))

-- The results of a bucket, as plain numbers.
unfoldable pub counts_in : BucketKey → List (Time × Result) → Counts
counts_in k [] = no_counts
counts_in k ((now, r) ∷ earlier) =
    if bucket_key_beq (bucket_key r k.seconds) k
    then add_counts (counts_in k earlier) (counts_of_result r)
    else counts_in k earlier

-- The results of an endpoint with the times of their arrival, the newest first.
unfoldable pub buckets_after : String → List (Time × Result) → BucketStore → BucketStore
buckets_after key [] s = s
buckets_after key ((now, r) ∷ earlier) s =
    add_response_time_buckets now key r (buckets_after key earlier s)

abbrev pub IsRecent : BucketKey → List (Time × Result) → Type 0
IsRecent k [] = Unit
IsRecent k ((now, r) ∷ earlier) = (is_outdated now k ≡ false) × IsRecent k earlier

counts-new :
    (r : Result) (seconds : ℕ)
    → counts_of (some (new_response_time_bucket r seconds)) ≡ counts_of_result r
unfolding new_response_time_bucket
counts-new r seconds = ground arith

counts-merge :
    (o : Option Bucket) (b : Bucket)
    → counts_of (some (merge o b)) ≡ add_counts (counts_of o) (counts_of (some b))
unfolding add_bucket
counts-merge none b = ground arith
counts-merge (some a) b = refl

counts-if :
    (b : Bool) (x : Bucket) (o : Option Bucket)
    → counts_of (if b then some x else o) ≡ (if b then counts_of (some x) else counts_of o)
counts-if true x o = refl
counts-if false x o = refl

-- A round of the loop changes the bucket of the result alone.
counts-add_to_bucket :
    (r : Result) (seconds : ℕ) (k : BucketKey) (m : Buckets)
    → counts_of (lookup k (add_to_bucket r seconds m)) ≡ (
        if bucket_key_beq (bucket_key r seconds) k
        then add_counts (counts_of (lookup k m)) (counts_of_result r)
        else counts_of (lookup k m))
unfolding add_to_bucket
counts-add_to_bucket r seconds k m =
    let j = bucket_key r seconds in
    let b = new_response_time_bucket r seconds in
    let added = merge (lookup j m) b in
    let found = lookup-insert j k added m in
    let same : bucket_key_beq j k ≡ true → lookup j m ≡ lookup k m =
      λ h. ap (λ x. lookup x m) ((bucket_key_eq.beq_iff j k).0 h) in
    ap counts_of found
    ∙ counts-if (bucket_key_beq j k) added (lookup k m)
    ∙ (elim (Bool-cases (bucket_key_beq j k)) [
      | inl h ↦ rw h (
          counts-merge (lookup j m) b
          ∙ ap (λ o. add_counts (counts_of o) (counts_of (some b))) (same h)
          ∙ ap (add_counts (counts_of (lookup k m))) (counts-new r seconds))
      | inr h ↦ rw h refl
    ])

other_size :
    (r : Result) (seconds : ℕ) (k : BucketKey)
    → (k.seconds == seconds) ≡ false
    → bucket_key_beq (bucket_key r seconds) k ≡ false
other_size r seconds k h = ground arith

-- The two sizes that the store keeps.
abbrev pub IsSize : ℕ → Type 0
IsSize seconds = (seconds ≡ minute_bucket_seconds) ⊎ (seconds ≡ hour_bucket_seconds)

abbrev counts_with : Result → BucketKey → Counts → Counts
counts_with r k c =
    if bucket_key_beq (bucket_key r k.seconds) k then add_counts c (counts_of_result r) else c

counts-one_round :
    (r : Result) (seconds : ℕ) (k : BucketKey) (m : Buckets)
    → k.seconds ≡ seconds
    → counts_of (lookup k (add_to_bucket r seconds m)) ≡ counts_with r k (counts_of (lookup k m))
counts-one_round r seconds k m size =
    counts-add_to_bucket r seconds k m
    ∙ ap
        (λ n.
          if bucket_key_beq (bucket_key r n) k
          then add_counts (counts_of (lookup k m)) (counts_of_result r)
          else counts_of (lookup k m))
        (sym size)

counts-other_round :
    (r : Result) (seconds : ℕ) (k : BucketKey) (m : Buckets)
    → (k.seconds == seconds) ≡ false
    → counts_of (lookup k (add_to_bucket r seconds m)) ≡ counts_of (lookup k m)
counts-other_round r seconds k m size =
    counts-add_to_bucket r seconds k m
    ∙ ap
        (λ b.
          if b
          then add_counts (counts_of (lookup k m)) (counts_of_result r)
          else counts_of (lookup k m))
        (other_size r seconds k size)

counts-both :
    (r : Result) (k : BucketKey) (m : Buckets)
    → IsSize k.seconds
    → counts_of
        (lookup k (add_to_bucket r hour_bucket_seconds (add_to_bucket r minute_bucket_seconds m)))
      ≡ counts_with r k (counts_of (lookup k m))
counts-both r k m (inl size) =
    counts-other_round r hour_bucket_seconds k (add_to_bucket r minute_bucket_seconds m)
      (ap (λ n. n == hour_bucket_seconds) size)
    ∙ counts-one_round r minute_bucket_seconds k m size
counts-both r k m (inr size) =
    counts-one_round r hour_bucket_seconds k (add_to_bucket r minute_bucket_seconds m) size
    ∙ ap (counts_with r k)
        (counts-other_round r minute_bucket_seconds k m (ap (λ n. n == minute_bucket_seconds) size))

lookup-insert_self :
    (key : String) (b : Buckets) (m : List (String × Buckets))
    → or_empty (lookup key (insert key b m)) ≡ b
lookup-insert_self key b m =
    ap or_empty
      (lookup-insert key key b m ∙ ap (λ x. if x then some b else lookup key m) (beq_refl key))

lookup-recent :
    (now : Time) (k : BucketKey) (m : Buckets)
    → is_outdated now k ≡ false
    → lookup k (keep (λ j. not (is_outdated now j)) m) ≡ lookup k m
lookup-recent now k m recent =
    lookup-keep (λ j. not (is_outdated now j)) k m
    ∙ ap (λ b. if not b then lookup k m else none) recent

bucket_at-add :
    (now : Time) (key : String) (r : Result) (k : BucketKey) (s : BucketStore)
    → is_outdated now k ≡ false
    → bucket_at key k (add_response_time_buckets now key r s)
      ≡ lookup k (
          add_to_bucket r hour_bucket_seconds
            (add_to_bucket r minute_bucket_seconds (or_empty (lookup key s.buckets))))
unfolding bucket_at add_response_time_buckets
bucket_at-add now key r k s recent =
    let both : Buckets =
      add_to_bucket r hour_bucket_seconds
        (add_to_bucket r minute_bucket_seconds (or_empty (lookup key s.buckets))) in
    elim (Bool-cases (is_clean_up_due now (lookup key s.clean_ups))) [
      | inl due ↦ rw due (
          ap (lookup k)
            (lookup-insert_self key (keep (λ j. not (is_outdated now j)) both) s.buckets)
          ∙ lookup-recent now k both recent)
      | inr soon ↦ rw soon (ap (lookup k) (lookup-insert_self key both s.buckets))
    ]

-- The bucket of a minute or of an hour that is not outdated at any arrival counts the up, the down
-- and the pending results of that minute or hour, each result once, through every clean-up.
pub counts-buckets_after :
    (key : String) (k : BucketKey) (rs : List (Time × Result)) (s : BucketStore)
    → IsSize k.seconds
    → IsRecent k rs
    → bucket_at key k s ≡ none
    → counts_of (bucket_at key k (buckets_after key rs s)) ≡ counts_in k rs
unfolding buckets_after counts_in bucket_at
counts-buckets_after key k [] s size recent fresh = ap counts_of fresh
counts-buckets_after key k ((now, r) ∷ rs) s size (recent, others) fresh =
    let before = buckets_after key rs s in
    let earlier = counts-buckets_after key k rs s size others fresh in
    ap counts_of (bucket_at-add now key r k before recent)
    ∙ counts-both r k (or_empty (lookup key before.buckets)) size
    ∙ ap (counts_with r k) earlier
