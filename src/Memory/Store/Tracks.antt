-- ===== src/Memory/Store/Tracks.antt =====
-- internal/storage/store/memory/memory.go: the storage as one status for each key.
use go_uptime.Memory.Store.{
  Cache, Lawful, Store, or_new, missing, insert_endpoint_result,
  delete_all_endpoint_statuses_not_in_keys, clear,
}
use go_uptime.Memory.History.{add_result}
use go_uptime.Result.{Result, Status}
use go_uptime.Clock.{Time}
use go_uptime.Common.{
  ℕ, ◌≡◌, refl, ap, ◌∙◌, String, Bool, true, false, not, ◌&&◌, Option, none, some, List, [], ◌∷◌,
  if◌then◌else◌, string_eq, str_eq, str_eq_iff, contains, Bool-cases, inl, inr, arith,
}

pub data Operation : Type 0 where
  inserted : Time → String → String → String → Result → Operation
  kept_only : List String → Operation
  cleared : Operation

unfoldable pub run : {C : Type 0} → Cache C → List Operation → Store C → Store C
run cache [] s = s
run cache (inserted now key group name result ∷ ops) s =
    run cache ops (insert_endpoint_result cache now key group name result s)
run cache (kept_only keys ∷ ops) s =
    run cache ops (delete_all_endpoint_statuses_not_in_keys cache keys s).0
run cache (cleared ∷ ops) s = run cache ops (clear cache s)

-- What an operation makes of the status of one key.
abbrev pub track : ℕ → ℕ → String → Operation → Option Status → Option Status
track results events key (inserted now key' group name result) status =
    if str_eq key' key
    then some (add_result now results events result (or_new now key' group name status))
    else status
track results events key (kept_only keys) status = if contains keys key then status else none
track results events key cleared status = none

unfoldable pub track_all : ℕ → ℕ → String → List Operation → Option Status → Option Status
track_all results events key [] status = status
track_all results events key (op ∷ ops) status =
    track_all results events key ops (track results events key op status)

contains-missing :
    (keys existing : List String) (key : String)
    → contains (missing keys existing) key ≡ (contains existing key && not (contains keys key))
unfolding missing contains
contains-missing keys [] key = refl
contains-missing keys (k ∷ existing) key = ground (
  arith,
  contains-missing keys existing key,
  str_eq_iff k key,
  λ (h : k ≡ key). ap (contains keys) h,
)

chosen :
    (existing kept : Bool) (status : Option Status)
    → (existing ≡ false → status ≡ none)
    → (if existing && not kept then none else status) ≡ (if kept then status else none)
chosen true true status h = refl
chosen true false status h = refl
chosen false true status h = refl
chosen false false status h = h refl

get-kept :
    {C : Type 0} (cache : Cache C) (laws : Lawful cache) (keys : List String) (key : String) (c : C)
    → cache.get key (cache.delete_all (missing keys (cache.keys c)) c).0
      ≡ (if contains keys key then cache.get key c else none)
get-kept cache laws keys key c =
    laws.get-delete_all (missing keys (cache.keys c)) key c
    ∙ ap (λ (b : Bool). if b then none else cache.get key c)
        (contains-missing keys (cache.keys c) key)
    ∙ chosen (contains (cache.keys c) key) (contains keys key) (cache.get key c)
        (laws.contains-keys key c)

get-inserted :
    {C : Type 0} (cache : Cache C) (laws : Lawful cache) (key' key : String)
    (f : Option Status → Status) (c : C)
    → cache.get key (cache.set key' (f (cache.get key' c)) c)
      ≡ (if str_eq key' key then some (f (cache.get key c)) else cache.get key c)
get-inserted cache laws key' key f c =
    laws.get-set key' key (f (cache.get key' c)) c ∙ elim (Bool-cases (str_eq key' key)) [
      | inl same ↦
          rw (same) (ap (λ (k : String). some (f (cache.get k c))) ((str_eq_iff key' key).0 same))
      | inr other ↦ rw (other) refl
    ]

get-step :
    {C : Type 0} (cache : Cache C) (laws : Lawful cache) (op : Operation) (key : String)
    (s : Store C)
    → cache.get key (run cache (op ∷ []) s).endpoint_cache
      ≡ track s.maximum_number_of_results s.maximum_number_of_events key op
          (cache.get key s.endpoint_cache)
unfolding run insert_endpoint_result delete_all_endpoint_statuses_not_in_keys clear
get-step cache laws (inserted now key' group name result) key s =
    get-inserted cache laws key' key
      (λ (status : Option Status).
        add_result now s.maximum_number_of_results s.maximum_number_of_events result
          (or_new now key' group name status))
      s.endpoint_cache
get-step cache laws (kept_only keys) key s = get-kept cache laws keys key s.endpoint_cache
get-step cache laws cleared key s = laws.get-clear key s.endpoint_cache

-- After a run of insertions, deletions and clears the status of a key in the storage is the one
-- that the operations make of the status of that key alone, given a lawful cache: an insertion
-- for another key changes nothing of it, and a deletion keeps it exactly if its key is kept.
pub get-run :
    {C : Type 0} (cache : Cache C) (laws : Lawful cache) (ops : List Operation) (key : String)
    (s : Store C)
    → cache.get key (run cache ops s).endpoint_cache
      ≡ track_all s.maximum_number_of_results s.maximum_number_of_events key ops
          (cache.get key s.endpoint_cache)
unfolding run track_all insert_endpoint_result delete_all_endpoint_statuses_not_in_keys clear
get-run cache laws [] key s = refl
get-run cache laws (inserted now key' group name result ∷ ops) key s =
    get-run cache laws ops key (insert_endpoint_result cache now key' group name result s)
    ∙ ap (track_all s.maximum_number_of_results s.maximum_number_of_events key ops)
        (get-step cache laws (inserted now key' group name result) key s)
get-run cache laws (kept_only keys ∷ ops) key s =
    get-run cache laws ops key (delete_all_endpoint_statuses_not_in_keys cache keys s).0
    ∙ ap (track_all s.maximum_number_of_results s.maximum_number_of_events key ops)
        (get-step cache laws (kept_only keys) key s)
get-run cache laws (cleared ∷ ops) key s =
    get-run cache laws ops key (clear cache s)
    ∙ ap (track_all s.maximum_number_of_results s.maximum_number_of_events key ops)
        (get-step cache laws cleared key s)
