-- ===== src/Managed/Service/Runs.antt =====
-- internal/managedendpoint/service.go: what holds after any changes, one after the other.
use go_uptime.Managed.Service.{Env, World}
use go_uptime.Managed.Service.Changes.{update}
use go_uptime.Managed.Service.Entries.{set_enabled, delete_endpoint, create}
use go_uptime.Managed.Service.Changes.Written.{IsStored}
use go_uptime.Managed.Service.Changes.Stored.{
  update-IsStored, set_enabled-IsStored, delete_endpoint-IsStored, create-IsStored,
}
use go_uptime.Common.{ℕ, String, Bool}

-- The changes that the administration makes, each with the mutex of the states held.
pub data Reaches : World → World → Type 0 where
  here : {w : World} → Reaches w w
  then_update :
      {w v : World} (env : Env) (key raw : String) (expected : ℕ) (author : String)
      → Reaches w v
      → Reaches w (update env key raw expected author v).1
  then_set_enabled :
      {w v : World} (env : Env) (key : String) (enabled : Bool) (expected : ℕ) (author : String)
      → Reaches w v
      → Reaches w (set_enabled env key enabled expected author v).1
  then_delete :
      {w v : World} (env : Env) (key : String) (expected : ℕ)
      → Reaches w v
      → Reaches w (delete_endpoint env key expected v).1
  then_create :
      {w v : World} (env : Env) (generate_token : Bool) (raw author : String)
      → Reaches w v
      → Reaches w (create env generate_token raw author v).1

-- After any changes, successful or not and with any failures of the storage, the snapshot has a
-- state for exactly the rows of the table of the managed endpoints, and what a state says is stored
-- is the row, its version and its times included, when that was so before them.
pub IsStored-Reaches : {w v : World} → Reaches w v → IsStored w → IsStored v
IsStored-Reaches here ok = ok
IsStored-Reaches (then_update {v = v} env key raw expected author before) ok =
    update-IsStored env key expected author v (IsStored-Reaches before ok) raw
IsStored-Reaches (then_set_enabled {v = v} env key enabled expected author before) ok =
    set_enabled-IsStored env key expected author v (IsStored-Reaches before ok) enabled
IsStored-Reaches (then_delete {v = v} env key expected before) ok =
    delete_endpoint-IsStored env key expected "" v (IsStored-Reaches before ok)
IsStored-Reaches (then_create {v = v} env generate_token raw author before) ok =
    create-IsStored env "" 0 author v (IsStored-Reaches before ok) generate_token raw
