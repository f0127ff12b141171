-- ===== src/Result.antt =====
-- internal/config/endpoint/result.go, event.go, status.go and uptime.go: the results of the checks
-- of an endpoint, and what a storage keeps of them.
use go_uptime.Clock.{Time, Duration}
pub mod Truncation
mod Examples
use go_uptime.Common.{
  ℕ, zero, suc, ◌/◌, ◌==◌, leb, length, take, get_or, not, true, false, Bytes, String, Bool, List,
  [], ◌∷◌, ◌++◌, contains, if◌then◌else◌, bytes_eq,
}
use go_uptime.Common.Int.{ℤ}

-- The fields that the modelled code reads or writes. The fields that only the evaluation of the
-- conditions and the serialization use are left out.
pub record Result : Type 0 where
  pub duration : Duration
  pub errors : List Bytes
  pub message : Bytes
  pub origin : String
  pub pending : Bool
  pub success : Bool
  pub timestamp : Time

-- `utf8.RuneStart`: the byte does not continue a character.
unfoldable pub rune_start : ℕ → Bool
rune_start b = not (b / 64 == 2)

abbrev pub maximum_result_message_length : ℕ
maximum_result_message_length = 1024

-- The loop over `cut`, which stops at a byte that starts a character.
unfoldable pub cut_before : ℕ → Bytes → ℕ
unfolding rune_start
cut_before zero message = zero
cut_before (suc cut) message = elim (rune_start (get_or message (suc cut) 0)) [
  | true ↦ suc cut
  | false ↦ cut_before cut message
]

-- `TruncateResultMessage` of result_push.go.
unfoldable pub truncate_result_message : Bytes → Bytes
truncate_result_message message =
    if leb (length message) maximum_result_message_length
    then message
    else take (cut_before maximum_result_message_length message) message

-- `strings.Join(list, separator)`
unfoldable pub join : Bytes → List Bytes → Bytes
join separator [] = []
join separator (x ∷ []) = x
join separator (x ∷ y ∷ rest) = x ++ (separator ++ join separator (y ∷ rest))

-- `AddError`: an error is listed once.
unfoldable pub add_error : Bytes → Result → Result
unfolding contains
add_error text r = if contains r.errors text then r else record r { errors = r.errors ++ text ∷ [] }

pub data EventType : Type 0 where
  start healthy unhealthy : EventType

pub record Event : Type 0 where
  pub type : EventType
  pub timestamp : Time

unfoldable pub new_event_from_result : Result → Event
new_event_from_result r = record {
  type = if r.success then EventType.healthy else unhealthy;
  timestamp = r.timestamp;
}

pub record HourlyUptimeStatistics : Type 0 where
  pub total_executions : ℕ  -- uint64
  pub successful_executions : ℕ  -- uint64
  pub total_executions_response_time : ℕ  -- uint64, in milliseconds

abbrev pub HourlyStatistics : Type 0
HourlyStatistics = List (ℤ × HourlyUptimeStatistics)

pub record Status : Type 0 where
  pub name : String
  pub group : String
  pub key : String
  pub results : List Result
  pub events : List Event
  pub uptime : HourlyStatistics

-- The key is computed by `key.ConvertGroupAndNameToKey`.
unfoldable pub new_status : String → String → String → Status
new_status key group name = record {
  name = name;
  group = group;
  key = key;
  results = [];
  events = [];
  uptime = [];
}
