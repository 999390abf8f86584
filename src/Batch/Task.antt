-- ===== src/Batch/Task.antt =====
-- The task and file rows, their statuses and the patches (model/ibatch/types.go).
-- A time is a number of nanoseconds since Go's zero time, so that 0 is the time whose `IsZero`
-- holds; a nil map of request counts is `none`.
use ai_gateway_api.Prelude.{
  ℕ, String, Bool, List, [], ◌∷◌, Option, none, some, ◌&&◌, length, nat_eq, lookup, elem,
  if◌then◌else◌, Int64,
}
use ai_gateway_api.Prelude.{true, false}

abbrev pub Time : Type 0
Time = ℕ

abbrev pub Counts : Type 0
Counts = List (String × Int64)

abbrev pub task_status_in_progress : String
task_status_in_progress = "in_progress"

abbrev pub task_status_completed : String
task_status_completed = "completed"

abbrev pub task_status_expired : String
task_status_expired = "expired"

abbrev pub task_status_failed : String
task_status_failed = "failed"

abbrev pub task_status_cancelled : String
task_status_cancelled = "cancelled"

abbrev pub task_status_cancelling : String
task_status_cancelling = "cancelling"

abbrev pub terminal_statuses : List String
terminal_statuses =
    task_status_completed ∷ task_status_expired ∷ task_status_failed ∷ task_status_cancelled ∷ []

unfoldable pub is_terminal_status : String → Bool
is_terminal_status status = elem status terminal_statuses

abbrev pub settle_status_reserved : String
settle_status_reserved = "reserved"

abbrev pub settle_status_settled : String
settle_status_settled = "settled"

abbrev pub settle_status_released : String
settle_status_released = "released"

abbrev pub usage_source_reconcile : String
usage_source_reconcile = "reconcile"

abbrev pub sync_source_redis : String
sync_source_redis = "redis"

abbrev pub file_direction_input : String
file_direction_input = "input"

abbrev pub file_direction_output : String
file_direction_output = "output"

-- A row of batch_tasks. An id of 0 is a task that was read from Redis and is not in the table.
pub record BatchTask : Type 0 where
  pub id : ℕ
  pub batch_id : String
  pub api_key_id : String
  pub product_name : String
  pub entity_id : String
  pub provider : String
  pub key_name : String
  pub endpoint : String
  pub input_file_id : String
  pub output_file_id : String
  pub status : String
  pub request_counts : Option Counts
  pub est_lines : Int64
  pub usage_input_tokens : Int64
  pub usage_output_tokens : Int64
  pub usage_source : String
  pub reserve_units : Int64
  pub settle_units : Int64
  pub settle_status : String
  pub over_reserved : Bool
  pub sync_source : String
  pub idem_key : String
  pub created_at : Time
  pub updated_at : Time
  pub terminal_at : Option Time

-- A row of batch_files.
pub record BatchFile : Type 0 where
  pub id : ℕ
  pub file_id : String
  pub provider : String
  pub key_name : String
  pub api_key_id : String
  pub product_name : String
  pub direction : String
  pub purpose : String
  pub filename : String
  pub lines : Int64
  pub bytes : Int64
  pub first_seen_at : Option Time
  pub last_seen_at : Option Time
  pub created_at : Time
  pub updated_at : Time

-- The partial update of the status job; `none` is a field that is not written.
pub record BatchTaskProgressPatch : Type 0 where
  pub status : Option String
  pub output_file_id : Option String
  pub endpoint : Option String
  pub request_counts : Option Counts
  pub terminal_at : Option Time

-- The write of a settlement or a release.
pub record BatchSettlePatch : Type 0 where
  pub settle_status : String
  pub settle_units : Option Int64
  pub usage_input_tokens : Option Int64
  pub usage_output_tokens : Option Int64
  pub usage_source : Option String
  pub over_reserved : Option Bool
  pub terminal_at : Option Time

-- `len` and the entries of a map that may be nil.
abbrev pub counts_of : Option Counts → Counts
counts_of none = []
counts_of (some m) = m

abbrev has_count : Counts → String → Int64 → Bool
has_count b k v = elim (lookup k b) [ none ↦ false | some bv ↦ nat_eq bv v ]

covers : Counts → Counts → Bool
covers [] b = true
covers ((k, v) ∷ a) b = if has_count b k v then covers a b else false

-- `equalCounts`: as many entries, and each entry of the first in the second.
unfoldable pub equal_counts : Option Counts → Option Counts → Bool
unfolding covers
equal_counts a b =
    nat_eq (length (counts_of a)) (length (counts_of b)) && covers (counts_of a) (counts_of b)
