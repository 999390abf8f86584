-- ===== src/Batch/Keys.antt =====
-- The texts of the Redis keys of batch tasks and files (model/ibatch/redis_keys.go).
use Prim.Native.String
use ai_gateway_api.Prelude.{String, Option, none, some, ◌==◌, ◌||◌, if◌then◌else◌, cut_prefix, cut}
pub mod RoundTrip

abbrev pub batch_task_key_prefix : String
batch_task_key_prefix = "BATCH_TASK:"

abbrev pub batch_file_key_prefix : String
batch_file_key_prefix = "BATCH_FILE:"

unfoldable pub batch_task_key : String → String
batch_task_key batch_id = String.◌++◌ batch_task_key_prefix batch_id

unfoldable pub non_empty_id : Option String → Option String
non_empty_id none = none
non_empty_id (some id) = if id == "" then none else some id

unfoldable pub parse_batch_task_key : String → Option String
unfolding non_empty_id cut_prefix
parse_batch_task_key key = non_empty_id (cut_prefix batch_task_key_prefix key)

unfoldable pub batch_file_key : String → String → String
batch_file_key partition file_id =
    String.◌++◌ batch_file_key_prefix (String.◌++◌ partition (String.◌++◌ ":" file_id))

unfoldable pub both_given : Option (String × String) → Option (String × String)
both_given none = none
both_given (some (partition, file_id)) =
    if partition == "" || file_id == "" then none else some (partition, file_id)

unfoldable pub parts_of : Option String → Option (String × String)
unfolding both_given cut
parts_of none = none
parts_of (some rest) = both_given (cut ":" rest)

unfoldable pub parse_batch_file_key : String → Option (String × String)
unfolding parts_of cut_prefix
parse_batch_file_key key = parts_of (cut_prefix batch_file_key_prefix key)
