-- ===== src/Tests/Keys.antt =====
-- Examples of the Redis keys of batches.
use ai_gateway_api.Prelude.{◌≡◌, ◌↔◌, refl, false, some, none, ◌==◌, Lacks}
use ai_gateway_api.Batch.Keys.{parse_batch_file_key, batch_file_key, parse_batch_task_key}
use ai_gateway_api.Batch.Keys.RoundTrip.{parse_batch_file_key-batch_file_key}

parse_file : parse_batch_file_key "BATCH_FILE:c1:file:9" ≡ some ("c1", "file:9")
unfolding parse_batch_file_key
parse_file = refl

no_partition : parse_batch_file_key "BATCH_FILE::f" ≡ none
unfolding parse_batch_file_key
no_partition = refl

parse_batch_file_key-batch_file_key_example :
    (parse_batch_file_key "BATCH_FILE:c1:f9" ≡ some ("c1", "f9")) ↔ (
      ("BATCH_FILE:c1:f9" ≡ batch_file_key "c1" "f9")
      × Lacks ":" "c1"
      × ("c1" == "" ≡ false)
      × ("f9" == "" ≡ false))
parse_batch_file_key-batch_file_key_example =
    parse_batch_file_key-batch_file_key "BATCH_FILE:c1:f9" "c1" "f9"

parse_task : parse_batch_task_key "BATCH_TASK:b" ≡ some "b"
unfolding parse_batch_task_key
parse_task = refl
