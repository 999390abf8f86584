-- ===== src/Batch/View.antt =====
-- The read view of BATCH_TASK and its merge with the row of the table
-- (model/ibatch/redis_view.go, and `syncOneTask` of model/ibatch/sync.go).
pub mod Terminal
use ai_gateway_api.Prelude.{
  ◌||◌, ℕ, ◌+◌, ◌*◌, String, false, [], ◌∷◌, Option, none, some, ◌==◌, if◌then◌else◌, Int64,
  lt_int64, parse_int,
}
use ai_gateway_api.Batch.Task.{
  Time, Counts, BatchTask, is_terminal_status, settle_status_reserved, sync_source_redis,
}
use ai_gateway_api.Batch.Store.{Rows, find_where, has_idem_key, upsert_batch_task, assign}
use ai_gateway_api.Batch.Redis.{Fields, field, h_get_all}
use ai_gateway_api.Batch.Usage.{Codec}
use ai_gateway_api.Batch.World.{
  redis_failed, store_failed, missing_task_status, empty_batch_id, Result, ok, err, ApiKey, Manager,
  World,
}

-- `redisTaskView`; a field that the hash does not carry is `none`.
pub record RedisTaskView : Type 0 where
  pub batch_id : String
  pub api_key_id : String
  pub provider : String
  pub key_name : String
  pub input_file_id : String
  pub output_file_id : Option String
  pub endpoint : Option String
  pub request_counts : Option Counts
  pub est_lines : Option Int64
  pub reserve_units : Option Int64
  pub status : String
  pub created_at : Option Time
  pub usage_in : Option Int64
  pub usage_out : Option Int64
  pub usage_source : String
  pub settle_units : Option Int64
  pub settle_status : String

non_empty : String → Option String
non_empty v = if v == "" then none else some v

-- `parseInt64Field`.
parse_int64_field : Fields → String → Option Int64
unfolding field parse_int
parse_int64_field vals k = if field k vals == "" then none else parse_int (field k vals)

filled : Option Counts → Option Counts
filled (some (c ∷ cs)) = some (c ∷ cs)
filled _ = none

-- `parseRequestCounts`: an empty or a malformed object is not carried.
parse_request_counts : Codec → String → Option Counts
unfolding filled
parse_request_counts codec raw = if raw == "" then none else filled (codec.decode_counts raw)

-- The seconds from Go's zero time to 1970.
abbrev unix_to_internal : ℕ
unix_to_internal = 62135596800

unix_time : Int64 → Option Time
unix_time sec = if lt_int64 0 sec then some ((unix_to_internal + sec) * 1000000000) else none

-- `parseUnixOrRFC3339`.
parse_unix_or_rfc3339 : Codec → String → Option Time
unfolding unix_time parse_int
parse_unix_or_rfc3339 codec raw =
    if raw == ""
    then none
    else elim (parse_int raw) [ some sec ↦ unix_time sec | none ↦ codec.parse_rfc3339 raw ]

reserved_field : Fields → Option Int64 → Option Int64
unfolding field
reserved_field vals (some units) = some units
reserved_field vals none = if field "reserved" vals == "1" then some 0 else none

-- `ParseRedisTaskView`.
unfoldable pub parse_redis_task_view : Codec → String → Fields → Result RedisTaskView
unfolding field non_empty parse_int64_field parse_request_counts parse_unix_or_rfc3339
    reserved_field
parse_redis_task_view codec batch_id vals =
    if batch_id == ""
    then err empty_batch_id
    else if field "status" vals == ""
    then err missing_task_status
    else ok (record {
      batch_id = batch_id;
      api_key_id = field "api_key_id" vals;
      provider =
          if field "provider" vals == "" then field "cluster" vals else field "provider" vals;
      key_name = field "key_name" vals;
      input_file_id = field "input_file_id" vals;
      output_file_id = non_empty (field "output_file_id" vals);
      endpoint = non_empty (field "endpoint" vals);
      request_counts = parse_request_counts codec (field "request_counts" vals);
      est_lines = parse_int64_field vals "est_lines";
      reserve_units = reserved_field vals (parse_int64_field vals "reserved_units");
      status = field "status" vals;
      created_at = parse_unix_or_rfc3339 codec (field "created_at" vals);
      usage_in = parse_int64_field vals "usage_in";
      usage_out = parse_int64_field vals "usage_out";
      usage_source = field "usage_source" vals;
      settle_units = parse_int64_field vals "settle_units";
      settle_status = field "settle_status" vals;
    })

task_of_view : Manager → RedisTaskView → ApiKey → BatchTask
task_of_view m view ak = record {
  id = 0;
  batch_id = view.batch_id;
  api_key_id = view.api_key_id;
  product_name = assign ak.product_name "";
  entity_id = assign ak.entity_id "";
  provider = view.provider;
  key_name = view.key_name;
  endpoint = assign view.endpoint "";
  input_file_id = view.input_file_id;
  output_file_id = assign view.output_file_id "";
  status = view.status;
  request_counts = view.request_counts;
  est_lines = assign view.est_lines 0;
  usage_input_tokens = assign view.usage_in 0;
  usage_output_tokens = assign view.usage_out 0;
  usage_source = view.usage_source;
  reserve_units = assign view.reserve_units 0;
  settle_units = assign view.settle_units 0;
  settle_status = if view.settle_status == "" then settle_status_reserved else view.settle_status;
  over_reserved = false;
  sync_source = sync_source_redis;
  idem_key = view.batch_id;
  created_at = assign view.created_at 0;
  updated_at = 0;
  terminal_at = if is_terminal_status view.status then some m.now else none;
}

resolved_task : Manager → RedisTaskView → Result (Option ApiKey) → Result (Option BatchTask)
unfolding task_of_view
resolved_task m view (err e) = err e
resolved_task m view (ok none) = ok none
resolved_task m view (ok (some ak)) = ok (some (task_of_view m view ak))

-- `applyTaskView`: `none` where the API key is gone.
unfoldable pub apply_task_view : Manager → RedisTaskView → Result (Option BatchTask)
unfolding resolved_task
apply_task_view m view = resolved_task m view (m.api_keys view.api_key_id)

abbrev or_existing : String → String → String
or_existing new old = if new == "" then old else new

abbrev or_existing_counts : Option Counts → Option Counts → Option Counts
or_existing_counts none old = old
or_existing_counts (some m) old = some m

-- The merge up to the status: what the hash does not carry keeps the row's value.
merge_fields : BatchTask → BatchTask → RedisTaskView → BatchTask
merge_fields existing incoming view = record incoming {
  id = existing.id;
  idem_key = existing.idem_key;
  batch_id = existing.batch_id;
  api_key_id = or_existing incoming.api_key_id existing.api_key_id;
  product_name = or_existing incoming.product_name existing.product_name;
  entity_id = or_existing incoming.entity_id existing.entity_id;
  provider = or_existing incoming.provider existing.provider;
  key_name = or_existing incoming.key_name existing.key_name;
  input_file_id = or_existing incoming.input_file_id existing.input_file_id;
  output_file_id = or_existing incoming.output_file_id existing.output_file_id;
  endpoint = or_existing incoming.endpoint existing.endpoint;
  usage_source = or_existing incoming.usage_source existing.usage_source;
  request_counts = or_existing_counts incoming.request_counts existing.request_counts;
  sync_source = or_existing existing.sync_source incoming.sync_source;
  est_lines = assign view.est_lines existing.est_lines;
  reserve_units = assign view.reserve_units existing.reserve_units;
  usage_input_tokens = assign view.usage_in existing.usage_input_tokens;
  usage_output_tokens = assign view.usage_out existing.usage_output_tokens;
  settle_units = assign view.settle_units existing.settle_units;
  settle_status =
      if view.settle_status == "" then existing.settle_status else incoming.settle_status;
  created_at = assign view.created_at existing.created_at;
}

merge_status : BatchTask → BatchTask → Time → BatchTask
merge_status existing merged now =
    if is_terminal_status existing.status
    then record merged { status = existing.status; terminal_at = existing.terminal_at }
    else if is_terminal_status merged.status
    then record merged { terminal_at = some now }
    else merged

-- `mergeTaskForSync`.
unfoldable pub merge_task_for_sync : Option BatchTask → BatchTask → RedisTaskView → Time → BatchTask
unfolding merge_fields merge_status
merge_task_for_sync none incoming view now =
    if is_terminal_status incoming.status
    then record incoming { terminal_at = some now }
    else incoming
merge_task_for_sync (some existing) incoming view now =
    merge_status existing (merge_fields existing incoming view) now

-- The outcome of the synchronisation of one key: written, nothing there, or skipped because the
-- API key is gone.
pub data Synced : Type 0 where
  written vanished skipped : Synced

upserted : World → Option Rows → World × Result Synced
upserted w none = (w, err store_failed)
upserted w (some rows) = (record w { rows = rows; next_id = w.next_id + 1 }, ok written)

sync_incoming : Manager → RedisTaskView → World → Result (Option BatchTask) → World × Result Synced
unfolding upserted
sync_incoming m view w (err e) = (w, err e)
sync_incoming m view w (ok none) = (w, ok skipped)
sync_incoming m view w (ok (some incoming)) =
    if m.store_read_fails view.batch_id || m.store_write_fails view.batch_id
    then (w, err store_failed)
    else let existing = find_where (has_idem_key view.batch_id) w.rows in
      let merged = merge_task_for_sync existing incoming view m.now in
      upserted w (upsert_batch_task w.next_id merged m.now w.rows)

sync_view : Manager → World → Result RedisTaskView → World × Result Synced
unfolding sync_incoming
sync_view m w (err e) = (w, err e)
sync_view m w (ok view) = sync_incoming m view w (apply_task_view m view)

sync_fields : Manager → String → World → Fields → World × Result Synced
unfolding sync_view
sync_fields m batch_id w [] = (w, ok vanished)
sync_fields m batch_id w (f ∷ fs) = sync_view m w (parse_redis_task_view m.codec batch_id (f ∷ fs))

-- `syncOneTask`.
unfoldable pub sync_one_task : Manager → String → World → World × Result Synced
unfolding sync_fields
sync_one_task m batch_id w =
    if m.h_get_fails batch_id
    then (w, err redis_failed)
    else sync_fields m batch_id w (h_get_all batch_id w.redis.tasks)
