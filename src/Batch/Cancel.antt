-- ===== src/Batch/Cancel.antt =====
-- The cancellation of a batch (model/ibatch/cancel.go) and the lookup of its task (`FetchTask`
-- of model/ibatch/manager.go, `FetchBatchTask` of storage/rdb/batch/batch_task.go).
pub mod Accept
pub mod Outcome
use ai_gateway_api.Prelude.{
  ℕ, ◌+◌, String, Bool, true, false, not, ◌&&◌, ◌||◌, List, [], ◌∷◌, ◌++◌, Option, none, some, ◌==◌,
  nat_eq, if◌then◌else◌,
}
use ai_gateway_api.Batch.Task.{BatchTask, task_status_cancelling}
use ai_gateway_api.Batch.Store.{Rows, find_where, preempt_batch_task_cancel, upsert_batch_task}
use ai_gateway_api.Batch.Redis.{Fields, h_get_all}
use ai_gateway_api.Batch.Reserve.{release_reserve}
use ai_gateway_api.Batch.View.{RedisTaskView, parse_redis_task_view, apply_task_view}
use ai_gateway_api.Batch.Provider.{resolve_provider_access}
use ai_gateway_api.Batch.Advance.{cancel_url, post_provider_cancel}
use ai_gateway_api.Batch.World.{
  Error, redis_failed, store_failed, batch_not_found, batch_conflict, Result, ok, err,
  ProviderAccess, Manager, World,
}

unfoldable pub is_task : String → String → BatchTask → Bool
is_task batch_id product_name t = t.batch_id == batch_id && t.product_name == product_name

-- A task of another product is a miss.
of_product : String → Result (Option BatchTask) → Result (Option BatchTask)
of_product product_name (err e) = err e
of_product product_name (ok none) = ok none
of_product product_name (ok (some t)) =
    if t.product_name == product_name then ok (some t) else ok none

-- A hash that does not parse is a miss.
fetch_view : Manager → String → Result RedisTaskView → Result (Option BatchTask)
unfolding of_product
fetch_view m product_name (err e) = ok none
fetch_view m product_name (ok view) = of_product product_name (apply_task_view m view)

fetch_fields : Manager → String → String → Fields → Result (Option BatchTask)
unfolding fetch_view
fetch_fields m batch_id product_name [] = ok none
fetch_fields m batch_id product_name (f ∷ fs) =
    fetch_view m product_name (parse_redis_task_view m.codec batch_id (f ∷ fs))

fetch_fallback : Manager → String → String → Bool → World → Result (Option BatchTask)
unfolding fetch_fields
fetch_fallback m batch_id product_name allowed w =
    if not allowed || not m.has_redis
    then ok none
    else if m.h_get_fails batch_id
    then err redis_failed
    else fetch_fields m batch_id product_name (h_get_all batch_id w.redis.tasks)

fetch_row : Manager → String → String → Bool → World → Option BatchTask → Result (Option BatchTask)
unfolding fetch_fallback
fetch_row m batch_id product_name allowed w (some t) = ok (some t)
fetch_row m batch_id product_name allowed w none = fetch_fallback m batch_id product_name allowed w

-- `FetchTask`: the row of the table, else the hash in Redis where that is allowed.
unfoldable pub fetch_task : Manager → String → String → Bool → World → Result (Option BatchTask)
unfolding fetch_row is_task
fetch_task m batch_id product_name allowed w =
    if m.store_read_fails batch_id
    then err store_failed
    else fetch_row m batch_id product_name allowed w
        (find_where (is_task batch_id product_name) w.rows)

-- `recordCancelOperation`.
unfoldable pub record_cancel_operation : String → String → Option Error → World → World
record_cancel_operation batch_id prev_status failure w = record w {
  operations =
      w.operations
      ++ (record { batch_id = batch_id; prev_status = prev_status; failure = failure }) ∷ [];
}

abbrev pub fail_with : String → String → Error → World → World × Result BatchTask
fail_with batch_id prev e w = (record_cancel_operation batch_id prev (some e) w, err e)

-- The release, whose failure is only logged.
released : Manager → String → World → World
unfolding release_reserve
released m batch_id w =
    if m.has_redis then record w { redis = (release_reserve m batch_id w.redis).0 } else w

finish_cancel :
    Manager → String → BatchTask → String → World × Option Error → World × Result BatchTask
unfolding released record_cancel_operation
finish_cancel m batch_id task prev (w, some e) = fail_with batch_id prev e w
finish_cancel m batch_id task prev (w, none) = (
  record_cancel_operation batch_id prev none (released m batch_id w),
  ok (record task { status = task_status_cancelling }),
)

send_cancel :
    Manager → String → BatchTask → String → World → Result ProviderAccess → World × Result BatchTask
unfolding finish_cancel post_provider_cancel cancel_url
send_cancel m batch_id task prev w (err e) = fail_with batch_id prev e w
send_cancel m batch_id task prev w (ok access) =
    finish_cancel m batch_id task prev
      (post_provider_cancel m access (cancel_url access batch_id) w)

-- The steps after a cancellation was accepted, and those of a replay.
unfoldable pub reach_provider :
    Manager → String → BatchTask → String → World → World × Result BatchTask
unfolding send_cancel
reach_provider m batch_id task prev w =
    send_cancel m batch_id task prev w (resolve_provider_access m task.provider task.key_name)

-- `cancelReplay`.
unfoldable pub cancel_replay : Manager → BatchTask → World → World × Result BatchTask
unfolding reach_provider
cancel_replay m task w = reach_provider m task.batch_id task task_status_cancelling w

unfoldable pub preempt : Manager → String → String → World → World × Result ℕ
unfolding preempt_batch_task_cancel
preempt m batch_id product_name w =
    if m.store_write_fails batch_id
    then (w, err store_failed)
    else let (rows, affected) = preempt_batch_task_cancel batch_id product_name m.now w.rows in
      (record w { rows = rows }, ok affected)

-- A task that was read from Redis is entered in the table, and the claim tried again.
enter_task : Manager → String → String → World → Option Rows → World × Result ℕ
unfolding preempt
enter_task m batch_id product_name w none = (w, ok 0)
enter_task m batch_id product_name w (some rows) =
    preempt m batch_id product_name (record w { rows = rows; next_id = w.next_id + 1 })

unfoldable pub preempt_again : Manager → String → String → BatchTask → World → World × Result ℕ
unfolding enter_task upsert_batch_task
preempt_again m batch_id product_name task w =
    if nat_eq task.id 0 && not (m.store_write_fails batch_id)
    then enter_task m batch_id product_name w (upsert_batch_task w.next_id task m.now w.rows)
    else (w, ok 0)

replay_or_conflict :
    Manager → String → String → World → Result (Option BatchTask) → World × Result BatchTask
unfolding cancel_replay
replay_or_conflict m batch_id prev w (ok (some cur)) =
    if cur.status == task_status_cancelling
    then cancel_replay m cur w
    else fail_with batch_id prev (batch_conflict batch_id) w
replay_or_conflict m batch_id prev w _ = fail_with batch_id prev (batch_conflict batch_id) w

-- After the second claim.
preempted_again :
    Manager → String → String → BatchTask → World × Result ℕ → World × Result BatchTask
unfolding replay_or_conflict reach_provider
preempted_again m batch_id product_name task (w, err e) = fail_with batch_id task.status e w
preempted_again m batch_id product_name task (w, ok affected) =
    if nat_eq affected 0
    then replay_or_conflict m batch_id task.status w (fetch_task m batch_id product_name false w)
    else reach_provider m batch_id task task.status w

-- After the first claim.
preempted : Manager → String → String → BatchTask → World × Result ℕ → World × Result BatchTask
unfolding preempted_again preempt_again reach_provider
preempted m batch_id product_name task (w, err e) = fail_with batch_id task.status e w
preempted m batch_id product_name task (w, ok affected) =
    if nat_eq affected 0
    then preempted_again m batch_id product_name task (preempt_again m batch_id product_name task w)
    else reach_provider m batch_id task task.status w

cancel_task :
    Manager → String → String → World → Result (Option BatchTask) → World × Result BatchTask
unfolding preempted preempt
cancel_task m batch_id product_name w (err e) = fail_with batch_id "" e w
cancel_task m batch_id product_name w (ok none) = fail_with batch_id "" batch_not_found w
cancel_task m batch_id product_name w (ok (some task)) =
    preempted m batch_id product_name task (preempt m batch_id product_name w)

-- `Cancel`.
unfoldable pub cancel : Manager → String → String → World → World × Result BatchTask
unfolding cancel_task
cancel m batch_id product_name w =
    cancel_task m batch_id product_name w (fetch_task m batch_id product_name true w)
