-- ===== src/Tests/Batch.antt =====
-- Examples of the settlement, the reservation and the synchronisation.
use ai_gateway_api.Prelude.{
  ◌≡◌, ◌≢◌, eq_iff, refl, ◌+◌, ◌-◌, String, true, false, List, [], ◌∷◌, none, some, lookup,
}
use ai_gateway_api.Batch.Task.{
  BatchTask, BatchSettlePatch, is_terminal_status, task_status_cancelling, task_status_completed,
  settle_status_reserved, settle_status_settled, settle_status_released,
}
use ai_gateway_api.Batch.Store.{find_where}
use ai_gateway_api.Batch.Store.Moves.{
  Move, settle, preempt, settlements, reserved_rows, run_moves, settlements-reserved_rows,
}
use ai_gateway_api.Batch.Redis.{mirror, h_get_all, set_nx_settled}
use ai_gateway_api.Batch.Provider.{resolve_provider_access}
use ai_gateway_api.Batch.Usage.{no_usage, parse_jsonl_usage, is_blank}
use ai_gateway_api.Batch.Usage.Lines.{handle_lines, split_lines, parse_jsonl_usage-lines}
use ai_gateway_api.Batch.World.{download_failed, Manager}
use ai_gateway_api.Batch.Reserve.{release_reserve}
use ai_gateway_api.Batch.Reserve.Mirror.{
  owed, release_reserve-mirror, release_reserve_twice, release_reserve_retry,
}
use ai_gateway_api.Batch.Settle.{Round, settle_one_task, resolve_provider_access_cached}
use ai_gateway_api.Batch.Settle.Claim.{settle_one_task-claim}
use ai_gateway_api.Batch.Settle.Frozen.{AllFrozen, settle_one_task-frozen}
use ai_gateway_api.Batch.View.{RedisTaskView, merge_task_for_sync, sync_one_task}
use ai_gateway_api.Batch.View.Terminal.{AllKeepTerminal, sync_one_task-terminal}
use ai_gateway_api.Tests.{codec, manager, task, redis, world_of}

abbrev patch_to : String → BatchSettlePatch
patch_to status = record {
  settle_status = status;
  settle_units = some 3;
  usage_input_tokens = none;
  usage_output_tokens = none;
  usage_source = none;
  over_reserved = none;
  terminal_at = none;
}

-- The settlement comes before the release.
abbrev moves : List Move
moves =
    preempt "b1" "product" 5
    ∷ settle "b1" "product" (patch_to settle_status_settled) 6
    ∷ settle "b1" "product" (patch_to settle_status_released) 7
    ∷ []

settled-leaves : settle_status_settled ≢ settle_status_reserved
settled-leaves e =
    let same : false ≡ true = (eq_iff settle_status_settled settle_status_reserved).1 e in cc same

released-leaves : settle_status_released ≢ settle_status_reserved
released-leaves e =
    let same : false ≡ true = (eq_iff settle_status_released settle_status_reserved).1 e in cc same

settlements-reserved_rows_example :
    settlements "b1" "product" moves (task ∷ [])
      + reserved_rows "b1" "product" (run_moves moves (task ∷ []))
    ≡ reserved_rows "b1" "product" (task ∷ [])
settlements-reserved_rows_example =
    settlements-reserved_rows "b1" "product" moves (task ∷ [])
      (tt, (settled-leaves, (released-leaves, tt)))

abbrev done : BatchTask
done = record task { status = task_status_completed; output_file_id = "f1" }

abbrev round : Round
round = record { cache = []; world = world_of done }

-- The download fails.
settle_one_task-claim_example :
    lookup "b1" (settle_one_task manager done round).0.world.redis.settled ≡ none
unfolding settle_one_task lookup set_nx_settled resolve_provider_access_cached
    resolve_provider_access
settle_one_task-claim_example =
    settle_one_task-claim manager done refl round download_failed refl refl

settle_one_task-frozen_example :
    AllFrozen done (done ∷ []) (settle_one_task manager done round).0.world.rows
settle_one_task-frozen_example = settle_one_task-frozen manager done round

-- Two lines, the second without an end.
parse_jsonl_usage-lines_example :
    (parse_jsonl_usage codec 100 (b'{' ∷ b'\n' ∷ b'}' ∷ []) false no_usage
      ≡ some (handle_lines codec 100 (split_lines (b'{' ∷ b'\n' ∷ b'}' ∷ [])) no_usage))
    × (parse_jsonl_usage codec 100 (b'{' ∷ b'\n' ∷ b'}' ∷ []) true no_usage ≡ none)
unfolding is_blank
parse_jsonl_usage-lines_example =
    parse_jsonl_usage-lines codec 100 (b'{' ∷ b'\n' ∷ b'}' ∷ []) no_usage refl

release_reserve-mirror_example :
    let (r', failure) = release_reserve manager "b1" redis in
    (mirror "plan" r'.mirrors
      ≡ mirror "plan" redis.mirrors - owed "plan" (h_get_all "b1" redis.books))
    × (h_get_all "b1" r'.books ≡ [])
    × (failure ≡ none)
release_reserve-mirror_example = release_reserve-mirror manager "b1" "plan" redis refl refl

release_reserve_twice_example :
    release_reserve manager "b1" (release_reserve manager "b1" redis).0
    ≡ ((release_reserve manager "b1" redis).0, none)
release_reserve_twice_example = release_reserve_twice manager manager "b1" redis refl refl refl

abbrev stuck : Manager
stuck = record manager { book_delete_fails = λ id. true }

release_reserve_retry_example :
    mirror "plan" (release_reserve manager "b1" (release_reserve stuck "b1" redis).0).0.mirrors
    ≡ mirror "plan" redis.mirrors
      - (owed "plan" (h_get_all "b1" redis.books) + owed "plan" (h_get_all "b1" redis.books))
release_reserve_retry_example =
    release_reserve_retry stuck manager "b1" "plan" redis refl refl refl refl refl

sync_one_task-terminal_example :
    AllKeepTerminal (done ∷ []) (sync_one_task manager "b1" (world_of done)).0.rows
sync_one_task-terminal_example =
    sync_one_task-terminal manager "b1" (world_of done) (unfold find_where in (refl, tt))

abbrev view : RedisTaskView
view = record {
  batch_id = "b1";
  api_key_id = "k1";
  provider = "p";
  key_name = "";
  input_file_id = "f0";
  output_file_id = none;
  endpoint = none;
  request_counts = none;
  est_lines = none;
  reserve_units = none;
  status = "in_progress";
  created_at = none;
  usage_in = none;
  usage_out = none;
  usage_source = "";
  settle_units = none;
  settle_status = "";
}

-- The status that Redis still holds is written over a row that is cancelling.
cancelling_lost :
    (merge_task_for_sync
      (some (record task { status = task_status_cancelling }))
      task
      view
      9).status
    ≡ "in_progress"
unfolding merge_task_for_sync is_terminal_status
cancelling_lost = refl
