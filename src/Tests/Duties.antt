-- ===== src/Tests/Duties.antt =====
-- Examples of the rounds and of the cancellation.
use ai_gateway_api.Prelude.{arith, ◌≡◌, refl, List, [], ◌∷◌, none, some}
use ai_gateway_api.Batch.Task.{
  BatchTask, is_terminal_status, task_status_cancelling, task_status_completed,
}
use ai_gateway_api.Batch.Store.{find_where, preempt_batch_task_cancel}
use ai_gateway_api.Batch.Advance.{advance_one_task}
use ai_gateway_api.Batch.Advance.Transitions.{Transitions, advance_one_task-Transitions}
use ai_gateway_api.Batch.Backfill.{backfill_one_task}
use ai_gateway_api.Batch.Backfill.Filled.{AllFilled, backfill_one_task-Filled}
use ai_gateway_api.Batch.Cancel.{cancel, is_task}
use ai_gateway_api.Batch.Store.Moves.{Move, settle, preempt, run_moves}
use ai_gateway_api.Batch.Store.Claimed.{preempt_batch_task_cancel-once}
use ai_gateway_api.Batch.Cancel.Accept.{ClosedOutcome, cancel-ClosedOutcome}
use ai_gateway_api.Batch.Cancel.Outcome.{Outcome, cancel-Outcome}
use ai_gateway_api.Batch.Reconcile.{reconcile_settle}
use ai_gateway_api.Batch.Reconcile.Once.{AllOnce, reconcile_settle-once}
use ai_gateway_api.Tests.{manager, task, world_of}

abbrev completed : BatchTask
completed = record task { status = task_status_completed }

abbrev cancelling : BatchTask
cancelling = record task { status = task_status_cancelling }

advance_one_task-Transitions_example :
    Transitions 1000 (task ∷ []) (advance_one_task manager task (world_of task)).0.rows
unfolding is_terminal_status
advance_one_task-Transitions_example =
    advance_one_task-Transitions manager task (world_of task) refl ((λ same. refl), tt)

backfill_one_task-Filled_example :
    AllFilled (completed ∷ []) (backfill_one_task manager completed (world_of completed)).0.rows
backfill_one_task-Filled_example =
    backfill_one_task-Filled manager completed (world_of completed)
      ((λ same. (refl, refl, refl)), tt)

-- Between the two claims another batch is claimed, and the task is settled.
abbrev between : List Move
between =
    preempt "b2" "product" 8
    ∷ settle "b1" "product"
        (record {
          settle_status = "settled";
          settle_units = some 3;
          usage_input_tokens = none;
          usage_output_tokens = none;
          usage_source = none;
          over_reserved = none;
          terminal_at = none;
        })
        9
    ∷ []

preempt_batch_task_cancel-once_example :
    let later = run_moves between (preempt_batch_task_cancel "b1" "product" 7 (task ∷ [])).0 in
    preempt_batch_task_cancel "b1" "product" 10 later ≡ (later, 0)
preempt_batch_task_cancel-once_example =
    preempt_batch_task_cancel-once "b1" "product" 7 10 between (task ∷ []) (tt, (tt, tt))

cancel-ClosedOutcome_example :
    ClosedOutcome "b1" "cancelling"
      (world_of cancelling)
      (cancel manager "b1" "product" (world_of cancelling))
unfolding find_where is_task
cancel-ClosedOutcome_example =
    cancel-ClosedOutcome manager "b1" "product" (world_of cancelling) cancelling refl refl refl
      (λ e. omega (arith, e)) ((λ found. refl), tt)

cancel-Outcome_example : Outcome [] [] (cancel manager "b1" "product" (world_of task))
cancel-Outcome_example = cancel-Outcome manager "b1" "product" (world_of task)

reconcile_settle-once_example :
    AllOnce (completed ∷ []) (reconcile_settle manager (world_of completed)).0.rows
reconcile_settle-once_example = reconcile_settle-once manager (world_of completed)
