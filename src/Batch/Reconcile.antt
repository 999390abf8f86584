-- ===== src/Batch/Reconcile.antt =====
-- The rounds over the table: `AdvanceStatus` and `BackfillTerminalArtifacts` of
-- model/ibatch/advance.go, `ReconcileSettle` of model/ibatch/settle.go, and `ListBatchTasks` of
-- storage/rdb/batch/batch_task.go. The rows stand in the order of their numbers, which is the
-- order of a listing.
pub mod Once
use ai_gateway_api.Prelude.{
  ℕ, zero, suc, ◌+◌, String, Bool, true, false, not, ◌&&◌, ◌||◌, List, [], ◌∷◌, Option, none, some,
  ◌==◌, nat_eq, leb, elem, if◌then◌else◌,
}
use ai_gateway_api.Batch.Task.{
  Time, BatchTask, is_terminal_status, task_status_completed, task_status_expired,
  task_status_failed, task_status_cancelled, settle_status_reserved,
}
use ai_gateway_api.Batch.Store.{Rows}
use ai_gateway_api.Batch.World.{store_failed, Result, ok, err, Manager, World}
use ai_gateway_api.Batch.Advance.{terminal_artifact_window, advance_one_task}
use ai_gateway_api.Batch.Backfill.{backfill_one_task}
use ai_gateway_api.Batch.Settle.{Round, settle_one_task, release_one_task}

select : (BatchTask → Bool) → Rows → Rows
select p [] = []
select p (t ∷ ts) = if p t then t ∷ select p ts else select p ts

take : ℕ → Rows → Rows
take zero rows = []
take (suc n) [] = []
take (suc n) (t ∷ ts) = t ∷ take n ts

-- `ListBatchTasks`; a limit of 0 is none.
unfoldable pub list_batch_tasks : (BatchTask → Bool) → ℕ → Rows → Rows
unfolding select take
list_batch_tasks p limit rows = if nat_eq limit 0 then select p rows else take limit (select p rows)

-- A round counts the tasks that moved; an error is logged, and the round goes on.
abbrev counted : Result Bool → ℕ → ℕ
counted (ok true) n = suc n
counted _ n = n

-- One task after the other, each on what the ones before it left.
unfoldable pub each : (BatchTask → World → World × Result Bool) → List BatchTask → World → World × ℕ
each step [] w = (w, 0)
each step (t ∷ ts) w =
    let (w', result) = step t w in let (w'', n) = each step ts w' in (w'', counted result n)

-- `AdvanceStatus`.
unfoldable pub advance_status : Manager → World → World × Result ℕ
unfolding each advance_one_task list_batch_tasks is_terminal_status
advance_status m w = elim m.provider_querier [
  | none ↦ (w, ok 0)
  | some fetch ↦
      if m.list_fails
      then (w, err store_failed)
      else let tasks =
          list_batch_tasks (λ t. not (is_terminal_status t.status)) m.advance_limit w.rows in
        let (w', n) = each (advance_one_task m) tasks w in (w', ok n)
]

has_artefacts : BatchTask → Bool
has_artefacts t =
    not (t.output_file_id == "") && elim t.request_counts [ none ↦ false | some c ↦ true ]

is_recent : Manager → BatchTask → Bool
is_recent m t =
    t.status == task_status_completed && leb m.now (t.created_at + terminal_artifact_window)

-- A task that misses nothing is passed over.
backfill_missing : Manager → BatchTask → World → World × Result Bool
unfolding has_artefacts backfill_one_task
backfill_missing m t w = if has_artefacts t then (w, ok false) else backfill_one_task m t w

-- `BackfillTerminalArtifacts`.
unfoldable pub backfill_terminal_artifacts : Manager → World → World × Result ℕ
unfolding each backfill_missing list_batch_tasks is_recent
backfill_terminal_artifacts m w = elim m.provider_querier [
  | none ↦ (w, ok 0)
  | some fetch ↦
      if m.list_fails
      then (w, err store_failed)
      else let (w', n) =
          each (backfill_missing m) (list_batch_tasks (is_recent m) m.advance_limit w.rows) w in
        (w', ok n)
]

-- The time that counts for the grace period.
unfoldable pub effective_time : BatchTask → Time
effective_time t = elim t.terminal_at [
  | some at ↦ at
  | none ↦ if nat_eq t.updated_at 0 then t.created_at else t.updated_at
]

-- `filterBySettleGrace`.
unfoldable pub filter_by_settle_grace : Time → Time → Rows → Rows
unfolding effective_time
filter_by_settle_grace now grace [] = []
filter_by_settle_grace now grace (t ∷ ts) =
    let rest = filter_by_settle_grace now grace ts in
    if leb (effective_time t + grace) now then t ∷ rest else rest

-- The settlements of a round share the cache of accesses.
unfoldable pub settle_each : Manager → List BatchTask → Round → Round × ℕ
unfolding settle_one_task
settle_each m [] round = (round, 0)
settle_each m (t ∷ ts) round =
    let (round', result) = settle_one_task m t round in
    let (round'', n) = settle_each m ts round' in (round'', counted result n)

abbrev pub no_settle_release_statuses : List String
no_settle_release_statuses = task_status_expired ∷ task_status_failed ∷ task_status_cancelled ∷ []

abbrev pub is_settle_candidate : BatchTask → Bool
is_settle_candidate t =
    t.status == task_status_completed && t.settle_status == settle_status_reserved

abbrev pub is_release_candidate : BatchTask → Bool
is_release_candidate t =
    elem t.status no_settle_release_statuses && t.settle_status == settle_status_reserved

-- The two lists are settled and released, one after the other.
reconcile_listed : Manager → World → World × Result (ℕ × ℕ)
unfolding settle_each each filter_by_settle_grace release_one_task list_batch_tasks
reconcile_listed m w =
    let settling =
      filter_by_settle_grace m.now m.settle_grace
        (list_batch_tasks is_settle_candidate m.reconcile_limit w.rows) in
    let releasing = list_batch_tasks is_release_candidate m.reconcile_limit w.rows in
    let (round, settled) = settle_each m settling (record { cache = []; world = w }) in
    let (w', released) = each (release_one_task m) releasing round.world in
    (w', ok (settled, released))

-- `ReconcileSettle`: how many tasks were settled, and how many released.
unfoldable pub reconcile_settle : Manager → World → World × Result (ℕ × ℕ)
unfolding reconcile_listed
reconcile_settle m w =
    if not m.has_redis
    then (w, ok (0, 0))
    else if m.list_fails
    then (w, err store_failed)
    else reconcile_listed m w
