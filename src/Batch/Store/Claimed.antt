-- ===== src/Batch/Store/Claimed.antt =====
-- The claim of a cancellation among the other updates (storage/rdb/batch/batch_task.go,
-- PreemptBatchTaskCancel).
use ai_gateway_api.Prelude.{
  ℕ, ◌≡◌, refl, inl, inr, String, Bool, false, List, [], ◌∷◌, none, arith, All, Bool-cases,
}
use ai_gateway_api.Batch.Task.{Time, BatchTask, BatchTaskProgressPatch, BatchSettlePatch}
use ai_gateway_api.Batch.Store.{
  Rows, update_where, preempt_matches, preempt_batch_task_cancel, apply_settle_patch,
  apply_progress_patch, update_batch_task_settle_status, update_batch_task_progress,
}
use ai_gateway_api.Batch.Store.Moves.{Move, settle, preempt, progress, make_move, run_moves}

-- The move writes no status other than that of a cancellation.
abbrev pub KeepsStatus : Move → Type 0
KeepsStatus (progress id patch now) = patch.status ≡ none
KeepsStatus _ = Unit

-- The row is not free to be claimed for a cancellation of the batch.
abbrev Taken : String → String → BatchTask → Type 0
Taken b p t = preempt_matches b p t ≡ false

update_where-Taken :
    (b p : String) (test : BatchTask → Bool) (f : BatchTask → BatchTask)
    → ((t : BatchTask) → Taken b p t → Taken b p (f t))
    → (rows : Rows) → All (Taken b p) rows
    → All (Taken b p) (update_where test f rows).0
unfolding update_where
update_where-Taken b p test f keeps [] taken = tt
update_where-Taken b p test f keeps (t ∷ ts) (first, rest) = elim (Bool-cases (test t)) [
  | inl h ↦ rw h (keeps t first, update_where-Taken b p test f keeps ts rest)
  | inr h ↦ rw h (first, update_where-Taken b p test f keeps ts rest)
]

claimed-Taken :
    (b p b' p' : String) (now : Time) (rows : Rows)
    → All (Taken b p) rows
    → All (Taken b p) (preempt_batch_task_cancel b' p' now rows).0
unfolding preempt_batch_task_cancel preempt_matches
claimed-Taken b p b' p' now rows taken = update_where-Taken b p _ _ (λ t h. ground arith) rows taken

settled-Taken :
    (b p b' p' from : String) (patch : BatchSettlePatch) (now : Time) (rows : Rows)
    → All (Taken b p) rows
    → All (Taken b p) (update_batch_task_settle_status b' p' from patch now rows).0
unfolding update_batch_task_settle_status apply_settle_patch preempt_matches
settled-Taken b p b' p' from patch now rows taken = update_where-Taken b p _ _ (λ t h. h) rows taken

patched-Taken :
    (b p : String) (patch : BatchTaskProgressPatch) (now : Time)
    → patch.status ≡ none
    → (t : BatchTask) → Taken b p t
    → Taken b p (apply_progress_patch patch now t)
unfolding apply_progress_patch preempt_matches
patched-Taken b p patch now same t h = rw same h

progressed-Taken :
    (b p : String) (id : ℕ) (patch : BatchTaskProgressPatch) (now : Time) (rows : Rows)
    → patch.status ≡ none
    → All (Taken b p) rows
    → All (Taken b p) (update_batch_task_progress id patch now rows).0
unfolding update_batch_task_progress
progressed-Taken b p id patch now rows same taken =
    update_where-Taken b p _ _ (patched-Taken b p patch now same) rows taken

make_move-Taken :
    (b p : String) (v : Move) (rows : Rows)
    → KeepsStatus v
    → All (Taken b p) rows
    → All (Taken b p) (make_move v rows).0
unfolding make_move
make_move-Taken b p (settle b' p' patch now) rows keeps taken =
    settled-Taken b p b' p' _ patch now rows taken
make_move-Taken b p (preempt b' p' now) rows keeps taken = claimed-Taken b p b' p' now rows taken
make_move-Taken b p (progress id patch now) rows keeps taken =
    progressed-Taken b p id patch now rows keeps taken

run_moves-Taken :
    (b p : String) (vs : List Move) (rows : Rows)
    → All KeepsStatus vs
    → All (Taken b p) rows
    → All (Taken b p) (run_moves vs rows)
run_moves-Taken b p [] rows keeps taken = taken
run_moves-Taken b p (v ∷ vs) rows (first, rest) taken =
    run_moves-Taken b p vs (make_move v rows).0 rest (make_move-Taken b p v rows first taken)

preempt-Taken :
    (b p : String) (now : Time) (rows : Rows)
    → All (Taken b p) (preempt_batch_task_cancel b p now rows).0
unfolding preempt_batch_task_cancel update_where preempt_matches
preempt-Taken b p now [] = tt
preempt-Taken b p now (t ∷ ts) = elim (Bool-cases (preempt_matches b p t)) [
  | inl h ↦ rw h (ground arith, preempt-Taken b p now ts)
  | inr h ↦ rw h (h, preempt-Taken b p now ts)
]

pub preempt-none :
    (b p : String) (now : Time) (rows : Rows)
    → All (Taken b p) rows
    → preempt_batch_task_cancel b p now rows ≡ (rows, 0)
unfolding preempt_batch_task_cancel update_where
preempt-none b p now [] taken = refl
preempt-none b p now (t ∷ ts) (first, rest) = rw (preempt-none b p now ts rest, first) refl

-- After a claim of a batch, and any sequence of claims of this and other batches, settlements and
-- updates of the progress that write no status, another claim of the batch matches no row and
-- changes none.
pub preempt_batch_task_cancel-once :
    (batch_id product_name : String) (first second : Time) (moves : List Move) (rows : Rows)
    → All KeepsStatus moves
    → let later = run_moves moves (preempt_batch_task_cancel batch_id product_name first rows).0 in
      preempt_batch_task_cancel batch_id product_name second later ≡ (later, 0)
preempt_batch_task_cancel-once b p first second moves rows keeps = preempt-none b p second _ (
    run_moves-Taken b p moves (preempt_batch_task_cancel b p first rows).0 keeps
      (preempt-Taken b p first rows))
