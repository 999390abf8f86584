-- ===== src/Batch/Store/Moves.antt =====
-- The conditional update of the settlement state as the guard against settling twice.
use native.Mathlib.Nat.{zero-add}
use ai_gateway_api.Prelude.{
  ℕ, ◌+◌, ◌≡◌, refl, ◌≢◌, String, Bool, ◌&&◌, List, [], ◌∷◌, ◌==◌, eq_iff, nat_eq, if◌then◌else◌,
  arith,
}
use ai_gateway_api.Batch.Task.{
  Time, BatchTask, BatchTaskProgressPatch, BatchSettlePatch, settle_status_reserved,
  task_status_cancelling,
}
use ai_gateway_api.Batch.Store.{
  Rows, update_where, preempt_batch_task_cancel, settle_matches, preempt_matches,
  apply_settle_patch, apply_progress_patch, update_batch_task_settle_status,
  update_batch_task_progress,
}

-- The updates that the duties, cancellations and other instances make, in any order.
pub data Move : Type 0 where
  settle : String → String → BatchSettlePatch → Time → Move
  preempt : String → String → Time → Move
  progress : ℕ → BatchTaskProgressPatch → Time → Move

-- An update of the settlement state moves a row away from `reserved`.
abbrev pub Leaves : Move → Type 0
Leaves (settle b p patch now) = patch.settle_status ≢ settle_status_reserved
Leaves _ = Unit

unfoldable pub make_move : Move → Rows → Rows × ℕ
make_move (settle b p patch now) rows =
    update_batch_task_settle_status b p settle_status_reserved patch now rows
make_move (preempt b p now) rows = preempt_batch_task_cancel b p now rows
make_move (progress id patch now) rows = update_batch_task_progress id patch now rows

-- What a move counts for: the rows of the batch that it settled or released.
abbrev settles : String → String → Move → ℕ → ℕ
settles b p (settle b' p' patch now) n = if b' == b && p' == p then n else 0
settles b p _ n = 0

-- How often rows of a batch are settled or released by a sequence of moves.
unfoldable pub settlements : String → String → List Move → Rows → ℕ
settlements b p [] rows = 0
settlements b p (v ∷ vs) rows =
    let (rows', n) = make_move v rows in settles b p v n + settlements b p vs rows'

abbrev pub run_moves : List Move → Rows → Rows
run_moves [] rows = rows
run_moves (v ∷ vs) rows = run_moves vs (make_move v rows).0

-- The rows of a batch that are still reserved.
unfoldable pub reserved_rows : String → String → Rows → ℕ
reserved_rows b p [] = 0
reserved_rows b p (t ∷ ts) =
    (if settle_matches b p settle_status_reserved t then 1 else 0) + reserved_rows b p ts

abbrev pub AllLeave : List Move → Type 0
AllLeave [] = Unit
AllLeave (v ∷ vs) = Leaves v × AllLeave vs

settle-reserved :
    (b p b' p' : String) (patch : BatchSettlePatch) (now : Time) (rows : Rows)
    → patch.settle_status ≢ settle_status_reserved
    → let (rows', n) =
        update_batch_task_settle_status b' p' settle_status_reserved patch now rows in
      (if b' == b && p' == p then n else 0) + reserved_rows b p rows' ≡ reserved_rows b p rows
unfolding update_batch_task_settle_status update_where reserved_rows settle_matches
    apply_settle_patch
settle-reserved b p b' p' patch now [] h = ground arith
settle-reserved b p b' p' patch now (t ∷ ts) h = ground (
  arith,
  settle-reserved b p b' p' patch now ts h,
  eq_iff t.batch_id b,
  eq_iff t.batch_id b',
  eq_iff b' b,
  eq_iff t.product_name p,
  eq_iff t.product_name p',
  eq_iff p' p,
  eq_iff patch.settle_status settle_status_reserved,
)

update-reserved :
    (b p : String) (q : BatchTask → Bool) (f : BatchTask → BatchTask) (rows : Rows)
    → ((t : BatchTask)
        → settle_matches b p settle_status_reserved (f t)
          ≡ settle_matches b p settle_status_reserved t)
    → reserved_rows b p (update_where q f rows).0 ≡ reserved_rows b p rows
unfolding update_where reserved_rows
update-reserved b p q f [] h = refl
update-reserved b p q f (t ∷ ts) h = ground (arith, h t, update-reserved b p q f ts h)

preempt-reserved :
    (b p b' p' : String) (now : Time) (rows : Rows)
    → reserved_rows b p (preempt_batch_task_cancel b' p' now rows).0 ≡ reserved_rows b p rows
unfolding preempt_batch_task_cancel settle_matches
preempt-reserved b p b' p' now rows =
    update-reserved b p (preempt_matches b' p')
      (λ t. record t { status = task_status_cancelling; updated_at = now }) rows (λ t. refl)

progress-reserved :
    (b p : String) (id : ℕ) (patch : BatchTaskProgressPatch) (now : Time) (rows : Rows)
    → reserved_rows b p (update_batch_task_progress id patch now rows).0 ≡ reserved_rows b p rows
unfolding update_batch_task_progress settle_matches apply_progress_patch
progress-reserved b p id patch now rows =
    update-reserved b p (λ t. nat_eq t.id id) (apply_progress_patch patch now) rows (λ t. refl)

make_move-reserved :
    (b p : String) (v : Move) (rows : Rows)
    → Leaves v
    → settles b p v (make_move v rows).1 + reserved_rows b p (make_move v rows).0
      ≡ reserved_rows b p rows
unfolding make_move
make_move-reserved b p (settle b' p' patch now) rows h = settle-reserved b p b' p' patch now rows h
make_move-reserved b p (preempt b' p' now) rows h =
    rw zero-add (preempt-reserved b p b' p' now rows)
make_move-reserved b p (progress id patch now) rows h =
    rw zero-add (progress-reserved b p id patch now rows)

-- Over any sequence of cancellations, status updates, and settlements and releases that each write
-- a state other than reserved, the rows of a batch that were settled or released and those that
-- are still reserved make up the rows that were reserved at the start: each reserved row is
-- settled or released once at most.
pub settlements-reserved_rows :
    (b p : String) (vs : List Move) (rows : Rows)
    → AllLeave vs
    → settlements b p vs rows + reserved_rows b p (run_moves vs rows) ≡ reserved_rows b p rows
unfolding settlements
settlements-reserved_rows b p [] rows h = zero-add _
settlements-reserved_rows b p (v ∷ vs) rows (h, hs) = omega (
  arith,
  make_move-reserved b p v rows h,
  settlements-reserved_rows b p vs (make_move v rows).0 hs,
)
