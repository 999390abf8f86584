-- ===== src/Batch/Cancel/Accept.antt =====
-- The cancellation of a batch that is over or is being cancelled (model/ibatch/cancel.go, Cancel).
use ai_gateway_api.Prelude.{
  ◌≡◌, refl, sym, subst, ◌∙◌, ◌⊎◌, inl, inr, ◌≢◌, String, true, false, [], ◌∷◌, ◌++◌, some, ◌==◌,
  eq_iff, nat_eq, elem, if◌then◌else◌, arith, All, Bool-cases, Option-cases,
}
use ai_gateway_api.Batch.Task.{BatchTask, task_status_cancelling}
use ai_gateway_api.Batch.Store.{Rows, find_where, preempt_matches}
use ai_gateway_api.Batch.Store.Claimed.{preempt-none}
use ai_gateway_api.Batch.World.{batch_conflict, Result, ok, err, ProviderAccess, Manager, World}
use ai_gateway_api.Batch.Provider.{resolve_provider_access}
use ai_gateway_api.Batch.Advance.{cancel_url, cancel_reply, post_provider_cancel}
use ai_gateway_api.Batch.Cancel.{
  is_task, fetch_task, fetch_row, record_cancel_operation, fail_with, released, finish_cancel,
  send_cancel, reach_provider, cancel_replay, preempt, preempt_again, replay_or_conflict,
  preempted_again, preempted, cancel_task, cancel,
}

-- Every row of the batch is over or is being cancelled.
abbrev pub AllClosed : String → String → Rows → Type 0
AllClosed batch_id product_name = All (λ t.
    is_task batch_id product_name t ≡ true
    → elem t.status ("completed" ∷ "failed" ∷ "expired" ∷ "cancelled" ∷ "cancelling" ∷ []) ≡ true)

closed-taken :
    (b p : String) (rows : Rows)
    → AllClosed b p rows
    → All (λ t. preempt_matches b p t ≡ false) rows
unfolding preempt_matches is_task
closed-taken b p [] closed = tt
closed-taken b p (t ∷ ts) (first, rest) = (ground (arith, first), closed-taken b p ts rest)

cancel-closed :
    (m : Manager) (b p : String) (w : World) (task : BatchTask)
    → m.store_read_fails b ≡ false
    → m.store_write_fails b ≡ false
    → find_where (is_task b p) w.rows ≡ some task
    → task.id ≢ 0
    → AllClosed b p w.rows
    → cancel m b p w ≡ (
        if task.status == task_status_cancelling
        then cancel_replay m task w
        else fail_with b task.status (batch_conflict b) w)
unfolding cancel cancel_task fetch_task fetch_row preempt preempted preempt_again preempted_again
    replay_or_conflict
cancel-closed m b p w task reads writes found stored closed =
    let numbered : nat_eq task.id 0 ≡ false = ground (arith, stored) in
    rw
      (
        reads,
        found,
        writes,
        preempt-none b p m.now w.rows (closed-taken b p w.rows closed),
        numbered,
        reads,
        found,
      )
      refl

-- A replay leaves the table as it is, and tells the provider at most once.
abbrev pub IsReplay : World → World × Result BatchTask → Type 0
IsReplay w r =
    (r.0.rows ≡ w.rows)
    × ((r.0.posts ≡ w.posts) ⊎ ((url : String) × (r.0.posts ≡ w.posts ++ url ∷ [])))

-- A conflict leaves the table and Redis as they are, tells the provider nothing, and is entered in
-- the operation log with the status that the task had.
abbrev pub IsConflict : String → String → World → World × Result BatchTask → Type 0
IsConflict batch_id status w r =
    (r.1 ≡ err (batch_conflict batch_id))
    × (r.0.rows ≡ w.rows)
    × (r.0.redis ≡ w.redis)
    × (r.0.posts ≡ w.posts)
    × (r.0.operations
        ≡ w.operations
          ++ (record {
            batch_id = batch_id;
            prev_status = status;
            failure = some (batch_conflict batch_id);
          })
            ∷ [])

conflicts :
    (b status : String) (w : World)
    → IsConflict b status w (fail_with b status (batch_conflict b) w)
unfolding record_cancel_operation
conflicts b status w = (refl, refl, refl, refl, refl)

send-replays :
    (m : Manager) (b : String) (task : BatchTask) (prev : String) (w : World)
    (access : Result ProviderAccess)
    → IsReplay w (send_cancel m b task prev w access)
unfolding send_cancel finish_cancel post_provider_cancel record_cancel_operation released
send-replays m b task prev w (err e) = (refl, inl refl)
send-replays m b task prev w (ok access) =
    let url = cancel_url access b in
    elim (Option-cases (cancel_reply (m.post_cancel access url))) [
      | inr (e, h) ↦ rw h (refl, inr (url, refl))
      | inl h ↦ elim (Bool-cases m.has_redis) [
        | inl on ↦ rw (h, on) (refl, inr (url, refl))
        | inr off ↦ rw (h, off) (refl, inr (url, refl))
      ]
    ]

cancel_replay-replays :
    (m : Manager) (task : BatchTask) (w : World) → IsReplay w (cancel_replay m task w)
unfolding cancel_replay reach_provider
cancel_replay-replays m task w =
    send-replays m task.batch_id task task_status_cancelling w
      (resolve_provider_access m task.provider task.key_name)

-- What a cancellation of a closed batch does, by the status that the table has for it.
abbrev pub ClosedOutcome : String → String → World → World × Result BatchTask → Type 0
ClosedOutcome batch_id status w r =
    ((status ≡ "cancelling") × IsReplay w r)
    ⊎ ((status ≢ "cancelling") × IsConflict batch_id status w r)

-- Where the table answers and has the task under a number, and every row of the batch is completed,
-- failed, expired, cancelled or cancelling, a cancellation changes no row. Of a task that is
-- cancelling it tells the provider once more at most; otherwise it is a conflict that sends
-- nothing, leaves Redis as it is and is entered in the operation log.
pub cancel-ClosedOutcome :
    (m : Manager) (batch_id product_name : String) (w : World) (task : BatchTask)
    → m.store_read_fails batch_id ≡ false
    → m.store_write_fails batch_id ≡ false
    → find_where (is_task batch_id product_name) w.rows ≡ some task
    → task.id ≢ 0
    → AllClosed batch_id product_name w.rows
    → ClosedOutcome batch_id task.status w (cancel m batch_id product_name w)
cancel-ClosedOutcome m b p w task reads writes found stored closed =
    let path = cancel-closed m b p w task reads writes found stored closed in
    elim (Bool-cases (task.status == task_status_cancelling)) [
      | inl replay ↦
          let same : cancel m b p w ≡ cancel_replay m task w = path ∙ rw replay refl in
          inl (
            (eq_iff task.status "cancelling").0 replay,
            subst (IsReplay w) (sym same) (cancel_replay-replays m task w),
          )
      | inr other ↦
          let same : cancel m b p w ≡ fail_with b task.status (batch_conflict b) w =
            path ∙ rw other refl in
          let differs : task.status ≢ "cancelling" =
            λ e. let again = (eq_iff task.status "cancelling").1 e in cc (again, other) in
          inr (differs, subst (IsConflict b task.status w) (sym same) (conflicts b task.status w))
    ]
