-- ===== src/Batch/Cancel/Outcome.antt =====
-- What every cancellation leaves in the operation log and sends to the provider.
use ai_gateway_api.Prelude.{
  ℕ, ◌≡◌, refl, sym, ◌⊎◌, inl, inr, String, true, false, not, ◌&&◌, List, [], ◌∷◌, ◌++◌, Option,
  none, some, ◌==◌, nat_eq, Bool-cases, Option-cases,
}
use ai_gateway_api.Batch.Task.{BatchTask, task_status_cancelling}
use ai_gateway_api.Batch.Store.{Rows, upsert_batch_task}
use ai_gateway_api.Batch.Provider.{resolve_provider_access}
use ai_gateway_api.Batch.Advance.{cancel_url, post_provider_cancel, cancel_reply}
use ai_gateway_api.Batch.World.{
  Error, Result, ok, err, ProviderAccess, CancelRecord, Manager, World,
}
use ai_gateway_api.Batch.Cancel.{
  fetch_task, record_cancel_operation, released, finish_cancel, send_cancel, reach_provider,
  cancel_replay, preempt, enter_task, preempt_again, replay_or_conflict, preempted_again, preempted,
  cancel_task, cancel,
}

-- One entry more, and what it says of the failure.
abbrev pub Logged : List CancelRecord → Option Error → World → Type 0
Logged operations failure w =
    (entry : CancelRecord) × (w.operations ≡ operations ++ entry ∷ []) × (entry.failure ≡ failure)

abbrev pub PostedOnce : List String → World → Type 0
PostedOnce posts w = (url : String) × (w.posts ≡ posts ++ url ∷ [])

-- A cancellation that succeeds returns a task that is `cancelling` and has posted once; one that
-- fails has posted at most once.
abbrev pub Outcome : List CancelRecord → List String → World × Result BatchTask → Type 0
Outcome operations posts (w, ok task) =
    (task.status ≡ task_status_cancelling) × Logged operations none w × PostedOnce posts w
Outcome operations posts (w, err e) =
    Logged operations (some e) w × ((w.posts ≡ posts) ⊎ PostedOnce posts w)

send-Outcome :
    (m : Manager) (batch_id : String) (task : BatchTask) (prev : String) (w : World)
    (access : Result ProviderAccess)
    → Outcome w.operations w.posts (send_cancel m batch_id task prev w access)
unfolding send_cancel finish_cancel post_provider_cancel record_cancel_operation released
send-Outcome m batch_id task prev w (err e) = ((_, refl, refl), inl refl)
send-Outcome m batch_id task prev w (ok access) =
    let url = cancel_url access batch_id in
    elim (Option-cases (cancel_reply (m.post_cancel access url))) [
      | inr (e, h) ↦ rw h ((_, refl, refl), inr (url, refl))
      | inl h ↦ elim (Bool-cases m.has_redis) [
        | inl on ↦ rw (h, on) (refl, (_, refl, refl), (url, refl))
        | inr off ↦ rw (h, off) (refl, (_, refl, refl), (url, refl))
      ]
    ]

reach-Outcome :
    (m : Manager) (batch_id : String) (task : BatchTask) (prev : String) (w : World)
    → Outcome w.operations w.posts (reach_provider m batch_id task prev w)
unfolding reach_provider
reach-Outcome m batch_id task prev w =
    send-Outcome m batch_id task prev w (resolve_provider_access m task.provider task.key_name)

-- What a claim leaves as it is.
abbrev Quiet : World → World × Result ℕ → Type 0
Quiet w r = (r.0.operations ≡ w.operations) × (r.0.posts ≡ w.posts)

preempt-Quiet :
    (m : Manager) (batch_id product_name : String) (w : World)
    → Quiet w (preempt m batch_id product_name w)
unfolding preempt
preempt-Quiet m batch_id product_name w = elim (Bool-cases (m.store_write_fails batch_id)) [
  | inl h ↦ rw h (refl, refl)
  | inr h ↦ rw h (refl, refl)
]

enter-Quiet :
    (m : Manager) (batch_id product_name : String) (w : World) (rows : Option Rows)
    → Quiet w (enter_task m batch_id product_name w rows)
unfolding enter_task
enter-Quiet m batch_id product_name w none = (refl, refl)
enter-Quiet m batch_id product_name w (some rows) =
    preempt-Quiet m batch_id product_name (record w { rows = rows; next_id = _ })

again-Quiet :
    (m : Manager) (batch_id product_name : String) (task : BatchTask) (w : World)
    → Quiet w (preempt_again m batch_id product_name task w)
unfolding preempt_again
again-Quiet m batch_id product_name task w =
    elim (Bool-cases (nat_eq task.id 0 && not (m.store_write_fails batch_id))) [
      | inl h ↦
          rw h
            (enter-Quiet m batch_id product_name w (upsert_batch_task w.next_id task m.now w.rows))
      | inr h ↦ rw h (refl, refl)
    ]

replay-Outcome :
    (m : Manager) (batch_id prev : String) (w : World) (cur : Result (Option BatchTask))
    → Outcome w.operations w.posts (replay_or_conflict m batch_id prev w cur)
unfolding replay_or_conflict cancel_replay record_cancel_operation
replay-Outcome m batch_id prev w (err e) = ((_, refl, refl), inl refl)
replay-Outcome m batch_id prev w (ok none) = ((_, refl, refl), inl refl)
replay-Outcome m batch_id prev w (ok (some cur)) =
    elim (Bool-cases (cur.status == task_status_cancelling)) [
      | inl h ↦ rw h (reach-Outcome m cur.batch_id cur task_status_cancelling w)
      | inr h ↦ rw h ((_, refl, refl), inl refl)
    ]

preempted_again-Outcome :
    (m : Manager) (batch_id product_name : String) (task : BatchTask) (w : World)
    (claim : World × Result ℕ)
    → Quiet w claim
    → Outcome w.operations w.posts (preempted_again m batch_id product_name task claim)
unfolding preempted_again record_cancel_operation
preempted_again-Outcome m batch_id product_name task w (w', err e) (ops, posts) =
    rw (sym ops, sym posts) ((_, refl, refl), inl refl)
preempted_again-Outcome m batch_id product_name task w (w', ok n) (ops, posts) =
    elim (Bool-cases (nat_eq n 0)) [
      | inl h ↦
          rw (h, sym ops, sym posts)
            (replay-Outcome m batch_id task.status w' (fetch_task m batch_id product_name false w'))
      | inr h ↦ rw (h, sym ops, sym posts) (reach-Outcome m batch_id task task.status w')
    ]

preempted-Outcome :
    (m : Manager) (batch_id product_name : String) (task : BatchTask) (w : World)
    (claim : World × Result ℕ)
    → Quiet w claim
    → Outcome w.operations w.posts (preempted m batch_id product_name task claim)
unfolding preempted record_cancel_operation
preempted-Outcome m batch_id product_name task w (w', err e) (ops, posts) =
    rw (sym ops, sym posts) ((_, refl, refl), inl refl)
preempted-Outcome m batch_id product_name task w (w', ok n) (ops, posts) =
    elim (Bool-cases (nat_eq n 0)) [
      | inl h ↦
          rw (h, sym ops, sym posts)
            (preempted_again-Outcome m batch_id product_name task w'
              (preempt_again m batch_id product_name task w')
              (again-Quiet m batch_id product_name task w'))
      | inr h ↦ rw (h, sym ops, sym posts) (reach-Outcome m batch_id task task.status w')
    ]

task-Outcome :
    (m : Manager) (batch_id product_name : String) (w : World) (found : Result (Option BatchTask))
    → Outcome w.operations w.posts (cancel_task m batch_id product_name w found)
unfolding cancel_task record_cancel_operation
task-Outcome m batch_id product_name w (err e) = ((_, refl, refl), inl refl)
task-Outcome m batch_id product_name w (ok none) = ((_, refl, refl), inl refl)
task-Outcome m batch_id product_name w (ok (some task)) =
    preempted-Outcome m batch_id product_name task w (preempt m batch_id product_name w)
      (preempt-Quiet m batch_id product_name w)

-- Every cancellation, however it ends, enters one record in the operation log, which carries the
-- error it returns, if any. One that succeeds posts to the provider exactly once and returns the
-- task as `cancelling`, and one that fails posts at most once.
pub cancel-Outcome :
    (m : Manager) (batch_id product_name : String) (w : World)
    → Outcome w.operations w.posts (cancel m batch_id product_name w)
unfolding cancel
cancel-Outcome m batch_id product_name w =
    task-Outcome m batch_id product_name w (fetch_task m batch_id product_name true w)
