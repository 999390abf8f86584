-- ===== src/Batch/Advance/Transitions.antt =====
-- The transitions that the status job makes in the table.
use ai_gateway_api.Prelude.{
  ℕ, ◌≡◌, refl, sym, subst, ◌∙◌, ◌⊎◌, inl, inr, String, true, false, [], ◌∷◌, Option, none, some,
  ◌==◌, eq_iff, nat_eq, leb, arith, All, Bool-cases, ◌+◌,
}
use ai_gateway_api.Batch.Task.{
  Time, BatchTask, BatchTaskProgressPatch, is_terminal_status, task_status_cancelling,
}
use ai_gateway_api.Batch.Store.{
  Rows, update_where, apply_progress_patch, update_batch_task_progress,
}
use ai_gateway_api.Batch.File.{register_output_file-rows}
use ai_gateway_api.Batch.Provider.{resolve_provider_access}
use ai_gateway_api.Batch.World.{
  Result, ok, err, Reply, unreachable, replied, ProviderAccess, ProviderBatchResponse, Manager,
  World,
}
use ai_gateway_api.Batch.Advance.{
  provider_absent_grace, not_success, batch_url, post_provider_cancel, update_progress,
  handle_provider_absent, is_status_held, advance_status_patch, advance_patch, is_changed,
  reissue_cancel, register_changed, advance_response, parsed_response, advance_parsed,
  advance_reply, advance_access, advance_one_task, differs, expired_patch, matched, updated,
}

-- What may happen to a row: it stays in its status, it moves between statuses that are not
-- terminal and does not leave `cancelling`, or it becomes terminal at the present time.
pub data Transition (now : Time) (old new : BatchTask) : Type 0 where
  stays : new.status ≡ old.status → new.terminal_at ≡ old.terminal_at → Transition now old new
  moves :
      is_terminal_status old.status ≡ false
      → is_terminal_status new.status ≡ false
      → (old.status ≡ task_status_cancelling → new.status ≡ task_status_cancelling)
      → new.terminal_at ≡ old.terminal_at
      → Transition now old new
  ends :
      is_terminal_status old.status ≡ false
      → is_terminal_status new.status ≡ true
      → new.terminal_at ≡ some now
      → Transition now old new

-- Row by row.
abbrev pub Transitions : Time → Rows → Rows → Type 0
Transitions now [] [] = Unit
Transitions now [] (new ∷ news) = ⊥
Transitions now (old ∷ olds) [] = ⊥
Transitions now (old ∷ olds) (new ∷ news) = Transition now old new × Transitions now olds news

-- The rows of the task's number are in the status that the job read.
abbrev pub Current : BatchTask → Rows → Type 0
Current task = All (λ t. nat_eq t.id task.id ≡ true → t.status ≡ task.status)

Transitions-refl : (now : Time) (rows : Rows) → Transitions now rows rows
Transitions-refl now [] = tt
Transitions-refl now (t ∷ ts) = (stays refl refl, Transitions-refl now ts)

update-Transitions :
    (now : Time) (task : BatchTask) (f : BatchTask → BatchTask) (rows : Rows)
    → Current task rows
    → ((t : BatchTask) → t.status ≡ task.status → Transition now t (f t))
    → Transitions now rows (update_where (λ t. nat_eq t.id task.id) f rows).0
unfolding update_where
update-Transitions now task f [] current step = tt
update-Transitions now task f (t ∷ ts) (first, current) step =
    elim (Bool-cases (nat_eq t.id task.id)) [
      | inl h ↦ rw h (step t (first h), update-Transitions now task f ts current step)
      | inr h ↦ rw h (stays refl refl, update-Transitions now task f ts current step)
    ]

progress-Transitions :
    (m : Manager) (task : BatchTask) (patch : BatchTaskProgressPatch) (w : World)
    → Current task w.rows
    → ((t : BatchTask)
        → t.status ≡ task.status
        → Transition m.now t (apply_progress_patch patch m.now t))
    → Transitions m.now w.rows (update_progress m task patch w).0.rows
unfolding update_progress update_batch_task_progress
progress-Transitions m task patch w current step =
    elim (Bool-cases (m.store_write_fails task.batch_id)) [
      | inl h ↦ rw h (Transitions-refl m.now w.rows)
      | inr h ↦
          rw h
            (update-Transitions m.now task (apply_progress_patch patch m.now) w.rows current step)
    ]

matched-world : (r : World × Result ℕ) → (matched r).0 ≡ r.0
matched-world (w, err e) = refl
matched-world (w, ok n) = refl

updated-world : (r : World × Result ℕ) → (updated r).0 ≡ r.0
updated-world (w, err e) = refl
updated-world (w, ok n) = refl

-- The status that is written, by the three cases of the code.
patch-cases :
    (task : BatchTask) (resp : ProviderBatchResponse)
    → is_terminal_status task.status ≡ false
    → (advance_status_patch task resp ≡ none)
      ⊎ ((advance_status_patch task resp ≡ some resp.status)
          × ((is_terminal_status resp.status ≡ true)
              ⊎ ((is_terminal_status resp.status ≡ false)
                  × (task.status ≡ task_status_cancelling → resp.status ≡ task_status_cancelling))))
unfolding advance_status_patch is_status_held
patch-cases task resp live =
    ground
      (arith, eq_iff task.status task_status_cancelling, eq_iff resp.status task_status_cancelling)

patch-transition :
    (task : BatchTask) (resp : ProviderBatchResponse) (now : Time) (t : BatchTask)
    → is_terminal_status task.status ≡ false
    → t.status ≡ task.status
    → Transition now t (apply_progress_patch (advance_patch task resp now) now t)
unfolding apply_progress_patch advance_patch
patch-transition task resp now t live same = elim (patch-cases task resp live) [
  | inl held ↦ rw held (stays refl refl)
  | inr (moved, inl done) ↦ rw (moved, done) (ends (rw same live) done refl)
  | inr (moved, inr (still, cancel)) ↦
      rw (moved, still) (moves (rw same live) still (λ c. cancel (sym same ∙ c)) refl)
]

expired-transition :
    (now : Time) (t : BatchTask)
    → is_terminal_status t.status ≡ false
    → Transition now t (apply_progress_patch (expired_patch now) now t)
unfolding apply_progress_patch is_terminal_status
expired-transition now t live = ends live refl refl

register-rows :
    (m : Manager) (task : BatchTask) (file_id : String) (w : World)
    → (register_changed m task file_id w).rows ≡ w.rows
unfolding register_changed
register-rows m task file_id w = elim (Bool-cases (differs file_id task.output_file_id)) [
  | inl h ↦ rw h (register_output_file-rows m task file_id w)
  | inr h ↦ rw h refl
]

reissue-rows :
    (m : Manager) (access : ProviderAccess) (task : BatchTask) (resp : ProviderBatchResponse)
    (w : World)
    → (reissue_cancel m access task resp w).rows ≡ w.rows
unfolding reissue_cancel post_provider_cancel
reissue-rows m access task resp w = elim (Bool-cases (is_status_held task resp)) [
  | inl h ↦ rw h refl
  | inr h ↦ rw h refl
]

response-Transitions :
    (m : Manager) (access : ProviderAccess) (task : BatchTask) (resp : ProviderBatchResponse)
    (w : World)
    → is_terminal_status task.status ≡ false
    → Current task w.rows
    → Transitions m.now w.rows (advance_response m access task resp w).0.rows
unfolding advance_response
response-Transitions m access task resp w live current =
    let sent = reissue_cancel m access task resp w in
    let registered = register_changed m task resp.output_file_id sent in
    let same : registered.rows ≡ w.rows =
      register-rows m task resp.output_file_id sent ∙ reissue-rows m access task resp w in
    elim (Bool-cases (is_changed task resp)) [
      | inl h ↦
          let patch = advance_patch task resp m.now in
          let written : Transitions m.now registered.rows
              (update_progress m task patch registered).0.rows =
            progress-Transitions m task patch registered (subst (Current task) (sym same) current)
              (λ t at. patch-transition task resp m.now t live at) in
          rw (h, updated-world (update_progress m task patch registered))
            (subst (λ r. Transitions m.now r (update_progress m task patch registered).0.rows) same
              written)
      | inr h ↦
          rw h (subst (λ r. Transitions m.now w.rows r) (sym same) (Transitions-refl m.now w.rows))
    ]

absent-Transitions :
    (m : Manager) (task : BatchTask) (w : World)
    → is_terminal_status task.status ≡ false
    → Current task w.rows
    → Transitions m.now w.rows (handle_provider_absent m task w).0.rows
unfolding handle_provider_absent
absent-Transitions m task w live current =
    elim (Bool-cases (leb m.now (task.created_at + provider_absent_grace))) [
      | inl h ↦ rw h (Transitions-refl m.now w.rows)
      | inr h ↦
          rw (h, matched-world (update_progress m task (expired_patch m.now) w))
            (progress-Transitions m task (expired_patch m.now) w current
              (λ t at. expired-transition m.now t (rw at live)))
    ]

parsed-Transitions :
    (m : Manager) (access : ProviderAccess) (task : BatchTask) (w : World)
    (resp : Result ProviderBatchResponse)
    → is_terminal_status task.status ≡ false
    → Current task w.rows
    → Transitions m.now w.rows (advance_parsed m access task w resp).0.rows
unfolding advance_parsed
parsed-Transitions m access task w (err e) live current = Transitions-refl m.now w.rows
parsed-Transitions m access task w (ok resp) live current = elim (Bool-cases (resp.status == "")) [
  | inl h ↦ rw h (Transitions-refl m.now w.rows)
  | inr h ↦ rw h (response-Transitions m access task resp w live current)
]

reply-Transitions :
    (m : Manager) (access : ProviderAccess) (task : BatchTask) (w : World)
    (reply : Reply (Option ProviderBatchResponse))
    → is_terminal_status task.status ≡ false
    → Current task w.rows
    → Transitions m.now w.rows (advance_reply m access task w reply).0.rows
unfolding advance_reply
reply-Transitions m access task w unreachable live current = Transitions-refl m.now w.rows
reply-Transitions m access task w (replied status body) live current =
    elim (Bool-cases (nat_eq status 404)) [
      | inl h ↦ rw h (absent-Transitions m task w live current)
      | inr h ↦ elim (Bool-cases (not_success status)) [
        | inl bad ↦ rw (h, bad) (Transitions-refl m.now w.rows)
        | inr good ↦
            rw (h, good)
              (parsed-Transitions m access task w (parsed_response task body) live current)
      ]
    ]

access-Transitions :
    (m : Manager) (task : BatchTask) (w : World) (access : Result ProviderAccess)
    → is_terminal_status task.status ≡ false
    → Current task w.rows
    → Transitions m.now w.rows (advance_access m task w access).0.rows
unfolding advance_access
access-Transitions m task w (err e) live current = Transitions-refl m.now w.rows
access-Transitions m task w (ok access) live current =
    reply-Transitions m access task w (m.get_batch access (batch_url access task.batch_id)) live
      current

-- The status job on a task that is not terminal, whose rows are in the status it read: whatever
-- the provider answers and however the job ends, each row keeps its status, or moves without
-- becoming terminal and without leaving `cancelling`, or becomes terminal, and its terminal time
-- is then the present time.
pub advance_one_task-Transitions :
    (m : Manager) (task : BatchTask) (w : World)
    → is_terminal_status task.status ≡ false
    → Current task w.rows
    → Transitions m.now w.rows (advance_one_task m task w).0.rows
unfolding advance_one_task
advance_one_task-Transitions m task w live current =
    access-Transitions m task w (resolve_provider_access m task.provider task.key_name) live current
