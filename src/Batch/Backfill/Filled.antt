-- ===== src/Batch/Backfill/Filled.antt =====
-- What the filling job leaves as it was.
use ai_gateway_api.Prelude.{
  ◌≡◌, refl, sym, subst, inl, inr, String, true, [], ◌∷◌, Option, none, some, ◌∙◌, ◌==◌, nat_eq,
  All, Bool-cases, ◌≢◌, eq_iff,
}
use ai_gateway_api.Batch.Task.{Counts, BatchTask}
use ai_gateway_api.Batch.Store.{
  Rows, assign, update_where, apply_progress_patch, update_batch_task_progress,
}
use ai_gateway_api.Batch.File.{register_output_file-rows}
use ai_gateway_api.Batch.Provider.{resolve_provider_access}
use ai_gateway_api.Batch.Advance.{not_success, batch_url, update_progress, updated, parsed_response}
use ai_gateway_api.Batch.World.{
  Result, ok, err, Reply, unreachable, replied, ProviderAccess, ProviderBatchResponse, Manager,
  World,
}
use ai_gateway_api.Batch.Backfill.{
  missing_text, backfill_patch, is_missing, register_missing, backfill_response, backfill_reply,
  backfill_access, backfill_one_task,
}

-- The status and the terminal time stay, and so does each artefact that the row has.
abbrev pub Filled : BatchTask → BatchTask → Type 0
Filled old new =
    (new.status ≡ old.status)
    × (new.terminal_at ≡ old.terminal_at)
    × (old.output_file_id ≢ "" → new.output_file_id ≡ old.output_file_id)
    × (old.endpoint ≢ "" → new.endpoint ≡ old.endpoint)
    × ((counts : Counts) → old.request_counts ≡ some counts → new.request_counts ≡ some counts)

-- Row by row.
abbrev pub AllFilled : Rows → Rows → Type 0
AllFilled [] [] = Unit
AllFilled [] (new ∷ news) = ⊥
AllFilled (old ∷ olds) [] = ⊥
AllFilled (old ∷ olds) (new ∷ news) = Filled old new × AllFilled olds news

-- The rows of the task's number carry the artefacts that the job read.
abbrev pub SameArtefacts : BatchTask → BatchTask → Type 0
SameArtefacts task t =
    (t.output_file_id ≡ task.output_file_id)
    × (t.endpoint ≡ task.endpoint)
    × (t.request_counts ≡ task.request_counts)

abbrev pub AllCurrent : BatchTask → Rows → Type 0
AllCurrent task = All (λ t. nat_eq t.id task.id ≡ true → SameArtefacts task t)

Filled-refl : (t : BatchTask) → Filled t t
Filled-refl t = (refl, refl, (λ h. refl), (λ h. refl), λ c h. h)

AllFilled-refl : (rows : Rows) → AllFilled rows rows
AllFilled-refl [] = tt
AllFilled-refl (t ∷ ts) = (Filled-refl t, AllFilled-refl ts)

kept-text : (old new : String) → old ≢ "" → assign (missing_text old new) old ≡ old
kept-text old new h = elim (Bool-cases (old == "")) [
  | inl e ↦ elim (h ((eq_iff old "").0 e)) [ ]
  | inr e ↦ rw e refl
]

patch-Filled :
    (m : Manager) (task : BatchTask) (resp : ProviderBatchResponse) (t : BatchTask)
    → SameArtefacts task t
    → Filled t (apply_progress_patch (backfill_patch task resp) m.now t)
unfolding apply_progress_patch backfill_patch
patch-Filled m task resp t (file, endpoint, counts) = (
  refl,
  refl,
  (λ h. rw (sym file) (kept-text t.output_file_id resp.output_file_id h)),
  (λ h. rw (sym endpoint) (kept-text t.endpoint resp.endpoint h)),
  (λ c h. let known : task.request_counts ≡ some c = sym counts ∙ h in rw known h),
)

update-Filled :
    (m : Manager) (task : BatchTask) (resp : ProviderBatchResponse) (rows : Rows)
    → AllCurrent task rows
    → AllFilled rows
        (update_where
          (λ t. nat_eq t.id task.id)
          (apply_progress_patch (backfill_patch task resp) m.now)
          rows).0
unfolding update_where
update-Filled m task resp [] current = tt
update-Filled m task resp (t ∷ ts) (first, current) = elim (Bool-cases (nat_eq t.id task.id)) [
  | inl h ↦ rw h (patch-Filled m task resp t (first h), update-Filled m task resp ts current)
  | inr h ↦ rw h (Filled-refl t, update-Filled m task resp ts current)
]

progress-Filled :
    (m : Manager) (task : BatchTask) (resp : ProviderBatchResponse) (w : World)
    → AllCurrent task w.rows
    → AllFilled w.rows (updated (update_progress m task (backfill_patch task resp) w)).0.rows
unfolding update_progress update_batch_task_progress
progress-Filled m task resp w current = elim (Bool-cases (m.store_write_fails task.batch_id)) [
  | inl h ↦ rw h (AllFilled-refl w.rows)
  | inr h ↦ rw h (update-Filled m task resp w.rows current)
]

register-rows :
    (m : Manager) (task : BatchTask) (file_id : Option String) (w : World)
    → (register_missing m task file_id w).rows ≡ w.rows
unfolding register_missing
register-rows m task none w = refl
register-rows m task (some file_id) w = register_output_file-rows m task file_id w

response-Filled :
    (m : Manager) (task : BatchTask) (w : World) (resp : Result ProviderBatchResponse)
    → AllCurrent task w.rows
    → AllFilled w.rows (backfill_response m task w resp).0.rows
unfolding backfill_response
response-Filled m task w (err e) current = AllFilled-refl w.rows
response-Filled m task w (ok resp) current =
    let patch = backfill_patch task resp in
    let registered = register_missing m task patch.output_file_id w in
    let same : registered.rows ≡ w.rows = register-rows m task patch.output_file_id w in
    elim (Bool-cases (is_missing patch)) [
      | inl h ↦ rw h (
          subst (λ r. AllFilled r (updated (update_progress m task patch registered)).0.rows) same
            (progress-Filled m task resp registered (subst (AllCurrent task) (sym same) current)))
      | inr h ↦ rw h (subst (AllFilled w.rows) (sym same) (AllFilled-refl w.rows))
    ]

reply-Filled :
    (m : Manager) (task : BatchTask) (w : World) (reply : Reply (Option ProviderBatchResponse))
    → AllCurrent task w.rows
    → AllFilled w.rows (backfill_reply m task w reply).0.rows
unfolding backfill_reply
reply-Filled m task w unreachable current = AllFilled-refl w.rows
reply-Filled m task w (replied status body) current = elim (Bool-cases (nat_eq status 404)) [
  | inl h ↦ rw h (AllFilled-refl w.rows)
  | inr h ↦ elim (Bool-cases (not_success status)) [
    | inl bad ↦ rw (h, bad) (AllFilled-refl w.rows)
    | inr good ↦ rw (h, good) (response-Filled m task w (parsed_response task body) current)
  ]
]

access-Filled :
    (m : Manager) (task : BatchTask) (w : World) (access : Result ProviderAccess)
    → AllCurrent task w.rows
    → AllFilled w.rows (backfill_access m task w access).0.rows
unfolding backfill_access
access-Filled m task w (err e) current = AllFilled-refl w.rows
access-Filled m task w (ok access) current =
    reply-Filled m task w (m.get_batch access (batch_url access task.batch_id)) current

-- The filling job on a task whose rows carry the artefacts it read: whatever the provider answers,
-- also that the batch is gone, and however the job ends, each row keeps its status and its
-- terminal time, and each of the output file, the endpoint and the counts that it has.
pub backfill_one_task-Filled :
    (m : Manager) (task : BatchTask) (w : World)
    → AllCurrent task w.rows
    → AllFilled w.rows (backfill_one_task m task w).0.rows
unfolding backfill_one_task
backfill_one_task-Filled m task w current =
    access-Filled m task w (resolve_provider_access m task.provider task.key_name) current
