-- ===== src/Batch/Store.antt =====
-- The table batch_tasks and its updates (storage/rdb/batch/batch_task.go and
-- storage/rdb/internal/dao/table_batch_tasks.go). An update returns the rows and how many it
-- matched, which is what the callers read as `affected`.
pub mod Moves
pub mod Claimed
use ai_gateway_api.Prelude.{
  ℕ, suc, String, Bool, not, ◌&&◌, List, [], ◌∷◌, ◌++◌, Option, none, some, ◌==◌, nat_eq, elem,
  if◌then◌else◌,
}
use ai_gateway_api.Batch.Task.{
  Time, Counts, BatchTask, BatchTaskProgressPatch, BatchSettlePatch, terminal_statuses,
  task_status_cancelling,
}

abbrev pub Rows : Type 0
Rows = List BatchTask

-- `SET f WHERE p`.
unfoldable pub update_where : (BatchTask → Bool) → (BatchTask → BatchTask) → Rows → Rows × ℕ
update_where p f [] = ([], 0)
update_where p f (t ∷ ts) =
    let (rest, n) = update_where p f ts in if p t then (f t ∷ rest, suc n) else (t ∷ rest, n)

-- The first row that a condition holds of.
unfoldable pub find_where : (BatchTask → Bool) → Rows → Option BatchTask
find_where p [] = none
find_where p (t ∷ ts) = if p t then some t else find_where p ts

abbrev pub assign {ℓ} : {A : Type ℓ} → Option A → A → A
assign none old = old
assign (some new) old = new

abbrev assign_option {ℓ} : {A : Type ℓ} → Option A → Option A → Option A
assign_option none old = old
assign_option (some new) old = some new

abbrev pub cancel_excluded : List String
cancel_excluded = terminal_statuses ++ task_status_cancelling ∷ []

unfoldable pub preempt_matches : String → String → BatchTask → Bool
preempt_matches batch_id product_name t =
    t.batch_id == batch_id && t.product_name == product_name && not (elem t.status cancel_excluded)

-- `PreemptBatchTaskCancel`.
unfoldable pub preempt_batch_task_cancel : String → String → Time → Rows → Rows × ℕ
preempt_batch_task_cancel batch_id product_name now =
    update_where (preempt_matches batch_id product_name)
      (λ t. record t { status = task_status_cancelling; updated_at = now })

unfoldable pub settle_matches : String → String → String → BatchTask → Bool
settle_matches batch_id product_name from_status t =
    t.batch_id == batch_id && t.product_name == product_name && t.settle_status == from_status

unfoldable pub apply_settle_patch : BatchSettlePatch → Time → BatchTask → BatchTask
apply_settle_patch patch now t = record t {
  settle_status = patch.settle_status;
  settle_units = assign patch.settle_units t.settle_units;
  usage_input_tokens = assign patch.usage_input_tokens t.usage_input_tokens;
  usage_output_tokens = assign patch.usage_output_tokens t.usage_output_tokens;
  usage_source = assign patch.usage_source t.usage_source;
  over_reserved = assign patch.over_reserved t.over_reserved;
  terminal_at = assign_option patch.terminal_at t.terminal_at;
  updated_at = now;
}

-- `UpdateBatchTaskSettleStatus`.
unfoldable pub update_batch_task_settle_status :
    String → String → String → BatchSettlePatch → Time → Rows → Rows × ℕ
update_batch_task_settle_status batch_id product_name from_status patch now =
    update_where (settle_matches batch_id product_name from_status) (apply_settle_patch patch now)

unfoldable pub apply_progress_patch : BatchTaskProgressPatch → Time → BatchTask → BatchTask
apply_progress_patch patch now t = record t {
  status = assign patch.status t.status;
  output_file_id = assign patch.output_file_id t.output_file_id;
  endpoint = assign patch.endpoint t.endpoint;
  request_counts = assign_option patch.request_counts t.request_counts;
  terminal_at = assign_option patch.terminal_at t.terminal_at;
  updated_at = now;
}

-- `UpdateBatchTaskProgress`, by the row's id.
unfoldable pub update_batch_task_progress : ℕ → BatchTaskProgressPatch → Time → Rows → Rows × ℕ
update_batch_task_progress id patch now =
    update_where (λ t. nat_eq t.id id) (apply_progress_patch patch now)

-- An empty map of counts is written as NULL, as `batchTaskDataToParam` leaves the column out.
unfoldable pub stored_counts : Option Counts → Option Counts
stored_counts (some (c ∷ cs)) = some (c ∷ cs)
stored_counts _ = none

-- A zero time is left to the table access, which writes the present time.
unfoldable pub stamped : Time → Time → Time
stamped t now = if nat_eq t 0 then now else t

-- What `ON DUPLICATE KEY UPDATE` writes over a row; the other columns stay as inserted.
unfoldable pub refresh_row : BatchTask → Time → BatchTask → BatchTask
refresh_row new now old = record old {
  status = new.status;
  output_file_id = new.output_file_id;
  request_counts = stored_counts new.request_counts;
  est_lines = new.est_lines;
  usage_input_tokens = new.usage_input_tokens;
  usage_output_tokens = new.usage_output_tokens;
  reserve_units = new.reserve_units;
  settle_units = new.settle_units;
  settle_status = new.settle_status;
  terminal_at = new.terminal_at;
  updated_at = stamped new.updated_at now;
}

-- The row of an insert, with the number that the table gives it.
unfoldable pub inserted_row : ℕ → BatchTask → Time → BatchTask
inserted_row id new now = record new {
  id = id;
  request_counts = stored_counts new.request_counts;
  created_at = stamped new.created_at now;
  updated_at = stamped new.updated_at now;
}

abbrev pub has_idem_key : String → BatchTask → Bool
has_idem_key key t = t.idem_key == key

-- `UpsertBatchTask`: `none` is the refusal of an empty idem_key.
unfoldable pub upsert_batch_task : ℕ → BatchTask → Time → Rows → Option Rows
upsert_batch_task id new now rows =
    if new.idem_key == "" then none else elim (find_where (has_idem_key new.idem_key) rows) [
      | none ↦ some (rows ++ inserted_row id new now ∷ [])
      | some old ↦ some (update_where (has_idem_key new.idem_key) (refresh_row new now) rows).0
    ]
