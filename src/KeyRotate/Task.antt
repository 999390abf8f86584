-- ===== src/KeyRotate/Task.antt =====
-- The tasks that sweep, and the lock that one of them holds (model/keyrotate/manager.go, Trigger;
-- storage/rdb/keyrotate/keyrotate.go, AcquireTask, AddProgress, FinishTask). A task's identifier is
-- unique in the table, so that the table is a map. Summaries and durations are left out.
use Prim.Native.String
use ai_gateway_api.Prelude.{
  ℕ, ◌+◌, String, Bool, true, false, ◌||◌, Option, none, some, ◌⊎◌, inl, inr, ◌==◌, ltb,
  if◌then◌else◌,
}
use ai_gateway_api.KeyRotate.Envelope.{Mode, reencrypt, to_plaintext}
pub mod Idle
pub mod Single

pub data Status : Type 0 where
  status_running : Status
  status_succeeded : Status
  status_failed : Status

pub data Scope : Type 0 where
  scope_all : Scope
  scope_providers : Scope
  scope_api_keys : Scope

pub record SweepTask : Type 0 where
  pub task_id : String
  pub status : Status
  pub mode : Mode
  pub dry_run : Bool
  pub scope : Scope
  pub active_key_id : ℕ
  pub scanned : ℕ
  pub rewritten : ℕ
  pub started_at : ℕ
  pub finished_at : Option ℕ
  pub failed_cause : String
  pub heartbeat_at : ℕ
  pub created_by : String

pub record Store : Type 0 where
  pub tasks : String → Option SweepTask
  pub holder : String

pub data TriggerError : Type 0 where
  invalid_mode : String → TriggerError
  invalid_scope : String → TriggerError
  conflict : String → TriggerError
  database : TriggerError

unfoldable pub is_running : Status → Bool
is_running status_running = true
is_running status_succeeded = false
is_running status_failed = false

unfoldable pub exists : Option SweepTask → Bool
exists none = false
exists (some t) = true

unfoldable pub changed : (SweepTask → SweepTask) → Option SweepTask → Option SweepTask
changed f none = none
changed f (some t) = some (f t)

-- `UPDATE ... WHERE task_id = ?`.
unfoldable pub update_task :
    String → (SweepTask → SweepTask) → (String → Option SweepTask) → String → Option SweepTask
unfolding changed
update_task id f tasks key = if key == id then changed f (tasks key) else tasks key

unfoldable pub lost : ℕ → SweepTask → SweepTask
unfolding is_running
lost now t =
    if is_running t.status
    then record t { status = status_failed; failed_cause = "executor lost"; finished_at = some now }
    else t

-- The holder of the lock: in the way, lost, or done.
unfoldable pub take_over : ℕ → ℕ → Option SweepTask → Store → TriggerError ⊎ Store
unfolding is_running update_task lost
take_over now ttl none s = inr s
take_over now ttl (some row) s =
    if is_running row.status
    then (if ltb now (row.heartbeat_at + ttl)
        then inl (conflict s.holder)
        else inr (record s { tasks = update_task s.holder (lost now) s.tasks }))
    else inr s

unfoldable pub with_task : SweepTask → (String → Option SweepTask) → String → Option SweepTask
with_task task tasks key = if key == task.task_id then some task else tasks key

-- The identifier is unique.
unfoldable pub insert_task : Bool → SweepTask → TriggerError ⊎ Store → TriggerError ⊎ Store
unfolding exists with_task
insert_task fails task (inl e) = inl e
insert_task fails task (inr s) =
    if fails || exists (s.tasks task.task_id)
    then inl database
    else inr (record { tasks = with_task task s.tasks; holder = task.task_id })

-- In one transaction: an error leaves the store as it was.
unfoldable pub acquire_task : Bool → Bool → ℕ → ℕ → SweepTask → Store → TriggerError ⊎ Store
unfolding take_over insert_task
acquire_task read_fails write_fails now ttl task s =
    if read_fails
    then inl database
    else if s.holder == ""
    then insert_task write_fails task (inr s)
    else insert_task write_fails task (take_over now ttl (s.tasks s.holder) s)

unfoldable pub mode_of : String → TriggerError ⊎ Mode
mode_of text =
    if text == "" || text == "reencrypt"
    then inr reencrypt
    else if text == "decrypt"
    then inr to_plaintext
    else inl (invalid_mode text)

unfoldable pub scope_of : String → TriggerError ⊎ Scope
scope_of text =
    if text == "" || text == "all"
    then inr scope_all
    else if text == "providers"
    then inr scope_providers
    else if text == "api_keys"
    then inr scope_api_keys
    else inl (invalid_scope text)

unfoldable pub active_id : Mode → Option ℕ → ℕ
active_id to_plaintext ring = 0
active_id reencrypt none = 0
active_id reencrypt (some id) = id

unfoldable pub sweep_task : String → ℕ → Option ℕ → Bool → String → Mode → Scope → SweepTask
unfolding active_id
sweep_task unique now ring dry_run operator mode scope = record {
  task_id = String.◌++◌ "rsp-" unique;
  status = status_running;
  mode = mode;
  dry_run = dry_run;
  scope = scope;
  active_key_id = active_id mode ring;
  scanned = 0;
  rewritten = 0;
  started_at = now;
  finished_at = none;
  failed_cause = "";
  heartbeat_at = now;
  created_by = operator;
}

module _ (read_fails write_fails : Bool) (now ttl : ℕ) (unique : String) (ring : Option ℕ)
    (dry_run : Bool) (operator : String) where
  unfoldable pub triggered :
      TriggerError ⊎ Mode → TriggerError ⊎ Scope → Store → TriggerError ⊎ Store
  unfolding acquire_task sweep_task
  triggered (inl e) scope s = inl e
  triggered (inr mode) (inl e) s = inl e
  triggered (inr mode) (inr scope) s =
      acquire_task read_fails write_fails now ttl
        (sweep_task unique now ring dry_run operator mode scope) s

  unfoldable pub trigger : String → String → Store → TriggerError ⊎ Store
  unfolding triggered mode_of scope_of
  trigger mode scope s = triggered (mode_of mode) (scope_of scope) s

unfoldable pub add_progress : Bool → ℕ → String → ℕ → ℕ → Store → Store
unfolding update_task
add_progress fails now id scanned rewritten s = if fails then s else record s {
  tasks =
      update_task id
        (λ t. record t {
          scanned = t.scanned + scanned;
          rewritten = t.rewritten + rewritten;
          heartbeat_at = now;
        })
        s.tasks;
}

-- The status that `run` finishes a task with.
unfoldable pub final_status : Bool → Status
final_status true = status_failed
final_status false = status_succeeded

unfoldable pub close_task : ℕ → Bool → String → SweepTask → SweepTask
unfolding final_status
close_task now failed cause t = record t {
  status = final_status failed;
  failed_cause = cause;
  finished_at = some now;
  heartbeat_at = now;
}

unfoldable pub finish_task : Bool → ℕ → String → Bool → String → Store → Store
unfolding update_task close_task
finish_task fails now id failed cause s = if fails then s else record {
  tasks = update_task id (close_task now failed cause) s.tasks;
  holder = if s.holder == id then "" else s.holder;
}
