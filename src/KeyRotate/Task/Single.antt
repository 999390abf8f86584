-- ===== src/KeyRotate/Task/Single.antt =====
-- The lock and the tasks that run (storage/rdb/keyrotate/keyrotate.go).
use Prim.Native.String
use ai_gateway_api.Prelude.{
  ℕ, ◌≡◌, refl, sym, ap, subst, ◌∙◌, String, Bool, true, false, Bool-cases, ◌||◌, Option, none,
  some, ◌⊎◌, inl, inr, ◌==◌, eq_iff, cut_prefix, cut_prefix-append, if◌then◌else◌,
}
use ai_gateway_api.KeyRotate.Envelope.{Mode}
use ai_gateway_api.KeyRotate.Task.{
  Scope, SweepTask, Store, TriggerError, exists, update_task, take_over, with_task, insert_task,
  acquire_task, mode_of, scope_of, sweep_task, triggered, trigger, add_progress, close_task,
  finish_task,
}
use ai_gateway_api.KeyRotate.Task.Idle.{
  Rests, runs-update_task, stops-update_task, close_task-stops, stored, Rests-take_over, Rests-free,
  IsSingle-with_task, runs, IsSingle,
}

-- How a task comes to another store.
pub data Step (ttl : ℕ) : Store → Store → Type 0 where
  triggers :
      {s s' : Store} (read_fails write_fails : Bool) (now : ℕ) (unique : String) (ring : Option ℕ)
      (dry_run : Bool) (operator mode scope : String)
      → trigger read_fails write_fails now ttl unique ring dry_run operator mode scope s ≡ inr s'
      → Step ttl s s'
  progresses :
      {s : Store} (fails : Bool) (now : ℕ) (id : String) (scanned rewritten : ℕ)
      → Step ttl s (add_progress fails now id scanned rewritten s)
  finishes :
      {s : Store} (fails : Bool) (now : ℕ) (id : String) (failed : Bool) (cause : String)
      → Step ttl s (finish_task fails now id failed cause s)

abbrev pub empty : Store
empty = record { tasks = λ id. none; holder = "" }

pub data Reach (ttl : ℕ) : Store → Type 0 where
  initial : Reach ttl empty
  after : {s s' : Store} → Reach ttl s → Step ttl s s' → Reach ttl s'

IsSingle-insert_task :
    (fails : Bool) (task : SweepTask) (r : TriggerError ⊎ Store) (s' : Store)
    → ((s : Store) → r ≡ inr s → Rests s)
    → task.task_id == "" ≡ false
    → insert_task fails task r ≡ inr s'
    → IsSingle s'
unfolding insert_task
IsSingle-insert_task fails task (inl e) s' rests named h = cc h
IsSingle-insert_task fails task (inr s) s' rests named h =
    elim (Bool-cases (fails || exists (s.tasks task.task_id))) [
      | inl refused ↦ cc (rw refused at h)
      | inr fresh ↦
          subst IsSingle
            (stored (record { tasks = with_task task s.tasks; holder = task.task_id }) s'
              (rw fresh at h))
            (IsSingle-with_task task s (rests s refl) named)
    ]

IsSingle-acquire_task :
    (read_fails write_fails : Bool) (now ttl : ℕ) (task : SweepTask) (s s' : Store)
    → IsSingle s
    → task.task_id == "" ≡ false
    → acquire_task read_fails write_fails now ttl task s ≡ inr s'
    → IsSingle s'
unfolding acquire_task
IsSingle-acquire_task true write_fails now ttl task s s' single named h = cc h
IsSingle-acquire_task false write_fails now ttl task s s' single named h =
    elim (Bool-cases (s.holder == "")) [
      | inl free ↦
          IsSingle-insert_task write_fails task (inr s) s'
            (λ t at. subst Rests (stored s t at) (Rests-free s single free)) named (rw free at h)
      | inr held ↦
          IsSingle-insert_task write_fails task (take_over now ttl (s.tasks s.holder) s) s'
            (λ t at. Rests-take_over now ttl (s.tasks s.holder) s t refl single at) named
            (rw held at h)
    ]

prefixed : (unique : String) → String.◌++◌ "rsp-" unique == "" ≡ false
unfolding cut_prefix
prefixed unique = elim (Bool-cases (String.◌++◌ "rsp-" unique == "")) [
  | inr named ↦ named
  | inl nothing ↦
      let blank = (eq_iff (String.◌++◌ "rsp-" unique) "").0 nothing in
      let lacks : cut_prefix "rsp-" "" ≡ none = refl in
      let kept : cut_prefix "rsp-" "" ≡ some unique =
        ap (cut_prefix "rsp-") (sym blank) ∙ cut_prefix-append "rsp-" unique in
      cc (lacks, kept)
]

IsSingle-triggered :
    (read_fails write_fails : Bool) (now ttl : ℕ) (unique : String) (ring : Option ℕ)
    (dry_run : Bool) (operator : String) (m : TriggerError ⊎ Mode) (c : TriggerError ⊎ Scope)
    (s s' : Store)
    → IsSingle s
    → triggered read_fails write_fails now ttl unique ring dry_run operator m c s ≡ inr s'
    → IsSingle s'
unfolding triggered sweep_task
IsSingle-triggered rf wf now ttl unique ring dry_run operator (inl e) c s s' single h = cc h
IsSingle-triggered rf wf now ttl unique ring dry_run operator (inr m) (inl e) s s' single h = cc h
IsSingle-triggered rf wf now ttl unique ring dry_run operator (inr m) (inr c) s s' single h =
    IsSingle-acquire_task rf wf now ttl (sweep_task unique now ring dry_run operator m c) s s'
      single (prefixed unique) h

IsSingle-trigger :
    (read_fails write_fails : Bool) (now ttl : ℕ) (unique : String) (ring : Option ℕ)
    (dry_run : Bool) (operator mode scope : String) (s s' : Store)
    → IsSingle s
    → trigger read_fails write_fails now ttl unique ring dry_run operator mode scope s ≡ inr s'
    → IsSingle s'
unfolding trigger
IsSingle-trigger rf wf now ttl unique ring dry_run operator mode scope s s' single h =
    IsSingle-triggered rf wf now ttl unique ring dry_run operator (mode_of mode) (scope_of scope) s
      s' single h

IsSingle-add_progress :
    (fails : Bool) (now : ℕ) (id : String) (scanned rewritten : ℕ) (s : Store)
    → IsSingle s
    → IsSingle (add_progress fails now id scanned rewritten s)
unfolding add_progress
IsSingle-add_progress true now id scanned rewritten s single = single
IsSingle-add_progress false now id scanned rewritten s single =
    λ key running. single key (runs-update_task id _ (λ t h. h) s.tasks key running)

IsSingle-closed :
    (now : ℕ) (id : String) (failed : Bool) (cause : String) (s : Store)
    → IsSingle s
    → IsSingle (record {
      tasks = update_task id (close_task now failed cause) s.tasks;
      holder = if s.holder == id then "" else s.holder;
    })
IsSingle-closed now id failed cause s single = λ key running.
    let stops = close_task-stops now failed cause in
    let before =
      runs-update_task id (close_task now failed cause) (λ t h. let idle = stops t in cc (idle, h))
        s.tasks key running in
    let (held, named) = single key before in
    elim (Bool-cases (s.holder == id)) [
      | inr other ↦ (rw other held, named)
      | inl same ↦
          let at = (eq_iff key s.holder).0 held ∙ (eq_iff s.holder id).0 same in
          let idle =
            stops-update_task id (close_task now failed cause) stops s.tasks key
              ((eq_iff key id).1 at) in
          cc (idle, running)
    ]

IsSingle-finish_task :
    (fails : Bool) (now : ℕ) (id : String) (failed : Bool) (cause : String) (s : Store)
    → IsSingle s
    → IsSingle (finish_task fails now id failed cause s)
unfolding finish_task
IsSingle-finish_task true now id failed cause s single = single
IsSingle-finish_task false now id failed cause s single =
    IsSingle-closed now id failed cause s single

-- In every store that triggers, reports of progress and ends of tasks reach from the empty one,
-- whichever calls of the database fail and however old the heartbeats are, a task that runs is the
-- one that holds the lock, so that no two tasks run.
pub Reach-IsSingle : (ttl : ℕ) (s : Store) → Reach ttl s → IsSingle s
unfolding runs
Reach-IsSingle ttl _ initial = λ id running. cc running
Reach-IsSingle ttl s'
      (after {s = s} reach (triggers rf wf now unique ring dry_run operator mode scope h)) =
    IsSingle-trigger rf wf now ttl unique ring dry_run operator mode scope s s'
      (Reach-IsSingle ttl s reach) h
Reach-IsSingle ttl _ (after {s = s} reach (progresses fails now id scanned rewritten)) =
    IsSingle-add_progress fails now id scanned rewritten s (Reach-IsSingle ttl s reach)
Reach-IsSingle ttl _ (after {s = s} reach (finishes fails now id failed cause)) =
    IsSingle-finish_task fails now id failed cause s (Reach-IsSingle ttl s reach)
