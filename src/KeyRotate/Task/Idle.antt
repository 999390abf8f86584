-- ===== src/KeyRotate/Task/Idle.antt =====
-- Who runs where the lock is free, lost or done (storage/rdb/keyrotate/keyrotate.go).
use ai_gateway_api.Prelude.{
  ℕ, ◌+◌, ◌≡◌, refl, sym, ap, subst, ◌∙◌, String, Bool, true, false, Bool-cases, Option, none, some,
  ◌⊎◌, inl, inr, ◌==◌, eq_iff, ltb,
}
use ai_gateway_api.KeyRotate.Task.{
  SweepTask, Store, TriggerError, is_running, changed, update_task, lost, take_over, with_task,
  final_status, close_task,
}

unfoldable pub runs : Option SweepTask → Bool
unfolding is_running
runs none = false
runs (some t) = is_running t.status

-- A task that runs holds the lock.
abbrev pub IsSingle : Store → Type 0
IsSingle s = (id : String) → runs (s.tasks id) ≡ true → (id == s.holder ≡ true) × (id == "" ≡ false)

abbrev pub Rests : Store → Type 0
Rests s = (id : String) → runs (s.tasks id) ≡ false

-- A change of the rows of one identifier that leaves none of them running, or as they were.
runs-changed :
    (f : SweepTask → SweepTask)
    → ((t : SweepTask) → is_running (f t).status ≡ true → is_running t.status ≡ true)
    → (o : Option SweepTask) → runs (changed f o) ≡ true
    → runs o ≡ true
unfolding runs changed
runs-changed f down none h = h
runs-changed f down (some t) h = down t h

pub runs-update_task :
    (id : String) (f : SweepTask → SweepTask)
    → ((t : SweepTask) → is_running (f t).status ≡ true → is_running t.status ≡ true)
    → (tasks : String → Option SweepTask) (key : String) → runs (update_task id f tasks key) ≡ true
    → runs (tasks key) ≡ true
unfolding update_task
runs-update_task id f down tasks key h = elim (Bool-cases (key == id)) [
  | inl same ↦ runs-changed f down (tasks key) (rw same at h)
  | inr other ↦ rw other at h
]

stops-changed :
    (f : SweepTask → SweepTask)
    → ((t : SweepTask) → is_running (f t).status ≡ false)
    → (o : Option SweepTask) → runs (changed f o) ≡ false
unfolding runs changed
stops-changed f stops none = refl
stops-changed f stops (some t) = stops t

pub stops-update_task :
    (id : String) (f : SweepTask → SweepTask)
    → ((t : SweepTask) → is_running (f t).status ≡ false)
    → (tasks : String → Option SweepTask) (key : String) → key == id ≡ true
    → runs (update_task id f tasks key) ≡ false
unfolding update_task
stops-update_task id f stops tasks key same = rw same (stops-changed f stops (tasks key))

lost-stops : (now : ℕ) (t : SweepTask) → is_running (lost now t).status ≡ false
unfolding lost is_running
lost-stops now t = elim (Bool-cases (is_running t.status)) [
  | inl running ↦ simp (running)
  | inr done ↦ simp (done)
]

pub close_task-stops :
    (now : ℕ) (failed : Bool) (cause : String) (t : SweepTask)
    → is_running (close_task now failed cause t).status ≡ false
unfolding close_task final_status is_running
close_task-stops now true cause t = refl
close_task-stops now false cause t = refl

-- Where the holder does not run, nothing does.
Rests-holder : (s : Store) → IsSingle s → runs (s.tasks s.holder) ≡ false → Rests s
Rests-holder s single idle id = elim (Bool-cases (runs (s.tasks id))) [
  | inr still ↦ still
  | inl running ↦
      let same = (eq_iff id s.holder).0 (single id running).0 in
      let both : runs (s.tasks s.holder) ≡ true =
        subst (λ k. runs (s.tasks k) ≡ true) same running in
      cc (both, idle)
]

Rests-lost :
    (now : ℕ) (s : Store)
    → IsSingle s
    → Rests (record s { tasks = update_task s.holder (lost now) s.tasks })
Rests-lost now s single id = elim (Bool-cases (id == s.holder)) [
  | inl same ↦ stops-update_task s.holder (lost now) (lost-stops now) s.tasks id same
  | inr other ↦ elim (Bool-cases (runs (update_task s.holder (lost now) s.tasks id))) [
    | inr still ↦ still
    | inl running ↦
        let before =
          runs-update_task s.holder (lost now) (λ t h. absurd-of t h) s.tasks id running in
        let held = (single id before).0 in cc (held, other)
  ]
]
  where
    absurd-of : (t : SweepTask) → is_running (lost now t).status ≡ true → is_running t.status ≡ true
    absurd-of t h = let idle = lost-stops now t in cc (idle, h)

pub stored : (s s' : Store) → ◌≡◌ {A = TriggerError ⊎ Store} (inr s) (inr s') → s ≡ s'
stored s s' h = cc h

pub Rests-take_over :
    (now ttl : ℕ) (o : Option SweepTask) (s s' : Store)
    → o ≡ s.tasks s.holder
    → IsSingle s
    → take_over now ttl o s ≡ inr s'
    → Rests s'
unfolding take_over runs
Rests-take_over now ttl none s s' at single h =
    subst Rests (stored s s' h) (Rests-holder s single (ap runs (sym at)))
Rests-take_over now ttl (some row) s s' at single h = elim (Bool-cases (is_running row.status)) [
  | inr idle ↦
      let same : ◌≡◌ {A = TriggerError ⊎ Store} (inr s) (inr s') = rw idle at h in
      subst Rests (stored s s' same) (Rests-holder s single (ap runs (sym at) ∙ idle))
  | inl running ↦ elim (Bool-cases (ltb now (row.heartbeat_at + ttl))) [
    | inl fresh ↦ cc (rw (running, fresh) at h)
    | inr stale ↦
        let same : ◌≡◌ {A = TriggerError ⊎ Store}
            (inr (record s { tasks = update_task s.holder (lost now) s.tasks })) (inr s') =
          rw (running, stale) at h in
        subst Rests (stored _ s' same) (Rests-lost now s single)
  ]
]

pub Rests-free : (s : Store) → IsSingle s → s.holder == "" ≡ true → Rests s
Rests-free s single free id = elim (Bool-cases (runs (s.tasks id))) [
  | inr still ↦ still
  | inl running ↦
      let (held, named) = single id running in
      let same : id ≡ "" = (eq_iff id s.holder).0 held ∙ (eq_iff s.holder "").0 free in
      let unnamed : id == "" ≡ true = (eq_iff id "").1 same in cc (unnamed, named)
]

pub IsSingle-with_task :
    (task : SweepTask) (s : Store)
    → Rests s
    → task.task_id == "" ≡ false
    → IsSingle (record { tasks = with_task task s.tasks; holder = task.task_id })
unfolding with_task
IsSingle-with_task task s rests named id running = elim (Bool-cases (id == task.task_id)) [
  | inl same ↦ (same, subst (λ k. k == "" ≡ false) (sym ((eq_iff id task.task_id).0 same)) named)
  | inr other ↦
      let before : runs (s.tasks id) ≡ true = rw other at running in
      let still = rests id in cc (before, still)
]
