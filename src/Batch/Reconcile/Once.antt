-- ===== src/Batch/Reconcile/Once.antt =====
-- What a settlement round does to the table, and which tasks it settles.
use ai_gateway_api.Prelude.{◌≡◌, refl, ◌∙◌, ◌⊎◌, inl, inr, not, List, [], ◌∷◌, Bool-cases}
use ai_gateway_api.Batch.Task.{BatchTask, settle_status_reserved}
use ai_gateway_api.Batch.Store.{Rows}
use ai_gateway_api.Batch.World.{Manager, World}
use ai_gateway_api.Batch.Settle.{Round, settle_one_task, release_one_task}
use ai_gateway_api.Batch.Settle.Frozen.{AllFrozen, settle_one_task-frozen, release_one_task-frozen}
use ai_gateway_api.Batch.Reconcile.{
  each, settle_each, filter_by_settle_grace, list_batch_tasks, is_settle_candidate,
  is_release_candidate, reconcile_settle, reconcile_listed,
}

-- Row by row: a row that is no longer reserved is the same afterwards.
abbrev pub AllOnce : Rows → Rows → Type 0
AllOnce [] [] = Unit
AllOnce (old ∷ olds) (new ∷ news) =
    ((old.settle_status ≡ settle_status_reserved) ⊎ (new ≡ old)) × AllOnce olds news
AllOnce _ _ = ⊥

AllOnce-refl : (rows : Rows) → AllOnce rows rows
AllOnce-refl [] = tt
AllOnce-refl (t ∷ ts) = (inr refl, AllOnce-refl ts)

frozen-AllOnce :
    (task : BatchTask) (olds news : Rows) → AllFrozen task olds news → AllOnce olds news
frozen-AllOnce task [] [] h = tt
frozen-AllOnce task [] (n ∷ ns) h = elim h [ ]
frozen-AllOnce task (o ∷ os) [] h = elim h [ ]
frozen-AllOnce task (o ∷ os) (n ∷ ns) (inl (reserved, _, _), rest) =
    (inl reserved, frozen-AllOnce task os ns rest)
frozen-AllOnce task (o ∷ os) (n ∷ ns) (inr same, rest) = (inr same, frozen-AllOnce task os ns rest)

AllOnce-trans : (a b c : Rows) → AllOnce a b → AllOnce b c → AllOnce a c
AllOnce-trans [] [] [] h k = tt
AllOnce-trans [] [] (c ∷ cs) h k = elim k [ ]
AllOnce-trans [] (b ∷ bs) c h k = elim h [ ]
AllOnce-trans (a ∷ as') [] c h k = elim h [ ]
AllOnce-trans (a ∷ as') (b ∷ bs) [] h k = elim k [ ]
AllOnce-trans (a ∷ as') (b ∷ bs) (c ∷ cs) (inl reserved, h) (second, k) =
    (inl reserved, AllOnce-trans as' bs cs h k)
AllOnce-trans (a ∷ as') (b ∷ bs) (c ∷ cs) (inr same, h) (inl reserved, k) =
    (inl (rw same at reserved), AllOnce-trans as' bs cs h k)
AllOnce-trans (a ∷ as') (b ∷ bs) (c ∷ cs) (inr same, h) (inr again, k) =
    (inr (again ∙ same), AllOnce-trans as' bs cs h k)

settle_each-AllOnce :
    (m : Manager) (tasks : List BatchTask) (round : Round)
    → AllOnce round.world.rows (settle_each m tasks round).0.world.rows
unfolding settle_each
settle_each-AllOnce m [] round = AllOnce-refl round.world.rows
settle_each-AllOnce m (t ∷ ts) round =
    let next = (settle_one_task m t round).0 in
    AllOnce-trans round.world.rows next.world.rows (settle_each m ts next).0.world.rows
      (frozen-AllOnce t round.world.rows next.world.rows (settle_one_task-frozen m t round))
      (settle_each-AllOnce m ts next)

release_each-AllOnce :
    (m : Manager) (tasks : List BatchTask) (w : World)
    → AllOnce w.rows (each (release_one_task m) tasks w).0.rows
unfolding each
release_each-AllOnce m [] w = AllOnce-refl w.rows
release_each-AllOnce m (t ∷ ts) w =
    let next = (release_one_task m t w).0 in
    AllOnce-trans w.rows next.rows (each (release_one_task m) ts next).0.rows
      (frozen-AllOnce t w.rows next.rows (release_one_task-frozen m t w))
      (release_each-AllOnce m ts next)

listed-AllOnce : (m : Manager) (w : World) → AllOnce w.rows (reconcile_listed m w).0.rows
unfolding reconcile_listed
listed-AllOnce m w =
    let settling =
      filter_by_settle_grace m.now m.settle_grace
        (list_batch_tasks is_settle_candidate m.reconcile_limit w.rows) in
    let releasing = list_batch_tasks is_release_candidate m.reconcile_limit w.rows in
    let start : Round = record { cache = []; world = w } in
    let round = (settle_each m settling start).0 in
    AllOnce-trans w.rows round.world.rows (each (release_one_task m) releasing round.world).0.rows
      (settle_each-AllOnce m settling start) (release_each-AllOnce m releasing round.world)

-- A whole settlement round, whatever fails in it, changes no row that was settled or released
-- before it: rows are settled or released at most once.
pub reconcile_settle-once : (m : Manager) (w : World) → AllOnce w.rows (reconcile_settle m w).0.rows
unfolding reconcile_settle
reconcile_settle-once m w = elim (Bool-cases (not m.has_redis)) [
  | inl off ↦ rw off (AllOnce-refl w.rows)
  | inr on ↦ elim (Bool-cases m.list_fails) [
    | inl bad ↦ rw (on, bad) (AllOnce-refl w.rows)
    | inr good ↦ simp (on, good) (listed-AllOnce m w)
  ]
]
