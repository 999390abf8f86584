-- ===== src/Batch/View/Terminal.antt =====
-- The synchronisation from Redis and the terminal statuses of the table.
use ai_gateway_api.Prelude.{
  subst, ℕ, ◌≡◌, refl, sym, inl, inr, String, true, ◌||◌, Option, none, some, [], ◌∷◌, ◌++◌, ◌==◌,
  eq_iff, arith, Bool-cases, Option-cases,
}
use ai_gateway_api.Batch.Task.{BatchTask, Time, is_terminal_status}
use ai_gateway_api.Batch.Store.{
  Rows, update_where, find_where, has_idem_key, refresh_row, inserted_row, upsert_batch_task,
}
use ai_gateway_api.Batch.Redis.{Fields, h_get_all}
use ai_gateway_api.Batch.World.{Result, ok, err, Manager, World, ApiKey}
use ai_gateway_api.Batch.View.{
  RedisTaskView, merge_task_for_sync, merge_status, merge_fields, sync_one_task, sync_fields,
  sync_view, sync_incoming, upserted, apply_task_view, resolved_task, task_of_view,
  parse_redis_task_view,
}

-- A row that is terminal keeps its status and its time.
abbrev pub KeepsTerminal : BatchTask → BatchTask → Type 0
KeepsTerminal old new =
    is_terminal_status old.status ≡ true
    → (new.status ≡ old.status) × (new.terminal_at ≡ old.terminal_at)

-- Row by row; new rows may follow.
abbrev pub AllKeepTerminal : Rows → Rows → Type 0
AllKeepTerminal [] news = Unit
AllKeepTerminal (old ∷ olds) [] = ⊥
AllKeepTerminal (old ∷ olds) (new ∷ news) = KeepsTerminal old new × AllKeepTerminal olds news

-- The unique index on idem_key.
abbrev pub UniqueKeys : Rows → Type 0
UniqueKeys [] = Unit
UniqueKeys (t ∷ ts) = (find_where (has_idem_key t.idem_key) ts ≡ none) × UniqueKeys ts

AllKeepTerminal-append : (rows more : Rows) → AllKeepTerminal rows (rows ++ more)
AllKeepTerminal-append [] more = tt
AllKeepTerminal-append (t ∷ ts) more = (λ h. (refl, refl), AllKeepTerminal-append ts more)

AllKeepTerminal-refl : (rows : Rows) → AllKeepTerminal rows rows
AllKeepTerminal-refl [] = tt
AllKeepTerminal-refl (t ∷ ts) = (λ h. (refl, refl), AllKeepTerminal-refl ts)

-- No row of a key: an update by the key changes nothing.
update-absent :
    (k : String) (f : BatchTask → BatchTask) (rows : Rows)
    → find_where (has_idem_key k) rows ≡ none
    → (update_where (has_idem_key k) f rows).0 ≡ rows
unfolding find_where update_where
update-absent k f [] h = refl
update-absent k f (t ∷ ts) h = ground (arith, update-absent k f ts)

update-found :
    (k : String) (f : BatchTask → BatchTask) (rows : Rows) (old : BatchTask)
    → UniqueKeys rows
    → find_where (has_idem_key k) rows ≡ some old
    → KeepsTerminal old (f old)
    → AllKeepTerminal rows (update_where (has_idem_key k) f rows).0
unfolding find_where update_where
update-found k f [] old u e keeps = tt
update-found k f (t ∷ ts) old (fresh, u) e keeps = elim (Bool-cases (has_idem_key k t)) [
  | inl same ↦
      let picked : some t ≡ some old = rw same at e in
      let first : t ≡ old = cc picked in
      let rest : find_where (has_idem_key k) ts ≡ none =
        subst (λ j. find_where (has_idem_key j) ts ≡ none) ((eq_iff t.idem_key k).0 same) fresh in
      rw (same, update-absent k f ts rest)
        (subst (λ r. KeepsTerminal r (f r)) (sym first) keeps, AllKeepTerminal-refl ts)
  | inr other ↦ rw other ((λ h. (refl, refl)), update-found k f ts old u (rw other at e) keeps)
]

-- Whatever Redis holds, the merge leaves the status and the time of a terminal row.
merge-terminal :
    (existing incoming : BatchTask) (view : RedisTaskView) (now : Time)
    → KeepsTerminal existing (merge_task_for_sync (some existing) incoming view now)
unfolding merge_task_for_sync
merge-terminal existing incoming view now h = rw h (refl, refl)

upsert-terminal :
    (id : ℕ) (new : BatchTask) (now : Time) (rows rows' : Rows)
    → UniqueKeys rows
    → ((old : BatchTask)
        → find_where (has_idem_key new.idem_key) rows ≡ some old
        → KeepsTerminal old new)
    → upsert_batch_task id new now rows ≡ some rows'
    → AllKeepTerminal rows rows'
unfolding upsert_batch_task refresh_row
upsert-terminal id new now rows rows' u keeps done = elim (Bool-cases (new.idem_key == "")) [
  | inl keyless ↦ cc (rw keyless at done)
  | inr keyed ↦ elim (Option-cases (find_where (has_idem_key new.idem_key) rows)) [
    | inl fresh ↦
        let added : some (rows ++ inserted_row id new now ∷ []) ≡ some rows' =
          rw (keyed, fresh) at done in
        let same : rows ++ inserted_row id new now ∷ [] ≡ rows' = cc added in
        subst (AllKeepTerminal rows) same
          (AllKeepTerminal-append rows (inserted_row id new now ∷ []))
    | inr (old, found) ↦
        let key = new.idem_key in
        let updated : some (update_where (has_idem_key key) (refresh_row new now) rows).0
            ≡ some rows' =
          rw (keyed, found) at done in
        let same : (update_where (has_idem_key key) (refresh_row new now) rows).0 ≡ rows' =
          cc updated in
        subst (AllKeepTerminal rows) same
          (update-found key (refresh_row new now) rows old u found (keeps old found))
  ]
]

find-key :
    (k : String) (rows : Rows) (old : BatchTask)
    → find_where (has_idem_key k) rows ≡ some old
    → old.idem_key ≡ k
unfolding find_where
find-key k [] old e = cc e
find-key k (t ∷ ts) old e = elim (Bool-cases (has_idem_key k t)) [
  | inl same ↦
      let picked : some t ≡ some old = rw same at e in
      let first : t ≡ old = cc picked in
      subst (λ r. r.idem_key ≡ k) first ((eq_iff t.idem_key k).0 same)
  | inr other ↦ find-key k ts old (rw other at e)
]

abbrev kept_key : Option BatchTask → BatchTask → String
kept_key none incoming = incoming.idem_key
kept_key (some existing) incoming = existing.idem_key

merge-key :
    (found : Option BatchTask) (incoming : BatchTask) (view : RedisTaskView) (now : Time)
    → (merge_task_for_sync found incoming view now).idem_key ≡ kept_key found incoming
unfolding merge_task_for_sync merge_status merge_fields
merge-key none incoming view now = elim (Bool-cases (is_terminal_status incoming.status)) [
  | inl h ↦ rw h refl
  | inr h ↦ rw h refl
]
merge-key (some existing) incoming view now =
    elim (Bool-cases (is_terminal_status existing.status)) [
      | inl h ↦ rw h refl
      | inr h ↦ elim (Bool-cases (is_terminal_status incoming.status)) [
        | inl i ↦ rw (h, i) refl
        | inr i ↦ rw (h, i) refl
      ]
    ]

merged-keeps :
    (found : Option BatchTask) (incoming : BatchTask) (view : RedisTaskView) (now : Time)
    (rows : Rows) (old : BatchTask)
    → incoming.idem_key ≡ view.batch_id
    → find_where (has_idem_key view.batch_id) rows ≡ found
    → find_where (has_idem_key (merge_task_for_sync found incoming view now).idem_key) rows
      ≡ some old
    → KeepsTerminal old (merge_task_for_sync found incoming view now)
merged-keeps none incoming view now rows old key e hit =
    let at_key : find_where (has_idem_key view.batch_id) rows ≡ some old =
      rw (merge-key none incoming view now, key) at hit in
    cc (e, at_key)
merged-keeps (some existing) incoming view now rows old key e hit =
    let at_key : find_where (has_idem_key view.batch_id) rows ≡ some old =
      rw (merge-key (some existing) incoming view now, find-key view.batch_id rows existing e) at
        hit in
    let first : existing ≡ old = cc (e, at_key) in
    subst (λ r. KeepsTerminal r (merge_task_for_sync (some existing) incoming view now)) first
      (merge-terminal existing incoming view now)

sync_incoming-terminal :
    (m : Manager) (view : RedisTaskView) (w : World) (incoming : BatchTask)
    → incoming.idem_key ≡ view.batch_id
    → UniqueKeys w.rows
    → AllKeepTerminal w.rows (sync_incoming m view w (ok (some incoming))).0.rows
unfolding sync_incoming upserted
sync_incoming-terminal m view w incoming key u =
    elim (Bool-cases (m.store_read_fails view.batch_id || m.store_write_fails view.batch_id)) [
      | inl h ↦ rw h (AllKeepTerminal-refl w.rows)
      | inr h ↦
          let found = find_where (has_idem_key view.batch_id) w.rows in
          let merged = merge_task_for_sync found incoming view m.now in
          elim (Option-cases (upsert_batch_task w.next_id merged m.now w.rows)) [
            | inl e ↦ rw (h, e) (AllKeepTerminal-refl w.rows)
            | inr (rows, e) ↦
                rw (h, e)
                  (upsert-terminal w.next_id merged m.now w.rows rows u
                    (λ old hit. merged-keeps found incoming view m.now w.rows old key refl hit) e)
          ]
    ]

resolved-terminal :
    (m : Manager) (view : RedisTaskView) (w : World) (ak : Result (Option ApiKey))
    → UniqueKeys w.rows
    → AllKeepTerminal w.rows (sync_incoming m view w (resolved_task m view ak)).0.rows
unfolding sync_incoming resolved_task task_of_view
resolved-terminal m view w (err e) u = AllKeepTerminal-refl w.rows
resolved-terminal m view w (ok none) u = AllKeepTerminal-refl w.rows
resolved-terminal m view w (ok (some ak)) u =
    sync_incoming-terminal m view w (task_of_view m view ak) refl u

sync_view-terminal :
    (m : Manager) (w : World) (view : Result RedisTaskView)
    → UniqueKeys w.rows
    → AllKeepTerminal w.rows (sync_view m w view).0.rows
unfolding sync_view apply_task_view
sync_view-terminal m w (err e) u = AllKeepTerminal-refl w.rows
sync_view-terminal m w (ok view) u = resolved-terminal m view w (m.api_keys view.api_key_id) u

sync_fields-terminal :
    (m : Manager) (batch_id : String) (w : World) (fields : Fields)
    → UniqueKeys w.rows
    → AllKeepTerminal w.rows (sync_fields m batch_id w fields).0.rows
unfolding sync_fields
sync_fields-terminal m batch_id w [] u = AllKeepTerminal-refl w.rows
sync_fields-terminal m batch_id w (f ∷ fs) u =
    sync_view-terminal m w (parse_redis_task_view m.codec batch_id (f ∷ fs)) u

-- A synchronisation of any key, whatever its hash says and however it ends, leaves every terminal
-- row of the table with its status and its terminal time, where the index on idem_key is unique.
pub sync_one_task-terminal :
    (m : Manager) (batch_id : String) (w : World)
    → UniqueKeys w.rows
    → AllKeepTerminal w.rows (sync_one_task m batch_id w).0.rows
unfolding sync_one_task
sync_one_task-terminal m batch_id w u = elim (Bool-cases (m.h_get_fails batch_id)) [
  | inl h ↦ rw h (AllKeepTerminal-refl w.rows)
  | inr h ↦ rw h (sync_fields-terminal m batch_id w (h_get_all batch_id w.redis.tasks) u)
]
