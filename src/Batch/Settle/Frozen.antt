-- ===== src/Batch/Settle/Frozen.antt =====
-- What a settlement leaves alone in the table.
use ai_gateway_api.Prelude.{
  ℕ, ◌≡◌, refl, subst, ◌⊎◌, inl, inr, Bool, true, false, Option, none, some, [], ◌∷◌, ◌==◌, eq_iff,
  arith, Int64, Bool-cases, nat_eq, ltb, leb, ◌&&◌, ◌||◌,
}
use ai_gateway_api.Batch.Task.{BatchTask, BatchSettlePatch, Time, settle_status_reserved}
use ai_gateway_api.Batch.Store.{Rows, update_where, settle_matches, update_batch_task_settle_status}
use ai_gateway_api.Batch.Redis.{Redis, set_nx_settled}
use ai_gateway_api.Batch.Usage.{UsageTotals}
use ai_gateway_api.Batch.World.{Error, Result, ok, err, ProviderAccess, Manager, World}
use ai_gateway_api.Batch.Reserve.{release_reserve}
use ai_gateway_api.Batch.Settle.{
  Round, release_claim, with_redis, write_settle, after_release_reserve, release_one_task,
  released_patch, keep_claim, write_settlement, settle_priced, settle_usage, not_settled,
  settle_access, settle_claimed, settle_one_task, calc_settle_units, resolve_provider_access_cached,
  download_and_parse_usage, content_url,
}

-- Row by row: a row that is not reserved, or is of another batch, is the same afterwards.
abbrev pub Frozen : BatchTask → BatchTask → BatchTask → Type 0
Frozen task old new =
    ((old.settle_status ≡ settle_status_reserved)
      × (old.batch_id ≡ task.batch_id)
      × (old.product_name ≡ task.product_name))
    ⊎ (new ≡ old)

abbrev pub AllFrozen : BatchTask → Rows → Rows → Type 0
AllFrozen task [] [] = Unit
AllFrozen task (old ∷ olds) (new ∷ news) = Frozen task old new × AllFrozen task olds news
AllFrozen task _ _ = ⊥

AllFrozen-refl : (task : BatchTask) (rows : Rows) → AllFrozen task rows rows
AllFrozen-refl task [] = tt
AllFrozen-refl task (t ∷ ts) = (inr refl, AllFrozen-refl task ts)

update-frozen :
    (task : BatchTask) (patch : BatchSettlePatch) (now : Time) (rows : Rows)
    → AllFrozen task rows
        (update_batch_task_settle_status task.batch_id task.product_name settle_status_reserved
          patch now rows).0
unfolding update_batch_task_settle_status update_where settle_matches
update-frozen task patch now [] = tt
update-frozen task patch now (t ∷ ts) = ground (
  arith,
  update-frozen task patch now ts,
  eq_iff t.batch_id task.batch_id,
  eq_iff t.product_name task.product_name,
  eq_iff t.settle_status settle_status_reserved,
)

module _ (m : Manager) (task : BatchTask) where
  write_settle-frozen :
      (patch : BatchSettlePatch) (w : World)
      → AllFrozen task w.rows (write_settle m task patch w).0.rows
  unfolding write_settle
  write_settle-frozen patch w = elim (Bool-cases (m.store_write_fails task.batch_id)) [
    | inl fails ↦ rw fails (AllFrozen-refl task w.rows)
    | inr works ↦ rw works (update-frozen task patch m.now w.rows)
  ]

  release_claim-rows : (w : World) → (release_claim m task.batch_id w).rows ≡ w.rows
  unfolding release_claim
  release_claim-rows w = ground arith

  give_up-frozen : (w : World) → AllFrozen task w.rows (release_claim m task.batch_id w).rows
  give_up-frozen w = rw (release_claim-rows w) (AllFrozen-refl task w.rows)

  pub release_one_task-frozen :
      (w : World) → AllFrozen task w.rows (release_one_task m task w).0.rows
  unfolding release_one_task
  release_one_task-frozen w = cases (release_reserve m task.batch_id w.redis)
    where
      cases :
          (out : Redis × Option Error)
          → AllFrozen task w.rows (after_release_reserve m task w out).0.rows
      cases (r, some e) = unfold after_release_reserve in AllFrozen-refl task w.rows
      cases (r, none) =
          unfold after_release_reserve in write_settle-frozen released_patch (with_redis w r)

  keep_claim-rows : (out : World × Result Bool) → (keep_claim m task out).0.rows ≡ out.0.rows
  unfolding keep_claim
  keep_claim-rows (w, err e) = release_claim-rows w
  keep_claim-rows (w, ok moved) = refl

  write_settlement-frozen :
      (usage : UsageTotals) (units : Int64) (w : World)
      → AllFrozen task w.rows (write_settlement m task usage units w).0.rows
  unfolding write_settlement
  write_settlement-frozen usage units w = elim (Bool-cases (m.h_set_fails task.batch_id)) [
    | inl fails ↦ rw fails (give_up-frozen w)
    | inr works ↦ rw (works, keep_claim-rows) (write_settle-frozen _ _)
  ]

  settle_priced-frozen :
      (usage : UsageTotals) (w : World) (priced : Result (Int64 × Bool))
      → AllFrozen task w.rows (settle_priced m task usage w priced).0.rows
  unfolding settle_priced
  settle_priced-frozen usage w (err e) = give_up-frozen w
  settle_priced-frozen usage w (ok (units, miss)) = write_settlement-frozen usage units w

  settle_usage-frozen :
      (w : World) (usage : Result (UsageTotals × ℕ))
      → AllFrozen task w.rows (settle_usage m task w usage).0.rows
  unfolding settle_usage
  settle_usage-frozen w (err e) = give_up-frozen w
  settle_usage-frozen w (ok (usage, status)) = elim (Bool-cases (nat_eq status 404)) [
    | inl missing ↦ rw missing (give_up-frozen w)
    | inr found ↦ rw found (elim (Bool-cases (ltb status 200 || leb 300 status)) [
      | inl refused ↦ rw refused (give_up-frozen w)
      | inr read ↦
          rw read (elim (Bool-cases (nat_eq usage.parsed_lines 0 && ltb 0 usage.no_usage_lines)) [
            | inl suspect ↦ rw suspect (give_up-frozen w)
            | inr plain ↦ rw plain (settle_priced-frozen usage w (calc_settle_units m task usage))
          ])
    ])
  ]

  not_settled-rows : (out : World × Result Bool) → (not_settled out).0.rows ≡ out.0.rows
  unfolding not_settled
  not_settled-rows (w, err e) = refl
  not_settled-rows (w, ok moved) = refl

  settle_access-frozen :
      (w : World) (access : Result ProviderAccess)
      → AllFrozen task w.rows (settle_access m task w access).0.rows
  unfolding settle_access
  settle_access-frozen w (err e) = give_up-frozen w
  settle_access-frozen w (ok access) = elim (Bool-cases (task.output_file_id == "")) [
    | inl without ↦
        rw (without, not_settled-rows)
          (subst
            (λ rows.
              AllFrozen task rows
                (release_one_task m task (release_claim m task.batch_id w)).0.rows)
            (release_claim-rows w) (release_one_task-frozen (release_claim m task.batch_id w)))
    | inr has ↦
        rw has (settle_usage-frozen w (download_and_parse_usage m access (content_url access task)))
  ]

  settle_claimed-frozen :
      (round : Round) (claim : Redis × Bool)
      → AllFrozen task round.world.rows (settle_claimed m task round claim).0.world.rows
  unfolding settle_claimed
  settle_claimed-frozen round (r, false) = AllFrozen-refl task round.world.rows
  settle_claimed-frozen round (r, true) =
      settle_access-frozen (with_redis round.world r)
        (resolve_provider_access_cached m round.cache task.provider task.key_name).1

  -- A settlement changes no row of the table but reserved rows of its own batch, on every path:
  -- rows that are settled or released, and those of other batches, stay as they are.
  pub settle_one_task-frozen :
      (round : Round) → AllFrozen task round.world.rows (settle_one_task m task round).0.world.rows
  unfolding settle_one_task
  settle_one_task-frozen round = elim (Bool-cases (m.set_nx_fails task.batch_id)) [
    | inl fails ↦ rw fails (AllFrozen-refl task round.world.rows)
    | inr works ↦
        rw works (settle_claimed-frozen round (set_nx_settled task.batch_id round.world.redis))
  ]
