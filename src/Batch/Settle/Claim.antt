-- ===== src/Batch/Settle/Claim.antt =====
-- The lock BATCH_SETTLED of a settlement: who holds it when the settlement is over.
use ai_gateway_api.Prelude.{
  ℕ, ◌≡◌, refl, sym, ◌∙◌, String, Bool, true, false, Option, none, some, ◌==◌, lookup,
  lookup-remove, eq_refl, arith, Int64, Bool-cases, inl, inr, ap,
}
use ai_gateway_api.Batch.Task.{BatchTask, BatchSettlePatch}
use ai_gateway_api.Batch.Redis.{Redis, set_nx_settled, delete_settled}
use ai_gateway_api.Batch.Usage.{UsageTotals}
use ai_gateway_api.Batch.World.{Error, Result, ok, err, ProviderAccess, Manager, World}
use ai_gateway_api.Batch.Reserve.{release_reserve}
use ai_gateway_api.Batch.Reserve.Mirror.{release_reserve-settled}
use ai_gateway_api.Batch.Settle.{
  Round, release_claim, with_redis, write_settle, after_release_reserve, release_one_task,
  released_patch, keep_claim, write_settlement, settle_priced, settle_usage, not_settled,
  settle_access, settle_claimed, settle_one_task, calc_settle_units, resolve_provider_access_cached,
  download_and_parse_usage, content_url,
}

-- Whether the claim of a batch is free after a step that fails.
abbrev pub FreeAfter : String → World × Result Bool → Type 0
FreeAfter b (w, err e) = lookup b w.redis.settled ≡ none
FreeAfter b (w, ok moved) = Unit

write_settle-settled :
    (m : Manager) (task : BatchTask) (patch : BatchSettlePatch) (w : World)
    → (write_settle m task patch w).0.redis.settled ≡ w.redis.settled
unfolding write_settle
write_settle-settled m task patch w = ground arith

release_one_task-settled :
    (m : Manager) (task : BatchTask) (w : World)
    → (release_one_task m task w).0.redis.settled ≡ w.redis.settled
unfolding release_one_task after_release_reserve
release_one_task-settled m task w = cases (release_reserve m task.batch_id w.redis) refl
  where
    cases :
        (out : Redis × Option Error)
        → release_reserve m task.batch_id w.redis ≡ out
        → (after_release_reserve m task w out).0.redis.settled ≡ w.redis.settled
    cases (r, some e) q =
        ap (λ x. x.0.settled) (sym q) ∙ release_reserve-settled m task.batch_id w.redis
    cases (r, none) q =
        write_settle-settled m task released_patch (with_redis w r)
        ∙ ap (λ x. x.0.settled) (sym q)
        ∙ release_reserve-settled m task.batch_id w.redis

module _ (m : Manager) (task : BatchTask)
    (gives : m.delete_settled_fails task.batch_id ≡ false) where
  release_claim-free :
      (w : World) → lookup task.batch_id (release_claim m task.batch_id w).redis.settled ≡ none
  unfolding release_claim delete_settled
  release_claim-free w = rw gives (
      ground
        (arith, lookup-remove task.batch_id task.batch_id w.redis.settled, eq_refl task.batch_id))

  keep_claim-free : (out : World × Result Bool) → FreeAfter task.batch_id (keep_claim m task out)
  unfolding keep_claim
  keep_claim-free (w, err e) = release_claim-free w
  keep_claim-free (w, ok moved) = tt

  write_settlement-free :
      (usage : UsageTotals) (units : Int64) (w : World)
      → FreeAfter task.batch_id (write_settlement m task usage units w)
  unfolding write_settlement
  write_settlement-free usage units w = elim (Bool-cases (m.h_set_fails task.batch_id)) [
    | inl fails ↦ rw fails (release_claim-free w)
    | inr works ↦ rw works (keep_claim-free _)
  ]

  settle_priced-free :
      (usage : UsageTotals) (w : World) (priced : Result (Int64 × Bool))
      → FreeAfter task.batch_id (settle_priced m task usage w priced)
  unfolding settle_priced
  settle_priced-free usage w (err e) = release_claim-free w
  settle_priced-free usage w (ok (units, miss)) = write_settlement-free usage units w

  settle_usage-free :
      (w : World) (usage : Result (UsageTotals × ℕ))
      → FreeAfter task.batch_id (settle_usage m task w usage)
  unfolding settle_usage
  settle_usage-free w (err e) = release_claim-free w
  settle_usage-free w (ok (usage, status)) =
      ground (arith, settle_priced-free usage w (calc_settle_units m task usage))

  not_settled-free :
      (out : World × Result Bool)
      → lookup task.batch_id out.0.redis.settled ≡ none
      → FreeAfter task.batch_id (not_settled out)
  unfolding not_settled
  not_settled-free (w, err e) h = h
  not_settled-free (w, ok moved) h = tt

  settle_access-free :
      (w : World) (access : Result ProviderAccess)
      → FreeAfter task.batch_id (settle_access m task w access)
  unfolding settle_access
  settle_access-free w (err e) = release_claim-free w
  settle_access-free w (ok access) = elim (Bool-cases (task.output_file_id == "")) [
    | inl without ↦ rw without (
        not_settled-free _ (
          rw (release_one_task-settled m task (release_claim m task.batch_id w))
            (release_claim-free w)))
    | inr has ↦
        rw has (settle_usage-free w (download_and_parse_usage m access (content_url access task)))
  ]

  FreeAfter-err :
      (e : Error) (out : World × Result Bool)
      → FreeAfter task.batch_id out
      → out.1 ≡ err e
      → lookup task.batch_id out.0.redis.settled ≡ none
  FreeAfter-err e (w, err d) h q = h
  FreeAfter-err e (w, ok moved) h q = cc

  settle_claimed-free :
      (round : Round) (e : Error) (claim : Redis × Bool)
      → (settle_claimed m task round claim).1 ≡ err e
      → lookup task.batch_id (settle_claimed m task round claim).0.world.redis.settled ≡ none
  unfolding settle_claimed
  settle_claimed-free round e (r, false) q = cc
  settle_claimed-free round e (r, true) q =
      let w = with_redis round.world r in
      let access = (resolve_provider_access_cached m round.cache task.provider task.key_name).1 in
      FreeAfter-err e (settle_access m task w access) (settle_access-free w access) q

  -- Where the calls that give the claim back succeed and the claim of its batch was free, a
  -- settlement that fails in any way leaves it free, so that a later round can settle the task.
  pub settle_one_task-claim :
      (round : Round) (e : Error)
      → lookup task.batch_id round.world.redis.settled ≡ none
      → (settle_one_task m task round).1 ≡ err e
      → lookup task.batch_id (settle_one_task m task round).0.world.redis.settled ≡ none
  unfolding settle_one_task
  settle_one_task-claim round e free failed = elim (Bool-cases (m.set_nx_fails task.batch_id)) [
    | inl fails ↦ rw fails free
    | inr works ↦ rw works (
        settle_claimed-free round e (set_nx_settled task.batch_id round.world.redis)
          (rw works at failed))
  ]
