-- ===== src/Quota/Sync.antt =====
-- The reset of the balances whose period has ended (model/quota/balance_sync.go).
use ai_gateway_api.Prelude.{
  ℕ, suc, zero, String, Bool, true, false, not, ◌&&◌, List, [], ◌∷◌, Option, none, some, ◌==◌,
  nat_eq, if◌then◌else◌,
}
use ai_gateway_api.Quota.Cache.{Units, Balances, reset_to_quota_atomic}
use ai_gateway_api.Quota.Plan.{
  Time, QuotaPlan, ApiKey, Entity, Calendar, should_reset_by_period, get_period_start,
  claim_quota_plan_reset, fetch_quota_plan, fetch_quota_plan_list,
}
pub mod Fresh
pub mod Pending
pub mod Once

-- The manager: its calendar, the parts that it may lack, and which of the calls that it makes fail.
pub record BalanceSyncManager (F : Type 0) : Type 0 where
  pub units : Units F
  pub calendar : Calendar
  pub has_entity_storager : Bool
  pub has_quota_cache : Bool
  pub fetch_list_fails : Bool
  pub commit_fails : Bool
  pub claim_fails : ℕ → Bool
  pub fetch_plan_fails : ℕ → Bool
  pub fetch_keys_fails : ℕ → Bool
  pub fetch_entities_fails : ℕ → Bool
  pub cache_fails : String → Bool

pub record World (F : Type 0) : Type 0 where
  pub plans : List (QuotaPlan F)
  pub api_keys : List ApiKey
  pub entities : List Entity
  pub balances : Balances

module _ {F : Type 0} (m : BalanceSyncManager F) where
  unfoldable pub reset_owner : String → QuotaPlan F → Balances → Balances
  unfolding reset_to_quota_atomic
  reset_owner key plan balances =
      if m.cache_fails key
      then balances
      else reset_to_quota_atomic m.units key plan.quota plan.unit balances

  unfoldable pub reset_key : QuotaPlan F → Option String → Bool → Balances → Balances
  unfolding reset_owner
  reset_key plan none created balances = balances
  reset_key plan (some key) created balances =
      if created then reset_owner key plan balances else balances

  -- The loop over the API keys of the plan.
  unfoldable pub reset_keys : QuotaPlan F → List ApiKey → Balances → Balances
  unfolding reset_key
  reset_keys plan [] balances = balances
  reset_keys plan (k ∷ ks) balances = reset_keys plan ks (
      if nat_eq k.quota_plan_id plan.id
      then reset_key plan k.key k.key_created balances
      else balances)

  -- The loop over the entities of the plan.
  unfoldable pub reset_entities : QuotaPlan F → List Entity → Balances → Balances
  unfolding reset_key
  reset_entities plan [] balances = balances
  reset_entities plan (e ∷ es) balances = reset_entities plan es (
      if nat_eq e.quota_plan_id plan.id then reset_key plan e.entity_id true balances else balances)

  unfoldable pub reset_owners : QuotaPlan F → World F → Balances
  unfolding reset_keys reset_entities
  reset_owners plan w =
      reset_entities plan (if m.has_entity_storager then w.entities else [])
        (reset_keys plan w.api_keys w.balances)

  -- The balances after `resetAPIKeysRedisUsage`. An error is logged and leaves them.
  unfoldable pub reset_plan_usage : Option (QuotaPlan F) → World F → Balances
  unfolding reset_owners
  reset_plan_usage none w = w.balances
  reset_plan_usage (some plan) w = elim plan.quota [
    | none ↦ w.balances
    | some q ↦
        if m.fetch_keys_fails plan.id
        then w.balances
        else if m.has_entity_storager && m.fetch_entities_fails plan.id
        then w.balances
        else if m.has_quota_cache
        then reset_owners plan w
        else w.balances
  ]

  unfoldable pub reset_api_keys_redis_usage : ℕ → World F → World F
  unfolding reset_plan_usage fetch_quota_plan
  reset_api_keys_redis_usage id w =
      if m.fetch_plan_fails id
      then w
      else record w { balances = reset_plan_usage (fetch_quota_plan id w.plans) w }

  -- What follows the claim: how many rows it wrote.
  unfoldable pub after_claim : ℕ → List (QuotaPlan F) × ℕ → World F → World F
  unfolding reset_api_keys_redis_usage
  after_claim id (plans, zero) w = w
  after_claim id (plans, suc n) w = reset_api_keys_redis_usage id (record w { plans = plans })

  unfoldable pub reset_in_period : Time → QuotaPlan F → String → World F → World F
  unfolding after_claim claim_quota_plan_reset should_reset_by_period get_period_start
  reset_in_period now plan period w =
      if not (should_reset_by_period m.calendar plan.last_reset_at period now)
      then w
      else if m.claim_fails plan.id
      then w
      else after_claim plan.id
          (claim_quota_plan_reset plan.id (get_period_start m.calendar period now) now w.plans) w

  unfoldable pub reset_for : Time → QuotaPlan F → Option String → World F → World F
  unfolding reset_in_period
  reset_for now plan none w = w
  reset_for now plan (some period) w = reset_in_period now plan period w

  -- One turn of the loop over the plans.
  unfoldable pub reset_one : Time → QuotaPlan F → World F → World F
  unfolding reset_for
  reset_one now plan w = reset_for now plan plan.reset_period w

  unfoldable pub reset_each : Time → List (QuotaPlan F) → World F → World F
  unfolding reset_one
  reset_each now [] w = w
  reset_each now (p ∷ ps) w = reset_each now ps (reset_one now p w)

  -- `AtomExecute` around the loop: a commit that fails takes the rows back, and not the balances.
  unfoldable pub committed : World F → World F → World F × Bool
  committed before after =
      if m.commit_fails then (record after { plans = before.plans }, false) else (after, true)

  -- A round; the errors are that of the list and that of the commit.
  unfoldable pub reset_expired_balances : Time → World F → World F × Bool
  unfolding reset_each fetch_quota_plan_list committed
  reset_expired_balances now w =
      if m.fetch_list_fails
      then (w, false)
      else committed w (reset_each now (fetch_quota_plan_list w.plans) w)
