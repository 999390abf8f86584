-- ===== src/Quota/Manager.antt =====
-- The manual reset of a plan's balances (model/quota/quota_plan_manager.go, ResetBalance). The
-- storage's calls fail as the manager's record says; a transaction that fails leaves the rows.
use ai_gateway_api.Prelude.{
  ℕ, suc, zero, String, Bool, true, false, not, ◌&&◌, List, [], ◌∷◌, ◌++◌, map, Option, none, some,
  nat_eq, ◌⊎◌, inl, inr, if◌then◌else◌,
}
use ai_gateway_api.Quota.Cache.{Balances, reset_to_quota}
use ai_gateway_api.Quota.Plan.{Time, QuotaPlan, ApiKey, Entity, fetch_quota_plan}
use ai_gateway_api.Quota.Sync.{BalanceSyncManager, World}
pub mod Written
pub mod Reset

pub data ResetError : Type 0 where
  fetch_failed : ResetError
  plan_not_found : ResetError
  unlimited_quota : ResetError
  update_failed : ResetError

-- One entry of the operation log: the plan, and its error.
pub record OperationRecord : Type 0 where
  pub resource_id : ℕ
  pub error : Option ResetError

pub record Outcome (F : Type 0) : Type 0 where
  pub world : World F
  pub log : List OperationRecord
  pub error : Option ResetError

-- `UpdateQuotaPlan` of the storage, which matches the id of the filter.
unfoldable pub update_quota_plan :
    {F : Type 0} → ℕ → (QuotaPlan F → QuotaPlan F) → List (QuotaPlan F) → List (QuotaPlan F)
update_quota_plan id change [] = []
update_quota_plan id change (p ∷ ps) =
    let rest = update_quota_plan id change ps in
    if nat_eq p.id id then change p ∷ rest else p ∷ rest

-- The calls of one reset: which of them fail, and the time that it reads.
pub record Calls : Type 0 where
  pub fetch_fails : Bool
  pub quota_update_fails : Bool
  pub time_update_fails : Bool
  pub commit_fails : Bool
  pub now : Time

unfoldable pub refuses : Option Bool → Bool
refuses none = false
refuses (some unlimited) = unlimited

module _ {F : Type 0} (c : Calls) where
  unfoldable pub write_quota : ℕ → Option F → List (QuotaPlan F) → ResetError ⊎ List (QuotaPlan F)
  unfolding update_quota_plan
  write_quota id none plans = inr plans
  write_quota id (some q) plans =
      if c.quota_update_fails
      then inl update_failed
      else inr (update_quota_plan id (λ p. record p { quota = some q }) plans)

  unfoldable pub write_time :
      ℕ → Bool → ResetError ⊎ List (QuotaPlan F) → ResetError ⊎ List (QuotaPlan F)
  unfolding update_quota_plan
  write_time id update (inl e) = inl e
  write_time id false (inr plans) = inr plans
  write_time id true (inr plans) =
      if c.time_update_fails
      then inl update_failed
      else inr (update_quota_plan id (λ p. record p { last_reset_at = some c.now }) plans)

  unfoldable pub commit : ResetError ⊎ List (QuotaPlan F) → ResetError ⊎ List (QuotaPlan F)
  commit (inl e) = inl e
  commit (inr plans) = if c.commit_fails then inl update_failed else inr plans

  -- The transaction: the rows that it leaves, by the plan that it read.
  unfoldable pub reset_rows :
      ℕ
      → Option F
      → Bool
      → Option (QuotaPlan F)
      → List (QuotaPlan F)
      → ResetError ⊎ List (QuotaPlan F)
  unfolding write_quota write_time refuses commit
  reset_rows id new_quota update none plans = inl plan_not_found
  reset_rows id new_quota update (some plan) plans =
      if refuses plan.unlimited
      then inl unlimited_quota
      else commit (write_time id update (write_quota id new_quota plans))

abbrev pub given_or {ℓ} : {A : Type ℓ} → Option A → Option A → Option A
given_or none old = old
given_or (some new) old = some new

module _ {F : Type 0} (m : BalanceSyncManager F) where
  -- A key that cannot be written is logged and passed over.
  unfoldable pub write_balance : Option F → Option String → Option String → Balances → Balances
  unfolding reset_to_quota
  write_balance quota unit none balances = balances
  write_balance quota unit (some key) balances =
      if m.cache_fails key then balances else reset_to_quota m.units key quota unit balances

  -- The loops over the keys of the owners that have the plan.
  unfoldable pub write_balances :
      Option F → Option String → List (Option String) → Balances → Balances
  unfolding write_balance
  write_balances quota unit [] balances = balances
  write_balances quota unit (k ∷ ks) balances =
      write_balances quota unit ks (write_balance quota unit k balances)

unfoldable pub api_key_owners : ℕ → List ApiKey → List (Option String)
api_key_owners id [] = []
api_key_owners id (k ∷ ks) =
    let rest = api_key_owners id ks in if nat_eq k.quota_plan_id id then k.key ∷ rest else rest

unfoldable pub entity_owners : ℕ → List Entity → List (Option String)
entity_owners id [] = []
entity_owners id (e ∷ es) =
    let rest = entity_owners id es in if nat_eq e.quota_plan_id id then e.entity_id ∷ rest else rest

module _ {F : Type 0} (m : BalanceSyncManager F) where
  unfoldable pub reset_entity_owners : ℕ → Option F → Option String → World F → Balances → Balances
  unfolding write_balances entity_owners
  reset_entity_owners id quota unit w balances =
      if m.has_entity_storager && not (m.fetch_entities_fails id)
      then write_balances m quota unit (entity_owners id w.entities) balances
      else balances

  unfoldable pub reset_balances : ℕ → Option F → Option String → World F → Balances
  unfolding write_balances reset_entity_owners api_key_owners
  reset_balances id none unit w = w.balances
  reset_balances id (some quota) unit w =
      if not m.has_quota_cache
      then w.balances
      else if m.fetch_keys_fails id
      then w.balances
      else reset_entity_owners id (some quota) unit w
          (write_balances m (some quota) unit (api_key_owners id w.api_keys) w.balances)

  unfoldable pub failed_reset : ℕ → ResetError → World F → Outcome F
  failed_reset id e w = record {
    world = w;
    log = (record { resource_id = id; error = some e }) ∷ [];
    error = some e;
  }

  unfoldable pub committed_reset :
      ℕ → Option F → Option (QuotaPlan F) → World F → ResetError ⊎ List (QuotaPlan F) → Outcome F
  unfolding failed_reset reset_balances
  committed_reset id new_quota found w (inl e) = failed_reset id e w
  committed_reset id new_quota none w (inr plans) = failed_reset id plan_not_found w
  committed_reset id new_quota (some plan) w (inr plans) = record {
    world = record w {
      plans = plans;
      balances = reset_balances id (given_or new_quota plan.quota) plan.unit w;
    };
    log = (record { resource_id = id; error = none }) ∷ [];
    error = none;
  }

  -- `ResetBalance`, which writes the time of the reset where `update` says so.
  unfoldable pub reset_balance : Calls → ℕ → Option F → Bool → World F → Outcome F
  unfolding committed_reset reset_rows fetch_quota_plan failed_reset
  reset_balance c id new_quota update w =
      if c.fetch_fails
      then failed_reset id fetch_failed w
      else committed_reset id new_quota (fetch_quota_plan id w.plans) w
          (reset_rows c id new_quota update (fetch_quota_plan id w.plans) w.plans)
