-- ===== src/Quota/Manager/Reset.antt =====
-- The outcomes of a manual reset (model/quota/quota_plan_manager.go, ResetBalance).
use ai_gateway_api.Prelude.{
  ℕ, ◌<◌, ◌≡◌, ◌⊎◌, sym, ap, subst, ◌∙◌, inl, inr, String, Bool, true, false, List, [], ◌∷◌, refl,
  Option, none, some, ◌^◌, All, Bool-cases,
}
use ai_gateway_api.Quota.Plan.{QuotaPlan, fetch_quota_plan}
use ai_gateway_api.Quota.Sync.{BalanceSyncManager, World}
use ai_gateway_api.Quota.Manager.{
  Calls, given_or, ResetError, plan_not_found, reset_balance, committed_reset, failed_reset,
  reset_balances, api_key_owners, entity_owners, fetch_failed,
}
use ai_gateway_api.Quota.Manager.Written.{IsBounded, IsCredited, reset_balances-IsCredited}

module _ {F : Type 0} (m : BalanceSyncManager F) where
  committed-error :
      (id : ℕ) (new_quota : Option F) (found : Option (QuotaPlan F)) (w : World F)
      (r : ResetError ⊎ List (QuotaPlan F)) (e : ResetError)
      → (committed_reset m id new_quota found w r).error ≡ some e
      → committed_reset m id new_quota found w r ≡ failed_reset m id e w
  unfolding committed_reset failed_reset
  committed-error id new_quota found w (inl f) e h =
      let same : f ≡ e = cc h in ap (λ x. failed_reset m id x w) same
  committed-error id new_quota none w (inr plans) e h =
      let same : plan_not_found ≡ e = cc h in ap (λ x. failed_reset m id x w) same
  committed-error id new_quota (some plan) w (inr plans) e h = cc h

  reset_balance-failed :
      (c : Calls) (id : ℕ) (new_quota : Option F) (update : Bool) (w : World F) (e : ResetError)
      → (reset_balance m c id new_quota update w).error ≡ some e
      → reset_balance m c id new_quota update w ≡ failed_reset m id e w
  unfolding reset_balance failed_reset
  reset_balance-failed c id new_quota update w e h = elim (Bool-cases c.fetch_fails) [
    | inl failed ↦
        let same : fetch_failed ≡ e = cc (simp failed at h) in
        simp failed (ap (λ x. failed_reset m id x w) same)
    | inr read ↦ simp read (committed-error id new_quota _ w _ e (simp read at h))
  ]

  failed_reset-kept :
      (id : ℕ) (e : ResetError) (w : World F)
      → ((failed_reset m id e w).world ≡ w)
        × ((failed_reset m id e w).log ≡ (record { resource_id = id; error = some e }) ∷ [])
  unfolding failed_reset
  failed_reset-kept id e w = (refl, refl)

  -- A manual reset that reports an error leaves every plan, every owner and every balance as they
  -- were, and enters one record with the plan and the error.
  pub reset_balance-error :
      (c : Calls) (id : ℕ) (new_quota : Option F) (update : Bool) (w : World F) (e : ResetError)
      → (reset_balance m c id new_quota update w).error ≡ some e
      → ((reset_balance m c id new_quota update w).world ≡ w)
        × ((reset_balance m c id new_quota update w).log
            ≡ (record { resource_id = id; error = some e }) ∷ [])
  reset_balance-error c id new_quota update w e h =
      let failed = reset_balance-failed c id new_quota update w e h in
      let (world, log) = failed_reset-kept id e w in
      (ap (λ o. o.world) failed ∙ world, ap (λ o. o.log) failed ∙ log)

  committed-balances :
      (id : ℕ) (new_quota : Option F) (found : Option (QuotaPlan F)) (plan : QuotaPlan F)
      (w : World F) (r : ResetError ⊎ List (QuotaPlan F))
      → found ≡ some plan
      → (committed_reset m id new_quota found w r).error ≡ none
      → (committed_reset m id new_quota found w r).world.balances
        ≡ reset_balances m id (given_or new_quota plan.quota) plan.unit w
  unfolding committed_reset failed_reset
  committed-balances id new_quota found plan w (inl e) same h = cc h
  committed-balances id new_quota none plan w (inr plans) same h = cc h
  committed-balances id new_quota (some p) plan w (inr plans) same h =
      let plans_same : p ≡ plan = cc same in
      ap (λ x. reset_balances m id (given_or new_quota x.quota) x.unit w) plans_same

  reset_balance-balances :
      (c : Calls) (id : ℕ) (new_quota : Option F) (update : Bool) (w : World F) (plan : QuotaPlan F)
      → fetch_quota_plan id w.plans ≡ some plan
      → (reset_balance m c id new_quota update w).error ≡ none
      → (reset_balance m c id new_quota update w).world.balances
        ≡ reset_balances m id (given_or new_quota plan.quota) plan.unit w
  unfolding reset_balance failed_reset
  reset_balance-balances c id new_quota update w plan found h = elim (Bool-cases c.fetch_fails) [
    | inl failed ↦ cc (simp failed at h)
    | inr read ↦ simp read (committed-balances id new_quota _ plan w _ found (simp read at h))
  ]

  -- A manual reset that reports no error, where the cache is there and answers, the owners can be
  -- read, the balances are 64-bit integers and the quota is stored as one, leaves every API key
  -- and every entity of the plan with the new quota as its balance, or with the quota of the plan
  -- where no new one is given.
  pub reset_balance-IsCredited :
      (c : Calls) (id : ℕ) (new_quota : Option F) (update : Bool) (w : World F) (plan : QuotaPlan F)
      (quota : F)
      → fetch_quota_plan id w.plans ≡ some plan
      → given_or new_quota plan.quota ≡ some quota
      → m.has_quota_cache ≡ true
      → m.fetch_keys_fails id ≡ false
      → m.has_entity_storager ≡ true
      → m.fetch_entities_fails id ≡ false
      → (answered : (key : String) → m.cache_fails key ≡ false)
      → (bounded : m.units.to_redis quota plan.unit < 2 ^ 64) → IsBounded w.balances
      → (reset_balance m c id new_quota update w).error ≡ none
      → let after = (reset_balance m c id new_quota update w).world.balances in
        All (IsCredited (m.units.to_redis quota plan.unit) after) (api_key_owners id w.api_keys)
        × All (IsCredited (m.units.to_redis quota plan.unit) after) (entity_owners id w.entities)
  reset_balance-IsCredited c id new_quota update w plan quota found chosen cached keys_read entities
        read answered bounded hb h =
      let written =
        reset_balance-balances c id new_quota update w plan found h
        ∙ ap (λ o. reset_balances m id o plan.unit w) chosen in
      subst
        (λ after.
          All (IsCredited (m.units.to_redis quota plan.unit) after) (api_key_owners id w.api_keys)
          × All (IsCredited (m.units.to_redis quota plan.unit) after) (entity_owners id w.entities))
        (sym written)
        (reset_balances-IsCredited m quota plan.unit answered bounded id w cached keys_read entities
          read hb)
