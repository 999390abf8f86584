-- ===== src/Tests/Quota.antt =====
-- Examples of quota plans: a round of resets, and a manual reset.
use ai_gateway_api.Prelude.{
  ℕ, ◌-◌, ◌%◌, ◌≡◌, ◌<◌, ◌^◌, Bool-cases, refl, inl, inr, String, true, false, [], ◌∷◌, none, some,
  ◌==◌, arith, lookup, All,
}
use ai_gateway_api.Quota.Cache.{Units, get_int64, or_zero}
use ai_gateway_api.Quota.Plan.{
  QuotaPlan, Calendar, get_period_start, get_week_start, get_month_start, week_offset,
  fetch_quota_plan,
}
use ai_gateway_api.Quota.Sync.{BalanceSyncManager, World, reset_expired_balances}
use ai_gateway_api.Quota.Sync.Fresh.{StartsBefore, is_periodic}
use ai_gateway_api.Quota.Sync.Once.{reset_expired_balances-once}
use ai_gateway_api.Quota.Manager.{
  Calls, reset_balance, unlimited_quota, api_key_owners, entity_owners,
}
use ai_gateway_api.Quota.Manager.Written.{IsCredited}
use ai_gateway_api.Quota.Manager.Reset.{reset_balance-error, reset_balance-IsCredited}

-- Days as times: day 0 is a Sunday, and a month has 30 days.
abbrev days : Calendar
days = record {
  weekday = λ t. t % 7;
  days_before = λ t n. t - n;
  midnight = λ t. t;
  first_of_month = λ t. t - t % 30;
}

abbrev tokens : Units ℕ
tokens = record { to_redis = λ q unit. q; from_redis = λ n unit. n }

abbrev manager : BalanceSyncManager ℕ
manager = record {
  units = tokens;
  calendar = days;
  has_entity_storager = true;
  has_quota_cache = true;
  fetch_list_fails = false;
  commit_fails = false;
  claim_fails = λ id. false;
  fetch_plan_fails = λ id. false;
  fetch_keys_fails = λ id. false;
  fetch_entities_fails = λ id. false;
  cache_fails = λ key. false;
}

abbrev weekly : QuotaPlan ℕ
weekly = record {
  id = 1;
  unlimited = some false;
  quota = some 500;
  unit = none;
  reset_period = some "weekly";
  last_reset_at = some 3;
}

abbrev unlimited_plan : QuotaPlan ℕ
unlimited_plan = record weekly { id = 2; unlimited = some true; quota = some 7 }

abbrev world : World ℕ
world = record {
  plans = weekly ∷ unlimited_plan ∷ [];
  api_keys =
      (record { key = some "k1"; key_created = true; quota_plan_id = 1 })
      ∷ (record { key = some "k2"; key_created = true; quota_plan_id = 2 })
      ∷ [];
  entities = (record { entity_id = some "e1"; quota_plan_id = 1 }) ∷ [];
  balances = ("k1", 20) ∷ ("k2", 100000000) ∷ [];
}

-- The round of day 10 fills the balances of the week; that of an unlimited plan falls to its quota.
round_fills :
    (reset_expired_balances manager 10 world).0.balances
    ≡ ("k1", 500) ∷ ("k2", 7) ∷ ("e1", 500) ∷ []
unfolding reset_expired_balances
round_fills = refl

-- A commit that fails takes the claim back after the balances were written, so that a balance that
-- was used since is filled once more.
abbrev uncommitted : BalanceSyncManager ℕ
uncommitted = record manager { commit_fails = true }

claim_taken_back : (reset_expired_balances uncommitted 10 world).0.plans ≡ world.plans
unfolding reset_expired_balances
claim_taken_back = refl

filled_uncommitted :
    (reset_expired_balances uncommitted 10 world).0.balances
    ≡ ("k1", 500) ∷ ("k2", 7) ∷ ("e1", 500) ∷ []
unfolding reset_expired_balances
filled_uncommitted = refl

days_before_now : StartsBefore days
unfolding get_period_start get_week_start get_month_start week_offset
days_before_now period t = elim (Bool-cases (period == "weekly")) [
  | inl week ↦ rw week (ground arith)
  | inr other ↦ elim (Bool-cases (period == "monthly")) [
    | inl month ↦ rw (other, month) (omega arith)
    | inr neither ↦ rw (other, neither) (omega arith)
  ]
]

-- Days 10 and 12 are of one week and of one month.
same_periods :
    (period : String)
    → is_periodic period ≡ true
    → get_period_start days period 12 ≡ get_period_start days period 10
unfolding get_period_start get_week_start get_month_start week_offset
same_periods period periodic = elim (Bool-cases (period == "weekly")) [
  | inl week ↦ rw week refl
  | inr other ↦ elim (Bool-cases (period == "monthly")) [
    | inl month ↦ rw (other, month) refl
    | inr neither ↦ cc (rw (other, neither) at periodic)
  ]
]

reset_expired_balances-once_example :
    (reset_expired_balances manager 12 (reset_expired_balances manager 10 world).0).0
    ≡ (reset_expired_balances manager 10 world).0
reset_expired_balances-once_example =
    reset_expired_balances-once manager manager 10 12 world days_before_now refl refl (λ id. refl)
      (((inr refl, (inl refl, tt)), ((inl refl, (inr refl, tt)), tt))) same_periods

abbrev calls : Calls
calls = record {
  fetch_fails = false;
  quota_update_fails = false;
  time_update_fails = false;
  commit_fails = false;
  now = 11;
}

unlimited_refused : (reset_balance manager calls 2 (some 9) true world).error ≡ some unlimited_quota
unfolding reset_balance
unlimited_refused = refl

reset_balance-error_example :
    ((reset_balance manager calls 2 (some 9) true world).world ≡ world)
    × ((reset_balance manager calls 2 (some 9) true world).log
        ≡ (record { resource_id = 2; error = some unlimited_quota }) ∷ [])
reset_balance-error_example =
    reset_balance-error manager calls 2 (some 9) true world unlimited_quota unlimited_refused

found_weekly : fetch_quota_plan 1 world.plans ≡ some weekly
unfolding fetch_quota_plan
found_weekly = refl

weekly_reset : (reset_balance manager calls 1 (some 9) true world).error ≡ none
unfolding reset_balance
weekly_reset = refl

bounded_world : (key : String) → get_int64 key world.balances < 2 ^ 64
unfolding get_int64 lookup or_zero
bounded_world key = elim (Bool-cases ("k1" == key)) [
  | inl first ↦ rw first (omega arith)
  | inr other ↦ elim (Bool-cases ("k2" == key)) [
    | inl second ↦ rw (other, second) (omega arith)
    | inr neither ↦ rw (other, neither) (omega arith)
  ]
]

reset_balance-IsCredited_example :
    let after = (reset_balance manager calls 1 (some 9) true world).world.balances in
    All (IsCredited 9 after) (api_key_owners 1 world.api_keys)
    × All (IsCredited 9 after) (entity_owners 1 world.entities)
reset_balance-IsCredited_example =
    reset_balance-IsCredited manager calls 1 (some 9) true world weekly 9 found_weekly refl refl
      refl refl refl (λ key. refl) (omega arith) bounded_world weekly_reset
