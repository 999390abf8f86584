-- ===== src/Quota/Plan.antt =====
-- The quota plans and their rows (model/quota/quota_plan.go, storage/rdb/quota/quota_plan.go), the
-- owners of balances, and the calendar of a period (model/quota/balance_sync.go).
use ai_gateway_api.Prelude.{
  ℕ, suc, ◌-◌, String, Bool, true, ◌&&◌, ◌||◌, List, [], ◌∷◌, Option, none, some, ◌==◌, nat_eq, ltb,
  if◌then◌else◌,
}
use mathlib.Core.Option

abbrev pub Time : Type 0
Time = ℕ

pub record QuotaPlan (F : Type 0) : Type 0 where
  pub id : ℕ
  pub unlimited : Option Bool
  pub quota : Option F
  pub unit : Option String
  pub reset_period : Option String
  pub last_reset_at : Option Time

-- What a round reads of an API key: its key, whether the key's time of creation is known, its plan.
pub record ApiKey : Type 0 where
  pub key : Option String
  pub key_created : Bool
  pub quota_plan_id : ℕ

pub record Entity : Type 0 where
  pub entity_id : Option String
  pub quota_plan_id : ℕ

-- Go's `time` package, in the zone of the times.
pub record Calendar : Type 0 where
  -- 0 is Sunday.
  pub weekday : Time → ℕ
  -- `t.AddDate(0, 0, -n)`
  pub days_before : Time → ℕ → Time
  -- 00:00:00 of the day, and of the first day of the month.
  pub midnight : Time → Time
  pub first_of_month : Time → Time

-- Days since Monday.
unfoldable pub week_offset : ℕ → ℕ
week_offset weekday = if nat_eq weekday 0 then 6 else weekday - 1

unfoldable pub get_week_start : Calendar → Time → Time
unfolding week_offset
get_week_start cal t = cal.midnight (cal.days_before t (week_offset (cal.weekday t)))

unfoldable pub get_month_start : Calendar → Time → Time
get_month_start cal t = cal.first_of_month t

unfoldable pub get_period_start : Calendar → String → Time → Time
unfolding get_week_start get_month_start
get_period_start cal period t =
    if period == "weekly"
    then get_week_start cal t
    else if period == "monthly"
    then get_month_start cal t
    else t

unfoldable pub starts_later : Time → Option Time → Bool
starts_later current none = true
starts_later current (some last_start) = ltb last_start current

unfoldable pub should_reset_by_period : Calendar → Option Time → String → Time → Bool
unfolding get_period_start starts_later
should_reset_by_period cal last_reset_at period now =
    (period == "weekly" || period == "monthly")
    && starts_later (get_period_start cal period now)
        (Option.map (get_period_start cal period) last_reset_at)

-- `last_reset_at IS NULL OR last_reset_at < ?`.
unfoldable pub not_since : Time → Option Time → Bool
not_since period_start none = true
not_since period_start (some t) = ltb t period_start

module _ {F : Type 0} where
  unfoldable pub claimable : ℕ → Time → QuotaPlan F → Bool
  unfolding not_since
  claimable id period_start p = nat_eq p.id id && not_since period_start p.last_reset_at

  -- `TQuotaPlanClaimPeriodReset`: the rows, and how many were written.
  unfoldable pub claim_quota_plan_reset :
      ℕ → Time → Time → List (QuotaPlan F) → List (QuotaPlan F) × ℕ
  unfolding claimable
  claim_quota_plan_reset id period_start now [] = ([], 0)
  claim_quota_plan_reset id period_start now (p ∷ ps) =
      let (rest, n) = claim_quota_plan_reset id period_start now ps in
      if claimable id period_start p
      then (record p { last_reset_at = some now } ∷ rest, suc n)
      else (p ∷ rest, n)

  unfoldable pub fetch_quota_plan : ℕ → List (QuotaPlan F) → Option (QuotaPlan F)
  fetch_quota_plan id [] = none
  fetch_quota_plan id (p ∷ ps) = if nat_eq p.id id then some p else fetch_quota_plan id ps

  -- `FetchQuotaPlanList`: `quotaPlanFilterToParam` passes on the id of a filter alone, so that the
  -- filter of a round, which has none, selects every row.
  unfoldable pub fetch_quota_plan_list : List (QuotaPlan F) → List (QuotaPlan F)
  fetch_quota_plan_list plans = plans
