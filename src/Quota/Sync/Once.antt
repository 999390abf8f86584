-- ===== src/Quota/Sync/Once.antt =====
-- A second round of the resets in one period (model/quota/balance_sync.go).
use ai_gateway_api.Prelude.{
  ℕ, ◌≤◌, ◌≡◌, refl, sym, ap, subst, ◌∙◌, inl, inr, String, true, false, List, [], ◌∷◌, Option,
  none, some, All, All-map, Bool-cases,
}
use ai_gateway_api.Quota.Plan.{
  Time, QuotaPlan, Calendar, get_period_start, should_reset_by_period, claim_quota_plan_reset,
  fetch_quota_plan_list,
}
use ai_gateway_api.Quota.Sync.{
  BalanceSyncManager, World, after_claim, reset_in_period, reset_for, reset_one, reset_each,
  committed, reset_expired_balances,
}
use ai_gateway_api.Quota.Sync.Fresh.{
  StartsBefore, is_periodic, keys, SameKey, IsKeyed, FreshIn, IsFresh, claim-none, claim-keys,
}
use ai_gateway_api.Quota.Sync.Pending.{
  Pending, All-In, after_claim-plans, claim-zero, reset_for-Pending,
}

module _ {F : Type 0} (m : BalanceSyncManager F) (now : Time) where
  reset_each-IsFresh :
      (ps : List (QuotaPlan F)) (w : World F)
      → StartsBefore m.calendar
      → ((id : ℕ) → m.claim_fails id ≡ false)
      → All (Pending m now ps) w.plans
      → All (IsFresh m.calendar now) (reset_each m now ps w).plans
  unfolding reset_each reset_one
  reset_each-IsFresh [] w before answered pending = All-map _ _ settled w.plans pending
    where
      settled : (r : QuotaPlan F) → Pending m now [] r → IsFresh m.calendar now r
      settled r (inl fresh) = fresh
      settled r (inr none_left) = absurd none_left
  reset_each-IsFresh (p ∷ ps) w before answered pending =
      reset_each-IsFresh ps (reset_one m now p w) before answered
        (reset_for-Pending m now p p.reset_period ps w before (answered p.id) refl pending)

  period-keys :
      (p : QuotaPlan F) (period : String) (w : World F)
      → keys (reset_in_period m now p period w).plans ≡ keys w.plans
  unfolding reset_in_period
  period-keys p period w =
      elim (Bool-cases (should_reset_by_period m.calendar p.last_reset_at period now)) [
        | inr not_due ↦ simp not_due
        | inl due ↦ elim (Bool-cases (m.claim_fails p.id)) [
          | inl failed ↦ simp (due, failed)
          | inr answered ↦
              let start = get_period_start m.calendar period now in
              let claim = claim_quota_plan_reset p.id start now w.plans in
              let written =
                after_claim-plans m now p.id claim w (claim-zero p.id start now w.plans) in
              simp (due, answered) (ap keys written ∙ claim-keys m.calendar now p.id start w.plans)
        ]
      ]

  reset_for-keys :
      (p : QuotaPlan F) (o : Option String) (w : World F)
      → keys (reset_for m now p o w).plans ≡ keys w.plans
  unfolding reset_for
  reset_for-keys p none w = refl
  reset_for-keys p (some period) w = period-keys p period w

  reset_each-keys :
      (ps : List (QuotaPlan F)) (w : World F) → keys (reset_each m now ps w).plans ≡ keys w.plans
  unfolding reset_each reset_one
  reset_each-keys [] w = refl
  reset_each-keys (p ∷ ps) w =
      reset_each-keys ps (reset_one m now p w) ∙ reset_for-keys p p.reset_period w

  due-periodic :
      (last : Option Time) (period : String)
      → should_reset_by_period m.calendar last period now ≡ true
      → is_periodic period ≡ true
  unfolding should_reset_by_period
  due-periodic last period h = elim (Bool-cases (is_periodic period)) [
    | inl periodic ↦ periodic
    | inr other ↦ cc (rw other at h)
  ]

  -- On fresh rows a turn changes nothing.
  period-fresh :
      (p : QuotaPlan F) (period : String) (w : World F)
      → All (SameKey (p.id, some period)) (keys w.plans)
      → All (IsFresh m.calendar now) w.plans
      → reset_in_period m now p period w ≡ w
  unfolding reset_in_period after_claim
  period-fresh p period w same fresh =
      elim (Bool-cases (should_reset_by_period m.calendar p.last_reset_at period now)) [
        | inr not_due ↦ simp not_due
        | inl due ↦ elim (Bool-cases (m.claim_fails p.id)) [
          | inl failed ↦ simp (due, failed)
          | inr answered ↦
              let periodic = due-periodic p.last_reset_at period due in
              let nothing = claim-none m.calendar now p.id period w.plans periodic same fresh in
              simp (due, answered, nothing)
        ]
      ]

  reset_for-fresh :
      (p : QuotaPlan F) (o : Option String) (w : World F)
      → All (SameKey (p.id, o)) (keys w.plans)
      → All (IsFresh m.calendar now) w.plans
      → reset_for m now p o w ≡ w
  unfolding reset_for
  reset_for-fresh p none w same fresh = refl
  reset_for-fresh p (some period) w same fresh = period-fresh p period w same fresh

  reset_each-fresh :
      (ps : List (QuotaPlan F)) (w : World F)
      → All (λ k. All (SameKey k) (keys w.plans)) (keys ps)
      → All (IsFresh m.calendar now) w.plans
      → reset_each m now ps w ≡ w
  unfolding reset_each reset_one
  reset_each-fresh [] w same fresh = refl
  reset_each-fresh (p ∷ ps) w (here, later) fresh =
      ap (reset_each m now ps) (reset_for-fresh p p.reset_period w here fresh)
      ∙ reset_each-fresh ps w later fresh

-- Freshness goes by the start of the period alone.
FreshIn-same :
    (cal cal' : Calendar) (now now' : Time) (o : Option String) (last : Option Time)
    → ((period : String)
        → is_periodic period ≡ true
        → get_period_start cal' period now' ≡ get_period_start cal period now)
    → FreshIn cal now o last
    → FreshIn cal' now' o last
FreshIn-same cal cal' now now' none last same fresh = tt
FreshIn-same cal cal' now now' (some period) last same (inl other) = inl other
FreshIn-same cal cal' now now' (some period) last same (inr (t, at, later)) =
    elim (Bool-cases (is_periodic period)) [
      | inr other ↦ inl other
      | inl periodic ↦ inr (t, at, subst (λ s. s ≤ t) (sym (same period periodic)) later)
    ]

module _ {F : Type 0} where
  round_reads :
      (m : BalanceSyncManager F) (now : Time) (w : World F)
      → m.fetch_list_fails ≡ false
      → m.commit_fails ≡ false
      → (reset_expired_balances m now w).0 ≡ reset_each m now w.plans w
  unfolding reset_expired_balances fetch_quota_plan_list committed
  round_reads m now w read commits = simp (read, commits)

  committed-same : (m : BalanceSyncManager F) (w : World F) → (committed m w w).0 ≡ w
  unfolding committed
  committed-same m w = elim (Bool-cases m.commit_fails) [
    | inl failed ↦ simp failed
    | inr commits ↦ simp commits
  ]

  round_fresh :
      (m : BalanceSyncManager F) (now : Time) (w : World F)
      → IsKeyed (keys w.plans)
      → All (IsFresh m.calendar now) w.plans
      → (reset_expired_balances m now w).0 ≡ w
  unfolding reset_expired_balances fetch_quota_plan_list
  round_fresh m now w keyed fresh = elim (Bool-cases m.fetch_list_fails) [
    | inl failed ↦ simp failed
    | inr read ↦ simp read (
        ap (λ x. (committed m w x).0) (reset_each-fresh m now w.plans w keyed fresh)
        ∙ committed-same m w)
  ]

  -- After a round that can read the plans, whose claims are answered and whose transaction commits,
  -- where no period starts after a time that it has and rows of one id have one period, a second
  -- round in the same week and month, also of another instance and whether or not it commits,
  -- changes neither a plan nor a balance.
  pub reset_expired_balances-once :
      (m m' : BalanceSyncManager F) (now now' : Time) (w : World F)
      → StartsBefore m.calendar
      → m.fetch_list_fails ≡ false
      → m.commit_fails ≡ false
      → ((id : ℕ) → m.claim_fails id ≡ false)
      → IsKeyed (keys w.plans)
      → ((period : String)
          → is_periodic period ≡ true
          → get_period_start m'.calendar period now' ≡ get_period_start m.calendar period now)
      → (reset_expired_balances m' now' (reset_expired_balances m now w).0).0
        ≡ (reset_expired_balances m now w).0
  reset_expired_balances-once m m' now now' w before read commits answered keyed same =
      let w₁ = reset_each m now w.plans w in
      let first = round_reads m now w read commits in
      let fresh =
        reset_each-IsFresh m now w.plans w before answered
          (All-map _ _ (λ r here. inr here) w.plans (All-In w.plans)) in
      let still =
        All-map _ _
          (λ r f.
            FreshIn-same m.calendar m'.calendar now now' r.reset_period r.last_reset_at same f)
          w₁.plans fresh in
      let kept = subst IsKeyed (sym (reset_each-keys m now w.plans w)) keyed in
      ap (λ x. (reset_expired_balances m' now' x).0) first
      ∙ (round_fresh m' now' w₁ kept still ∙ sym first)
