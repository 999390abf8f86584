-- ===== src/Quota/Sync/Pending.antt =====
-- One turn of a round makes its plan fresh (model/quota/balance_sync.go).
use ai_gateway_api.Prelude.{
  ℕ, suc, zero, ◌≡◌, ◌⊎◌, refl, sym, subst, inl, inr, String, true, false, List, [], ◌∷◌, Option,
  none, some, arith, nat_eq, All, All-map, Bool-cases,
}
use ai_gateway_api.Quota.Plan.{
  Time, QuotaPlan, get_period_start, should_reset_by_period, claimable, claim_quota_plan_reset,
}
use ai_gateway_api.Quota.Sync.{
  BalanceSyncManager, World, reset_api_keys_redis_usage, after_claim, reset_in_period, reset_for,
}
use ai_gateway_api.Quota.Sync.Fresh.{
  StartsBefore, FreshIn, FreshIn-now, FreshIn-not_due, FreshIn-since, IsFresh,
}

module _ {F : Type 0} where
  abbrev pub In : QuotaPlan F → List (QuotaPlan F) → Type 0
  In row [] = ⊥
  In row (p ∷ ps) = (row ≡ p) ⊎ In row ps

  pub claim-zero :
      (id : ℕ) (start now : Time) (ps : List (QuotaPlan F))
      → (claim_quota_plan_reset id start now ps).1 ≡ 0
      → (claim_quota_plan_reset id start now ps).0 ≡ ps
  unfolding claim_quota_plan_reset
  claim-zero id start now [] h = refl
  claim-zero id start now (p ∷ ps) h = elim (Bool-cases (claimable id start p)) [
    | inl taken ↦ absurd (omega (arith, rw taken at h))
    | inr left ↦ rw left (cc (claim-zero id start now ps (rw left at h)))
  ]

  pub All-In : (ps : List (QuotaPlan F)) → All (λ r. In r ps) ps
  All-In [] = tt
  All-In (p ∷ ps) = (inl refl, All-map _ _ (λ r later. inr later) ps (All-In ps))

module _ {F : Type 0} (m : BalanceSyncManager F) (now : Time) where
  usage-plans : (id : ℕ) (w : World F) → (reset_api_keys_redis_usage m id w).plans ≡ w.plans
  unfolding reset_api_keys_redis_usage
  usage-plans id w = elim (Bool-cases (m.fetch_plan_fails id)) [
    | inl failed ↦ simp failed
    | inr read ↦ simp read
  ]

  pub after_claim-plans :
      (id : ℕ) (c : List (QuotaPlan F) × ℕ) (w : World F)
      → (c.1 ≡ 0 → c.0 ≡ w.plans)
      → (after_claim m id c w).plans ≡ c.0
  unfolding after_claim
  after_claim-plans id (plans, zero) w nothing = sym (nothing refl)
  after_claim-plans id (plans, suc n) w nothing = usage-plans id (record w { plans = plans })

  -- A row that is fresh, or whose turn has not come.
  abbrev pub Pending : List (QuotaPlan F) → QuotaPlan F → Type 0
  Pending rest row = IsFresh m.calendar now row ⊎ In row rest

  pass_one :
      (p r : QuotaPlan F) (rest : List (QuotaPlan F))
      → IsFresh m.calendar now p
      → Pending (p ∷ rest) r
      → Pending rest r
  pass_one p r rest fresh (inl done) = inl done
  pass_one p r rest fresh (inr (inl same)) = inl (subst (IsFresh m.calendar now) (sym same) fresh)
  pass_one p r rest fresh (inr (inr later)) = inr later

  pass :
      (p : QuotaPlan F) (rest ps : List (QuotaPlan F))
      → IsFresh m.calendar now p
      → All (Pending (p ∷ rest)) ps
      → All (Pending rest) ps
  pass p rest ps fresh = All-map _ _ (λ r. pass_one p r rest fresh) ps

  unclaimed-IsFresh :
      (p : QuotaPlan F) (period : String)
      → p.reset_period ≡ some period
      → claimable p.id (get_period_start m.calendar period now) p ≡ false
      → IsFresh m.calendar now p
  unfolding claimable
  unclaimed-IsFresh p period named h =
      let same : nat_eq p.id p.id ≡ true = ground arith in
      subst (λ o. FreshIn m.calendar now o p.last_reset_at) (sym named)
        (FreshIn-since m.calendar now period p.last_reset_at (rw same at h))

  -- A row that a claim leaves is fresh, or its turn comes later.
  left-Pending :
      (p r : QuotaPlan F) (period : String) (rest : List (QuotaPlan F))
      → p.reset_period ≡ some period
      → claimable p.id (get_period_start m.calendar period now) r ≡ false
      → Pending (p ∷ rest) r
      → Pending rest r
  left-Pending p r period rest named h (inl done) = inl done
  left-Pending p r period rest named h (inr (inr later)) = inr later
  left-Pending p r period rest named h (inr (inl same)) =
      let own =
        subst (λ x. claimable p.id (get_period_start m.calendar period now) x ≡ false) same h in
      inl (subst (IsFresh m.calendar now) (sym same) (unclaimed-IsFresh p period named own))

  claim-Pending :
      (p : QuotaPlan F) (period : String) (rest ps : List (QuotaPlan F))
      → StartsBefore m.calendar
      → p.reset_period ≡ some period
      → All (Pending (p ∷ rest)) ps
      → All
          (Pending rest)
          (claim_quota_plan_reset p.id (get_period_start m.calendar period now) now ps).0
  unfolding claim_quota_plan_reset
  claim-Pending p period rest [] before named pending = tt
  claim-Pending p period rest (r ∷ rs) before named (here, later) =
      let others = claim-Pending p period rest rs before named later in
      elim (Bool-cases (claimable p.id (get_period_start m.calendar period now) r)) [
        | inl taken ↦ rw taken (inl (FreshIn-now m.calendar now before r.reset_period), others)
        | inr left ↦ rw left (left-Pending p r period rest named left here, others)
      ]

  period-Pending :
      (p : QuotaPlan F) (period : String) (rest : List (QuotaPlan F)) (w : World F)
      → StartsBefore m.calendar
      → m.claim_fails p.id ≡ false
      → p.reset_period ≡ some period
      → All (Pending (p ∷ rest)) w.plans
      → All (Pending rest) (reset_in_period m now p period w).plans
  unfolding reset_in_period
  period-Pending p period rest w before answered named pending =
      elim (Bool-cases (should_reset_by_period m.calendar p.last_reset_at period now)) [
        | inr not_due ↦
            let fresh =
              subst (λ o. FreshIn m.calendar now o p.last_reset_at) (sym named)
                (FreshIn-not_due m.calendar now before period p.last_reset_at not_due) in
            simp not_due (pass p rest w.plans fresh pending)
        | inl due ↦
            let start = get_period_start m.calendar period now in
            let claim = claim_quota_plan_reset p.id start now w.plans in
            let written = after_claim-plans p.id claim w (claim-zero p.id start now w.plans) in
            simp (due, answered)
              (subst (All (Pending rest)) (sym written)
                (claim-Pending p period rest w.plans before named pending))
      ]

  pub reset_for-Pending :
      (p : QuotaPlan F) (o : Option String) (rest : List (QuotaPlan F)) (w : World F)
      → StartsBefore m.calendar
      → m.claim_fails p.id ≡ false
      → p.reset_period ≡ o
      → All (Pending (p ∷ rest)) w.plans
      → All (Pending rest) (reset_for m now p o w).plans
  unfolding reset_for
  reset_for-Pending p none rest w before answered unset pending =
      let fresh = subst (λ o. FreshIn m.calendar now o p.last_reset_at) (sym unset) tt in
      pass p rest w.plans fresh pending
  reset_for-Pending p (some period) rest w before answered named pending =
      period-Pending p period rest w before answered named pending
