-- ===== src/Quota/Sync/Fresh.antt =====
-- What makes a row of a quota plan due, and what a claim does (model/quota/balance_sync.go).
use ai_gateway_api.Prelude.{
  ℕ, ◌≤◌, ◌≡◌, ◌⊎◌, refl, ap, subst, ◌∙◌, inl, inr, String, Bool, true, false, ◌&&◌, ◌||◌, List, [],
  ◌∷◌, map, Option, none, some, ◌==◌, arith, nat_eq, ltb, All, Bool-cases,
}
use ai_gateway_api.Quota.Plan.{
  Time, QuotaPlan, Calendar, get_period_start, starts_later, should_reset_by_period, claimable,
  not_since, claim_quota_plan_reset,
}

-- A period does not start after the times that it has.
abbrev pub StartsBefore : Calendar → Type 0
StartsBefore cal = (period : String) (t : Time) → get_period_start cal period t ≤ t

abbrev pub is_periodic : String → Bool
is_periodic period = period == "weekly" || period == "monthly"

module _ {F : Type 0} where
  abbrev pub key : QuotaPlan F → ℕ × Option String
  key p = (p.id, p.reset_period)

  abbrev pub keys : List (QuotaPlan F) → List (ℕ × Option String)
  keys = map key

abbrev pub SameKey : ℕ × Option String → ℕ × Option String → Type 0
SameKey (id, period) (other, other_period) = (nat_eq other id ≡ false) ⊎ (other_period ≡ period)

-- Rows of one id have one period, as a primary key gives it.
abbrev pub IsKeyed : List (ℕ × Option String) → Type 0
IsKeyed ks = All (λ k. All (SameKey k) ks) ks

and_false : (a : Bool) {b : Bool} → b ≡ false → a && b ≡ false
and_false true h = h
and_false false h = refl

module _ (cal : Calendar) (now : Time) where
  -- The row was reset in the period that has the present time.
  abbrev pub FreshIn : Option String → Option Time → Type 0
  FreshIn none last = Unit
  FreshIn (some period) last =
      (is_periodic period ≡ false)
      ⊎ ((t : Time) × (last ≡ some t) × (get_period_start cal period now ≤ t))

  -- A row that is claimed is fresh, whatever its period.
  pub FreshIn-now : StartsBefore cal → (period : Option String) → FreshIn period (some now)
  FreshIn-now before none = tt
  FreshIn-now before (some period) = inr (now, refl, before period now)

  -- What is not due was reset in the period.
  pub FreshIn-not_due :
      StartsBefore cal
      → (period : String) (last : Option Time) → should_reset_by_period cal last period now ≡ false
      → FreshIn (some period) last
  unfolding should_reset_by_period starts_later
  FreshIn-not_due before period none h = elim (Bool-cases (is_periodic period)) [
    | inl periodic ↦ cc (rw periodic at h)
    | inr other ↦ inl other
  ]
  FreshIn-not_due before period (some t) h = elim (Bool-cases (is_periodic period)) [
    | inr other ↦ inl other
    | inl periodic ↦
        let started = before period t in inr (t, refl, ground (arith, started, rw periodic at h))
  ]

  -- What cannot be claimed was reset in the period.
  pub FreshIn-since :
      (period : String) (last : Option Time)
      → not_since (get_period_start cal period now) last ≡ false
      → FreshIn (some period) last
  unfolding not_since
  FreshIn-since period none h = cc h
  FreshIn-since period (some t) h = inr (t, refl, ground (arith, h))

  not_since-fresh :
      (period : String) (last : Option Time)
      → is_periodic period ≡ true
      → FreshIn (some period) last
      → not_since (get_period_start cal period now) last ≡ false
  unfolding not_since
  not_since-fresh period last periodic (inl other) = cc (periodic, other)
  not_since-fresh period last periodic (inr (t, at, later)) =
      let since : ltb t (get_period_start cal period now) ≡ false = ground (arith, later) in
      ap (not_since (get_period_start cal period now)) at ∙ since

module _ {F : Type 0} (cal : Calendar) (now : Time) where
  abbrev pub IsFresh : QuotaPlan F → Type 0
  IsFresh p = FreshIn cal now p.reset_period p.last_reset_at

  -- A fresh row cannot be claimed.
  claimable-fresh :
      (id : ℕ) (period : String) (p : QuotaPlan F)
      → is_periodic period ≡ true
      → SameKey (id, some period) (key p)
      → IsFresh p
      → claimable id (get_period_start cal period now) p ≡ false
  unfolding claimable
  claimable-fresh id period p periodic (inl other) fresh = rw other refl
  claimable-fresh id period p periodic (inr same) fresh =
      let since =
        not_since-fresh cal now period p.last_reset_at periodic
          (subst (λ o. FreshIn cal now o p.last_reset_at) same fresh) in
      and_false (nat_eq p.id id) since

  pub claim-none :
      (id : ℕ) (period : String) (ps : List (QuotaPlan F))
      → is_periodic period ≡ true
      → All (SameKey (id, some period)) (keys ps)
      → All IsFresh ps
      → claim_quota_plan_reset id (get_period_start cal period now) now ps ≡ (ps, 0)
  unfolding claim_quota_plan_reset
  claim-none id period [] periodic ks fresh = refl
  claim-none id period (p ∷ ps) periodic (k, ks) (f, fs) =
      rw (claimable-fresh id period p periodic k f, claim-none id period ps periodic ks fs) refl

  -- A claim makes the rows that it takes fresh, and keeps their keys.
  pub claim-keys :
      (id : ℕ) (start : Time) (ps : List (QuotaPlan F))
      → keys (claim_quota_plan_reset id start now ps).0 ≡ keys ps
  unfolding claim_quota_plan_reset
  claim-keys id start [] = refl
  claim-keys id start (p ∷ ps) = elim (Bool-cases (claimable id start p)) [
    | inl taken ↦ rw taken (cc (claim-keys id start ps))
    | inr left ↦ rw left (cc (claim-keys id start ps))
  ]
