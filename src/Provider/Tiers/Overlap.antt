-- ===== src/Provider/Tiers/Overlap.antt =====
-- When two time ranges overlap (model/iprovider/provider.go, timeRangesOverlap): against the
-- minutes of the week that each covers.
use ai_gateway_api.Prelude.{
  ℕ, ◌<◌, ◌≤◌, ◌≡◌, refl, sym, first_error-none, ◌-◌, ◌+◌, subst, ◌↔◌, ◌⊎◌, inl, inr, Bool, true,
  false, ◌||◌, ◌&&◌, none, List, [], ◌∷◌, arith, nat_eq, nat_eq_iff, ltb, any, Bool-cases, Int64,
}
use ai_gateway_api.Provider.Hhmm.{TimeError, parse_hhmm}
use ai_gateway_api.Provider.Tiers.{
  TimeRange, member, shared_weekday, minute_of, time_ranges_overlap, validate_weekdays,
  validate_times, validate_time_range,
}

-- A range without weekdays is of every day.
abbrev pub OnDay : List Int64 → ℕ → Type 0
OnDay [] day = Unit
OnDay (d ∷ ds) day = member day (d ∷ ds) ≡ true

-- The range covers the minute of the day, on the weekday.
abbrev pub Covers : TimeRange → ℕ → ℕ → Type 0
Covers r day minute =
    OnDay r.weekdays day
    × (minute_of (parse_hhmm r.start) ≤ minute)
    × (minute < minute_of (parse_hhmm r.end))

or_right : (a b : Bool) → b ≡ true → a || b ≡ true
or_right true b h = refl
or_right false b h = h

or_left : (a b : Bool) → a ≡ true → a || b ≡ true
or_left true b h = refl
or_left false b h = cc h

member-first : (x : ℕ) (xs : List ℕ) → member x (x ∷ xs) ≡ true
member-first x xs = or_left (nat_eq x x) (member x xs) (ground arith)

any-member :
    (p : ℕ → Bool) (xs : List ℕ)
    → any p xs ≡ true
    → (day : ℕ) × (p day ≡ true) × (member day xs ≡ true)
any-member p [] h = cc h
any-member p (x ∷ xs) h = elim (Bool-cases (p x)) [
  | inl here ↦ (x, here, member-first x xs)
  | inr other ↦
      let (day, holds, found) = any-member p xs (rw other at h) in
      (day, holds, or_right (nat_eq x day) (member day xs) found)
]

member-any :
    (p : ℕ → Bool) (day : ℕ) (xs : List ℕ) → p day ≡ true → member day xs ≡ true → any p xs ≡ true
member-any p day [] holds found = cc found
member-any p day (x ∷ xs) holds found = elim (Bool-cases (nat_eq x day)) [
  | inl same ↦
      or_left (p x) (any p xs) (subst (λ d. p d ≡ true) (sym ((nat_eq_iff x day).0 same)) holds)
  | inr other ↦ or_right (p x) (any p xs) (member-any p day xs holds (rw other at found))
]

shared_weekday-day :
    (xs ys : List Int64) → shared_weekday xs ys ≡ true ↔ ((day : ℕ) × OnDay xs day × OnDay ys day)
unfolding shared_weekday
shared_weekday-day [] [] = (λ _. (0, tt, tt), λ h. refl)
shared_weekday-day [] (y ∷ ys) = (λ h. (y, tt, member-first y ys), λ h. refl)
shared_weekday-day (x ∷ xs) [] = (λ h. (x, member-first x xs, tt), λ h. refl)
shared_weekday-day (x ∷ xs) (y ∷ ys) = (
  λ h.
      let (day, there, here) = any-member (λ d. member d (y ∷ ys)) (x ∷ xs) h in (day, here, there),
  λ (day, here, there). member-any (λ d. member d (y ∷ ys)) day (x ∷ xs) there here,
)

validate_times-ordered :
    (start end : TimeError ⊎ ℕ) → validate_times start end ≡ none → minute_of start < minute_of end
unfolding validate_times minute_of
validate_times-ordered (inl e) end h = cc h
validate_times-ordered (inr n) (inl e) h = cc h
validate_times-ordered (inr n) (inr m) h = ground (arith, h)

-- Two intervals that are not empty overlap exactly when they share a number: the later start.
intervals_overlap :
    (shared : Bool) (s₁ e₁ s₂ e₂ : ℕ)
    → s₁ < e₁
    → s₂ < e₂
    → (shared && ltb s₁ e₂ && ltb s₂ e₁ ≡ true)
      ↔ ((shared ≡ true) × (m : ℕ) × (s₁ ≤ m) × (m < e₁) × (s₂ ≤ m) × (m < e₂))
intervals_overlap shared s₁ e₁ s₂ e₂ h₁ h₂ = (
  λ h. (
    ground (arith, h),
    s₁ - s₂ + s₂,
    ground (arith, h),
    ground (arith, h),
    omega arith,
    ground (arith, h),
  ),
  λ (holds, m, a, b, c, d). ground (arith, holds, a, b, c, d),
)

-- A range that passes the validation ends after it starts.
validate_time_range-ordered :
    (r : TimeRange)
    → validate_time_range r ≡ none
    → minute_of (parse_hhmm r.start) < minute_of (parse_hhmm r.end)
unfolding validate_time_range
validate_time_range-ordered r h =
    validate_times-ordered (parse_hhmm r.start) (parse_hhmm r.end)
      (first_error-none (validate_weekdays [] r.weekdays)
        (validate_times (parse_hhmm r.start) (parse_hhmm r.end)) h).1

-- Two time ranges that pass the validation overlap, by the code's test, exactly when some minute
-- of some weekday is covered by both.
pub time_ranges_overlap-Covers :
    (a b : TimeRange)
    → validate_time_range a ≡ none
    → validate_time_range b ≡ none
    → (time_ranges_overlap a b ≡ true)
      ↔ ((day : ℕ) × (minute : ℕ) × Covers a day minute × Covers b day minute)
unfolding time_ranges_overlap
time_ranges_overlap-Covers a b va vb =
    let ordered_a = validate_time_range-ordered a va in
    let ordered_b = validate_time_range-ordered b vb in
    let days = shared_weekday-day a.weekdays b.weekdays in
    let minutes_shared =
      intervals_overlap (shared_weekday a.weekdays b.weekdays) (minute_of (parse_hhmm a.start))
        (minute_of (parse_hhmm a.end)) (minute_of (parse_hhmm b.start))
        (minute_of (parse_hhmm b.end)) ordered_a ordered_b in
    (
      λ h.
          let (shared, m, after_a, before_a, after_b, before_b) = minutes_shared.0 h in
          let (day, on_a, on_b) = days.0 shared in
          (day, m, (on_a, after_a, before_a), (on_b, after_b, before_b)),
      λ (day, m, (on_a, after_a, before_a), (on_b, after_b, before_b)).
          minutes_shared.1 (days.1 (day, on_a, on_b), m, after_a, before_a, after_b, before_b),
    )
