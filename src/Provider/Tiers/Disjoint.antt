-- ===== src/Provider/Tiers/Disjoint.antt =====
-- What an accepted list of pricing tiers is (model/iprovider/provider.go, validatePricingTiers).
use ai_gateway_api.Prelude.{
  ℕ, suc, ◌≤◌, ◌<◌, ◌≡◌, refl, sym, subst, inl, inr, String, true, false, Option, none, some, List,
  [], ◌∷◌, ◌++◌, ◌==◌, eq_iff, arith, elem, length, All, All-append, All-each, first_error-none,
  Bool-cases, trim_space,
}
use ai_gateway_api.Provider.Tiers.{
  TimeRange, PricingTier, validate_time_range, time_ranges_overlap, first_overlap, overlap_error,
  range_error, range_key, validate_ranges, validate_tiers, validate_pricing_tiers, is_empty,
  RangeError,
}
use ai_gateway_api.Provider.Tiers.Overlap.{Covers, time_ranges_overlap-Covers}

-- No minute of any weekday is covered by both.
abbrev pub Apart : TimeRange → TimeRange → Type 0
Apart a b = (day minute : ℕ) → Covers a day minute → ¬ Covers b day minute

-- Every range is valid, and every two are apart.
abbrev pub IsSchedule : List TimeRange → Type 0
IsSchedule [] = Unit
IsSchedule (r ∷ rs) = (validate_time_range r ≡ none) × All (Apart r) rs × IsSchedule rs

abbrev pub IsPeak : PricingTier → Type 0
IsPeak t = (t.name ≡ "peak") × (0 < length t.time_ranges) × IsSchedule t.time_ranges

first_overlap-none :
    (r : TimeRange) (k : ℕ) (earlier : List TimeRange)
    → first_overlap r k earlier ≡ none
    → All (λ e. time_ranges_overlap r e ≡ false) earlier
unfolding first_overlap
first_overlap-none r k [] h = tt
first_overlap-none r k (e ∷ rest) h = elim (Bool-cases (time_ranges_overlap r e)) [
  | inl overlapping ↦ cc (rw overlapping at h)
  | inr clear ↦ (clear, first_overlap-none r (suc k) rest (rw clear at h))
]

overlap-Apart :
    (r e : TimeRange)
    → validate_time_range r ≡ none
    → validate_time_range e ≡ none
    → time_ranges_overlap r e ≡ false
    → Apart e r
overlap-Apart r e vr ve clear day minute in_e in_r =
    let overlapping = (time_ranges_overlap-Covers r e vr ve).1 (day, minute, in_r, in_e) in
    cc (overlapping, clear)

All-Apart :
    (r : TimeRange) (earlier : List TimeRange)
    → validate_time_range r ≡ none
    → All (λ e. validate_time_range e ≡ none) earlier
    → All (λ e. time_ranges_overlap r e ≡ false) earlier
    → All (λ e. Apart e r) earlier
All-Apart r [] vr vs clear = tt
All-Apart r (e ∷ es) vr (ve, vs) (c, clear) =
    (overlap-Apart r e vr ve c, All-Apart r es vr vs clear)

All-with :
    (r : TimeRange) (rest earlier : List TimeRange)
    → All (λ e. Apart e r) earlier
    → All (λ e. All (Apart e) rest) earlier
    → All (λ e. All (Apart e) (r ∷ rest)) earlier
All-with r rest [] hs hss = tt
All-with r rest (e ∷ es) (h, hs) (k, ks) = ((h, k), All-with r rest es hs ks)

range_error-none : (i j : ℕ) (o : Option RangeError) → range_error i j o ≡ none → o ≡ none
unfolding range_error
range_error-none i j none h = refl
range_error-none i j (some e) h = cc h

overlap_error-none : (i j : ℕ) (o : Option ℕ) → overlap_error i j o ≡ none → o ≡ none
unfolding overlap_error
overlap_error-none i j none h = refl
overlap_error-none i j (some e) h = cc h

validate_ranges-IsSchedule :
    (i j : ℕ) (seen : List String) (earlier rest : List TimeRange)
    → All (λ e. validate_time_range e ≡ none) earlier
    → validate_ranges i j seen earlier rest ≡ none
    → All (λ e. All (Apart e) rest) earlier × IsSchedule rest
unfolding validate_ranges
validate_ranges-IsSchedule i j seen earlier [] vs h = (All-each _ (λ e. tt) earlier, tt)
validate_ranges-IsSchedule i j seen earlier (r ∷ rest) vs h =
    elim (Bool-cases (elem (range_key r) seen)) [
      | inl again ↦ cc (rw again at h)
      | inr new ↦
          let (range_ok, h') = first_error-none _ _ (rw new at h) in
          let (overlap_ok, later) = first_error-none _ _ h' in
          let vr = range_error-none i j _ range_ok in
          let clear = first_overlap-none r 0 earlier (overlap_error-none i j _ overlap_ok) in
          let (apart, schedule) =
            validate_ranges-IsSchedule i (suc j) (range_key r ∷ seen) (earlier ++ (r ∷ [])) rest
              ((All-append _ earlier (r ∷ [])).1 (vs, (vr, tt))) later in
          let (before, (here, _)) = (All-append _ earlier (r ∷ [])).0 apart in
          (All-with r rest earlier (All-Apart r earlier vr vs clear) before, (vr, here, schedule))
    ]

is_empty-length : (rs : List TimeRange) → is_empty rs ≡ false → 0 < length rs
is_empty-length [] h = cc h
is_empty-length (r ∷ rs) h = omega arith

-- A tier that is accepted, and what is left to accept after it.
validate_tiers-first :
    (i : ℕ) (seen : List String) (t : PricingTier) (rest : List PricingTier)
    → validate_tiers i seen (t ∷ rest) ≡ none
    → IsPeak t × (elem t.name seen ≡ false) × (validate_tiers (suc i) (t.name ∷ seen) rest ≡ none)
unfolding validate_tiers
validate_tiers-first i seen t rest h = elim (Bool-cases (trim_space t.name == "")) [
  | inl blank ↦ cc (rw blank at h)
  | inr named ↦ elim (Bool-cases (t.name == "peak")) [
    | inr other ↦ cc (rw (named, other) at h)
    | inl peak ↦ elim (Bool-cases (elem t.name seen)) [
      | inl again ↦ cc (rw (named, peak, again) at h)
      | inr new ↦ elim (Bool-cases (is_empty t.time_ranges)) [
        | inl empty ↦ cc (rw (named, peak, new, empty) at h)
        | inr full ↦
            let (ranges_ok, later) = first_error-none _ _ (rw (named, peak, new, full) at h) in
            let (_, schedule) = validate_ranges-IsSchedule i 0 [] [] t.time_ranges tt ranges_ok in
            (
              ((eq_iff t.name "peak").0 peak, is_empty-length t.time_ranges full, schedule),
              new,
              later,
            )
      ]
    ]
  ]
]

validate_tiers-more :
    (i : ℕ) (seen : List String) (tiers : List PricingTier)
    → elem "peak" seen ≡ true
    → validate_tiers i seen tiers ≡ none
    → tiers ≡ []
validate_tiers-more i seen [] found h = refl
validate_tiers-more i seen (t ∷ rest) found h =
    let (peak, new, _) = validate_tiers-first i seen t rest h in cc (found, new, peak.0)

-- A list of pricing tiers that passes the validation has one tier at most; that tier is named
-- "peak" and has a range; each of its ranges is valid, and no minute of any weekday is covered by
-- two of them.
pub validate_pricing_tiers-IsPeak :
    (tiers : List PricingTier)
    → validate_pricing_tiers tiers ≡ none
    → (length tiers ≤ 1) × All IsPeak tiers
unfolding validate_pricing_tiers
validate_pricing_tiers-IsPeak [] h = (omega arith, tt)
validate_pricing_tiers-IsPeak (t ∷ rest) h =
    let (peak, _, later) = validate_tiers-first 0 [] t rest h in
    let none_left = validate_tiers-more 1 (t.name ∷ []) rest (simp peak.0) later in
    subst (λ ts. (length (t ∷ ts) ≤ 1) × All IsPeak (t ∷ ts)) (sym none_left)
      (omega arith, (peak, tt))
