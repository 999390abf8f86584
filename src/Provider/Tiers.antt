-- ===== src/Provider/Tiers.antt =====
-- The pricing tiers of a provider and their validation (model/iprovider/provider.go,
-- validatePricingTiers and what it calls). An error is `some`, Go's nil is `none`.
use Prim.Native.String
use ai_gateway_api.Prelude.{
  ℕ, suc, ◌+◌, String, ◌⊎◌, inl, inr, Bool, true, false, not, ◌&&◌, ◌||◌, Option, none, some, List,
  [], ◌∷◌, ◌++◌, ◌==◌, nat_eq, ltb, leb, elem, any, if◌then◌else◌, Int64, lt_int64, format_int,
  trim_space, first_error,
}
use ai_gateway_api.Provider.Hhmm.{TimeError, parse_hhmm}
pub mod Overlap
pub mod Disjoint

pub record TimeRange : Type 0 where
  pub weekdays : List Int64
  pub start : String
  pub end : String

pub record PricingTier : Type 0 where
  pub name : String
  pub time_ranges : List TimeRange

pub data RangeError : Type 0 where
  weekday_out_of_range : RangeError
  duplicate_weekday : Int64 → RangeError
  bad_start : TimeError → RangeError
  bad_end : TimeError → RangeError
  end_not_greater : RangeError

-- The numbers are the indices that the messages name.
pub data TierError : Type 0 where
  name_required : ℕ → TierError
  unsupported_name : ℕ → String → TierError
  duplicate_name : String → TierError
  ranges_required : ℕ → TierError
  duplicate_range : ℕ → ℕ → TierError
  bad_range : ℕ → ℕ → RangeError → TierError
  overlaps : ℕ → ℕ → ℕ → TierError

abbrev pub member : Int64 → List Int64 → Bool
member day = any (λ other. nat_eq other day)

-- The loop over the weekdays, with those seen so far.
unfoldable pub validate_weekdays : List Int64 → List Int64 → Option RangeError
validate_weekdays seen [] = none
validate_weekdays seen (day ∷ days) =
    let rest = validate_weekdays (day ∷ seen) days in
    if lt_int64 day 0 || lt_int64 6 day
    then some weekday_out_of_range
    else if member day seen
    then some (duplicate_weekday day)
    else rest

unfoldable pub validate_times : TimeError ⊎ ℕ → TimeError ⊎ ℕ → Option RangeError
validate_times (inl e) end = some (bad_start e)
validate_times (inr start) (inl e) = some (bad_end e)
validate_times (inr start) (inr end) = if leb end start then some end_not_greater else none

unfoldable pub validate_time_range : TimeRange → Option RangeError
unfolding validate_weekdays validate_times parse_hhmm
validate_time_range r =
    first_error (validate_weekdays [] r.weekdays)
      (validate_times (parse_hhmm r.start) (parse_hhmm r.end))

-- `ast, _ := parseHHMM(a.Start)`: 0 where the text is no time.
unfoldable pub minute_of : TimeError ⊎ ℕ → ℕ
minute_of (inl e) = 0
minute_of (inr n) = n

unfoldable pub shared_weekday : List Int64 → List Int64 → Bool
shared_weekday [] others = true
shared_weekday (day ∷ days) [] = true
shared_weekday (day ∷ days) (other ∷ others) = any (λ d. member d (other ∷ others)) (day ∷ days)

unfoldable pub time_ranges_overlap : TimeRange → TimeRange → Bool
unfolding shared_weekday minute_of parse_hhmm
time_ranges_overlap a b =
    shared_weekday a.weekdays b.weekdays
    && ltb (minute_of (parse_hhmm a.start)) (minute_of (parse_hhmm b.end))
    && ltb (minute_of (parse_hhmm b.start)) (minute_of (parse_hhmm a.end))

-- `fmt.Sprintf("%v", weekdays)` between its brackets.
unfoldable pub format_days : List Int64 → String
unfolding format_int
format_days [] = ""
format_days (day ∷ []) = format_int day
format_days (day ∷ next ∷ days) =
    String.◌++◌ (format_int day) (String.◌++◌ " " (format_days (next ∷ days)))

unfoldable pub range_key : TimeRange → String
unfolding format_days
range_key r = String.◌++◌ "[" (
    String.◌++◌ (format_days r.weekdays)
      (String.◌++◌ "]|" (String.◌++◌ r.start (String.◌++◌ "|" r.end))))

-- The loop over `k < j`: the index of the first earlier range that overlaps.
unfoldable pub first_overlap : TimeRange → ℕ → List TimeRange → Option ℕ
unfolding time_ranges_overlap
first_overlap r k [] = none
first_overlap r k (earlier ∷ rest) =
    let later = first_overlap r (suc k) rest in
    if time_ranges_overlap r earlier then some k else later

unfoldable pub overlap_error : ℕ → ℕ → Option ℕ → Option TierError
overlap_error i j none = none
overlap_error i j (some k) = some (overlaps i j k)

unfoldable pub range_error : ℕ → ℕ → Option RangeError → Option TierError
range_error i j none = none
range_error i j (some e) = some (bad_range i j e)

-- The loop over the ranges of tier `i`, with the keys seen and the ranges before range `j`.
unfoldable pub validate_ranges :
    ℕ → ℕ → List String → List TimeRange → List TimeRange → Option TierError
unfolding range_key validate_time_range first_overlap overlap_error range_error
validate_ranges i j seen earlier [] = none
validate_ranges i j seen earlier (r ∷ rest) =
    let later = validate_ranges i (suc j) (range_key r ∷ seen) (earlier ++ (r ∷ [])) rest in
    if elem (range_key r) seen
    then some (duplicate_range i j)
    else first_error (range_error i j (validate_time_range r))
        (first_error (overlap_error i j (first_overlap r 0 earlier)) later)

abbrev pub is_empty {ℓ} : {A : Type ℓ} → List A → Bool
is_empty [] = true
is_empty (x ∷ xs) = false

-- The loop over the tiers from index `i` on, with the names seen so far.
unfoldable pub validate_tiers : ℕ → List String → List PricingTier → Option TierError
unfolding validate_ranges trim_space
validate_tiers i seen [] = none
validate_tiers i seen (tier ∷ rest) =
    let later = validate_tiers (suc i) (tier.name ∷ seen) rest in
    if trim_space tier.name == ""
    then some (name_required i)
    else if not (tier.name == "peak")
    then some (unsupported_name i tier.name)
    else if elem tier.name seen
    then some (duplicate_name tier.name)
    else if is_empty tier.time_ranges
    then some (ranges_required i)
    else first_error (validate_ranges i 0 [] [] tier.time_ranges) later

unfoldable pub validate_pricing_tiers : List PricingTier → Option TierError
unfolding validate_tiers
validate_pricing_tiers tiers = validate_tiers 0 [] tiers
