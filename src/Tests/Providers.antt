-- ===== src/Tests/Providers.antt =====
-- Examples of providers: their requests, pricing tiers, rows and pages.
use ai_gateway_api.Prelude.{
  ℕ, ◌≡◌, ◌≤◌, ◌<◌, ◌↔◌, All, refl, inr, String, Bool, true, false, List, [], ◌∷◌, none, some, ◌==◌,
  arith,
}
use ai_gateway_api.Provider.Hhmm.{parse_hhmm}
use ai_gateway_api.Provider.Hhmm.RoundTrip.{print_hhmm, parse_hhmm-bounds, parse_hhmm-print_hhmm}
use ai_gateway_api.Provider.Tiers.{
  TimeRange, PricingTier, validate_pricing_tiers, time_ranges_overlap, validate_time_range,
}
use ai_gateway_api.Provider.Tiers.Overlap.{Covers, time_ranges_overlap-Covers}
use ai_gateway_api.Provider.Tiers.Disjoint.{IsPeak, validate_pricing_tiers-IsPeak}
use ai_gateway_api.Provider.Types.{ProviderParam}
use ai_gateway_api.Provider.Param.{validate_provider_param}
use ai_gateway_api.Provider.Param.Accepted.{IsAccepted, validate_provider_param-IsAccepted}

abbrev pub morning : TimeRange
morning = record { weekdays = 1 ∷ 2 ∷ []; start = "08:00"; end = "12:30" }

abbrev noon : TimeRange
noon = record { weekdays = 2 ∷ []; start = "12:00"; end = "14:00" }

abbrev pub evening : TimeRange
evening = record { weekdays = []; start = "18:00"; end = "23:59" }

abbrev pub tiers : List PricingTier
tiers = (record { name = "peak"; time_ranges = morning ∷ evening ∷ [] }) ∷ []

parsed : parse_hhmm "09:05" ≡ inr 545
unfolding parse_hhmm
parsed = refl

-- The tests of a sign in the hour are those of a number, so that a sign is read as one.
signed_hour : parse_hhmm "+9:-0" ≡ inr 540
unfolding parse_hhmm
signed_hour = refl

parse_hhmm-bounds_example : 545 < 1440
parse_hhmm-bounds_example = parse_hhmm-bounds "09:05" 545 parsed

parse_hhmm-print_hhmm_example : parse_hhmm (print_hhmm 23 59) ≡ inr 1439
parse_hhmm-print_hhmm_example = parse_hhmm-print_hhmm 23 59 (omega arith) (omega arith)

morning_valid : validate_time_range morning ≡ none
unfolding validate_time_range
morning_valid = refl

noon_valid : validate_time_range noon ≡ none
unfolding validate_time_range
noon_valid = refl

time_ranges_overlap-Covers_example :
    (time_ranges_overlap morning noon ≡ true)
    ↔ ((day : ℕ) × (minute : ℕ) × Covers morning day minute × Covers noon day minute)
time_ranges_overlap-Covers_example =
    time_ranges_overlap-Covers morning noon morning_valid noon_valid

tiers_valid : validate_pricing_tiers tiers ≡ none
unfolding validate_pricing_tiers
tiers_valid = refl

validate_pricing_tiers-IsPeak_example : (1 ≤ 1) × All IsPeak tiers
validate_pricing_tiers-IsPeak_example = validate_pricing_tiers-IsPeak tiers tiers_valid

abbrev pub request : ProviderParam
request = record {
  name = some "acme";
  description = none;
  model_endpoint = some (record { schema = "https"; uri = "/v1/models" });
  models = some ("m1" ∷ []);
  keys = none;
  instance_pool =
      some ((record { addr = "10.0.0.1"; port = 8000; weight = 100; disable = false }) ∷ []);
  instance_source = none;
  k8s_pool_name = none;
  k8s_instance_pool = none;
  model_protocols = some ("openai" ∷ []);
  protocol_paths = some (("openai", "/v1") ∷ []);
  time_zone = none;
  tiers = some tiers;
}

abbrev pub known_zone : String → Bool
known_zone z = z == "Asia/Shanghai"

request_valid : validate_provider_param known_zone (some request) ≡ inr request
unfolding validate_provider_param
request_valid = refl

validate_provider_param-IsAccepted_example : IsAccepted request
validate_provider_param-IsAccepted_example =
    validate_provider_param-IsAccepted known_zone request request request_valid
