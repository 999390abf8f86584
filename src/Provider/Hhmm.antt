-- ===== src/Provider/Hhmm.antt =====
-- Times of day as the pricing tiers write them (model/iprovider/provider.go, parseHHMM).
use ai_gateway_api.Prelude.{
  ℕ, ◌+◌, ◌*◌, String, ◌⊎◌, inl, inr, ◌||◌, Option, none, some, List, [], ◌∷◌, nat_eq,
  if◌then◌else◌, Int64, lt_int64, parse_codes, utf8,
}
pub mod RoundTrip

pub data TimeError : Type 0 where
  bad_format : TimeError
  bad_hour : TimeError
  bad_minute : TimeError
  out_of_range : TimeError

-- The minutes since midnight. The product and the sum are of an hour below 24 and a minute below
-- 60, so that they do not wrap.
unfoldable pub minutes : Option Int64 → Option Int64 → TimeError ⊎ ℕ
minutes none minute = inl bad_hour
minutes (some hour) none = inl bad_minute
minutes (some hour) (some minute) =
    if lt_int64 hour 0 || lt_int64 23 hour || lt_int64 minute 0 || lt_int64 59 minute
    then inl out_of_range
    else inr (hour * 60 + minute)

unfoldable pub parse_bytes : List ℕ → TimeError ⊎ ℕ
unfolding minutes parse_codes
parse_bytes (a ∷ b ∷ c ∷ d ∷ e ∷ []) =
    if nat_eq c b':'
    then minutes (parse_codes (a ∷ b ∷ [])) (parse_codes (d ∷ e ∷ []))
    else inl bad_format
parse_bytes _ = inl bad_format

unfoldable pub parse_hhmm : String → TimeError ⊎ ℕ
unfolding parse_bytes
parse_hhmm s = parse_bytes (utf8 s)
