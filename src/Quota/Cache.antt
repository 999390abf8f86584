-- ===== src/Quota/Cache.antt =====
-- The balances in Redis (model/quotacache/redis.go), by the key that AIUsedQuotaKey makes of the
-- owner. The conversion of a quota to the stored integer is a library's (golibquota).
use ai_gateway_api.Prelude.{
  ◌+◌, ◌-◌, ◌%◌, ◌^◌, String, List, Option, none, some, lookup, insert, Int64, add_int64,
}

pub record Units (F : Type 0) : Type 0 where
  pub to_redis : F → Option String → Int64
  pub from_redis : Int64 → Option String → F

abbrev pub Balances : Type 0
Balances = List (String × Int64)

unfoldable pub or_zero : Option Int64 → Int64
or_zero none = 0
or_zero (some n) = n

-- `GetInt64`: a key that is not there is 0, as the code takes the error of redigo for it.
unfoldable pub get_int64 : String → Balances → Int64
unfolding lookup or_zero
get_int64 key balances = or_zero (lookup key balances)

-- `IncrBy`, on 64 bits.
unfoldable pub incr_by : String → Int64 → Balances → Balances
unfolding get_int64 insert
incr_by key delta balances = insert key (add_int64 (get_int64 key balances) delta) balances

abbrev pub sub_int64 : Int64 → Int64 → Int64
sub_int64 a b = (a + (2 ^ 64 - b)) % 2 ^ 64

module _ {F : Type 0} (units : Units F) where
  unfoldable pub get_remaining : String → Option String → Balances → F
  unfolding get_int64
  get_remaining key unit balances = units.from_redis (get_int64 key balances) unit

  -- The difference is added, not the value set.
  unfoldable pub set_remaining : String → Option F → Option String → Balances → Balances
  unfolding incr_by get_int64
  set_remaining key none unit balances = balances
  set_remaining key (some quota) unit balances =
      incr_by key (sub_int64 (units.to_redis quota unit) (get_int64 key balances)) balances

  unfoldable pub reset_to_quota : String → Option F → Option String → Balances → Balances
  unfolding set_remaining
  reset_to_quota = set_remaining

  -- The script sets the value.
  unfoldable pub reset_to_quota_atomic : String → Option F → Option String → Balances → Balances
  unfolding insert
  reset_to_quota_atomic key none unit balances = balances
  reset_to_quota_atomic key (some quota) unit balances =
      insert key (units.to_redis quota unit) balances
