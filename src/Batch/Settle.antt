-- ===== src/Batch/Settle.antt =====
-- The settlement of completed tasks and the release of the others (model/ibatch/settle.go).
pub mod Claim
pub mod Frozen
use Prim.Native.String
use ai_gateway_api.Prelude.{
  ℕ, String, Bool, true, false, ◌&&◌, ◌||◌, List, [], ◌∷◌, Option, none, some, ◌==◌, ltb, leb,
  nat_eq, lookup, insert, if◌then◌else◌, Int64, add_int64, lt_int64, format_int,
}
use ai_gateway_api.Batch.Task.{
  BatchTask, BatchSettlePatch, settle_status_reserved, settle_status_settled,
  settle_status_released, usage_source_reconcile,
}
use ai_gateway_api.Batch.Store.{update_batch_task_settle_status}
use ai_gateway_api.Batch.Redis.{Fields, Redis, h_set_task, set_nx_settled, delete_settled}
use ai_gateway_api.Batch.Usage.{Bytes, UsageTotals, no_usage, parse_jsonl_usage}
use ai_gateway_api.Batch.World.{
  Error, redis_failed, store_failed, download_failed, Result, ok, err, ProviderAccess, BatchPrices,
  Reply, unreachable, replied, Manager, World,
}
use ai_gateway_api.Batch.Provider.{resolve_provider_access}
use ai_gateway_api.Batch.Reserve.{release_reserve}

-- The round's cache of resolved accesses goes through the settlements with the world.
pub record Round : Type 0 where
  pub cache : List (String × ProviderAccess)
  pub world : World

-- `resolveProviderAccessCached`: the cache goes by the provider's name alone.
resolve_uncached :
    String
    → List (String × ProviderAccess)
    → Result ProviderAccess
    → List (String × ProviderAccess) × Result ProviderAccess
resolve_uncached name cache (err e) = (cache, err e)
resolve_uncached name cache (ok access) = (insert name access cache, ok access)

unfoldable pub resolve_provider_access_cached :
    Manager
    → List (String × ProviderAccess)
    → String
    → String
    → List (String × ProviderAccess) × Result ProviderAccess
unfolding resolve_uncached
resolve_provider_access_cached m cache name key_name = elim (lookup name cache) [
  | some access ↦ (cache, ok access)
  | none ↦ resolve_uncached name cache (resolve_provider_access m name key_name)
]

-- The access's header is set on the request even where its name is empty.
read_download : Manager → Reply (Bytes × Bool) → Result (UsageTotals × ℕ)
unfolding no_usage
read_download m unreachable = err download_failed
read_download m (replied status (body, fails)) =
    if ltb status 200 || leb 300 status
    then ok (no_usage, status)
    else elim (parse_jsonl_usage m.codec m.max_output_line_bytes body fails no_usage) [
      | none ↦ err download_failed
      | some totals ↦ ok (totals, status)
    ]

-- `downloadAndParseUsage`.
unfoldable pub download_and_parse_usage :
    Manager → ProviderAccess → String → Result (UsageTotals × ℕ)
unfolding read_download
download_and_parse_usage m access url = read_download m (m.download access url)

price_units : Manager → UsageTotals → Result (Option BatchPrices) → Result (Int64 × Bool)
price_units m usage (err e) = err e
price_units m usage (ok none) = ok (0, true)
price_units m usage (ok (some p)) =
    if nat_eq p.input_cost_per_token 0 && nat_eq p.output_cost_per_token 0
    then ok (0, true)
    else ok (
      add_int64 (m.cost_units usage.input_tokens p.input_cost_per_token)
          (m.cost_units usage.output_tokens p.output_cost_per_token),
      false,
    )

-- `calcSettleUnits`: the units, and whether no price was found.
unfoldable pub calc_settle_units : Manager → BatchTask → UsageTotals → Result (Int64 × Bool)
unfolding price_units
calc_settle_units m task usage = if usage.model == "" then ok (0, true) else elim m.price_querier [
  | none ↦ ok (0, true)
  | some fetch ↦ price_units m usage (fetch task.provider usage.model)
]

settle_fields : UsageTotals → Int64 → Fields
unfolding format_int
settle_fields usage units =
    ("usage_in", format_int usage.input_tokens)
    ∷ ("usage_out", format_int usage.output_tokens)
    ∷ ("settle_units", format_int units)
    ∷ ("settle_status", settle_status_settled)
    ∷ []

or_now {ℓ} : {A : Type ℓ} → Option A → A → A
or_now none now = now
or_now (some t) now = t

unfoldable pub settle_patch : Manager → BatchTask → UsageTotals → Int64 → BatchSettlePatch
unfolding or_now
settle_patch m task usage units = record {
  settle_status = settle_status_settled;
  settle_units = some units;
  usage_input_tokens = some usage.input_tokens;
  usage_output_tokens = some usage.output_tokens;
  usage_source = some usage_source_reconcile;
  over_reserved = some (lt_int64 0 task.reserve_units && lt_int64 task.reserve_units units);
  terminal_at = some (or_now task.terminal_at m.now);
}

abbrev pub with_redis : World → Redis → World
with_redis w r = record w { redis = r }

-- `releaseClaim`: a failing call is only logged.
unfoldable pub release_claim : Manager → String → World → World
unfolding delete_settled
release_claim m id w =
    if m.delete_settled_fails id then w else with_redis w (delete_settled id w.redis)

write_settle : Manager → BatchTask → BatchSettlePatch → World → World × Result Bool
write_settle m task patch w =
    if m.store_write_fails task.batch_id
    then (w, err store_failed)
    else let (rows, affected) =
        update_batch_task_settle_status task.batch_id task.product_name settle_status_reserved patch
          m.now w.rows in
      (record w { rows = rows }, ok (ltb 0 affected))

released_patch : BatchSettlePatch
released_patch = record {
  settle_status = settle_status_released;
  settle_units = none;
  usage_input_tokens = none;
  usage_output_tokens = none;
  usage_source = none;
  over_reserved = none;
  terminal_at = none;
}

after_release_reserve : Manager → BatchTask → World → Redis × Option Error → World × Result Bool
unfolding write_settle released_patch
after_release_reserve m task w (r, some e) = (with_redis w r, err e)
after_release_reserve m task w (r, none) = write_settle m task released_patch (with_redis w r)

-- `releaseOneTask`.
unfoldable pub release_one_task : Manager → BatchTask → World → World × Result Bool
unfolding after_release_reserve
release_one_task m task w = after_release_reserve m task w (release_reserve m task.batch_id w.redis)

-- A failure or a retry after the claim: the claim is given back.
abbrev give_up {ℓ} : {A : Type ℓ} → Manager → BatchTask → World → A → World × A
give_up m task w result = (release_claim m task.batch_id w, result)

-- The claim is given back where the write fails, and kept otherwise.
keep_claim : Manager → BatchTask → World × Result Bool → World × Result Bool
unfolding release_claim
keep_claim m task (w, err e) = give_up m task w (err e)
keep_claim m task (w, ok moved) = (w, ok moved)

-- Steps 4 to 6: the fields in Redis, the reservation, and the row.
write_settlement : Manager → BatchTask → UsageTotals → Int64 → World → World × Result Bool
unfolding keep_claim write_settle settle_patch settle_fields h_set_task
write_settlement m task usage units w =
    if m.h_set_fails task.batch_id
    then give_up m task w (err redis_failed)
    else let r = h_set_task task.batch_id (settle_fields usage units) w.redis in
      let released = (release_reserve m task.batch_id r).0 in
      keep_claim m task
        (write_settle m task (settle_patch m task usage units) (with_redis w released))

settle_priced :
    Manager → BatchTask → UsageTotals → World → Result (Int64 × Bool) → World × Result Bool
unfolding write_settlement release_claim
settle_priced m task usage w (err e) = give_up m task w (err e)
settle_priced m task usage w (ok (units, miss)) = write_settlement m task usage units w

-- The guards on what was downloaded.
settle_usage : Manager → BatchTask → World → Result (UsageTotals × ℕ) → World × Result Bool
unfolding settle_priced release_claim calc_settle_units
settle_usage m task w (err e) = give_up m task w (err e)
settle_usage m task w (ok (usage, status)) =
    if nat_eq status 404
    then give_up m task w (ok false)
    else if ltb status 200 || leb 300 status
    then give_up m task w (ok false)
    else if nat_eq usage.parsed_lines 0 && ltb 0 usage.no_usage_lines
    then give_up m task w (ok false)
    else settle_priced m task usage w (calc_settle_units m task usage)

-- What a release in place of a settlement counts for: an error is passed on, no settlement else.
not_settled : World × Result Bool → World × Result Bool
not_settled (w, err e) = (w, err e)
not_settled (w, ok moved) = (w, ok false)

abbrev content_url : ProviderAccess → BatchTask → String
content_url access task =
    String.◌++◌ access.base_url
      (String.◌++◌ access.path (String.◌++◌ "/files/" (String.◌++◌ task.output_file_id "/content")))

settle_access : Manager → BatchTask → World → Result ProviderAccess → World × Result Bool
unfolding settle_usage not_settled release_claim download_and_parse_usage
settle_access m task w (err e) = give_up m task w (err e)
settle_access m task w (ok access) =
    if task.output_file_id == ""
    then not_settled (release_one_task m task (release_claim m task.batch_id w))
    else settle_usage m task w (download_and_parse_usage m access (content_url access task))

settle_claimed : Manager → BatchTask → Round → Redis × Bool → Round × Result Bool
unfolding settle_access
settle_claimed m task round (r, false) = (round, ok false)
settle_claimed m task round (r, true) =
    let (cache, access) =
      resolve_provider_access_cached m round.cache task.provider task.key_name in
    let (w, result) = settle_access m task (with_redis round.world r) access in
    (record { cache = cache; world = w }, result)

-- `settleOneTask`.
unfoldable pub settle_one_task : Manager → BatchTask → Round → Round × Result Bool
unfolding settle_claimed
settle_one_task m task round =
    if m.set_nx_fails task.batch_id
    then (round, err redis_failed)
    else settle_claimed m task round (set_nx_settled task.batch_id round.world.redis)
