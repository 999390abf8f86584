-- ===== src/Provider/Manager.antt =====
-- The manager of the providers (model/iprovider/provider.go) and the endpoints' part in it
-- (endpoints/openapi_v1/provider). A transaction that returns an error leaves the rows as they
-- were.
use ai_gateway_api.Prelude.{
  ℕ, String, ◌⊎◌, inl, inr, Bool, true, false, not, ◌&&◌, ◌||◌, Option, none, some, List, [], ◌∷◌,
  ◌++◌, map, ◌==◌, nat_eq, if◌then◌else◌, first_error,
}
use ai_gateway_api.Provider.Types.{
  ProviderEndpoint, ProviderKey, ProviderInstance, Paths, Provider, ProviderParam,
  PricingTiersParam, items, instance_source_instance_pool, instance_source_k8s_pool,
}
use ai_gateway_api.Provider.Tiers.{is_empty}
use ai_gateway_api.Provider.Param.{
  ParamError, validate_provider_param, validate_pricing_tiers_param,
  validate_provider_protocol_paths,
}
use ai_gateway_api.Provider.Rows.{
  Providers, or_keep, fill_defaults, new_row, fetch_provider, store_update, store_delete,
}
use ai_gateway_api.Provider.Snapshot.{
  provider_keys_equal, provider_models_equal, provider_instance_pool_equal, effective_instance_pool,
  apply_provider_update,
}
pub mod Rules
pub mod Stored
pub mod Reach
pub mod Merged

-- `F` are the errors of the hooks and of the reference checks.
pub data ManagerError (F : Type 0) : Type 0 where
  bad_param : ParamError → ManagerError F
  models_missing : ManagerError F
  record_existed : ManagerError F
  record_not_exist : ManagerError F
  refused : F → ManagerError F

unfoldable pub insert_new :
    {F : Type 0} → ℕ → ℕ → ProviderParam → Option Provider → Providers → ManagerError F ⊎ Providers
unfolding new_row fill_defaults
insert_new now id p (some existing) rows = inl record_existed
insert_new now id p none rows = inr (rows ++ new_row now id (fill_defaults p) ∷ [])

unfoldable pub create_accepted :
    {F : Type 0} → ℕ → ℕ → ParamError ⊎ ProviderParam → Providers → ManagerError F ⊎ Providers
unfolding insert_new fetch_provider
create_accepted now id (inl e) rows = inl (bad_param e)
create_accepted now id (inr p) rows =
    if is_empty (items p.models)
    then inl models_missing
    else insert_new now id p (fetch_provider (or_keep p.name "") rows) rows

-- `CreateProvider`, with the id that the database gives.
unfoldable pub create_provider :
    {F : Type 0} → ℕ → (String → Bool) → ℕ → ProviderParam → Providers → ManagerError F ⊎ Providers
unfolding create_accepted validate_provider_param
create_provider now known_zone id p rows =
    create_accepted now id (validate_provider_param known_zone (some p)) rows

-- A hook sees the provider before and after, and may refuse.
abbrev pub Hook : Type 0 → Type 0
Hook F = Provider → Provider → Option F

unfoldable pub run_hooks : {F : Type 0} → List (Hook F) → Provider → Provider → Option F
run_hooks [] old new = none
run_hooks (hook ∷ hooks) old new = first_error (hook old new) (run_hooks hooks old new)

unfoldable pub differs : {A : Type 0} → (A → A → Bool) → A → Option A → Bool
differs eq old none = false
differs eq old (some new) = not (eq old new)

unfoldable pub cluster_config_changed : Provider → ProviderParam → Bool
unfolding differs provider_keys_equal provider_models_equal provider_instance_pool_equal
    effective_instance_pool apply_provider_update
cluster_config_changed existing p =
    differs provider_keys_equal existing.keys p.keys
    || differs provider_models_equal existing.models p.models
    || not (
        provider_instance_pool_equal (effective_instance_pool existing)
          (effective_instance_pool (apply_provider_update existing p)))

-- The mirror is cleared where the merged source is the instance pool.
unfoldable pub mirror_update :
    String → List ProviderInstance → Option (List ProviderInstance) → Option (List ProviderInstance)
mirror_update source mirror asked =
    if source == instance_source_instance_pool && not (is_empty mirror) then some [] else asked

unfoldable pub clear_mirror : Provider → ProviderParam → ProviderParam
unfolding mirror_update
clear_mirror existing p = record p {
  k8s_instance_pool =
      mirror_update (or_keep p.instance_source existing.instance_source) existing.k8s_instance_pool
        p.k8s_instance_pool;
}

unfoldable pub after_hooks : {F : Type 0} → Option F → Providers → ManagerError F ⊎ Providers
after_hooks none rows = inr rows
after_hooks (some e) rows = inl (refused e)

unfoldable pub update_checked :
    {F : Type 0}
    → ℕ
    → List (Hook F)
    → String
    → ProviderParam
    → Provider
    → Option ParamError
    → Providers
    → ManagerError F ⊎ Providers
unfolding after_hooks cluster_config_changed run_hooks apply_provider_update store_update
update_checked now hooks name p existing (some e) rows = inl (bad_param e)
update_checked now hooks name p existing none rows =
    after_hooks
      (if cluster_config_changed existing p
        then run_hooks hooks existing (apply_provider_update existing p)
        else none)
      (store_update now name p rows)

unfoldable pub update_existing :
    {F : Type 0}
    → ℕ
    → List (Hook F)
    → String
    → ProviderParam
    → Option Provider
    → Providers
    → ManagerError F ⊎ Providers
unfolding update_checked clear_mirror validate_provider_protocol_paths
update_existing now hooks name p none rows = inl record_not_exist
update_existing now hooks name p (some existing) rows =
    update_checked now hooks name (clear_mirror existing p) existing
      (validate_provider_protocol_paths (or_keep p.protocol_paths existing.protocol_paths)
        (items p.model_protocols))
      rows

unfoldable pub update_accepted :
    {F : Type 0}
    → ℕ
    → List (Hook F)
    → String
    → ParamError ⊎ ProviderParam
    → Providers
    → ManagerError F ⊎ Providers
unfolding update_existing fetch_provider
update_accepted now hooks name (inl e) rows = inl (bad_param e)
update_accepted now hooks name (inr p) rows =
    update_existing now hooks name p (fetch_provider name rows) rows

-- `UpdateProvider`. With no hook the change of the cluster's configuration is not asked for,
-- which is no difference: no hook refuses.
unfoldable pub update_provider :
    {F : Type 0}
    → ℕ
    → (String → Bool)
    → List (Hook F)
    → String
    → ProviderParam
    → Providers
    → ManagerError F ⊎ Providers
unfolding update_accepted validate_provider_param
update_provider now known_zone hooks name p rows =
    update_accepted now hooks name (validate_provider_param known_zone (some p)) rows

-- `UpdateAction`: the name of the request is that of the path.
unfoldable pub update_action :
    {F : Type 0}
    → ℕ
    → (String → Bool)
    → List (Hook F)
    → String
    → ProviderParam
    → Providers
    → ManagerError F ⊎ Providers
unfolding update_provider
update_action now known_zone hooks name p rows =
    update_provider now known_zone hooks name (record p { name = some name }) rows

-- The request that `UpdatePricingTiers` gives to the storage. A slice that is read is not nil.
unfoldable pub tiers_update : Provider → PricingTiersParam → ProviderParam
tiers_update existing p = record {
  name = some existing.name;
  description = some existing.description;
  model_endpoint = existing.model_endpoint;
  models = none;
  keys = some existing.keys;
  instance_pool = some existing.instance_pool;
  instance_source = none;
  k8s_pool_name = none;
  k8s_instance_pool = none;
  model_protocols = some existing.model_protocols;
  protocol_paths = some existing.protocol_paths;
  time_zone = some p.time_zone;
  tiers = p.tiers;
}

unfoldable pub tiers_accepted :
    {F : Type 0}
    → ℕ
    → Option ParamError
    → String
    → PricingTiersParam
    → Option Provider
    → Providers
    → ManagerError F ⊎ Providers
unfolding tiers_update store_update
tiers_accepted now (some e) name p found rows = inl (bad_param e)
tiers_accepted now none name p none rows = inl record_not_exist
tiers_accepted now none name p (some existing) rows =
    inr (store_update now name (tiers_update existing p) rows)

unfoldable pub update_pricing_tiers :
    {F : Type 0}
    → ℕ
    → (String → Bool)
    → String
    → PricingTiersParam
    → Providers
    → ManagerError F ⊎ Providers
unfolding tiers_accepted validate_pricing_tiers_param fetch_provider
update_pricing_tiers now known_zone name p rows =
    tiers_accepted now (validate_pricing_tiers_param known_zone (some p)) name p
      (fetch_provider name rows) rows

-- A reference check is given the name.
unfoldable pub run_checkers : {F : Type 0} → List (String → Option F) → String → Option F
run_checkers [] name = none
run_checkers (checker ∷ checkers) name = first_error (checker name) (run_checkers checkers name)

unfoldable pub delete_found :
    {F : Type 0} → Option F → String → Option Provider → Providers → ManagerError F ⊎ Providers
unfolding store_delete
delete_found refusal name none rows = inl record_not_exist
delete_found (some e) name (some existing) rows = inl (refused e)
delete_found none name (some existing) rows = inr (store_delete name rows)

unfoldable pub delete_provider :
    {F : Type 0} → List (String → Option F) → String → Providers → ManagerError F ⊎ Providers
unfolding delete_found run_checkers fetch_provider
delete_provider checkers name rows =
    delete_found (run_checkers checkers name) name (fetch_provider name rows) rows
