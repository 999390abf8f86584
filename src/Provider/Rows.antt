-- ===== src/Provider/Rows.antt =====
-- The rows of the providers (storage/rdb/provider/provider.go), the defaults of a request
-- (model/iprovider/provider.go, FillDefaults) and the refresh of the mirrors of a K8s pool
-- (model/ik8s_pool/k8s_pool.go, syncProviderMirrors). The keys are encrypted at rest and decrypted
-- when read: a row is what is read.
use ai_gateway_api.Prelude.{
  ℕ, String, Bool, false, ◌&&◌, Option, none, some, List, [], ◌∷◌, map, ◌==◌, if◌then◌else◌,
}
use ai_gateway_api.Provider.Types.{
  ProviderInstance, Provider, ProviderParam, items, instance_source_instance_pool,
  instance_source_k8s_pool,
}
use ai_gateway_api.Provider.Param.{or_default, endpoint_defaults}

abbrev pub Providers : Type 0
Providers = List Provider

abbrev pub or_keep {ℓ} : {A : Type ℓ} → Option A → A → A
or_keep none old = old
or_keep (some new) old = new

abbrev pub or_keep_option {ℓ} : {A : Type ℓ} → Option A → Option A → Option A
or_keep_option none old = old
or_keep_option (some new) old = some new

-- `fromDAO`: an empty column of the pool's name is nil.
unfoldable pub read_pool_name : Option String → Option String
read_pool_name none = none
read_pool_name (some name) = if name == "" then none else some name

unfoldable pub fill_defaults : ProviderParam → ProviderParam
unfolding endpoint_defaults
fill_defaults p = record p {
  instance_source = some (or_keep p.instance_source instance_source_instance_pool);
  model_endpoint = elim p.model_endpoint [
    | none ↦ some (record { schema = "https"; uri = "/v1/models" })
    | some e ↦ some (endpoint_defaults e)
  ];
  models = some (items p.models);
  keys = some (items p.keys);
  time_zone = some (or_keep p.time_zone "Asia/Shanghai");
}

-- The row that `CreateProvider` of the storage inserts at a time, as it is read.
unfoldable pub new_row : ℕ → ℕ → ProviderParam → Provider
unfolding read_pool_name
new_row now id p = record {
  id = id;
  name = or_keep p.name "";
  description = or_keep p.description "";
  model_endpoint = p.model_endpoint;
  models = items p.models;
  keys = items p.keys;
  instance_pool = items p.instance_pool;
  instance_source =
      or_default instance_source_instance_pool
        (or_keep p.instance_source instance_source_instance_pool);
  k8s_pool_name = read_pool_name p.k8s_pool_name;
  k8s_instance_pool = items p.k8s_instance_pool;
  model_protocols = items p.model_protocols;
  protocol_paths = items p.protocol_paths;
  time_zone = or_default "Asia/Shanghai" (or_keep p.time_zone "Asia/Shanghai");
  tiers = items p.tiers;
  create_time = now;
  update_time = now;
}

-- The row after `UpdateProvider` of the storage, as it is read: a nil field keeps its column, and
-- the time of the update is always written.
unfoldable pub patch_row : ℕ → ProviderParam → Provider → Provider
unfolding read_pool_name
patch_row now p row = record {
  id = row.id;
  name = or_keep p.name row.name;
  description = or_keep p.description row.description;
  model_endpoint = or_keep_option p.model_endpoint row.model_endpoint;
  models = or_keep p.models row.models;
  keys = or_keep p.keys row.keys;
  instance_pool = or_keep p.instance_pool row.instance_pool;
  instance_source =
      or_default instance_source_instance_pool (or_keep p.instance_source row.instance_source);
  k8s_pool_name = read_pool_name (or_keep_option p.k8s_pool_name row.k8s_pool_name);
  k8s_instance_pool = or_keep p.k8s_instance_pool row.k8s_instance_pool;
  model_protocols = or_keep p.model_protocols row.model_protocols;
  protocol_paths = or_keep p.protocol_paths row.protocol_paths;
  time_zone = or_default "Asia/Shanghai" (or_keep p.time_zone row.time_zone);
  tiers = or_keep p.tiers row.tiers;
  create_time = row.create_time;
  update_time = now;
}

unfoldable pub fetch_provider : String → Providers → Option Provider
fetch_provider name [] = none
fetch_provider name (p ∷ ps) = if p.name == name then some p else fetch_provider name ps

unfoldable pub store_update : ℕ → String → ProviderParam → Providers → Providers
unfolding patch_row
store_update now name param = map (λ row. if row.name == name then patch_row now param row else row)

unfoldable pub store_delete : String → Providers → Providers
store_delete name [] = []
store_delete name (p ∷ ps) =
    let rest = store_delete name ps in if p.name == name then rest else p ∷ rest

unfoldable pub mirrors_pool : String → Provider → Bool
mirrors_pool pool p =
    p.instance_source == instance_source_k8s_pool
    && elim p.k8s_pool_name [ none ↦ false | some name ↦ name == pool ]

-- The rows after `syncProviderMirrors`: the providers of the pool get its instances.
unfoldable pub sync_provider_mirrors : ℕ → String → List ProviderInstance → Providers → Providers
unfolding mirrors_pool
sync_provider_mirrors now pool instances = map (λ row.
    if mirrors_pool pool row
    then record row { k8s_instance_pool = instances; update_time = now }
    else row)
