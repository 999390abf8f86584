-- ===== src/Provider/Snapshot.antt =====
-- Providers compared and merged with a request (model/iprovider/provider.go,
-- providerInstancePoolEqual and the functions beside it).
use ai_gateway_api.Prelude.{
  String, Bool, true, false, not, ◌&&◌, List, [], ◌∷◌, ◌==◌, nat_eq, if◌then◌else◌,
}
use ai_gateway_api.Provider.Types.{
  ProviderKey, ProviderInstance, Provider, ProviderParam, instance_source_k8s_pool,
}
use ai_gateway_api.Provider.Rows.{or_keep, or_keep_option}

unfoldable pub instance_eq : ProviderInstance → ProviderInstance → Bool
instance_eq a b =
    a.addr == b.addr
    && nat_eq a.port b.port
    && nat_eq a.weight b.weight
    && (if a.disable then b.disable else not b.disable)

unfoldable pub list_eq : {A : Type 0} → (A → A → Bool) → List A → List A → Bool
list_eq eq [] [] = true
list_eq eq [] (y ∷ ys) = false
list_eq eq (x ∷ xs) [] = false
list_eq eq (x ∷ xs) (y ∷ ys) = eq x y && list_eq eq xs ys

unfoldable pub provider_instance_pool_equal : List ProviderInstance → List ProviderInstance → Bool
unfolding instance_eq list_eq
provider_instance_pool_equal = list_eq instance_eq

unfoldable pub provider_keys_equal : List ProviderKey → List ProviderKey → Bool
unfolding list_eq
provider_keys_equal = list_eq (λ a b. a.name == b.name && a.key == b.key)

unfoldable pub provider_models_equal : List String → List String → Bool
unfolding list_eq
provider_models_equal = list_eq (λ a b. a == b)

unfoldable pub effective_instance_pool : Provider → List ProviderInstance
effective_instance_pool p =
    if p.instance_source == instance_source_k8s_pool then p.k8s_instance_pool else p.instance_pool

unfoldable pub apply_provider_update : Provider → ProviderParam → Provider
apply_provider_update existing p = record existing {
  name = or_keep p.name existing.name;
  description = or_keep p.description existing.description;
  model_endpoint = or_keep_option p.model_endpoint existing.model_endpoint;
  models = or_keep p.models existing.models;
  keys = or_keep p.keys existing.keys;
  instance_pool = or_keep p.instance_pool existing.instance_pool;
  instance_source = or_keep p.instance_source existing.instance_source;
  k8s_pool_name = or_keep_option p.k8s_pool_name existing.k8s_pool_name;
  k8s_instance_pool = or_keep p.k8s_instance_pool existing.k8s_instance_pool;
  model_protocols = or_keep p.model_protocols existing.model_protocols;
  protocol_paths = or_keep p.protocol_paths existing.protocol_paths;
  time_zone = or_keep p.time_zone existing.time_zone;
  tiers = or_keep p.tiers existing.tiers;
}
