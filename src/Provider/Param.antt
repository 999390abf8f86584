-- ===== src/Provider/Param.antt =====
-- The validation of a request to create or update a provider (model/iprovider/provider.go,
-- ValidateProviderParam and what it calls).
use Prim.Native.String
use ai_gateway_api.Prelude.{
  ℕ, suc, String, ◌⊎◌, inl, inr, Bool, true, false, not, ◌&&◌, ◌||◌, Option, none, some, List, [],
  ◌∷◌, ◌==◌, nat_eq, ltb, elem, length, if◌then◌else◌, Int64, lt_int64, format_int, trim_space,
  utf8, first_error,
}
use ai_gateway_api.Provider.Tiers.{TierError, validate_pricing_tiers, is_empty}
use ai_gateway_api.Provider.Types.{
  ProviderEndpoint, ProviderKey, ProviderInstance, Paths, ProviderParam, PricingTiersParam, items,
  instance_source_instance_pool, instance_source_k8s_pool,
}
use ai_gateway_api.Provider.Text.{
  TextError, provider_name, k8s_pool_name, validate_provider_description,
  validate_upstream_base_path, validate_time_zone,
}
pub mod Accepted

pub data ParamError : Type 0 where
  provider_required : ParamError
  name_required : ParamError
  bad_name : TextError → ParamError
  bad_description : TextError → ParamError
  k8s_instance_pool_read_only : ParamError
  k8s_pool_name_required : ParamError
  invalid_instance_source : String → ParamError
  bad_k8s_pool_name : TextError → ParamError
  instance_pool_required : ParamError
  instance_addr_required : ℕ → ParamError
  instance_port : ℕ → ParamError
  instance_weight : ℕ → ParamError
  duplicate_instance : String → ParamError
  no_positive_weight : ParamError
  model_protocols_required : ParamError
  empty_protocol : ℕ → ParamError
  invalid_protocol : ℕ → String → ParamError
  duplicate_protocol : String → ParamError
  unsupported_path_protocol : String → ParamError
  undeclared_path_protocol : String → ParamError
  bad_base_path : String → TextError → ParamError
  endpoint_schema : ParamError
  endpoint_uri : ParamError
  models_required : ParamError
  empty_model : ℕ → ParamError
  duplicate_model : String → ParamError
  key_name_required : ℕ → ParamError
  key_name_length : ℕ → ParamError
  duplicate_key : String → ParamError
  key_required : ℕ → ParamError
  key_length : ℕ → ParamError
  bad_time_zone : TextError → ParamError
  bad_tiers : TierError → ParamError

abbrev pub wrap {ℓ κ} : {E : Type ℓ} {F : Type κ} → (E → F) → Option E → Option F
wrap f none = none
wrap f (some e) = some (f e)

-- A check of a field that the request may leave out.
abbrev pub given {ℓ κ} : {A : Type ℓ} {E : Type κ} → (A → Option E) → Option A → Option E
given check none = none
given check (some a) = check a

unfoldable pub check_name : Option String → Option ParamError
unfolding provider_name
check_name none = some name_required
check_name (some name) =
    if name == "" then some name_required else wrap bad_name (provider_name name)

unfoldable pub instance_key : ProviderInstance → String
unfolding format_int
instance_key i = String.◌++◌ i.addr (String.◌++◌ "|" (format_int i.port))

-- The loop over the instances from index `i` on.
unfoldable pub validate_instances :
    ℕ → List String → Bool → List ProviderInstance → Option ParamError
unfolding instance_key trim_space
validate_instances i seen positive [] = if positive then none else some no_positive_weight
validate_instances i seen positive (x ∷ xs) =
    let rest =
      validate_instances (suc i) (instance_key x ∷ seen) (positive || lt_int64 0 x.weight) xs in
    if trim_space x.addr == ""
    then some (instance_addr_required i)
    else if not (lt_int64 0 x.port) || lt_int64 65535 x.port
    then some (instance_port i)
    else if lt_int64 x.weight 0 || lt_int64 100 x.weight
    then some (instance_weight i)
    else if elem (instance_key x) seen
    then some (duplicate_instance (instance_key x))
    else rest

unfoldable pub validate_provider_instance_pool : List ProviderInstance → Option ParamError
unfolding validate_instances
validate_provider_instance_pool instances =
    if is_empty instances
    then some instance_pool_required
    else validate_instances 0 [] false instances

unfoldable pub k8s_name_given : Option String → Option ParamError
k8s_name_given none = some k8s_pool_name_required
k8s_name_given (some name) = if name == "" then some k8s_pool_name_required else none

unfoldable pub source_of : Option String → String
source_of none = instance_source_instance_pool
source_of (some source) = source

unfoldable pub validate_source : String → ProviderParam → Option ParamError
unfolding validate_provider_instance_pool k8s_name_given
validate_source source p =
    if source == instance_source_instance_pool
    then validate_provider_instance_pool (items p.instance_pool)
    else if source == instance_source_k8s_pool
    then k8s_name_given p.k8s_pool_name
    else some (invalid_instance_source source)

unfoldable pub validate_provider_instance_source : ProviderParam → Option ParamError
unfolding validate_source source_of k8s_pool_name
validate_provider_instance_source p =
    first_error (given (λ mirror. some k8s_instance_pool_read_only) p.k8s_instance_pool) (
      first_error (validate_source (source_of p.instance_source) p)
        (given (λ name. wrap bad_k8s_pool_name (k8s_pool_name name)) p.k8s_pool_name))

abbrev pub valid_model_protocols : List String
valid_model_protocols = "openai" ∷ "anthropic" ∷ "gemini" ∷ []

unfoldable pub validate_protocols : ℕ → List String → List String → Option ParamError
validate_protocols i seen [] = none
validate_protocols i seen (p ∷ ps) =
    let rest = validate_protocols (suc i) (p ∷ seen) ps in
    if p == ""
    then some (empty_protocol i)
    else if not (elem p valid_model_protocols)
    then some (invalid_protocol i p)
    else if elem p seen
    then some (duplicate_protocol p)
    else rest

unfoldable pub check_protocols : List String → Option ParamError
unfolding validate_protocols
check_protocols protocols =
    if is_empty protocols then some model_protocols_required else validate_protocols 0 [] protocols

-- A map is read in some order, here that of the list; the order decides which error is found first.
unfoldable pub validate_provider_protocol_paths : Paths → List String → Option ParamError
unfolding validate_upstream_base_path
validate_provider_protocol_paths [] protocols = none
validate_provider_protocol_paths ((proto, base) ∷ paths) protocols =
    let rest = validate_provider_protocol_paths paths protocols in
    if not (proto == "openai") && not (proto == "anthropic")
    then some (unsupported_path_protocol proto)
    else if not (elem proto protocols)
    then some (undeclared_path_protocol proto)
    else first_error (wrap (bad_base_path proto) (validate_upstream_base_path base)) rest

abbrev pub or_default : String → String → String
or_default default s = if s == "" then default else s

-- The defaults that both the validation and FillDefaults write into the endpoint.
unfoldable pub endpoint_defaults : ProviderEndpoint → ProviderEndpoint
endpoint_defaults e = record {
  schema = or_default "https" e.schema;
  uri = or_default "/v1/models" e.uri;
}

unfoldable pub starts_with_slash : List ℕ → Bool
starts_with_slash [] = false
starts_with_slash (c ∷ cs) = nat_eq c b'/'

unfoldable pub check_endpoint : ProviderEndpoint → Option ParamError
unfolding endpoint_defaults starts_with_slash
check_endpoint e =
    if not ((endpoint_defaults e).schema == "http") && not ((endpoint_defaults e).schema == "https")
    then some endpoint_schema
    else if starts_with_slash (utf8 (endpoint_defaults e).uri)
    then none
    else some endpoint_uri

unfoldable pub validate_models : ℕ → List String → List String → Option ParamError
unfolding trim_space
validate_models i seen [] = none
validate_models i seen (m ∷ ms) =
    let rest = validate_models (suc i) (m ∷ seen) ms in
    if trim_space m == ""
    then some (empty_model i)
    else if elem m seen
    then some (duplicate_model m)
    else rest

unfoldable pub check_models : List String → Option ParamError
unfolding validate_models
check_models models = if is_empty models then some models_required else validate_models 0 [] models

unfoldable pub validate_keys : ℕ → List String → List ProviderKey → Option ParamError
unfolding trim_space
validate_keys i seen [] = none
validate_keys i seen (k ∷ ks) =
    let rest = validate_keys (suc i) (k.name ∷ seen) ks in
    if trim_space k.name == ""
    then some (key_name_required i)
    else if ltb (length (utf8 k.name)) 1 || ltb 128 (length (utf8 k.name))
    then some (key_name_length i)
    else if elem k.name seen
    then some (duplicate_key k.name)
    else if trim_space k.key == ""
    then some (key_required i)
    else if ltb 512 (length (utf8 k.key))
    then some (key_length i)
    else rest

-- The checks, in the order of the code.
unfoldable pub param_error : (String → Bool) → ProviderParam → Option ParamError
unfolding check_name validate_provider_description validate_provider_instance_source check_protocols
    validate_provider_protocol_paths check_endpoint check_models validate_keys validate_time_zone
    validate_pricing_tiers
param_error known_zone p = first_error (check_name p.name) (
    first_error (given (λ s. wrap bad_description (validate_provider_description s)) p.description)
      (first_error (validate_provider_instance_source p) (
        first_error (check_protocols (items p.model_protocols)) (
          first_error
            (validate_provider_protocol_paths (items p.protocol_paths) (items p.model_protocols))
            (first_error (given check_endpoint p.model_endpoint) (
              first_error (given check_models p.models) (
                first_error (validate_keys 0 [] (items p.keys)) (
                  first_error
                    (given (λ tz. wrap bad_time_zone (validate_time_zone known_zone tz))
                      p.time_zone)
                    (wrap bad_tiers (validate_pricing_tiers (items p.tiers)))))))))))

unfoldable pub with_endpoint : ProviderParam → ProviderParam
unfolding endpoint_defaults
with_endpoint p = record p {
  model_endpoint = elim p.model_endpoint [ none ↦ none | some e ↦ some (endpoint_defaults e) ];
}

unfoldable pub verdict : Option ParamError → ProviderParam → ParamError ⊎ ProviderParam
verdict none p = inr p
verdict (some e) p = inl e

-- The request that is accepted comes back with its endpoint filled in, as the code writes the
-- defaults through the pointer.
unfoldable pub validate_provider_param :
    (String → Bool) → Option ProviderParam → ParamError ⊎ ProviderParam
unfolding param_error with_endpoint verdict
validate_provider_param known_zone none = inl provider_required
validate_provider_param known_zone (some p) = verdict (param_error known_zone p) (with_endpoint p)

unfoldable pub validate_pricing_tiers_param :
    (String → Bool) → Option PricingTiersParam → Option ParamError
unfolding validate_time_zone validate_pricing_tiers
validate_pricing_tiers_param known_zone none = some provider_required
validate_pricing_tiers_param known_zone (some p) =
    first_error (wrap bad_time_zone (validate_time_zone known_zone p.time_zone))
      (wrap bad_tiers (validate_pricing_tiers (items p.tiers)))
