-- ===== src/Batch/Provider.antt =====
-- How the manager reaches a provider (`resolveProviderAccess` and its helpers in
-- model/ibatch/cancel.go, `EffectiveInstancePool` and `BuildAuthHeader` in
-- model/iprovider/provider.go).
use Prim.Native.String
use text.Mathlib.Text.{starts_with}
use ai_gateway_api.Prelude.{
  String, Bool, not, ◌&&◌, ◌||◌, List, [], ◌∷◌, Option, none, some, ◌==◌, nat_eq, lookup,
  if◌then◌else◌, trim_space, trim_right_slash, join_host_port, format_int,
}
use ai_gateway_api.Batch.World.{
  provider_unavailable, Result, ok, err, ProviderInstance, ProviderKey, Provider, ProviderAccess,
  Manager,
}

effective_instance_pool : Provider → List ProviderInstance
effective_instance_pool p =
    if p.instance_source == "k8s_pool" then p.k8s_instance_pool else p.instance_pool

is_usable : ProviderInstance → Bool
is_usable inst = not inst.disable && not (inst.addr == "" || nat_eq inst.port 0)

first_usable : List ProviderInstance → Option ProviderInstance
unfolding is_usable
first_usable [] = none
first_usable (inst ∷ rest) = if is_usable inst then some inst else first_usable rest

-- `pickProviderInstance`.
unfoldable pub pick_provider_instance : Provider → Option ProviderInstance
unfolding effective_instance_pool first_usable
pick_provider_instance p = first_usable (effective_instance_pool p)

named_key : String → List ProviderKey → Option ProviderKey
named_key name [] = none
named_key name (k ∷ ks) = if not (name == "") && k.name == name then some k else named_key name ks

first_key : List ProviderKey → Option ProviderKey
first_key [] = none
first_key (k ∷ ks) = if not (k.key == "") then some k else first_key ks

-- `pickProviderKey`: the key of the name, else the first that is not empty.
unfoldable pub pick_provider_key : List ProviderKey → String → Option ProviderKey
unfolding named_key first_key
pick_provider_key keys name = elim (named_key name keys) [ none ↦ first_key keys | some k ↦ some k ]

-- `buildInstanceBaseURL`.
unfoldable pub build_instance_base_url : ProviderInstance → String
unfolding trim_right_slash join_host_port format_int
build_instance_base_url inst =
    if starts_with inst.addr "http://" || starts_with inst.addr "https://"
    then trim_right_slash inst.addr
    else String.◌++◌ "http://" (join_host_port inst.addr (format_int inst.port))

with_slash : String → String
with_slash p = if starts_with p "/" then p else String.◌++◌ "/" p

-- `normalizeProviderPath`.
unfoldable pub normalize_provider_path : String → String
unfolding with_slash trim_right_slash trim_space
normalize_provider_path p = trim_right_slash (with_slash (trim_space p))

openai_path : Option String → String
unfolding normalize_provider_path trim_space
openai_path none = "/v1"
openai_path (some p) = if trim_space p == "" then "/v1" else normalize_provider_path p

with_key : Provider → String → ProviderAccess → Option ProviderKey → Result ProviderAccess
with_key p name access none = err (provider_unavailable name)
with_key p name access (some k) =
    ok (record access { auth_header = "Authorization"; auth_value = String.◌++◌ "Bearer " k.key })

access_keys : Provider → String → String → ProviderAccess → List ProviderKey → Result ProviderAccess
unfolding with_key pick_provider_key
access_keys p name key_name access [] = ok access
access_keys p name key_name access (k ∷ ks) =
    with_key p name access (pick_provider_key (k ∷ ks) key_name)

access_instance : Provider → String → String → Option ProviderInstance → Result ProviderAccess
unfolding access_keys build_instance_base_url openai_path lookup
access_instance p name key_name none = err (provider_unavailable name)
access_instance p name key_name (some inst) =
    access_keys p name key_name
      (record {
        base_url = build_instance_base_url inst;
        path = openai_path (lookup "openai" p.protocol_paths);
        auth_header = "";
        auth_value = "";
      })
      p.keys

access_provider : String → String → Result (Option Provider) → Result ProviderAccess
unfolding access_instance pick_provider_instance
access_provider name key_name (err e) = err e
access_provider name key_name (ok none) = err (provider_unavailable name)
access_provider name key_name (ok (some p)) =
    access_instance p name key_name (pick_provider_instance p)

-- `resolveProviderAccess`.
unfoldable pub resolve_provider_access : Manager → String → String → Result ProviderAccess
unfolding access_provider
resolve_provider_access m name key_name = elim m.provider_querier [
  | none ↦ err (provider_unavailable name)
  | some fetch ↦ access_provider name key_name (fetch name)
]
