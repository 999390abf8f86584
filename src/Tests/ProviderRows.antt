-- ===== src/Tests/ProviderRows.antt =====
-- Examples of stored providers: a creation and an update, and the pages of the list.
use ai_gateway_api.Prelude.{
  ◌≡◌, ◌*◌, refl, inr, String, false, List, [], ◌∷◌, none, some, arith, take,
}
use ai_gateway_api.Provider.Types.{Provider, ProviderParam, ProviderInstance}
use ai_gateway_api.Provider.Param.{validate_provider_param}
use ai_gateway_api.Provider.Rows.{Providers, patch_row}
use ai_gateway_api.Provider.Snapshot.{apply_provider_update}
use ai_gateway_api.Provider.Manager.{Hook, create_provider, update_action, clear_mirror}
use ai_gateway_api.Provider.Manager.Reach.{
  Reach, initial, after, created, updated, mirrored, IsStore, Reach-IsStore,
}
use ai_gateway_api.Provider.Manager.Merged.{apply_provider_update-patch_row}
use ai_gateway_api.Provider.Rows.{sync_provider_mirrors}
use ai_gateway_api.Provider.Listing.{matched_providers}
use ai_gateway_api.Provider.Listing.Pages.{pages, pages-take}
use ai_gateway_api.Tests.Providers.{tiers, request, known_zone}

abbrev acme : Provider
acme = record {
  id = 1;
  name = "acme";
  description = "";
  model_endpoint = some (record { schema = "https"; uri = "/v1/models" });
  models = "m1" ∷ [];
  keys = [];
  instance_pool = (record { addr = "10.0.0.1"; port = 8000; weight = 100; disable = false }) ∷ [];
  instance_source = "instance_pool";
  k8s_pool_name = none;
  k8s_instance_pool = [];
  model_protocols = "openai" ∷ [];
  protocol_paths = ("openai", "/v1") ∷ [];
  time_zone = "Asia/Shanghai";
  tiers = tiers;
  create_time = 100;
  update_time = 100;
}

abbrev to_k8s : ProviderParam
to_k8s = record request { instance_source = some "k8s_pool"; k8s_pool_name = some "pool-a" }

abbrev acme_k8s : Provider
acme_k8s = record acme {
  instance_source = "k8s_pool";
  k8s_pool_name = some "pool-a";
  update_time = 200;
}

-- A hook that refuses a provider without models.
abbrev needs_models : Hook String
needs_models old new = elim new.models [ [] ↦ some "models" | _ ↦ none ]

create_acme : create_provider {F = String} 100 known_zone 1 request [] ≡ inr (acme ∷ [])
unfolding create_provider
create_acme = refl

update_acme :
    update_action 200 known_zone (needs_models ∷ []) "acme" to_k8s (acme ∷ []) ≡ inr (acme_k8s ∷ [])
unfolding update_action
update_acme = refl

abbrev pool_a : List ProviderInstance
pool_a = (record { addr = "10.1.0.1"; port = 80; weight = 1; disable = false }) ∷ []

abbrev store : Providers
store = sync_provider_mirrors 300 "pool-a" pool_a (acme_k8s ∷ [])

reached_acme : Reach String known_zone (acme ∷ [])
reached_acme = after initial (created 100 1 request [] (acme ∷ []) create_acme)

reached_store : Reach String known_zone store
reached_store =
    after
      (after reached_acme
        (updated 200 (needs_models ∷ []) "acme" to_k8s (acme ∷ []) (acme_k8s ∷ []) update_acme))
      (mirrored 300 "pool-a" pool_a (acme_k8s ∷ []))

Reach-IsStore_example : IsStore store
Reach-IsStore_example = Reach-IsStore known_zone reached_store

to_k8s_valid : validate_provider_param known_zone (some to_k8s) ≡ inr to_k8s
unfolding validate_provider_param
to_k8s_valid = refl

apply_provider_update-patch_row_example :
    apply_provider_update acme (clear_mirror acme to_k8s)
    ≡ record (patch_row 200 (clear_mirror acme to_k8s) acme) { update_time = 100 }
apply_provider_update-patch_row_example =
    apply_provider_update-patch_row 200 known_zone acme to_k8s to_k8s
      (Reach-IsStore known_zone reached_acme).0.0 to_k8s_valid refl

abbrev three : Providers
three = acme ∷ (record acme { name = "b" }) ∷ (record acme { name = "c" }) ∷ []

pages-take_example :
    pages "openai" 2 0 2 three ≡ some (take (2 * 2) (matched_providers "openai" three))
pages-take_example =
    pages-take "openai" 2 2 three (omega arith) (omega arith) (omega arith)
      (unfold matched_providers in omega arith)
