-- ===== src/Provider/Manager/Reach.antt =====
-- The stores of providers that the operations reach (model/iprovider/provider.go).
use ai_gateway_api.Prelude.{
  ℕ, ◌≡◌, refl, ap, subst, ◌∙◌, ◌⊎◌, inl, inr, String, Bool, true, false, Option, none, some, List,
  [], ◌++◌, ◌∷◌, first_error-none, Bool-cases, if◌then◌else◌, ◌==◌,
}
use ai_gateway_api.Provider.Types.{
  Provider, ProviderParam, ProviderInstance, PricingTiersParam, items, instance_source_k8s_pool,
}
use ai_gateway_api.Provider.Param.{
  ParamError, bad_tiers, validate_provider_param, validate_pricing_tiers_param,
}
use ai_gateway_api.Provider.Param.Accepted.{
  wrap-none, validate_provider_param-IsAccepted, validate_provider_param-name,
  validate_provider_protocol_paths-IsPath,
}
use ai_gateway_api.Provider.Rows.{
  Providers, or_keep, fill_defaults, new_row, fetch_provider, store_update, sync_provider_mirrors,
  mirrors_pool,
}
use ai_gateway_api.Provider.Manager.{
  ManagerError, Hook, create_provider, create_accepted, insert_new, update_action, update_provider,
  update_accepted, update_existing, update_checked, after_hooks, clear_mirror, update_pricing_tiers,
  tiers_accepted, tiers_update, delete_provider, delete_found,
}
use ai_gateway_api.Provider.Manager.Rules.{
  IsConsistent, new_row-IsConsistent, patch_row-IsConsistent, tiers_update-IsConsistent,
  mirrored-IsConsistent,
}
use ai_gateway_api.Provider.Manager.Stored.{
  IsStored, fetch_provider-holds, fetch_provider-absent, store_update-IsStored,
  store_delete-IsStored, append_new-IsStored, sync_provider_mirrors-IsStored,
}

-- One operation that succeeds.
pub data Step (F : Type 0) (known_zone : String → Bool) : Providers → Providers → Type 0 where
  created :
      (now : ℕ) (id : ℕ) (p : ProviderParam) (rows rows' : Providers)
      → create_provider {F = F} now known_zone id p rows ≡ inr rows'
      → Step F known_zone rows rows'
  updated :
      (now : ℕ) (hooks : List (Hook F)) (name : String) (p : ProviderParam) (rows rows' : Providers)
      → update_action now known_zone hooks name p rows ≡ inr rows'
      → Step F known_zone rows rows'
  repriced :
      (now : ℕ) (name : String) (p : PricingTiersParam) (rows rows' : Providers)
      → update_pricing_tiers {F = F} now known_zone name p rows ≡ inr rows'
      → Step F known_zone rows rows'
  deleted :
      (checkers : List (String → Option F)) (name : String) (rows rows' : Providers)
      → delete_provider checkers name rows ≡ inr rows'
      → Step F known_zone rows rows'
  mirrored :
      (now : ℕ) (pool : String) (instances : List ProviderInstance) (rows : Providers)
      → Step F known_zone rows (sync_provider_mirrors now pool instances rows)

pub data Reach (F : Type 0) (known_zone : String → Bool) : Providers → Type 0 where
  initial : Reach F known_zone []
  after :
      {rows rows' : Providers}
      → Reach F known_zone rows
      → Step F known_zone rows rows'
      → Reach F known_zone rows'

abbrev pub IsStore : Providers → Type 0
IsStore = IsStored IsConsistent

module _ {F : Type 0} where
  insert_new-inr :
      (now : ℕ) (id : ℕ) (q : ProviderParam) (found : Option Provider) (rows rows' : Providers)
      → insert_new {F = F} now id q found rows ≡ inr rows'
      → (found ≡ none) × (rows ++ new_row now id (fill_defaults q) ∷ [] ≡ rows')
  unfolding insert_new
  insert_new-inr now id q none rows rows' h = (refl, cc h)
  insert_new-inr now id q (some e) rows rows' h = cc h

  if-inr :
      {A : Type 0} (c : Bool) (e : ManagerError F) (rest : ManagerError F ⊎ A) (a : A)
      → (if c then inl e else rest) ≡ inr a
      → (c ≡ false) × (rest ≡ inr a)
  if-inr true e rest a h = cc h
  if-inr false e rest a h = (refl, h)

  after_hooks-inr :
      (o : Option F) (rows rows' : Providers) → after_hooks o rows ≡ inr rows' → rows ≡ rows'
  unfolding after_hooks
  after_hooks-inr none rows rows' h = cc h
  after_hooks-inr (some e) rows rows' h = cc h

  update_checked-inr :
      (now : ℕ) (hooks : List (Hook F)) (name : String) (q : ProviderParam) (e : Provider)
      (o : Option ParamError) (rows rows' : Providers)
      → update_checked now hooks name q e o rows ≡ inr rows'
      → (o ≡ none) × (store_update now name q rows ≡ rows')
  unfolding update_checked
  update_checked-inr now hooks name q e (some _) rows rows' h = cc h
  update_checked-inr now hooks name q e none rows rows' h = (refl, after_hooks-inr _ _ rows' h)

mirrors_pool-source :
    (pool : String) (row : Provider)
    → mirrors_pool pool row ≡ true
    → row.instance_source == instance_source_k8s_pool ≡ true
unfolding mirrors_pool
mirrors_pool-source pool row h =
    elim (Bool-cases (row.instance_source == instance_source_k8s_pool)) [
      | inl k8s ↦ k8s
      | inr other ↦ cc (rw other at h)
    ]

mirrored-IsStore :
    (now : ℕ) (pool : String) (instances : List ProviderInstance) (rows : Providers)
    → IsStore rows
    → IsStore (sync_provider_mirrors now pool instances rows)
mirrored-IsStore now pool instances rows =
    sync_provider_mirrors-IsStored IsConsistent now pool instances rows (λ row mirrors.
      mirrored-IsConsistent now row instances (mirrors_pool-source pool row mirrors))

module _ {F : Type 0} (known_zone : String → Bool) where
  created-IsStore :
      (now : ℕ) (id : ℕ) (p : ProviderParam) (v : ParamError ⊎ ProviderParam)
      (rows rows' : Providers)
      → validate_provider_param known_zone (some p) ≡ v
      → create_accepted {F = F} now id v rows ≡ inr rows'
      → IsStore rows
      → IsStore rows'
  unfolding create_accepted new_row fill_defaults
  created-IsStore now id p (inl e) rows rows' valid h stored = cc h
  created-IsStore now id p (inr q) rows rows' valid h stored =
      let (full, inserted) = if-inr _ _ _ _ h in
      let (free, result) = insert_new-inr now id q _ rows rows' inserted in
      subst IsStore result (
        append_new-IsStored IsConsistent rows (new_row now id (fill_defaults q))
          (fetch_provider-absent IsConsistent (or_keep q.name "") rows free)
          (new_row-IsConsistent now id q (validate_provider_param-IsAccepted known_zone p q valid)
            full)
          stored)

  updated_row-IsStore :
      (now : ℕ) (hooks : List (Hook F)) (name : String) (p q : ProviderParam)
      (found : Option Provider) (rows rows' : Providers)
      → validate_provider_param known_zone (some p) ≡ inr q
      → p.name ≡ some name
      → fetch_provider name rows ≡ found
      → update_existing now hooks name q found rows ≡ inr rows'
      → IsStore rows
      → IsStore rows'
  unfolding update_existing clear_mirror
  updated_row-IsStore now hooks name p q none rows rows' valid named found h stored = cc h
  updated_row-IsStore now hooks name p q (some row) rows rows' valid named found h stored =
      let (paths_ok, result) =
        update_checked-inr now hooks name (clear_mirror row q) row _ rows rows' h in
      let (old, _) = fetch_provider-holds IsConsistent name rows row found stored.0 in
      subst IsStore result (
        store_update-IsStored IsConsistent now name (clear_mirror row q) rows row found
          (validate_provider_param-name known_zone p q valid ∙ named)
          (patch_row-IsConsistent now row q
            (validate_provider_param-IsAccepted known_zone p q valid)
            (validate_provider_protocol_paths-IsPath (or_keep q.protocol_paths row.protocol_paths)
              (items q.model_protocols) paths_ok)
            old)
          stored)

  updated-IsStore :
      (now : ℕ) (hooks : List (Hook F)) (name : String) (p : ProviderParam)
      (v : ParamError ⊎ ProviderParam) (rows rows' : Providers)
      → validate_provider_param known_zone (some p) ≡ v
      → p.name ≡ some name
      → update_accepted now hooks name v rows ≡ inr rows'
      → IsStore rows
      → IsStore rows'
  unfolding update_accepted
  updated-IsStore now hooks name p (inl e) rows rows' valid named h stored = cc h
  updated-IsStore now hooks name p (inr q) rows rows' valid named h stored =
      updated_row-IsStore now hooks name p q _ rows rows' valid named refl h stored

  repriced-IsStore :
      (now : ℕ) (name : String) (p : PricingTiersParam) (o : Option ParamError)
      (found : Option Provider) (rows rows' : Providers)
      → validate_pricing_tiers_param known_zone (some p) ≡ o
      → fetch_provider name rows ≡ found
      → tiers_accepted {F = F} now o name p found rows ≡ inr rows'
      → IsStore rows
      → IsStore rows'
  unfolding tiers_accepted validate_pricing_tiers_param tiers_update
  repriced-IsStore now name p (some e) found rows rows' valid fetched h stored = cc h
  repriced-IsStore now name p none none rows rows' valid fetched h stored = cc h
  repriced-IsStore now name p none (some row) rows rows' valid fetched h stored =
      let result : store_update now name (tiers_update row p) rows ≡ rows' = cc h in
      let (old, named) = fetch_provider-holds IsConsistent name rows row fetched stored.0 in
      let tiers_ok = wrap-none bad_tiers _ (first_error-none _ _ valid).1 in
      subst IsStore result (
        store_update-IsStored IsConsistent now name (tiers_update row p) rows row fetched
          (ap some named) (tiers_update-IsConsistent now row p tiers_ok old) stored)

  deleted-IsStore :
      (o : Option F) (name : String) (found : Option Provider) (rows rows' : Providers)
      → delete_found o name found rows ≡ inr rows'
      → IsStore rows
      → IsStore rows'
  unfolding delete_found
  deleted-IsStore o name none rows rows' h stored = cc h
  deleted-IsStore (some e) name (some row) rows rows' h stored = cc h
  deleted-IsStore none name (some row) rows rows' h stored =
      subst IsStore (cc h) (store_delete-IsStored IsConsistent name rows stored)

  Step-IsStore :
      {rows rows' : Providers} → Step F known_zone rows rows' → IsStore rows → IsStore rows'
  unfolding create_provider update_action update_provider update_pricing_tiers delete_provider
  Step-IsStore (created now id p rows rows' h) = created-IsStore now id p _ rows rows' refl h
  Step-IsStore (updated now hooks name p rows rows' h) =
      updated-IsStore now hooks name (record p { name = some name }) _ rows rows' refl refl h
  Step-IsStore (repriced now name p rows rows' h) =
      repriced-IsStore now name p _ _ rows rows' refl refl h
  Step-IsStore (deleted checkers name rows rows' h) = deleted-IsStore _ name _ rows rows' h
  Step-IsStore (mirrored now pool instances rows) = mirrored-IsStore now pool instances rows

  -- In every store of providers that creations, updates, changes of the pricing tiers, deletions
  -- and refreshes of the mirrors reach from the empty one, no two providers have one name, and
  -- every provider has at least one protocol, each known and none twice; paths that are well
  -- formed and of its protocols; no mirrored instances unless its source is a K8s pool; one
  -- pricing tier at most, whose ranges do not overlap; at least one model, none twice; no two keys
  -- of one name; and a time zone.
  pub Reach-IsStore : {rows : Providers} → Reach F known_zone rows → IsStore rows
  Reach-IsStore initial = (tt, tt)
  Reach-IsStore (after reached step) = Step-IsStore step (Reach-IsStore reached)
