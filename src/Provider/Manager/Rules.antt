-- ===== src/Provider/Manager/Rules.antt =====
-- What every stored provider satisfies, and that a row which is inserted or updated satisfies it
-- (model/iprovider/provider.go).
use ai_gateway_api.Prelude.{
  ℕ, ◌<◌, ◌≤◌, ◌≡◌, ◌⊎◌, refl, sym, ap, subst, ◌∙◌, inl, inr, String, true, false, Option, none,
  some, List, [], ◌∷◌, ◌==◌, eq_iff, arith, elem, length, All, map, Bool-cases, IsDistinct,
}
use ai_gateway_api.Provider.Tiers.{PricingTier, is_empty, validate_pricing_tiers}
use ai_gateway_api.Provider.Tiers.Disjoint.{IsPeak, validate_pricing_tiers-IsPeak}
use ai_gateway_api.Provider.Types.{
  ProviderKey, ProviderInstance, Provider, ProviderParam, PricingTiersParam, items,
  instance_source_instance_pool, instance_source_k8s_pool,
}
use ai_gateway_api.Provider.Param.{or_default, source_of, valid_model_protocols}
use ai_gateway_api.Provider.Param.Accepted.{IsAccepted, IsPath, IsSource, IsModels, key_name}
use ai_gateway_api.Provider.Rows.{
  or_keep, or_keep_option, read_pool_name, fill_defaults, new_row, patch_row,
}
use ai_gateway_api.Provider.Manager.{mirror_update, clear_mirror, tiers_update}

abbrev pub IsProtocols : List String → Type 0
IsProtocols ps = (0 < length ps) × All (λ p. elem p valid_model_protocols ≡ true) ps × IsDistinct ps

-- The mirror of a K8s pool is empty where the instances are the provider's own.
abbrev pub IsMirror : String → List ProviderInstance → Type 0
IsMirror source mirror =
    ((source ≡ instance_source_instance_pool) × (mirror ≡ [])) ⊎ (source ≡ instance_source_k8s_pool)

abbrev pub IsTiers : List PricingTier → Type 0
IsTiers tiers = (length tiers ≤ 1) × All IsPeak tiers

abbrev pub IsConsistent : Provider → Type 0
IsConsistent row =
    IsProtocols row.model_protocols
    × All (IsPath row.model_protocols) row.protocol_paths
    × IsMirror row.instance_source row.k8s_instance_pool
    × IsTiers row.tiers
    × ((0 < length row.models) × IsDistinct row.models)
    × IsDistinct (map key_name row.keys)
    × (row.time_zone == "" ≡ false)
    × (read_pool_name row.k8s_pool_name ≡ row.k8s_pool_name)

or_default-filled : (s : String) → or_default "Asia/Shanghai" s == "" ≡ false
or_default-filled s = elim (Bool-cases (s == "")) [
  | inl empty ↦ rw empty refl
  | inr full ↦ rw full full
]

read_pool_name_idem : (o : Option String) → read_pool_name (read_pool_name o) ≡ read_pool_name o
unfolding read_pool_name
read_pool_name_idem none = refl
read_pool_name_idem (some name) = elim (Bool-cases (name == "")) [
  | inl empty ↦ rw empty refl
  | inr full ↦ rw full (rw full refl)
]

-- The source that an accepted request states.
pub IsSource-cases :
    (p : ProviderParam)
    → IsSource p
    → (source_of p.instance_source ≡ instance_source_instance_pool)
      ⊎ (source_of p.instance_source ≡ instance_source_k8s_pool)
IsSource-cases p (inl (own, _, _, _)) = inl own
IsSource-cases p (inr (k8s, _, _, _)) = inr k8s

source_of-or_keep : (o : Option String) → source_of o ≡ or_keep o instance_source_instance_pool
unfolding source_of
source_of-or_keep none = refl
source_of-or_keep (some s) = refl

-- A source that is one of the two is kept by the default for an empty column.
IsMirror-default :
    (source : String) (mirror : List ProviderInstance)
    → IsMirror source mirror
    → IsMirror (or_default instance_source_instance_pool source) mirror
IsMirror-default source mirror (inl (own, empty)) = inl (rw own refl, empty)
IsMirror-default source mirror (inr k8s) = inr (rw k8s refl)

new_models :
    (o : Option (List String))
    → is_empty (items o) ≡ false
    → IsModels o
    → (0 < length (items o)) × IsDistinct (items o)
new_models none full h = cc full
new_models (some ms) full h = h

pub new_row-IsConsistent :
    (now : ℕ) (id : ℕ) (q : ProviderParam)
    → IsAccepted q
    → is_empty (items q.models) ≡ false
    → IsConsistent (new_row now id (fill_defaults q))
unfolding new_row fill_defaults
new_row-IsConsistent now id q
      (some_protocol, known, distinct, paths, no_mirror, from, name, models, keys, tiers) full =
    let mirror_empty : items q.k8s_instance_pool ≡ [] = ap items no_mirror in
    let source_ok : IsMirror (or_keep q.instance_source instance_source_instance_pool)
        (items q.k8s_instance_pool) =
      elim (IsSource-cases q from) [
        | inl own ↦ inl (sym (source_of-or_keep q.instance_source) ∙ own, mirror_empty)
        | inr k8s ↦ inr (sym (source_of-or_keep q.instance_source) ∙ k8s)
      ] in
    (
      (some_protocol, known, distinct),
      paths,
      IsMirror-default _ _ source_ok,
      validate_pricing_tiers-IsPeak (items q.tiers) tiers,
      new_models q.models full models,
      keys,
      or_default-filled (or_keep q.time_zone "Asia/Shanghai"),
      read_pool_name_idem q.k8s_pool_name,
    )

kept_protocols :
    (o : Option (List String)) (old : List String) → 0 < length (items o) → or_keep o old ≡ items o
kept_protocols none old h = absurd (omega (arith, h))
kept_protocols (some ps) old h = refl

-- The mirror of the row: cleared, or kept where the source is a K8s pool.
mirror_update-IsMirror :
    (source : String) (mirror : List ProviderInstance)
    → (source ≡ instance_source_instance_pool) ⊎ (source ≡ instance_source_k8s_pool)
    → IsMirror source (or_keep (mirror_update source mirror none) mirror)
unfolding mirror_update
mirror_update-IsMirror source mirror (inr k8s) = inr k8s
mirror_update-IsMirror source [] (inl own) = inl (own, rw own refl)
mirror_update-IsMirror source (x ∷ xs) (inl own) = inl (own, rw own refl)

pub merged_source :
    (o : Option String) (old : String)
    → (source_of o ≡ instance_source_instance_pool) ⊎ (source_of o ≡ instance_source_k8s_pool)
    → (old ≡ instance_source_instance_pool) ⊎ (old ≡ instance_source_k8s_pool)
    → (or_keep o old ≡ instance_source_instance_pool) ⊎ (or_keep o old ≡ instance_source_k8s_pool)
unfolding source_of
merged_source none old new kept = kept
merged_source (some s) old new kept = new

pub IsMirror-source :
    (source : String) (mirror : List ProviderInstance)
    → IsMirror source mirror
    → (source ≡ instance_source_instance_pool) ⊎ (source ≡ instance_source_k8s_pool)
IsMirror-source source mirror (inl (own, _)) = inl own
IsMirror-source source mirror (inr k8s) = inr k8s

patched_models :
    (o : Option (List String)) (old : List String)
    → IsModels o
    → (0 < length old) × IsDistinct old
    → (0 < length (or_keep o old)) × IsDistinct (or_keep o old)
patched_models none old new kept = kept
patched_models (some ms) old new kept = new

patched_keys :
    (o : Option (List ProviderKey)) (old : List ProviderKey)
    → IsDistinct (map key_name (items o))
    → IsDistinct (map key_name old)
    → IsDistinct (map key_name (or_keep o old))
patched_keys none old new kept = kept
patched_keys (some ks) old new kept = new

patched-IsTiers :
    (o : Option (List PricingTier)) (old : List PricingTier)
    → validate_pricing_tiers (items o) ≡ none
    → IsTiers old
    → IsTiers (or_keep o old)
patched-IsTiers none old new kept = kept
patched-IsTiers (some ts) old new kept = validate_pricing_tiers-IsPeak ts new

pub patch_row-IsConsistent :
    (now : ℕ) (existing : Provider) (q : ProviderParam)
    → IsAccepted q
    → All (IsPath (items q.model_protocols)) (or_keep q.protocol_paths existing.protocol_paths)
    → IsConsistent existing
    → IsConsistent (patch_row now (clear_mirror existing q) existing)
unfolding patch_row clear_mirror
patch_row-IsConsistent now existing q accepted paths old =
    let (some_protocol, known, distinct, _, no_mirror, from, _, models, keys, tiers) = accepted in
    let (_, _, old_mirror, old_tiers, old_models, old_keys, _, _) = old in
    let protocols = sym (kept_protocols q.model_protocols existing.model_protocols some_protocol) in
    let source = or_keep q.instance_source existing.instance_source in
    let source_ok =
      merged_source q.instance_source existing.instance_source (IsSource-cases q from)
        (IsMirror-source _ _ old_mirror) in
    let mirror_ok =
      subst
        (λ asked. IsMirror source (
          or_keep (mirror_update source existing.k8s_instance_pool asked)
            existing.k8s_instance_pool))
        (sym no_mirror) (mirror_update-IsMirror source existing.k8s_instance_pool source_ok) in
    (
      subst IsProtocols protocols (some_protocol, known, distinct),
      subst (λ ps. All (IsPath ps) (or_keep q.protocol_paths existing.protocol_paths)) protocols
          paths,
      IsMirror-default source _ mirror_ok,
      patched-IsTiers q.tiers existing.tiers tiers old_tiers,
      patched_models q.models existing.models models old_models,
      patched_keys q.keys existing.keys keys old_keys,
      or_default-filled (or_keep q.time_zone existing.time_zone),
      read_pool_name_idem (or_keep_option q.k8s_pool_name existing.k8s_pool_name),
    )

-- A row whose tiers alone are replaced.
pub tiers_update-IsConsistent :
    (now : ℕ) (existing : Provider) (p : PricingTiersParam)
    → validate_pricing_tiers (items p.tiers) ≡ none
    → IsConsistent existing
    → IsConsistent (patch_row now (tiers_update existing p) existing)
unfolding patch_row tiers_update
tiers_update-IsConsistent now existing p tiers_ok old =
    let (protocols, paths, mirror, tiers, models, keys, _, _) = old in
    (
      protocols,
      paths,
      IsMirror-default existing.instance_source existing.k8s_instance_pool mirror,
      patched-IsTiers p.tiers existing.tiers tiers_ok tiers,
      models,
      keys,
      or_default-filled p.time_zone,
      read_pool_name_idem existing.k8s_pool_name,
    )

-- A row whose mirror alone is replaced, where its instances come from a K8s pool.
pub mirrored-IsConsistent :
    (now : ℕ) (row : Provider) (instances : List ProviderInstance)
    → row.instance_source == instance_source_k8s_pool ≡ true
    → IsConsistent row
    → IsConsistent (record row { k8s_instance_pool = instances; update_time = now })
mirrored-IsConsistent now row instances k8s old =
    let (protocols, paths, _, tiers, models, keys, zone, pool) = old in
    let source = inr ((eq_iff row.instance_source instance_source_k8s_pool).0 k8s) in
    (protocols, paths, source, tiers, models, keys, zone, pool)
