-- ===== src/Provider/Manager/Merged.antt =====
-- The snapshot that the hooks of an update are given, against the row that is read afterwards
-- (model/iprovider/provider.go, applyProviderUpdate; storage/rdb/provider/provider.go).
use ai_gateway_api.Prelude.{
  ℕ, ◌≡◌, refl, sym, subst, ◌⊎◌, inl, inr, String, Bool, false, Option, none, some, ◌==◌, eq_iff,
  Bool-cases,
}
use ai_gateway_api.Provider.Types.{
  Provider, ProviderParam, instance_source_instance_pool, instance_source_k8s_pool,
}
use ai_gateway_api.Provider.Text.{k8s_pool_name}
use ai_gateway_api.Provider.Param.{or_default, validate_provider_param}
use ai_gateway_api.Provider.Param.Accepted.{IsPoolName, validate_provider_param-IsAccepted}
use ai_gateway_api.Provider.Rows.{or_keep, or_keep_option, read_pool_name, patch_row}
use ai_gateway_api.Provider.Snapshot.{apply_provider_update}
use ai_gateway_api.Provider.Manager.{clear_mirror}
use ai_gateway_api.Provider.Manager.Rules.{
  IsConsistent, IsMirror-source, IsSource-cases, merged_source,
}

or_default-kept : (default s : String) → s == "" ≡ false → s ≡ or_default default s
or_default-kept default s full = rw full refl

pool_name_full : (name : String) → k8s_pool_name name ≡ none → name == "" ≡ false
unfolding k8s_pool_name
pool_name_full name ok = elim (Bool-cases (name == "")) [
  | inr full ↦ full
  | inl empty ↦
      let clash = subst (λ n. k8s_pool_name n ≡ none) ((eq_iff name "").0 empty) ok in cc clash
]

pool_name_kept :
    (o old : Option String)
    → IsPoolName o
    → read_pool_name old ≡ old
    → or_keep_option o old ≡ read_pool_name (or_keep_option o old)
unfolding read_pool_name
pool_name_kept none old ok kept = sym kept
pool_name_kept (some name) old ok kept = rw (pool_name_full name ok) refl

source_full :
    (source : String)
    → (source ≡ instance_source_instance_pool) ⊎ (source ≡ instance_source_k8s_pool)
    → source ≡ or_default instance_source_instance_pool source
source_full source (inl own) = rw own refl
source_full source (inr k8s) = rw k8s refl

merged-patch_row :
    (now : ℕ) (existing : Provider) (q : ProviderParam)
    → or_keep q.instance_source existing.instance_source
      ≡ or_default instance_source_instance_pool
          (or_keep q.instance_source existing.instance_source)
    → or_keep_option q.k8s_pool_name existing.k8s_pool_name
      ≡ read_pool_name (or_keep_option q.k8s_pool_name existing.k8s_pool_name)
    → or_keep q.time_zone existing.time_zone
      ≡ or_default "Asia/Shanghai" (or_keep q.time_zone existing.time_zone)
    → apply_provider_update existing q
      ≡ record (patch_row now q existing) { update_time = existing.update_time }
unfolding apply_provider_update patch_row
merged-patch_row now existing q source pool zone = cc (source, pool, zone)

-- An update whose request passes the validation and does not set the time zone to the empty text
-- gives its hooks the provider that is read from the storage afterwards but for the time of the
-- update, which is still that of the row before, where that row is one that the operations store.
pub apply_provider_update-patch_row :
    (now : ℕ) (known_zone : String → Bool) (existing : Provider) (p q : ProviderParam)
    → IsConsistent existing
    → validate_provider_param known_zone (some p) ≡ inr q
    → or_keep q.time_zone existing.time_zone == "" ≡ false
    → apply_provider_update existing (clear_mirror existing q)
      ≡ record (patch_row now (clear_mirror existing q) existing) {
        update_time = existing.update_time;
      }
unfolding clear_mirror
apply_provider_update-patch_row now known_zone existing p q stored valid zone =
    let (_, _, _, _, _, from, pool, _, _, _) =
      validate_provider_param-IsAccepted known_zone p q valid in
    let (_, _, mirror, _, _, _, _, kept) = stored in
    let source =
      merged_source q.instance_source existing.instance_source (IsSource-cases q from)
        (IsMirror-source _ _ mirror) in
    merged-patch_row now existing (clear_mirror existing q) (source_full _ source)
      (pool_name_kept q.k8s_pool_name existing.k8s_pool_name pool kept)
      (or_default-kept "Asia/Shanghai" _ zone)
