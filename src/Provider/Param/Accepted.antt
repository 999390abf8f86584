-- ===== src/Provider/Param/Accepted.antt =====
-- What an accepted request is (model/iprovider/provider.go, ValidateProviderParam).
use ai_gateway_api.Prelude.{
  ℕ, suc, ◌<◌, ◌≡◌, ◌⊎◌, refl, subst, inl, inr, String, Bool, true, false, not, ◌||◌, ◌&&◌, Option,
  none, some, List, [], ◌∷◌, ◌==◌, eq_iff, arith, elem, length, All, map, any, first_error-none,
  if-none, not-false, or-false, Bool-cases, IsDistinct, IsNew, IsNew-seen, lt_int64, trim_space,
  ltb, utf8,
}
use ai_gateway_api.Provider.Tiers.{validate_pricing_tiers, is_empty}
use ai_gateway_api.Provider.Types.{
  ProviderKey, ProviderInstance, Paths, ProviderParam, items, instance_source_instance_pool,
  instance_source_k8s_pool,
}
use ai_gateway_api.Provider.Text.{k8s_pool_name, validate_upstream_base_path}
use ai_gateway_api.Provider.Param.{
  ParamError, key_name_required, key_name_length, duplicate_key, key_required, key_length,
  bad_base_path, bad_k8s_pool_name, bad_tiers, k8s_instance_pool_read_only, wrap, given,
  instance_key, validate_instances, validate_provider_instance_pool, k8s_name_given, source_of,
  validate_source, validate_provider_instance_source, valid_model_protocols, validate_protocols,
  check_protocols, validate_provider_protocol_paths, check_models, validate_models, validate_keys,
  param_error, with_endpoint, verdict, validate_provider_param,
}

pub wrap-none {ℓ κ} :
    {E : Type ℓ} {F : Type κ} (f : E → F) (o : Option E) → wrap f o ≡ none → o ≡ none
wrap-none f none h = refl
wrap-none f (some e) h = cc h

validate_protocols-known :
    (i : ℕ) (seen ps : List String)
    → validate_protocols i seen ps ≡ none
    → All (λ p. elem p valid_model_protocols ≡ true) ps × IsNew seen ps × IsDistinct ps
unfolding validate_protocols
validate_protocols-known i seen [] h = (tt, tt, tt)
validate_protocols-known i seen (p ∷ ps) h =
    let (_, h₁) = if-none _ _ _ h in
    let (known, h₂) = if-none _ _ _ h₁ in
    let (new, h₃) = if-none _ _ _ h₂ in
    let (all_known, all_new, distinct) = validate_protocols-known (suc i) (p ∷ seen) ps h₃ in
    let (absent, still_new) = IsNew-seen p seen ps all_new in
    ((not-false _ known, all_known), (new, still_new), (absent, distinct))

-- A path that is accepted: of a declared protocol that has a rewrite, and well formed.
abbrev pub IsPath : List String → String × String → Type 0
IsPath protocols (proto, base) =
    ((proto ≡ "openai") ⊎ (proto ≡ "anthropic"))
    × (elem proto protocols ≡ true)
    × (validate_upstream_base_path base ≡ none)

one_of_two :
    (proto : String)
    → not (proto == "openai") && not (proto == "anthropic") ≡ false
    → (proto ≡ "openai") ⊎ (proto ≡ "anthropic")
one_of_two proto h = elim (Bool-cases (proto == "openai")) [
  | inl same ↦ inl ((eq_iff proto "openai").0 same)
  | inr other ↦ inr ((eq_iff proto "anthropic").0 (not-false _ (rw other at h)))
]

pub validate_provider_protocol_paths-IsPath :
    (paths : Paths) (protocols : List String)
    → validate_provider_protocol_paths paths protocols ≡ none
    → All (IsPath protocols) paths
unfolding validate_provider_protocol_paths
validate_provider_protocol_paths-IsPath [] protocols h = tt
validate_provider_protocol_paths-IsPath ((proto, base) ∷ paths) protocols h =
    let (supported, h₁) = if-none _ _ _ h in
    let (declared, h₂) = if-none _ _ _ h₁ in
    let (base_ok, h₃) = first_error-none _ _ h₂ in
    (
      (
        one_of_two proto supported,
        not-false _ declared,
        wrap-none (bad_base_path proto) (validate_upstream_base_path base) base_ok,
      ),
      validate_provider_protocol_paths-IsPath paths protocols h₃,
    )

-- An instance that may take traffic, by its port and its weight.
abbrev pub IsInstance : ProviderInstance → Type 0
IsInstance x =
    (lt_int64 0 x.port ≡ true)
    × (lt_int64 65535 x.port ≡ false)
    × (lt_int64 x.weight 0 ≡ false)
    × (lt_int64 100 x.weight ≡ false)

or_assoc : (a b c : Bool) → (a || b) || c ≡ true → a || (b || c) ≡ true
or_assoc true b c h = refl
or_assoc false b c h = h

validate_instances-IsInstance :
    (i : ℕ) (seen : List String) (positive : Bool) (xs : List ProviderInstance)
    → validate_instances i seen positive xs ≡ none
    → All IsInstance xs
      × IsNew seen (map instance_key xs)
      × IsDistinct (map instance_key xs)
      × (positive || any (λ x. lt_int64 0 x.weight) xs ≡ true)
unfolding validate_instances
validate_instances-IsInstance i seen true [] h = (tt, tt, tt, refl)
validate_instances-IsInstance i seen false [] h = cc h
validate_instances-IsInstance i seen positive (x ∷ xs) h =
    let (_, h₁) = if-none _ _ _ h in
    let (port, h₂) = if-none _ _ _ h₁ in
    let (weight, h₃) = if-none _ _ _ h₂ in
    let (new, h₄) = if-none _ _ _ h₃ in
    let (port_low, port_high) = or-false _ _ port in
    let (weight_low, weight_high) = or-false _ _ weight in
    let (each, all_new, distinct, some_positive) =
      validate_instances-IsInstance (suc i) (instance_key x ∷ seen)
        (positive || lt_int64 0 x.weight) xs h₄ in
    let (absent, still_new) = IsNew-seen (instance_key x) seen (map instance_key xs) all_new in
    (
      ((not-false _ port_low, port_high, weight_low, weight_high), each),
      (new, still_new),
      (absent, distinct),
      or_assoc positive (lt_int64 0 x.weight) _ some_positive,
    )

abbrev pub key_name : ProviderKey → String
key_name k = k.name

validate_keys-IsDistinct :
    (i : ℕ) (seen : List String) (ks : List ProviderKey)
    → validate_keys i seen ks ≡ none
    → IsNew seen (map key_name ks) × IsDistinct (map key_name ks)
unfolding validate_keys
validate_keys-IsDistinct i seen [] h = (tt, tt)
validate_keys-IsDistinct i seen (k ∷ ks) h =
    let (_, h₁) = if-none (trim_space k.name == "") (key_name_required i) _ h in
    let (_, h₂) =
      if-none (ltb (length (utf8 k.name)) 1 || ltb 128 (length (utf8 k.name))) (key_name_length i) _
        h₁ in
    let (new, h₃) = if-none (elem k.name seen) (duplicate_key k.name) _ h₂ in
    let (_, h₄) = if-none (trim_space k.key == "") (key_required i) _ h₃ in
    let (_, h₅) = if-none (ltb 512 (length (utf8 k.key))) (key_length i) _ h₄ in
    let (all_new, distinct) = validate_keys-IsDistinct (suc i) (k.name ∷ seen) ks h₅ in
    let (absent, still_new) = IsNew-seen k.name seen (map key_name ks) all_new in
    ((new, still_new), (absent, distinct))

validate_models-IsDistinct :
    (i : ℕ) (seen ms : List String)
    → validate_models i seen ms ≡ none
    → IsNew seen ms × IsDistinct ms
unfolding validate_models
validate_models-IsDistinct i seen [] h = (tt, tt)
validate_models-IsDistinct i seen (m ∷ ms) h =
    let (_, h₁) = if-none _ _ _ h in
    let (new, h₂) = if-none _ _ _ h₁ in
    let (all_new, distinct) = validate_models-IsDistinct (suc i) (m ∷ seen) ms h₂ in
    let (absent, still_new) = IsNew-seen m seen ms all_new in ((new, still_new), (absent, distinct))

-- Where the provider's instances come from: its own pool, with an instance that takes traffic, or
-- a named K8s pool.
abbrev pub IsSource : ProviderParam → Type 0
IsSource p =
    ((source_of p.instance_source ≡ instance_source_instance_pool)
      × All IsInstance (items p.instance_pool)
      × IsDistinct (map instance_key (items p.instance_pool))
      × (any (λ x. lt_int64 0 x.weight) (items p.instance_pool) ≡ true))
    ⊎ ((source_of p.instance_source ≡ instance_source_k8s_pool)
        × (name : String) × (p.k8s_pool_name ≡ some name)
        × (name == "" ≡ false))

k8s_name_given-some :
    (o : Option String)
    → k8s_name_given o ≡ none
    → (name : String) × (o ≡ some name) × (name == "" ≡ false)
unfolding k8s_name_given
k8s_name_given-some none h = cc h
k8s_name_given-some (some name) h = (name, refl, (if-none _ _ _ h).0)

validate_source-IsSource :
    (p : ProviderParam) → validate_source (source_of p.instance_source) p ≡ none → IsSource p
unfolding validate_source validate_provider_instance_pool
validate_source-IsSource p h =
    let source = source_of p.instance_source in
    elim (Bool-cases (source == instance_source_instance_pool)) [
      | inl own ↦
          let (_, instances_ok) = if-none _ _ _ (rw own at h) in
          let (each, _, distinct, positive) =
            validate_instances-IsInstance 0 [] false (items p.instance_pool) instances_ok in
          inl ((eq_iff source instance_source_instance_pool).0 own, each, distinct, positive)
      | inr other ↦ elim (Bool-cases (source == instance_source_k8s_pool)) [
        | inl k8s ↦
            let (name, named, full) = k8s_name_given-some p.k8s_pool_name (rw (other, k8s) at h) in
            inr ((eq_iff source instance_source_k8s_pool).0 k8s, name, named, full)
        | inr neither ↦ cc (rw (other, neither) at h)
      ]
    ]

is_empty-length {ℓ} : {A : Type ℓ} (xs : List A) → is_empty xs ≡ false → 0 < length xs
is_empty-length [] h = cc h
is_empty-length (x ∷ xs) h = omega arith

abbrev pub IsModels : Option (List String) → Type 0
IsModels none = Unit
IsModels (some ms) = (0 < length ms) × IsDistinct ms

check_models-IsModels : (o : Option (List String)) → given check_models o ≡ none → IsModels o
unfolding check_models
check_models-IsModels none h = tt
check_models-IsModels (some ms) h =
    let (full, models_ok) = if-none _ _ _ h in
    (is_empty-length ms full, (validate_models-IsDistinct 0 [] ms models_ok).1)

-- A name that is given passes the check of names.
abbrev pub IsPoolName : Option String → Type 0
IsPoolName none = Unit
IsPoolName (some name) = k8s_pool_name name ≡ none

given-IsPoolName :
    (o : Option String)
    → given (λ name. wrap bad_k8s_pool_name (k8s_pool_name name)) o ≡ none
    → IsPoolName o
given-IsPoolName none h = tt
given-IsPoolName (some name) h = wrap-none bad_k8s_pool_name (k8s_pool_name name) h

given-none {ℓ κ} :
    {A : Type ℓ} {E : Type κ} (e : E) (o : Option A) → given (λ _. some e) o ≡ none → o ≡ none
given-none e none h = refl
given-none e (some a) h = cc h

abbrev pub IsAccepted : ProviderParam → Type 0
IsAccepted p =
    (0 < length (items p.model_protocols))
    × All (λ proto. elem proto valid_model_protocols ≡ true) (items p.model_protocols)
    × IsDistinct (items p.model_protocols)
    × All (IsPath (items p.model_protocols)) (items p.protocol_paths)
    × (p.k8s_instance_pool ≡ none)
    × IsSource p
    × IsPoolName p.k8s_pool_name
    × IsModels p.models
    × IsDistinct (map key_name (items p.keys))
    × (validate_pricing_tiers (items p.tiers) ≡ none)

param_error-IsAccepted :
    (known_zone : String → Bool) (p : ProviderParam)
    → param_error known_zone p ≡ none
    → IsAccepted (with_endpoint p)
unfolding param_error with_endpoint validate_provider_instance_source check_protocols
param_error-IsAccepted known_zone p h =
    let (_, h₁) = first_error-none _ _ h in
    let (_, h₂) = first_error-none _ _ h₁ in
    let (source_ok, h₃) = first_error-none _ _ h₂ in
    let (read_only, h₄) = first_error-none _ _ source_ok in
    let (from, pool_name) = first_error-none _ _ h₄ in
    let (protocols_ok, h₅) = first_error-none _ _ h₃ in
    let (full, known) = if-none _ _ _ protocols_ok in
    let (all_known, _, distinct) = validate_protocols-known 0 [] (items p.model_protocols) known in
    let (paths_ok, h₆) = first_error-none _ _ h₅ in
    let (_, h₇) = first_error-none _ _ h₆ in
    let (models_ok, h₈) = first_error-none _ _ h₇ in
    let (keys_ok, h₉) = first_error-none _ _ h₈ in
    let (_, tiers_ok) = first_error-none _ _ h₉ in
    (
      is_empty-length (items p.model_protocols) full,
      all_known,
      distinct,
      validate_provider_protocol_paths-IsPath (items p.protocol_paths) (items p.model_protocols)
          paths_ok,
      given-none k8s_instance_pool_read_only p.k8s_instance_pool read_only,
      validate_source-IsSource p from,
      given-IsPoolName p.k8s_pool_name pool_name,
      check_models-IsModels p.models models_ok,
      (validate_keys-IsDistinct 0 [] (items p.keys) keys_ok).1,
      wrap-none bad_tiers (validate_pricing_tiers (items p.tiers)) tiers_ok,
    )

verdict-inr :
    (o : Option ParamError) (p q : ProviderParam) → verdict o p ≡ inr q → (o ≡ none) × (p ≡ q)
unfolding verdict
verdict-inr none p q h = (refl, cc h)
verdict-inr (some e) p q h = cc h

-- The validation keeps the name.
pub validate_provider_param-name :
    (known_zone : String → Bool) (p q : ProviderParam)
    → validate_provider_param known_zone (some p) ≡ inr q
    → q.name ≡ p.name
unfolding validate_provider_param with_endpoint
validate_provider_param-name known_zone p q h =
    let (_, same) = verdict-inr (param_error known_zone p) (with_endpoint p) q h in
    subst (λ x. x.name ≡ p.name) same refl

-- A request that passes the validation names at least one protocol, each of them known and none
-- twice; each of its paths is well formed and of a declared protocol with a rewrite; it sets no
-- mirror of a K8s pool; its instances come from its own pool, whose ports and weights are in
-- range, whose addresses with ports are not repeated and of which one has a positive weight, or
-- from a named K8s pool; models that it gives are some and are not repeated; and no name of a key
-- is repeated, and its pricing tiers pass their validation.
pub validate_provider_param-IsAccepted :
    (known_zone : String → Bool) (p q : ProviderParam)
    → validate_provider_param known_zone (some p) ≡ inr q
    → IsAccepted q
unfolding validate_provider_param
validate_provider_param-IsAccepted known_zone p q h =
    let (clear, same) = verdict-inr (param_error known_zone p) (with_endpoint p) q h in
    subst IsAccepted same (param_error-IsAccepted known_zone p clear)
