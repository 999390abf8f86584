-- ===== src/Provider/Types.antt =====
-- The records of a provider (model/iprovider/provider.go). A nil pointer, slice or map of a
-- request is `none`: it is told apart from an empty one.
use ai_gateway_api.Prelude.{ℕ, String, Bool, List, [], Option, none, some, Int64}
use ai_gateway_api.Provider.Tiers.{PricingTier}

pub record ProviderEndpoint : Type 0 where
  pub schema : String
  pub uri : String

pub record ProviderKey : Type 0 where
  pub name : String
  pub key : String

pub record ProviderInstance : Type 0 where
  pub addr : String
  pub port : Int64
  pub weight : Int64
  pub disable : Bool

abbrev pub Paths : Type 0
Paths = List (String × String)

pub record Provider : Type 0 where
  pub id : ℕ
  pub name : String
  pub description : String
  pub model_endpoint : Option ProviderEndpoint
  pub models : List String
  pub keys : List ProviderKey
  pub instance_pool : List ProviderInstance
  pub instance_source : String
  pub k8s_pool_name : Option String
  pub k8s_instance_pool : List ProviderInstance
  pub model_protocols : List String
  pub protocol_paths : Paths
  pub time_zone : String
  pub tiers : List PricingTier
  -- in seconds
  pub create_time : ℕ
  pub update_time : ℕ

pub record ProviderParam : Type 0 where
  pub name : Option String
  pub description : Option String
  pub model_endpoint : Option ProviderEndpoint
  pub models : Option (List String)
  pub keys : Option (List ProviderKey)
  pub instance_pool : Option (List ProviderInstance)
  pub instance_source : Option String
  pub k8s_pool_name : Option String
  pub k8s_instance_pool : Option (List ProviderInstance)
  pub model_protocols : Option (List String)
  pub protocol_paths : Option Paths
  pub time_zone : Option String
  pub tiers : Option (List PricingTier)

pub record PricingTiersParam : Type 0 where
  pub time_zone : String
  pub tiers : Option (List PricingTier)

-- Go's `len` and `range` of a nil slice are those of an empty one.
abbrev pub items {ℓ} : {A : Type ℓ} → Option (List A) → List A
items none = []
items (some xs) = xs

abbrev pub instance_source_instance_pool : String
instance_source_instance_pool = "instance_pool"

abbrev pub instance_source_k8s_pool : String
instance_source_k8s_pool = "k8s_pool"
