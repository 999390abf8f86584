-- ===== src/Epp/Config.antt =====
-- The simplified scheduling configuration of a cluster (model/epp_pool/epp_config.go). The floats
-- of Go are a parameter: a type with its literals, its comparisons and the conversion to int.
use ai_gateway_api.Prelude.{
  ℕ, String, Bool, true, false, not, ◌&&◌, ◌||◌, List, [], ◌∷◌, Option, none, some, ◌==◌, leb,
  nat_eq, all, elem, if◌then◌else◌, codes, Int64, lt_int64, trim_space, ◌-◌, ◌^◌,
}

pub record Floats (F : Type 0) : Type 0 where
  pub literal : String → F
  pub lt : F → F → Bool
  pub le : F → F → Bool
  pub to_int : F → Int64

-- `FlowControlSimplified`.
pub record FlowControl : Type 0 where
  pub max_requests : Option Int64
  pub queue_ttl : Option Int64
  pub no_endpoint_queue_ttl : Option Int64
  pub enable_eviction : Option Bool

-- `EppConfigSimplified`.
pub record EppConfig (F : Type 0) : Type 0 where
  pub load_profile : Option String
  pub affinity : Option String
  pub prefix_cache_affinity : Option Bool
  pub session_affinity_enabled : Option Bool
  pub session_affinity_header : Option String
  pub kv_cache_utilization_max : Option F
  pub waiting_queue_max : Option F
  pub running_requests_max : Option F
  pub fallback_on_empty : Option Bool
  pub metrics_staleness_threshold_ms : Option Int64
  pub flow_control : Option FlowControl

abbrev pub load_profiles : List String
load_profiles = "queue-first" ∷ "balanced" ∷ "kv-first" ∷ []

abbrev pub affinities : List String
affinities = "off" ∷ "low" ∷ "medium" ∷ "high" ∷ []

-- `FlowControlUnlimited`, -1.
abbrev pub unlimited : Int64
unlimited = 2 ^ 64 - 1

pub data ConfigError : Type 0 where
  bad_load_profile bad_affinity bad_kv_cache bad_waiting_queue bad_running_requests : ConfigError
  bad_staleness missing_header bad_header : ConfigError
  bad_max_requests bad_queue_ttl bad_no_endpoint_ttl eviction_unsupported : ConfigError

-- A rule on a field that may not be set.
abbrev pub holds {ℓ} : {A : Type ℓ} → (A → Bool) → Option A → Bool
holds p none = true
holds p (some a) = p a

-- The error of a rule that does not hold, else what follows.
abbrev pub check : Bool → ConfigError → Option ConfigError → Option ConfigError
check passed e next = if passed then next else some e

-- The characters of `httpHeaderNameToken`.
is_token : ℕ → Bool
is_token c =
    ((leb b'a' c && leb c b'z') || ((leb b'A' c && leb c b'Z') || (leb b'0' c && leb c b'9')))
    || any_code (codes "!#$%&'*+-.^_`|~")
  where
    any_code : List ℕ → Bool
    any_code [] = false
    any_code (d ∷ ds) = nat_eq d c || any_code ds

-- `validateHeaderName`.
unfoldable pub is_header_name : String → Bool
unfolding is_token trim_space
is_header_name name = not (trim_space name == "") && all is_token (codes name)

-- `FlowControlSimplified.Validate`.
unfoldable pub validate_flow_control : FlowControl → Option ConfigError
validate_flow_control f =
    check (holds (λ n. nat_eq n unlimited || lt_int64 0 n) f.max_requests) bad_max_requests (
      check (holds (λ n. not (lt_int64 n 0)) f.queue_ttl) bad_queue_ttl (
        check (holds (λ n. not (lt_int64 n 0)) f.no_endpoint_queue_ttl) bad_no_endpoint_ttl
          (check (holds not f.enable_eviction) eviction_unsupported none)))

abbrev pub has_header : Option String → Bool
has_header none = false
has_header (some name) = not (trim_space name == "")

abbrev validate_flow : Option FlowControl → Option ConfigError
validate_flow none = none
validate_flow (some f) = validate_flow_control f

-- The rules on the session header and those after them.
unfoldable pub validate_session : {F : Type 0} → EppConfig F → Option ConfigError
unfolding validate_flow_control is_header_name trim_space
validate_session c =
    check (holds (λ on. not on || has_header c.session_affinity_header) c.session_affinity_enabled)
      missing_header
      (check (holds is_header_name c.session_affinity_header) bad_header
        (validate_flow c.flow_control))

module _ {F : Type 0} (fl : Floats F) where
  -- The rules on the thresholds and those after them.
  unfoldable pub validate_thresholds : EppConfig F → Option ConfigError
  unfolding validate_session
  validate_thresholds c =
      check
        (holds (λ v. not (fl.le v (fl.literal "0") || fl.lt (fl.literal "1") v))
          c.kv_cache_utilization_max)
        bad_kv_cache
        (check (holds (λ v. not (fl.lt v (fl.literal "0"))) c.waiting_queue_max) bad_waiting_queue (
          check (holds (λ v. not (fl.lt v (fl.literal "0"))) c.running_requests_max)
            bad_running_requests
            (check (holds (λ n. lt_int64 0 n) c.metrics_staleness_threshold_ms) bad_staleness
              (validate_session c))))

  -- `EppConfigSimplified.Validate`.
  unfoldable pub validate : EppConfig F → Option ConfigError
  unfolding validate_thresholds
  validate c =
      check (holds (λ p. elem p load_profiles) c.load_profile) bad_load_profile
        (check (holds (λ a. elem a affinities) c.affinity) bad_affinity (validate_thresholds c))

abbrev or_default {ℓ} : {A : Type ℓ} → A → Option A → A
or_default d none = d
or_default d (some a) = a

-- The effective values.
module _ {F : Type 0} (fl : Floats F) (c : EppConfig F) where
  abbrev pub effective_load_profile : String
  effective_load_profile = or_default "balanced" c.load_profile

  abbrev pub effective_affinity : String
  effective_affinity = or_default "medium" c.affinity

  abbrev pub effective_prefix_cache_affinity : Bool
  effective_prefix_cache_affinity = or_default true c.prefix_cache_affinity

  abbrev pub effective_kv_cache_utilization_max : F
  effective_kv_cache_utilization_max = or_default (fl.literal "0.9") c.kv_cache_utilization_max

  abbrev pub effective_waiting_queue_max : F
  effective_waiting_queue_max = or_default (fl.literal "0") c.waiting_queue_max

  abbrev pub effective_running_requests_max : F
  effective_running_requests_max = or_default (fl.literal "0") c.running_requests_max

  abbrev pub effective_fallback_on_empty : Bool
  effective_fallback_on_empty = or_default false c.fallback_on_empty

  abbrev pub effective_metrics_staleness_threshold_ms : Int64
  effective_metrics_staleness_threshold_ms = or_default 200 c.metrics_staleness_threshold_ms

  abbrev pub effective_session_affinity_enabled : Bool
  effective_session_affinity_enabled = or_default false c.session_affinity_enabled
