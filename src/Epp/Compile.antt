-- ===== src/Epp/Compile.antt =====
-- The compiler of the scheduling configuration (model/epp_pool/compiler.go). The parameters of a
-- plugin are those that its kind is given; `duration` is the text of a Go duration of so many
-- seconds.
pub mod Resolved
use Prim.Native.String
use ai_gateway_api.Prelude.{
  ℕ, String, Bool, true, false, ◌&&◌, List, [], ◌∷◌, ◌++◌, Option, none, some, ◌==◌, if◌then◌else◌,
  Int64, lt_int64, format_int, lookup,
}
use ai_gateway_api.Epp.Config.{
  Floats, FlowControl, EppConfig, effective_load_profile, effective_affinity,
  effective_prefix_cache_affinity, effective_kv_cache_utilization_max, effective_waiting_queue_max,
  effective_running_requests_max, effective_fallback_on_empty,
  effective_metrics_staleness_threshold_ms, effective_session_affinity_enabled,
}

pub data Parameters (F : Type 0) : Type 0 where
  no_parameters : Parameters F
  discovery : String → Parameters F
  -- the metrics with their maximal values, and whether to fall back
  util_filter : List (String × F) → Bool → Parameters F
  -- the cache threshold, the queue depth, the staleness policy, the headroom and the threshold of
  -- staleness
  saturation : F → Int64 → String → F → String → Parameters F
  -- the strategy and the header that is its source
  session : String → String → Parameters F

-- `PluginConfig`.
pub record Plugin (F : Type 0) : Type 0 where
  pub name : String
  pub kind : String
  pub parameters : Parameters F

-- `ProfilePluginConfig`.
pub record ProfilePlugin (F : Type 0) : Type 0 where
  pub plugin_ref : String
  pub weight : Option F

pub record PriorityBand : Type 0 where
  pub priority : ℕ
  pub max_requests : String
  pub max_bytes : String

-- `FlowControlConfig`; an empty text is a field that is left out.
pub record CompiledFlow : Type 0 where
  pub max_requests : String
  pub default_request_ttl : String
  pub no_endpoint_request_ttl : String
  pub saturation_detector : String
  pub priority_bands : List PriorityBand

-- `EndpointPickerConfig`, with its one scheduling profile.
pub record PickerConfig (F : Type 0) : Type 0 where
  pub feature_gates : List String
  pub plugins : List (Plugin F)
  pub profile_name : String
  pub profile_plugins : List (ProfilePlugin F)
  pub discovery_ref : String
  pub parser_refs : List String
  pub flow : CompiledFlow

abbrev default_band_max_requests : String
default_band_max_requests = "10000"

abbrev default_band_max_bytes : String
default_band_max_bytes = "5Gi"

-- The global limit, and that of band 0: a positive number stands in both.
unfoldable pub compile_limits : Option FlowControl → String × String
unfolding format_int
compile_limits none = ("", default_band_max_requests)
compile_limits (some fc) = elim fc.max_requests [
  | none ↦ ("", default_band_max_requests)
  | some n ↦ if lt_int64 0 n then (format_int n, format_int n) else ("", default_band_max_requests)
]

abbrev ttl_text : (Int64 → String) → Option Int64 → String
ttl_text duration none = ""
ttl_text duration (some s) = duration s

abbrev first_of : Option Int64 → Option Int64 → Option Int64
first_of none other = other
first_of (some s) other = some s

abbrev ttl_of : Option FlowControl → Option Int64
ttl_of none = none
ttl_of (some fc) = fc.queue_ttl

abbrev no_endpoint_ttl_of : Option FlowControl → Option Int64
no_endpoint_ttl_of none = none
no_endpoint_ttl_of (some fc) = first_of fc.no_endpoint_queue_ttl fc.queue_ttl

-- `compileFlowControl`.
unfoldable pub compile_flow_control : (Int64 → String) → Option FlowControl → CompiledFlow
unfolding compile_limits
compile_flow_control duration fc =
    let (global, band) = compile_limits fc in
    record {
      max_requests = global;
      default_request_ttl = ttl_text duration (ttl_of fc);
      no_endpoint_request_ttl = ttl_text duration (no_endpoint_ttl_of fc);
      saturation_detector = "saturation-detector";
      priority_bands =
          (record { priority = 0; max_requests = band; max_bytes = default_band_max_bytes }) ∷ [];
    }

module _ {F : Type 0} (fl : Floats F) where
  abbrev is_positive : F → Bool
  is_positive v = fl.lt (fl.literal "0") v

  -- `loadProfileWeights` and `compileLoadProfileWeights`: the weights of the cache and the queue.
  unfoldable pub compile_load_profile_weights : EppConfig F → F × F
  compile_load_profile_weights c =
      let profile = effective_load_profile fl c in
      if profile == "queue-first"
      then (fl.literal "0.2", fl.literal "1.0")
      else if profile == "kv-first"
      then (fl.literal "1.0", fl.literal "0.2")
      else (fl.literal "0.6", fl.literal "0.6")

  -- `affinityWeights` and `compileAffinityWeight`.
  unfoldable pub compile_affinity_weight : EppConfig F → F
  compile_affinity_weight c =
      let affinity = effective_affinity fl c in
      if affinity == "off"
      then fl.literal "0"
      else if affinity == "low"
      then fl.literal "0.3"
      else if affinity == "high"
      then fl.literal "1.0"
      else fl.literal "0.6"

  enabled : String → F → List (String × F)
  enabled metric v = if is_positive v then (metric, v) ∷ [] else []

  -- `compileUtilFilterPlugin`.
  unfoldable pub compile_util_filter_plugin : EppConfig F → Plugin F
  unfolding enabled
  compile_util_filter_plugin c = record {
    name = "util-filter";
    kind = "utilization-filter";
    parameters =
        util_filter
          (("kv-cache-utilization", effective_kv_cache_utilization_max fl c)
              ∷ enabled "waiting-queue" (effective_waiting_queue_max fl c)
            ++ enabled "running-requests" (effective_running_requests_max fl c))
          (effective_fallback_on_empty fl c);
  }

  queue_depth : F → Int64
  queue_depth q = if fl.le (fl.literal "1") q then fl.to_int q else 5

  -- `compileSaturationDetectorPlugin`.
  unfoldable pub compile_saturation_detector_plugin : EppConfig F → Plugin F
  unfolding queue_depth format_int
  compile_saturation_detector_plugin c = record {
    name = "saturation-detector";
    kind = "utilization-detector";
    parameters =
        saturation (effective_kv_cache_utilization_max fl c)
          (queue_depth (effective_waiting_queue_max fl c)) "ignore" (fl.literal "0")
          (String.◌++◌ (format_int (effective_metrics_staleness_threshold_ms fl c)) "ms");
  }

  abbrev plain : String → String → Plugin F
  plain name kind = record { name = name; kind = kind; parameters = no_parameters }

  abbrev weighted : String → F → ProfilePlugin F
  weighted name v = record { plugin_ref = name; weight = some v }

  abbrev unweighted : String → ProfilePlugin F
  unweighted name = record { plugin_ref = name; weight = none }

  -- Whether the prefix scorer is compiled.
  unfoldable pub has_prefix_scorer : EppConfig F → Bool
  unfolding compile_affinity_weight
  has_prefix_scorer c =
      effective_prefix_cache_affinity fl c && is_positive (compile_affinity_weight c)

  -- The header of the session scorer, where it is compiled.
  unfoldable pub session_scorer_header : EppConfig F → Option String
  unfolding compile_affinity_weight
  session_scorer_header c =
      if effective_session_affinity_enabled fl c && is_positive (compile_affinity_weight c)
      then c.session_affinity_header
      else none

  abbrev prefix_plugins : Bool → List (Plugin F)
  prefix_plugins on = if on then plain "prefix-scorer" "prefix-cache-scorer" ∷ [] else []

  abbrev prefix_refs : Bool → F → List (ProfilePlugin F)
  prefix_refs on v = if on then weighted "prefix-scorer" v ∷ [] else []

  abbrev session_plugins : Option String → List (Plugin F)
  session_plugins none = []
  session_plugins (some header) =
      (record {
        name = "session-scorer";
        kind = "session-affinity-scorer";
        parameters = session "session_id" header;
      })
      ∷ []

  abbrev session_refs : Option String → F → List (ProfilePlugin F)
  session_refs none v = []
  session_refs (some header) v = weighted "session-scorer" v ∷ []

  abbrev gates : Option FlowControl → List String
  gates none = []
  gates (some fc) = "flowControl" ∷ []

  -- The lists of plugins, with and without the affinity scorers.
  assemble : (Int64 → String) → String → EppConfig F → Bool → Option String → PickerConfig F
  unfolding compile_load_profile_weights compile_affinity_weight compile_util_filter_plugin
      compile_saturation_detector_plugin compile_flow_control
  assemble duration cluster c prefix header =
      let (kv, queue) = compile_load_profile_weights c in
      let affinity = compile_affinity_weight c in
      record {
        feature_gates = gates c.flow_control;
        plugins =
            (record {
              name = "ep-discover";
              kind = "cluster-table-discovery";
              parameters = discovery cluster;
            })
              ∷ compile_util_filter_plugin c
              ∷ compile_saturation_detector_plugin c
              ∷ plain "kv-scorer" "kv-cache-utilization-scorer"
              ∷ plain "queue-scorer" "queue-scorer"
              ∷ prefix_plugins prefix
            ++ session_plugins header
            ++ plain "max-score" "max-score-picker" ∷ plain "openai-parser" "openai-parser" ∷ [];
        profile_name = "default";
        profile_plugins =
            unweighted "util-filter"
              ∷ weighted "kv-scorer" kv
              ∷ weighted "queue-scorer" queue
              ∷ prefix_refs prefix affinity
            ++ session_refs header affinity
            ++ unweighted "max-score" ∷ [];
        discovery_ref = "ep-discover";
        parser_refs = "openai-parser" ∷ [];
        flow = compile_flow_control duration c.flow_control;
      }

  -- `CompileEppConfig`.
  unfoldable pub compile_epp_config : (Int64 → String) → String → EppConfig F → PickerConfig F
  unfolding assemble has_prefix_scorer session_scorer_header
  compile_epp_config duration cluster c =
      assemble duration cluster c (has_prefix_scorer c) (session_scorer_header c)
