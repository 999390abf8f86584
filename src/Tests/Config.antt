-- ===== src/Tests/Config.antt =====
-- Examples of the compiled scheduling configuration, with floats in tenths.
use ai_gateway_api.Prelude.{
  ℕ, ◌≡◌, refl, ◌/◌, String, true, none, some, elem, if◌then◌else◌, ltb, leb, ◌==◌, Int64,
}
use ai_gateway_api.Epp.Config.{Floats, EppConfig, validate}
use ai_gateway_api.Epp.Compile.{compile_epp_config, compile_affinity_weight}
use ai_gateway_api.Epp.Compile.Resolved.{
  IsResolved, plugin_names, compile_epp_config-IsResolved, compile_epp_config-session,
}

abbrev tenths : Floats ℕ
tenths = record {
  literal = λ s. if s == "0" then 0 else if s == "1" then 10 else if s == "1.0" then 10 else 6;
  lt = ltb;
  le = leb;
  to_int = λ n. n / 10;
}

abbrev config : EppConfig ℕ
config = record {
  load_profile = some "kv-first";
  affinity = some "high";
  prefix_cache_affinity = none;
  session_affinity_enabled = some true;
  session_affinity_header = some "x-session";
  kv_cache_utilization_max = some 8;
  waiting_queue_max = some 20;
  running_requests_max = none;
  fallback_on_empty = none;
  metrics_staleness_threshold_ms = none;
  flow_control = some (record {
    max_requests = some 100;
    queue_ttl = some 30;
    no_endpoint_queue_ttl = none;
    enable_eviction = none;
  });
}

abbrev duration : Int64 → String
duration seconds = "30s"

compile_epp_config-IsResolved_example :
    IsResolved (compile_epp_config tenths duration "cluster" config)
compile_epp_config-IsResolved_example =
    compile_epp_config-IsResolved tenths duration "cluster" config

compile_epp_config-session_example :
    elem "session-scorer" (plugin_names (compile_epp_config tenths duration "cluster" config))
    ≡ ltb (tenths.literal "0") (compile_affinity_weight tenths config)
unfolding validate
compile_epp_config-session_example =
    compile_epp_config-session tenths duration "cluster" config refl refl
