-- ===== src/Epp/Compile/Resolved.antt =====
-- The references of a compiled configuration, and the session scorer of a validated one.
use ai_gateway_api.Prelude.{
  ◌∙◌, ◌≡◌, refl, inl, inr, String, Bool, true, false, not, ◌||◌, List, Option, none, some, elem,
  map, All, Bool-cases, Int64, lt_int64, arith,
}
use ai_gateway_api.Epp.Pool.Sound.{Distinct}
use ai_gateway_api.Epp.Config.{
  bad_kv_cache, bad_waiting_queue, bad_running_requests, bad_staleness, check, Floats, EppConfig,
  ConfigError, validate, validate_session, validate_thresholds, holds, has_header,
}
use ai_gateway_api.Epp.Compile.{
  PickerConfig, has_prefix_scorer, session_scorer_header, compile_affinity_weight,
  compile_flow_control, compile_util_filter_plugin, compile_saturation_detector_plugin,
  compile_epp_config, assemble,
}

abbrev pub plugin_names : {F : Type 0} → PickerConfig F → List String
plugin_names config = map (λ p. p.name) config.plugins

-- Every reference names a plugin that is declared, and no name is declared twice.
abbrev pub IsResolved : {F : Type 0} → PickerConfig F → Type 0
IsResolved config =
    All (λ p. elem p.plugin_ref (plugin_names config) ≡ true) config.profile_plugins
    × (elem config.discovery_ref (plugin_names config) ≡ true)
    × All (λ r. elem r (plugin_names config) ≡ true) config.parser_refs
    × (elem config.flow.saturation_detector (plugin_names config) ≡ true)
    × Distinct (λ p. p.name) config.plugins

module _ {F : Type 0} (fl : Floats F) where
  assembled-IsResolved :
      (duration : Int64 → String) (cluster : String) (c : EppConfig F) (prefix : Bool)
      (header : Option String)
      → IsResolved (assemble fl duration cluster c prefix header)
  unfolding assemble compile_flow_control compile_util_filter_plugin
      compile_saturation_detector_plugin
  assembled-IsResolved duration cluster c true none = (
    (refl, (refl, (refl, (refl, (refl, tt))))),
    refl,
    (refl, tt),
    refl,
    (refl, (refl, (refl, (refl, (refl, (refl, (refl, (refl, tt)))))))),
  )
  assembled-IsResolved duration cluster c true (some header) = (
    (refl, (refl, (refl, (refl, (refl, (refl, tt)))))),
    refl,
    (refl, tt),
    refl,
    (refl, (refl, (refl, (refl, (refl, (refl, (refl, (refl, (refl, tt))))))))),
  )
  assembled-IsResolved duration cluster c false none = (
    (refl, (refl, (refl, (refl, tt)))),
    refl,
    (refl, tt),
    refl,
    (refl, (refl, (refl, (refl, (refl, (refl, (refl, tt))))))),
  )
  assembled-IsResolved duration cluster c false (some header) = (
    (refl, (refl, (refl, (refl, (refl, tt))))),
    refl,
    (refl, tt),
    refl,
    (refl, (refl, (refl, (refl, (refl, (refl, (refl, (refl, tt)))))))),
  )

  -- Whatever the configuration, in its compiled form every reference of the profile, of the
  -- discovery, of the parsers and of the saturation detector names a declared plugin, and no two
  -- plugins have one name.
  pub compile_epp_config-IsResolved :
      (duration : Int64 → String) (cluster : String) (c : EppConfig F)
      → IsResolved (compile_epp_config fl duration cluster c)
  unfolding compile_epp_config
  compile_epp_config-IsResolved duration cluster c =
      assembled-IsResolved duration cluster c (has_prefix_scorer fl c) (session_scorer_header fl c)

  enabled-header :
      (enabled : Option Bool) (header : Option String)
      → holds (λ on. not on || has_header header) enabled ≡ true
      → enabled ≡ some true
      → (name : String) × (header ≡ some name)
  enabled-header enabled none h e = cc (h, e)
  enabled-header enabled (some name) h e = (name, refl)

  check-none :
      (passed : Bool) (e : ConfigError) (next : Option ConfigError)
      → check passed e next ≡ none
      → next ≡ none
  check-none true e next h = h
  check-none false e next h = cc h

  thresholds-session :
      (c : EppConfig F) → validate_thresholds fl c ≡ none → validate_session c ≡ none
  unfolding validate_thresholds
  thresholds-session c h =
      let zero = fl.literal "0" in
      let kv =
        holds (λ v. not (fl.le v zero || fl.lt (fl.literal "1") v)) c.kv_cache_utilization_max in
      let waiting = holds (λ v. not (fl.lt v zero)) c.waiting_queue_max in
      let running = holds (λ v. not (fl.lt v zero)) c.running_requests_max in
      let stale = holds (λ n. lt_int64 0 n) c.metrics_staleness_threshold_ms in
      let last = check stale bad_staleness (validate_session c) in
      let from_running = check running bad_running_requests last in
      let from_waiting = check waiting bad_waiting_queue from_running in
      check-none stale bad_staleness (validate_session c) (
        check-none running bad_running_requests last (
          check-none waiting bad_waiting_queue from_running
            (check-none kv bad_kv_cache from_waiting h)))

  validated-session : (c : EppConfig F) → validate fl c ≡ none → validate_session c ≡ none
  unfolding validate
  validated-session c h = ground (arith, h, thresholds-session c)

  -- What the rules of a validated configuration say of the header.
  validated-header :
      (c : EppConfig F)
      → validate fl c ≡ none
      → holds (λ on. not on || has_header c.session_affinity_header) c.session_affinity_enabled
        ≡ true
  unfolding validate_session
  validated-header c h = ground (arith, validated-session c h)

  session-present :
      (duration : Int64 → String) (cluster : String) (c : EppConfig F) (prefix : Bool)
      (header : Option String)
      → elem "session-scorer" (plugin_names (assemble fl duration cluster c prefix header))
        ≡ elim header [ none ↦ false | some h ↦ true ]
  unfolding assemble compile_util_filter_plugin compile_saturation_detector_plugin
  session-present duration cluster c true none = refl
  session-present duration cluster c true (some header) = refl
  session-present duration cluster c false none = refl
  session-present duration cluster c false (some header) = refl

  -- A validated configuration that turns session affinity on has the session scorer in its compiled
  -- form exactly where the affinity's weight is positive: the header that the scorer needs is
  -- always there.
  pub compile_epp_config-session :
      (duration : Int64 → String) (cluster : String) (c : EppConfig F)
      → validate fl c ≡ none
      → c.session_affinity_enabled ≡ some true
      → elem "session-scorer" (plugin_names (compile_epp_config fl duration cluster c))
        ≡ fl.lt (fl.literal "0") (compile_affinity_weight fl c)
  unfolding compile_epp_config session_scorer_header
  compile_epp_config-session duration cluster c valid on =
      let (name, found) =
        enabled-header c.session_affinity_enabled c.session_affinity_header
          (validated-header c valid) on in
      session-present duration cluster c (has_prefix_scorer fl c) (session_scorer_header fl c)
      ∙ elim (Bool-cases (fl.lt (fl.literal "0") (compile_affinity_weight fl c))) [
        | inl h ↦ rw (on, found, h) refl
        | inr h ↦ rw (on, h) refl
      ]
