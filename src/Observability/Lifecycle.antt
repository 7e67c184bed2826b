-- ===== src/Observability/Lifecycle.antt =====
-- observability/observability.go: the exporters over the start and the stop of the module.
use hanami.Base.{
  ◌≡◌, refl, Option, none, some, List, [], ◌∷◌, ◌++◌, to_errors, Result, ok, err, option_elim,
  result_elim, Result-cases, subst, inl, inr, ◌⊎◌,
}
use hanami.Observability.{
  TelemetryConfig, Sdk, TelemetryError, Effect, trace_opened, trace_shut, metric_opened,
  globals_set, Providers, RuntimeProviders, Answers, exporter_options, validate_telemetry,
  new_providers, start_providers, shutdown_providers, stop_providers,
}

-- The exporters that were opened and those that were shut.
abbrev pub traces_opened : {X Y : Type 0} → List (Effect X Y) → List X
traces_opened [] = []
traces_opened (trace_opened x ∷ es) = x ∷ traces_opened es
traces_opened (trace_shut x ∷ es) = traces_opened es
traces_opened (metric_opened y ∷ es) = traces_opened es
traces_opened (globals_set x y n ∷ es) = traces_opened es

abbrev pub traces_shut : {X Y : Type 0} → List (Effect X Y) → List X
traces_shut [] = []
traces_shut (trace_opened x ∷ es) = traces_shut es
traces_shut (trace_shut x ∷ es) = x ∷ traces_shut es
traces_shut (metric_opened y ∷ es) = traces_shut es
traces_shut (globals_set x y n ∷ es) = traces_shut es

abbrev pub metrics_opened : {X Y : Type 0} → List (Effect X Y) → List Y
metrics_opened [] = []
metrics_opened (trace_opened x ∷ es) = metrics_opened es
metrics_opened (trace_shut x ∷ es) = metrics_opened es
metrics_opened (metric_opened y ∷ es) = y ∷ metrics_opened es
metrics_opened (globals_set x y n ∷ es) = metrics_opened es

module _ {F X Y : Type 0} where
  -- A start that failed changed nothing, shut what it opened, and leaves nothing to a stop.
  pub record HasFailed (r r' : RuntimeProviders X Y) (es : List (Effect X Y))
      (e : Option (TelemetryError F)) : Type 0 where
    pub unchanged : r' ≡ r
    pub error : TelemetryError F
    pub reported : e ≡ some error
    pub released : traces_shut es ≡ traces_opened es
    pub no_metrics : metrics_opened es ≡ []

  -- A start that succeeded holds the exporters that it opened, traces with the one, and a stop flushes and
  -- shuts both and traces no more.
  pub record HasStarted (r' : RuntimeProviders X Y) (es : List (Effect X Y))
      (e : Option (TelemetryError F)) : Type 0 where
    pub trace : X
    pub metric : Y
    pub no_error : e ≡ none
    pub opened : traces_opened es ≡ trace ∷ []
    pub kept : traces_shut es ≡ []
    pub metrics : metrics_opened es ≡ metric ∷ []
    pub traces_with : r'.current ≡ some trace
    pub stopped :
        (a : Answers F)
        → ((stop_providers a r').0.current ≡ none)
          × ((stop_providers a r').1
              ≡ (to_errors a.meter_flush ++ to_errors a.meter_shutdown)
                ++ (to_errors a.tracer_flush ++ to_errors a.tracer_shutdown))

  -- What New leaves behind.
  abbrev IsSound : List (Effect X Y) × Result (TelemetryError F) (Providers X Y) → Type 0
  IsSound (es, err e) = (traces_shut es ≡ traces_opened es) × (metrics_opened es ≡ [])
  IsSound (es, ok providers) =
      (x : X) × (y : Y) × (providers ≡ record { tracer = some x; meter = some y })
      × (traces_opened es ≡ x ∷ [])
      × (traces_shut es ≡ [])
      × (metrics_opened es ≡ y ∷ [])

  new_providers-IsSound : (sdk : Sdk F X Y) (c : TelemetryConfig) → IsSound (new_providers sdk c)
  unfolding new_providers
  new_providers-IsSound sdk c =
      option_elim IsSound (validate_telemetry {F = F} c) _ _ (λ e q. (refl, refl))
        (λ q.
          option_elim IsSound (sdk.new_resource c.service_name c.service_version c.environment) _ _
            (λ f q. (refl, refl))
            (λ q.
              result_elim IsSound (sdk.new_trace_exporter (exporter_options c)) _ _
                (λ f q. (refl, refl))
                (λ x q.
                  result_elim IsSound (sdk.new_metric_exporter (exporter_options c)) _ _
                    (λ f q. (refl, refl)) (λ y q. (x, y, refl, refl, refl, refl)))))

  -- The start of the module's runtime either fails, changes nothing and leaves no exporter open, or holds the
  -- two exporters that it opened, and then a stop flushes and shuts both and goes back to no tracing.
  pub start_providers_sound :
      (sdk : Sdk F X Y) (r : RuntimeProviders X Y)
      → let (r', es, e) = start_providers sdk r in HasFailed r r' es e ⊎ HasStarted r' es e
  unfolding start_providers stop_providers shutdown_providers
  start_providers_sound sdk r =
      let made = new_providers sdk r.config in
      let sound = new_providers-IsSound sdk r.config in
      elim (Result-cases made.1) [
        | inl (e, q) ↦
            let s = subst (λ z. IsSound (made.0, z)) q sound in
            rw (start_providers, q)
              (inl (record {
                unchanged = refl;
                error = e;
                reported = refl;
                released = s.0;
                no_metrics = s.1;
              }))
        | inr (providers, q) ↦
            let (x, y, same, opened, shut, metrics) = subst (λ z. IsSound (made.0, z)) q sound in
            rw (start_providers, q, same)
              (inr (record {
                trace = x;
                metric = y;
                no_error = refl;
                opened = opened;
                kept = shut;
                metrics = metrics;
                traces_with = refl;
                stopped = λ a. (refl, refl);
              }))
      ]
