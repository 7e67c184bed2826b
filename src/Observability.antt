-- ===== src/Observability.antt =====
-- observability/observability.go: the OpenTelemetry providers and the tracer that is exchanged under the
-- application. The SDK is an interface: `X` and `Y` are the types of the trace and the metric
-- exporters; a provider is known by its exporter.
pub mod Lifecycle
mod Tests
use hanami.Base.{
  ℕ, ℤ, pos, is_nonpositive, Bool, true, false, not, Option, none, some, List, [], ◌∷◌, ◌++◌,
  String, is_blank, to_errors, if◌then◌else◌, Result, ok, err,
}

pub record TelemetryConfig : Type 0 where
  pub enabled : Bool
  pub service_name : String
  pub service_version : String
  pub environment : String
  pub endpoint : String
  pub insecure : Bool
  pub export_timeout : ℤ
  pub metric_interval : ℤ

-- The options that both exporters are made with.
pub record ExporterOptions : Type 0 where
  pub timeout : ℤ
  pub with_endpoint : Option String
  pub without_tls : Bool

-- `resource.New` with the three attributes, and the exporters' `New`.
pub record Sdk (F X Y : Type 0) : Type 0 where
  pub new_resource : String → String → String → Option F
  pub new_trace_exporter : ExporterOptions → Result F X
  pub new_metric_exporter : ExporterOptions → Result F Y

pub data TelemetryError (F : Type 0) : Type 0 where
  telemetry_disabled service_name_empty : TelemetryError F
  resource_failed trace_exporter_failed metric_exporter_failed : F → TelemetryError F

-- What New does outside: the metric provider reads at an interval.
pub data Effect (X Y : Type 0) : Type 0 where
  trace_opened trace_shut : X → Effect X Y
  metric_opened : Y → Effect X Y
  globals_set : X → Y → ℤ → Effect X Y

pub record Providers (X Y : Type 0) : Type 0 where
  pub tracer : Option X
  pub meter : Option Y

-- `current` of the dynamic tracer: `none` is the no-op provider.
pub record RuntimeProviders (X Y : Type 0) : Type 0 where
  pub config : TelemetryConfig
  pub current : Option X
  pub active : Providers X Y

-- What the flushes and shutdowns of the two providers answer.
pub record Answers (F : Type 0) : Type 0 where
  pub meter_flush : Option F
  pub meter_shutdown : Option F
  pub tracer_flush : Option F
  pub tracer_shutdown : Option F

-- 5 s.
abbrev pub default_export_timeout : ℤ
default_export_timeout = pos 5000000000

-- 30 s.
abbrev pub default_metric_interval : ℤ
default_metric_interval = pos 30000000000

abbrev pub or_default : ℤ → ℤ → ℤ
or_default value default = if is_nonpositive value then default else value

unfoldable pub exporter_options : TelemetryConfig → ExporterOptions
exporter_options c = record {
  timeout = or_default c.export_timeout default_export_timeout;
  with_endpoint = if not (is_blank c.endpoint) then some c.endpoint else none;
  without_tls = c.insecure;
}

module _ {X Y : Type 0} where
  abbrev pub no_providers : Providers X Y
  no_providers = record { tracer = none; meter = none }

  -- What the module provides: the tracer is the no-op provider until the start.
  unfoldable pub new_runtime_providers : TelemetryConfig → RuntimeProviders X Y
  new_runtime_providers c = record { config = c; current = none; active = no_providers }

module _ {F : Type 0} where
  unfoldable pub validate_telemetry : TelemetryConfig → Option (TelemetryError F)
  validate_telemetry c =
      if not c.enabled
      then some telemetry_disabled
      else if is_blank c.service_name
      then some service_name_empty
      else none

module _ {F X Y : Type 0} where
  -- New, with what it does outside.
  unfoldable pub new_providers :
      Sdk F X Y → TelemetryConfig → List (Effect X Y) × Result (TelemetryError F) (Providers X Y)
  new_providers sdk c = elim (validate_telemetry {F = F} c) [
    | some e ↦ ([], err e)
    | none ↦ elim (sdk.new_resource c.service_name c.service_version c.environment) [
      | some f ↦ ([], err (resource_failed f))
      | none ↦ elim (sdk.new_trace_exporter (exporter_options c)) [
        | err f ↦ ([], err (trace_exporter_failed f))
        | ok x ↦ elim (sdk.new_metric_exporter (exporter_options c)) [
          | err f ↦ (trace_opened x ∷ trace_shut x ∷ [], err (metric_exporter_failed f))
          | ok y ↦ (
            trace_opened x
                ∷ metric_opened y
                ∷ globals_set x y (or_default c.metric_interval default_metric_interval)
                ∷ [],
            ok (record { tracer = some x; meter = some y }),
          )
        ]
      ]
    ]
  ]

  unfoldable pub start_providers :
      Sdk F X Y
      → RuntimeProviders X Y
      → RuntimeProviders X Y × List (Effect X Y) × Option (TelemetryError F)
  start_providers sdk r =
      let made = new_providers sdk r.config in
      elim made.1 [
        | err e ↦ (r, made.0, some e)
        | ok providers ↦ (record r { active = providers; current = providers.tracer }, made.0, none)
      ]

  -- The errors that Shutdown joins, and the exporters that it shuts.
  unfoldable pub shutdown_providers : Answers F → Providers X Y → List F
  shutdown_providers a providers =
      elim providers.meter [
        | none ↦ []
        | some y ↦ to_errors a.meter_flush ++ to_errors a.meter_shutdown
      ]
      ++ elim providers.tracer [
        | none ↦ []
        | some x ↦ to_errors a.tracer_flush ++ to_errors a.tracer_shutdown
      ]

  unfoldable pub stop_providers : Answers F → RuntimeProviders X Y → RuntimeProviders X Y × List F
  stop_providers a r = (record r { current = none }, shutdown_providers a r.active)
