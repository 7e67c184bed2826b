-- ===== src/Observability/Tests.antt =====
-- A start whose metric exporter cannot be made.
use hanami.Base.{ℕ, pos, ◌≡◌, refl, true, none, some, [], ◌∷◌, ok, err, ◌⊎◌}
use hanami.Observability.{
  TelemetryConfig, Sdk, RuntimeProviders, trace_opened, trace_shut, metric_exporter_failed,
  validate_telemetry, new_runtime_providers, new_providers, start_providers,
}
use hanami.Observability.Lifecycle.{HasFailed, HasStarted, start_providers_sound}

abbrev config : TelemetryConfig
config = record {
  enabled = true;
  service_name = "app";
  service_version = "1";
  environment = "test";
  endpoint = "";
  insecure = true;
  export_timeout = pos 0;
  metric_interval = pos 0;
}

abbrev sdk : Sdk ℕ ℕ ℕ
sdk = record {
  new_resource = λ name version environment. none;
  new_trace_exporter = λ options. ok 1;
  new_metric_exporter = λ options. err 8;
}

abbrev runtime : RuntimeProviders ℕ ℕ
runtime = record {
  config = config;
  current = none;
  active = record { tracer = none; meter = none };
}

fresh : new_runtime_providers config ≡ runtime
unfolding new_runtime_providers
fresh = refl

fails :
    start_providers sdk runtime
    ≡ (runtime, trace_opened 1 ∷ trace_shut 1 ∷ [], some (metric_exporter_failed 8))
unfolding start_providers new_providers validate_telemetry
fails = refl

start_providers_sound_example :
    let (r, effects, error) = start_providers sdk runtime in
    HasFailed runtime r effects error ⊎ HasStarted r effects error
start_providers_sound_example = start_providers_sound sdk runtime
