-- ===== src/Runner/Tests.antt =====
-- Runs of the runner.
use hanami.Base.{
  ℕ, zero, suc, pos, ◌≡◌, refl, true, Option, none, some, List, [], ◌∷◌, ◌++◌, String, ok, err,
  contains, check_each,
}
use hanami.Process.{stop_reason_requested}
use hanami.Runner.Settings.{
  Composition, Spec, Integration, RunOption, with_integration, RunSettings, resolve_settings,
  start_failed, cleanup_failed, integration_twice,
}
use hanami.Runner.Settings.Resolve.{resolve_settings-ok, selected}
use hanami.Runner.Phases.{
  Application, stop_requested, run, exit_code, startup_failure, acquired, composed, stopped,
  released, run_prepared,
}
use hanami.Runner.Phases.Trace.{IsComplete, run-IsComplete}
use hanami.Runner.Phases.Outcomes.{run-startup_failure}
use hanami.Runner.Phases.Reporting.{IsReported, run_prepared-IsReported}

abbrev logger : String → ℕ
logger name = 0

-- The cleanup of the lock fails with 4.
abbrev clean : ℕ → Option ℕ
clean zero = some 4
clean (suc k) = none

abbrev integration : String → ℕ → Integration ℕ ℕ ℕ ℕ
integration name k = record {
  name = name;
  prepare = λ config. ok (record { cleanup = some k; values = k ∷ [] });
}

abbrev options : List (RunOption ℕ ℕ ℕ ℕ ℕ)
options =
    with_integration (some (integration "ownership" 0))
    ∷ with_integration (some (integration "security" 1))
    ∷ []

abbrev spec : Spec ℕ ℕ ℕ
spec = record {
  name = "demo";
  load = some (ok 3);
  modules = some (λ config. Composition.returned (some config));
}

abbrev healthy : Application ℕ
healthy = record {
  composition_err = none;
  start = none;
  initialize = none;
  wake =
      stop_requested
        (record { reason = stop_reason_requested; err = none; external_restart_required = true });
  stop = none;
}

-- The application fails to start with error 9.
abbrev broken : ℕ → List ℕ → Application ℕ
broken modules values = record healthy { start = some 9 }

broken_effects :
    (run logger clean broken spec options).effects
    ≡ acquired 0 ∷ acquired 1 ∷ composed ∷ stopped ∷ released 1 ∷ released 0 ∷ []
unfolding run check_each contains
broken_effects = refl

broken_errors :
    (run logger clean broken spec options).errors ≡ start_failed 9 ∷ cleanup_failed 4 ∷ []
unfolding run check_each contains
broken_errors = refl

repeated_integration :
    resolve_settings logger spec (options ++ options) ≡ err (integration_twice "ownership")
unfolding resolve_settings check_each contains
repeated_integration = refl

run-IsComplete_example : IsComplete (run logger clean broken spec options).effects
run-IsComplete_example = run-IsComplete logger clean broken spec options

run-startup_failure_example :
    exit_code startup_failure (run logger clean broken spec options).errors ≡ 2
unfolding run check_each contains
run-startup_failure_example = ((run-startup_failure logger clean broken spec options).1 refl).2

abbrev factory : ℕ → Composition ℕ ℕ
factory config = Composition.returned (some config)

abbrev integrations : List (Integration ℕ ℕ ℕ ℕ)
integrations = integration "ownership" 0 ∷ integration "security" 1 ∷ []

run_prepared-IsReported_example :
    IsReported clean (run_prepared logger clean broken factory 3 integrations)
run_prepared-IsReported_example = run_prepared-IsReported logger clean broken factory 3 integrations

abbrev settings : RunSettings ℕ ℕ ℕ ℕ ℕ
settings = record {
  integrations = integration "ownership" 0 ∷ integration "security" 1 ∷ [];
  timeouts = record { startup = pos 15000000000; shutdown = pos 30000000000 };
  logger = 0;
}

resolves : resolve_settings logger spec options ≡ ok settings
unfolding resolve_settings check_each contains
resolves = refl

resolve_settings-ok_example : settings.integrations ≡ selected options
resolve_settings-ok_example = (resolve_settings-ok logger spec options settings resolves).1.1
