-- ===== src/Runner/Phases.antt =====
-- hanami.go: `Run` and what it calls. The code that a run calls (the Fx graph, the
-- integrations, the cleanups) is an argument. A run returns what `Run` returns, and the list of
-- its effects in order; timeouts are those of the settings and bound calls that are arguments here.
pub mod Cleaning
pub mod Trace
pub mod Holding
pub mod Outcomes
pub mod Reporting
use hanami.Base.{
  Bool, true, false, not, ◌&&◌, Option, none, some, List, [], ◌∷◌, ◌++◌, map, reverse, String, ℕ,
  Result, ok, err, to_errors, if◌then◌else◌, str_eq, is_empty,
}
use hanami.Process.{Request, StopReason, stop_reason_context_cancelled, stop_reason_startup_failure}
use hanami.Bootstrap.{Admission, new_admission, open_admission, close_admission}
use hanami.Runner.Settings.{
  Composition, panicked, returned, Spec, Prepared, Integration, RunSettings, RunOption, RunError,
  modules_nil, load_failed, modules_panicked, compose_failed, start_failed, initialize_failed,
  stop_failed, cleanup_failed, runtime_failed, prepare_failed, loader_nil, module_factory_nil,
  resolve_settings,
}

-- What the `select` of the supervised phase received.
pub data Wake (E : Type 0) : Type 0 where
  context_done : Wake E
  stop_requested : Request E → Wake E

-- The application that `fx.New` builds: its construction error, and what its calls return.
pub record Application (E : Type 0) : Type 0 where
  pub composition_err : Option E
  pub start : Option E
  pub initialize : Option E
  pub wake : Wake E
  pub stop : Option E

pub data Effect (K : Type 0) : Type 0 where
  acquired : K → Effect K
  composed started initialized : Effect K
  admission_opened admission_closed : Effect K
  stopped : Effect K
  released : K → Effect K

pub record RunResult : Type 0 where
  pub reason : StopReason
  pub external_restart_required : Bool

-- `errors` is nil when it is empty; `admission` is the flag when `Run` returns.
pub record Exit (K E : Type 0) : Type 0 where
  pub result : RunResult
  pub errors : List (RunError E)
  pub effects : List (Effect K)
  pub admission : Admission

abbrev pub startup_failure : RunResult
startup_failure = record { reason = stop_reason_startup_failure; external_restart_required = false }

module _ {C M E : Type 0} where
  -- The deferred `recover` turns a panic of the factory into an error.
  unfoldable pub build_modules : (C → Composition M E) → C → Result (RunError E) M
  build_modules factory config = elim (factory config) [
    | panicked p ↦ err (modules_panicked p)
    | returned modules ↦ elim modules [ none ↦ err modules_nil | some m ↦ ok m ]
  ]

-- `preparedIntegrations`, with the error that ended the loop and the effects of the loop: a cleanup that
-- `Prepare` returns is one that was acquired.
pub record Preparation (K V E : Type 0) : Type 0 where
  pub cleanups : List K
  pub values : List V
  pub effects : List (Effect K)
  pub failure : Option (RunError E)

abbrev pub list_of {ℓ} : {A : Type ℓ} → Option A → List A
list_of none = []
list_of (some a) = a ∷ []

module _ {C K V E : Type 0} where
  unfoldable pub prepare_from :
      List K → List V → List (Effect K) → C → List (Integration C K V E) → Preparation K V E
  prepare_from cleanups values effects config [] = record {
    cleanups = cleanups;
    values = values;
    effects = effects;
    failure = none;
  }
  prepare_from cleanups values effects config (i ∷ is) = elim (i.prepare config) [
    | err e ↦ record {
      cleanups = cleanups;
      values = values;
      effects = effects;
      failure = some (prepare_failed i.name e);
    }
    | ok p ↦
        prepare_from (cleanups ++ list_of p.cleanup) (values ++ p.values)
          (effects ++ map acquired (list_of p.cleanup)) config is
  ]

  unfoldable pub prepare_integrations : C → List (Integration C K V E) → Preparation K V E
  unfolding prepare_from
  prepare_integrations = prepare_from [] [] []

-- The errors that the cleanups' calls joined, and the calls.
pub record Cleaned (K E : Type 0) : Type 0 where
  pub errors : List (RunError E)
  pub effects : List (Effect K)

module _ {K E : Type 0} (clean : K → Option E) where
  -- `slices.Backward`: the loop over the reversed list.
  unfoldable pub join_cleanups : Cleaned K E → List K → Cleaned K E
  join_cleanups result [] = result
  join_cleanups result (k ∷ ks) =
      join_cleanups
        (record {
          errors = elim (clean k) [
            | none ↦ result.errors
            | some e ↦ result.errors ++ (cleanup_failed e ∷ [])
          ];
          effects = result.effects ++ (released k ∷ []);
        })
        ks

  unfoldable pub run_cleanups : List K → Cleaned K E
  unfolding join_cleanups
  run_cleanups cleanups = join_cleanups (record { errors = []; effects = [] }) (reverse cleanups)

-- The errors of `application.Stop`.
abbrev pub stop_errors : {E : Type 0} → Application E → List (RunError E)
stop_errors app = map stop_failed (to_errors app.stop)

module _ {K E : Type 0} (clean : K → Option E) (cleanups : List K) where
  -- From `fx.New` to the return; `before` is the list of effects so far.
  unfoldable pub supervise : Application E → List (Effect K) → Exit K E
  unfolding run_cleanups open_admission close_admission new_admission
  supervise app before =
      let cleaned = run_cleanups clean cleanups in
      let shutdown = stop_errors app ++ cleaned.errors in
      let effects = before ++ (admission_opened ∷ admission_closed ∷ stopped ∷ cleaned.effects) in
      let admission = close_admission (open_admission new_admission) in
      elim app.wake [
        | context_done ↦ record {
          result = record {
            reason = stop_reason_context_cancelled;
            external_restart_required = false;
          };
          errors = shutdown;
          effects = effects;
          admission = admission;
        }
        | stop_requested r ↦ record {
          result = record {
            reason = r.reason;
            external_restart_required = r.external_restart_required;
          };
          errors = map runtime_failed (to_errors r.err) ++ shutdown;
          effects = effects;
          admission = admission;
        }
      ]

  unfoldable pub launch : Application E → List (Effect K) → Exit K E
  unfolding supervise run_cleanups close_admission new_admission
  launch app before =
      let cleaned = run_cleanups clean cleanups in
      let cleanup = cleaned.errors in
      elim app.composition_err [
        | some e ↦ record {
          result = startup_failure;
          errors = compose_failed e ∷ cleanup;
          effects = before ++ cleaned.effects;
          admission = new_admission;
        }
        | none ↦ elim app.start [
          | some e ↦ record {
            result = startup_failure;
            errors = start_failed e ∷ (stop_errors app ++ cleanup);
            effects = before ++ (composed ∷ stopped ∷ cleaned.effects);
            admission = new_admission;
          }
          | none ↦ elim app.initialize [
            | some e ↦ record {
              result = startup_failure;
              errors = initialize_failed e ∷ (stop_errors app ++ cleanup);
              effects =
                  before ++ (composed ∷ started ∷ admission_closed ∷ stopped ∷ cleaned.effects);
              admission = close_admission new_admission;
            }
            | none ↦ supervise app (before ++ (composed ∷ started ∷ initialized ∷ []))
          ]
        ]
      ]

abbrev pub early_exit : {K E : Type 0} → RunError E → Exit K E
early_exit e = record {
  result = startup_failure;
  errors = e ∷ [];
  effects = [];
  admission = record { is_open = false };
}

module _ {C K V M L E : Type 0} (default_logger : String → L) (clean : K → Option E)
    (application : M → List V → Application E) where
  unfoldable pub run_prepared : (C → Composition M E) → C → List (Integration C K V E) → Exit K E
  unfolding prepare_integrations build_modules launch run_cleanups new_admission
  run_prepared factory config integrations =
      let prepared = prepare_integrations config integrations in
      let before = prepared.effects in
      let cleaned = run_cleanups clean prepared.cleanups in
      let failed : (RunError E → Exit K E) = λ e. record {
        result = startup_failure;
        errors = e ∷ cleaned.errors;
        effects = before ++ cleaned.effects;
        admission = new_admission;
      } in
      elim prepared.failure [
        | some e ↦ failed e
        | none ↦ elim (build_modules factory config) [
          | err e ↦ failed e
          | ok modules ↦ launch clean prepared.cleanups (application modules prepared.values) before
        ]
      ]

  unfoldable pub run : Spec C M E → List (RunOption C K V L E) → Exit K E
  unfolding resolve_settings run_prepared new_admission
  run spec options = elim (resolve_settings default_logger spec options) [
    | err e ↦ early_exit e
    | ok settings ↦ elim spec.load [
      | none ↦ early_exit loader_nil
      | some loaded ↦ elim loaded [
        | err e ↦ early_exit (load_failed e)
        | ok config ↦ elim spec.modules [
          | none ↦ early_exit module_factory_nil
          | some factory ↦ run_prepared factory config settings.integrations
        ]
      ]
    ]
  ]

-- The process exit status.
unfoldable pub exit_code : {E : Type 0} → RunResult → List (RunError E) → ℕ
exit_code result errors =
    if is_empty errors && not result.external_restart_required
    then 0
    else if str_eq result.reason stop_reason_startup_failure
    then 2
    else 1
