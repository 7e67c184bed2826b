-- ===== src/Runner/Phases/Outcomes.antt =====
-- hanami.go, Run and exitCode: what a run reports and the exit status made of it.
use hanami.Base.{
  ◌≡◌, ◌≢◌, refl, ap, ◌∙◌, Bool, true, false, ◌||◌, Option, List, [], ◌∷◌, ◌++◌, map, reverse,
  Option-cases, Result-cases, inl, inr, ◌⊎◌, String, arith, ◌≤◌, is_empty, eq_iff, ◌↔◌,
}
use hanami.Process.{stop_reason_startup_failure}
use hanami.Runner.Settings.{Spec, Integration, RunOption, Composition, RunError, resolve_settings}
use hanami.Runner.Phases.{
  Effect, acquired, composed, started, initialized, admission_opened, admission_closed, stopped,
  released, Application, Exit, launch, supervise, run_prepared, run, run_cleanups,
  prepare_integrations, build_modules, startup_failure, exit_code, RunResult,
}
use hanami.Runner.Phases.Cleaning.{run_cleanups-effects, prepare_integrations-effects}

module _ {K : Type 0} where
  abbrev opens_admission : Effect K → Bool
  opens_admission admission_opened = true
  opens_admission _ = false

  -- Whether admission was opened at some point of a trace.
  abbrev pub opens : List (Effect K) → Bool
  opens [] = false
  opens (e ∷ es) = opens_admission e || opens es

  opens-append : (xs ys : List (Effect K)) → opens (xs ++ ys) ≡ (opens xs || opens ys)
  opens-append [] ys = refl
  opens-append (x ∷ xs) ys = ground (arith, opens-append xs ys)

  opens-acquired : (ks : List K) → opens (map acquired ks) ≡ false
  opens-acquired [] = refl
  opens-acquired (k ∷ ks) = opens-acquired ks

  opens-released : (ks : List K) → opens (map released ks) ≡ false
  opens-released [] = refl
  opens-released (k ∷ ks) = opens-released ks

-- Of an exit: either admission was never opened, the result is a startup failure and there is
-- an error, or admission was opened; at the return it is closed in both cases.
abbrev pub IsAccounted : {K E : Type 0} → Exit K E → Type 0
IsAccounted x =
    (x.admission.is_open ≡ false)
    × ((opens x.effects ≡ true)
        ⊎ ((opens x.effects ≡ false) × (x.result ≡ startup_failure) × (is_empty x.errors ≡ false)))

module _ {K E : Type 0} (clean : K → Option E) (ks : List K) where
  supervise-IsAccounted :
      (app : Application E) (before : List (Effect K)) → IsAccounted (supervise clean ks app before)
  unfolding supervise
  supervise-IsAccounted app before =
      let tail = admission_opened ∷ admission_closed ∷ stopped ∷ (run_cleanups clean ks).effects in
      ground (arith, opens-append before tail)

  opens-run_cleanups : opens (run_cleanups clean ks).effects ≡ false
  opens-run_cleanups = ap opens (run_cleanups-effects clean ks) ∙ opens-released (reverse ks)

  unwound :
      (before : List (Effect K))
      → opens before ≡ false
      → opens (before ++ (run_cleanups clean ks).effects) ≡ false
  unwound before h =
      ground (arith, opens-append before (run_cleanups clean ks).effects, opens-run_cleanups)

  launch-IsAccounted :
      (app : Application E) (before : List (Effect K))
      → opens before ≡ false
      → IsAccounted (launch clean ks app before)
  unfolding launch
  launch-IsAccounted app before h = ground (
    arith,
    unwound before,
    opens-append before (composed ∷ stopped ∷ (run_cleanups clean ks).effects),
    opens-append before
        (composed ∷ started ∷ admission_closed ∷ stopped ∷ (run_cleanups clean ks).effects),
    opens-run_cleanups,
    supervise-IsAccounted app (before ++ (composed ∷ started ∷ initialized ∷ [])),
  )

startup_failure-exit_code :
    {E : Type 0} (es : List (RunError E)) → is_empty es ≡ false → exit_code startup_failure es ≡ 2
unfolding exit_code
startup_failure-exit_code [] h = cc
startup_failure-exit_code (e ∷ es) h = refl

module _ {C K V M L E : Type 0} (default_logger : String → L) (clean : K → Option E)
    (application : M → List V → Application E) where
  run_prepared-IsAccounted :
      (factory : C → Composition M E) (config : C) (is : List (Integration C K V E))
      → IsAccounted (run_prepared default_logger clean application factory config is)
  unfolding run_prepared
  run_prepared-IsAccounted factory config is =
      let ks = (prepare_integrations config is).cleanups in
      let before = (prepare_integrations config is).effects in
      let unopened : opens before ≡ false =
        ap opens (prepare_integrations-effects config is) ∙ opens-acquired ks in
      elim (Option-cases (prepare_integrations config is).failure) [
        | inr (x, e) ↦
            rw (e, run_prepared) (refl, inr (unwound clean ks before unopened, refl, refl))
        | inl e ↦ elim (Result-cases (build_modules factory config)) [
          | inl (x, f) ↦
              rw (e, run_prepared) (rw f (refl, inr (unwound clean ks before unopened, refl, refl)))
          | inr (m, f) ↦
              rw (e, run_prepared)
                (rw f (
                  launch-IsAccounted clean ks
                    (application m (prepare_integrations config is).values) before unopened))
        ]
      ]

  run-IsAccounted :
      (spec : Spec C M E) (options : List (RunOption C K V L E))
      → IsAccounted (run default_logger clean application spec options)
  unfolding run
  run-IsAccounted spec options =
      elim (Result-cases (resolve_settings default_logger spec options)) [
        | inl (x, e) ↦ rw (e, run) (refl, inr (refl, refl, refl))
        | inr (settings, e) ↦ elim (Option-cases spec.load) [
          | inl f ↦ rw (e, run) (rw f (refl, inr (refl, refl, refl)))
          | inr (loaded, f) ↦ elim (Result-cases loaded) [
            | inl (x, g) ↦ rw (e, run) (rw f (rw g (refl, inr (refl, refl, refl))))
            | inr (config, g) ↦ elim (Option-cases spec.modules) [
              | inl h ↦ rw (e, run) (rw f (rw g (rw h (refl, inr (refl, refl, refl)))))
              | inr (factory, h) ↦
                  rw (e, run)
                    (rw f
                      (rw g (rw h (run_prepared-IsAccounted factory config settings.integrations))))
            ]
          ]
        ]
      ]

  -- A run leaves admission closed. If it never opened admission, it reports a startup failure
  -- with an error, and the process exits with status 2: no failed startup is silent.
  pub run-startup_failure :
      (spec : Spec C M E) (options : List (RunOption C K V L E))
      → let x = run default_logger clean application spec options in
        (x.admission.is_open ≡ false)
        × (opens x.effects ≡ false
            → (x.result ≡ startup_failure)
              × (is_empty x.errors ≡ false)
              × (exit_code x.result x.errors ≡ 2))
  run-startup_failure spec options =
      let a = run-IsAccounted spec options in
      (
        a.0,
        λ h. elim a.1 [
          | inl o ↦ absurd (cc)
          | inr c ↦ (c.1, c.2, rw c.1 (startup_failure-exit_code _ c.2))
        ],
      )

-- The process exits with status 0 exactly when the run returned no error and asks for no
-- external restart; otherwise with 2 exactly when the reason is a startup failure, and else with 1.
pub exit_code-cases :
    {E : Type 0} (r : RunResult) (es : List (RunError E))
    → ((exit_code r es ≡ 0) ↔ ((es ≡ []) × (r.external_restart_required ≡ false)))
      × ((exit_code r es ≡ 2) ↔ (
          (r.reason ≡ stop_reason_startup_failure)
          × ((es ≢ []) ⊎ (r.external_restart_required ≡ true))))
      × (exit_code r es ≤ 2)
unfolding exit_code
exit_code-cases r [] = (
  (λ h. ground (arith, eq_iff r.reason stop_reason_startup_failure), λ h. ground arith),
  (
    λ h. (
      ground (arith, eq_iff r.reason stop_reason_startup_failure),
      ground (arith, eq_iff r.reason stop_reason_startup_failure),
    ),
    λ h. ground (arith, eq_iff r.reason stop_reason_startup_failure),
  ),
  ground arith,
)
exit_code-cases r (e ∷ es) = (
  (λ h. ground (arith, eq_iff r.reason stop_reason_startup_failure), λ h. absurd (cc (h.0))),
  (
    λ h. (ground (arith, eq_iff r.reason stop_reason_startup_failure), inl (λ k. cc)),
    λ h. ground (arith, eq_iff r.reason stop_reason_startup_failure),
  ),
  ground arith,
)
