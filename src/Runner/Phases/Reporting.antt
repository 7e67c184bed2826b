-- ===== src/Runner/Phases/Reporting.antt =====
-- hanami.go, Run: what a run reports of its cleanups.
use mathlib.Core.List.{append-nil}
use hanami.Base.{
  ◌≡◌, refl, sym, ap, ◌∙◌, Option, some, List, [], ◌∷◌, ◌++◌, map, reverse, Option-cases,
  Result-cases, inl, inr, ◌⊎◌, String, arith, to_errors, option_elim, result_elim, err,
}
use hanami.Process.{Request}
use hanami.Runner.Settings.{
  Integration, Composition, RunError, cleanup_failed, runtime_failed, compose_failed, start_failed,
  initialize_failed, prepare_failed,
}
use hanami.Runner.Phases.{
  Effect, acquired, composed, started, initialized, admission_opened, admission_closed, stopped,
  released, Application, Wake, context_done, stop_requested, Exit, launch, supervise, run_prepared,
  run_cleanups, prepare_from, prepare_integrations, build_modules, stop_errors, list_of,
}
use hanami.Runner.Phases.Cleaning.{
  cleanup_errors, run_cleanups-effects, run_cleanups-errors, prepare_integrations-effects,
}

-- The cleanups that a trace acquired.
abbrev pub acquired_in : {K : Type 0} → List (Effect K) → List K
acquired_in [] = []
acquired_in (acquired k ∷ es) = k ∷ acquired_in es
acquired_in (_ ∷ es) = acquired_in es

-- The errors of cleanups among the errors of a run.
abbrev pub cleanup_part : {E : Type 0} → List (RunError E) → List (RunError E)
cleanup_part [] = []
cleanup_part (cleanup_failed e ∷ es) = cleanup_failed e ∷ cleanup_part es
cleanup_part (_ ∷ es) = cleanup_part es

module _ {K : Type 0} where
  acquired_in-append :
      (xs ys : List (Effect K)) → acquired_in (xs ++ ys) ≡ acquired_in xs ++ acquired_in ys
  acquired_in-append [] ys = refl
  acquired_in-append (acquired k ∷ xs) ys = ap (λ l. k ∷ l) (acquired_in-append xs ys)
  acquired_in-append (composed ∷ xs) ys = acquired_in-append xs ys
  acquired_in-append (started ∷ xs) ys = acquired_in-append xs ys
  acquired_in-append (initialized ∷ xs) ys = acquired_in-append xs ys
  acquired_in-append (admission_opened ∷ xs) ys = acquired_in-append xs ys
  acquired_in-append (admission_closed ∷ xs) ys = acquired_in-append xs ys
  acquired_in-append (stopped ∷ xs) ys = acquired_in-append xs ys
  acquired_in-append (released k ∷ xs) ys = acquired_in-append xs ys

  acquired_in-acquired : (ks : List K) → acquired_in (map acquired ks) ≡ ks
  acquired_in-acquired [] = refl
  acquired_in-acquired (k ∷ ks) = ap (λ l. k ∷ l) (acquired_in-acquired ks)

  acquired_in-released : (ks : List K) → acquired_in (map released ks) ≡ []
  acquired_in-released [] = refl
  acquired_in-released (k ∷ ks) = acquired_in-released ks

module _ {E : Type 0} where
  cleanup_part-append :
      (xs ys : List (RunError E)) → cleanup_part xs ≡ [] → cleanup_part (xs ++ ys) ≡ cleanup_part ys
  cleanup_part-append [] ys h = refl
  cleanup_part-append (x ∷ xs) ys h = ground (arith, cleanup_part-append xs ys)

Wake-cases :
    {E : Type 0} (w : Wake E) → (w ≡ context_done) ⊎ ((r : Request E) × (w ≡ stop_requested r))
Wake-cases context_done = inl refl
Wake-cases (stop_requested r) = inr (r, refl)

module _ {K E : Type 0} (clean : K → Option E) where
  cleanup_part-cleanup_errors :
      (ks : List K) → cleanup_part (cleanup_errors clean ks) ≡ cleanup_errors clean ks
  cleanup_part-cleanup_errors [] = refl
  cleanup_part-cleanup_errors (k ∷ ks) = elim (Option-cases (clean k)) [
    | inl e ↦ rw e (cleanup_part-cleanup_errors ks)
    | inr (x, e) ↦ rw e (ap (λ l. cleanup_failed x ∷ l) (cleanup_part-cleanup_errors ks))
  ]

  -- The errors of cleanups that an exit reports are those of the cleanups that were acquired and fail, each
  -- once, the last one acquired first.
  abbrev pub IsReported : Exit K E → Type 0
  IsReported x = cleanup_part x.errors ≡ cleanup_errors clean (reverse (acquired_in x.effects))

  module _ (ks : List K) where
    acquired_before :
        (before between : List (Effect K))
        → acquired_in before ≡ ks
        → acquired_in between ≡ []
        → acquired_in (before ++ (between ++ (run_cleanups clean ks).effects)) ≡ ks
    acquired_before before between a b =
        acquired_in-append before _
        ∙ ap (λ l. acquired_in before ++ l) (acquired_in-append between _)
        ∙ ap (λ l. acquired_in before ++ (l ++ acquired_in (run_cleanups clean ks).effects)) b
        ∙ ap (λ es. acquired_in before ++ acquired_in es) (run_cleanups-effects clean ks)
        ∙ ap (λ l. acquired_in before ++ l) (acquired_in-released (reverse ks))
        ∙ append-nil (acquired_in before)
        ∙ a

    reported :
        (own stops : List (RunError E)) (before between : List (Effect K))
        → cleanup_part own ≡ []
        → cleanup_part stops ≡ []
        → acquired_in before ≡ ks
        → acquired_in between ≡ []
        → cleanup_part (own ++ (stops ++ (run_cleanups clean ks).errors))
          ≡ cleanup_errors clean
              (reverse (acquired_in (before ++ (between ++ (run_cleanups clean ks).effects))))
    reported own stops before between o s a b =
        cleanup_part-append own _ o
        ∙ cleanup_part-append stops _ s
        ∙ ap cleanup_part (run_cleanups-errors clean ks)
        ∙ cleanup_part-cleanup_errors (reverse ks)
        ∙ sym (ap (λ l. cleanup_errors clean (reverse l)) (acquired_before before between a b))

    no_stop_cleanups : (app : Application E) → cleanup_part (stop_errors app) ≡ []
    no_stop_cleanups app = ground arith

    no_runtime_cleanups : (e : Option E) → cleanup_part (map runtime_failed (to_errors e)) ≡ []
    no_runtime_cleanups e = ground arith

    supervise-IsReported :
        (app : Application E) (before : List (Effect K))
        → acquired_in before ≡ ks
        → IsReported (supervise clean ks app before)
    unfolding supervise
    supervise-IsReported app before a = elim (Wake-cases app.wake) [
      | inl w ↦
          rw (w, supervise)
            (reported [] (stop_errors app) before
              (admission_opened ∷ admission_closed ∷ stopped ∷ []) refl (no_stop_cleanups app) a
              refl)
      | inr (r, w) ↦
          rw (w, supervise)
            (reported (map runtime_failed (to_errors r.err)) (stop_errors app) before
              (admission_opened ∷ admission_closed ∷ stopped ∷ []) (no_runtime_cleanups r.err)
              (no_stop_cleanups app) a refl)
    ]

    launch-IsReported :
        (app : Application E) (before : List (Effect K))
        → acquired_in before ≡ ks
        → IsReported (launch clean ks app before)
    unfolding launch
    launch-IsReported app before a =
        let stops = no_stop_cleanups app in
        option_elim IsReported app.composition_err _ _
          (λ e q. reported (compose_failed e ∷ []) [] before [] refl refl a refl)
          (λ q.
            option_elim IsReported app.start _ _
              (λ e q.
                reported (start_failed e ∷ []) (stop_errors app) before (composed ∷ stopped ∷ [])
                  refl stops a refl)
              (λ q.
                option_elim IsReported app.initialize _ _
                  (λ e q.
                    reported (initialize_failed e ∷ []) (stop_errors app) before
                      (composed ∷ started ∷ admission_closed ∷ stopped ∷ []) refl stops a refl)
                  (λ q.
                    supervise-IsReported app (before ++ (composed ∷ started ∷ initialized ∷ [])) (
                      acquired_in-append before (composed ∷ started ∷ initialized ∷ [])
                      ∙ append-nil (acquired_in before)
                      ∙ a))))

module _ {C K V E : Type 0} (config : C) where
  prepare_from-failure :
      (is : List (Integration C K V E)) (cs : List K) (vs : List V) (es : List (Effect K))
      (e : RunError E)
      → (prepare_from cs vs es config is).failure ≡ some e
      → cleanup_part (e ∷ []) ≡ []
  unfolding prepare_from
  prepare_from-failure [] cs vs es e h = absurd (cc)
  prepare_from-failure (i ∷ is) cs vs es e h = elim (Result-cases (i.prepare config)) [
    | inl (x, q) ↦ let named : e ≡ prepare_failed i.name x = ground arith in rw named refl
    | inr (p, q) ↦
        prepare_from-failure is (cs ++ list_of p.cleanup) (vs ++ p.values)
          (es ++ map acquired (list_of p.cleanup)) e (ground arith)
  ]

  prepare_integrations-failure :
      (is : List (Integration C K V E)) (e : RunError E)
      → (prepare_integrations config is).failure ≡ some e
      → cleanup_part (e ∷ []) ≡ []
  unfolding prepare_integrations
  prepare_integrations-failure is = prepare_from-failure is [] [] []

build_modules-failure :
    {C M E : Type 0} (factory : C → Composition M E) (config : C) (e : RunError E)
    → build_modules factory config ≡ err e
    → cleanup_part (e ∷ []) ≡ []
unfolding build_modules
build_modules-failure factory config e h = ground arith

-- Whatever fails before, the errors of cleanups that a run reports are those of the cleanups that its
-- integrations acquired and that fail, each once, the last one acquired first.
pub run_prepared-IsReported :
    {C K V M L E : Type 0} (default_logger : String → L) (clean : K → Option E)
    (application : M → List V → Application E) (factory : C → Composition M E) (config : C)
    (is : List (Integration C K V E))
    → IsReported clean (run_prepared default_logger clean application factory config is)
unfolding run_prepared
run_prepared-IsReported default_logger clean application factory config is =
    let P = IsReported clean in
    let prepared = prepare_integrations config is in
    let ks = prepared.cleanups in
    let held : acquired_in prepared.effects ≡ ks =
      ap acquired_in (prepare_integrations-effects config is) ∙ acquired_in-acquired ks in
    let failed = λ (e : RunError _) (own : cleanup_part (e ∷ []) ≡ []).
      reported clean ks (e ∷ []) [] prepared.effects [] own refl held refl in
    option_elim P prepared.failure _ _
      (λ e q. failed e (prepare_integrations-failure config is e q))
      (λ q.
        result_elim P (build_modules factory config) _ _
          (λ e r. failed e (build_modules-failure factory config e r))
          (λ m r. launch-IsReported clean ks (application m prepared.values) prepared.effects held))
