-- ===== src/Runner/Phases/Trace.antt =====
-- hanami.go, Run: the life cycle that the README draws, as a relation over the effects of a run.

use mathlib.Core.List.{append-nil, append_assoc, reverse-cons}
use hanami.Base.{
  refl, ◌≡◌, sym, ◌∙◌, ap, subst, Option, List, [], ◌∷◌, ◌++◌, map, reverse, Option-cases,
  Result-cases, inl, inr, ◌⊎◌, String, arith,
}
use hanami.Runner.Settings.{Spec, Integration, RunOption, Composition, resolve_settings}
use hanami.Runner.Phases.{
  Effect, acquired, composed, started, initialized, admission_opened, admission_closed, stopped,
  released, run_cleanups, Application, launch, supervise, run_prepared, run, prepare_integrations,
  build_modules,
}
use hanami.Runner.Phases.Cleaning.{releases, run_cleanups-effects, prepare_integrations-effects}

pub data Phase : Type 0 where
  preparing composing starting ready admitted closing halted : Phase

module _ {K : Type 0} where
  -- The phase and the cleanups held, the last one acquired first, before and after an effect.
  pub data Step : Phase → List K → Effect K → Phase → List K → Type 0 where
    acquire : {ks : List K} (k : K) → Step preparing ks (acquired k) preparing (k ∷ ks)
    compose : {ks : List K} → Step preparing ks composed composing ks
    start : {ks : List K} → Step composing ks started starting ks
    initialize : {ks : List K} → Step starting ks initialized ready ks
    open_admission : {ks : List K} → Step ready ks admission_opened admitted ks
    close_admission : {ks : List K} → Step admitted ks admission_closed closing ks
    -- a failed startup condition
    refuse_admission : {ks : List K} → Step starting ks admission_closed closing ks
    stop : {ks : List K} → Step closing ks stopped halted ks
    -- a failed start
    stop_unstarted : {ks : List K} → Step composing ks stopped halted ks
    release : {ks : List K} (k : K) → Step halted (k ∷ ks) (released k) halted ks
    -- a failure before the application was composed
    release_uncomposed : {ks : List K} (k : K) → Step preparing (k ∷ ks) (released k) halted ks

  pub data Follows : Phase → List K → List (Effect K) → Phase → List K → Type 0 where
    here : {p : Phase} {ks : List K} → Follows p ks [] p ks
    then_by :
        {p q r : Phase} {ks ls ms : List K} {e : Effect K} {es : List (Effect K)}
        → Step p ks e q ls
        → Follows q ls es r ms
        → Follows p ks (e ∷ es) r ms

  Follows-append :
      {p q r : Phase} {ks ls ms : List K} {xs ys : List (Effect K)}
      → Follows p ks xs q ls
      → Follows q ls ys r ms
      → Follows p ks (xs ++ ys) r ms
  Follows-append here g = g
  Follows-append (then_by s f) g = then_by s (Follows-append f g)

  acquire_all :
      (held ks : List K) → Follows preparing held (map acquired ks) preparing (reverse ks ++ held)
  acquire_all held [] = here
  acquire_all held (k ∷ ks) = then_by (acquire k) (
      subst (Follows preparing (k ∷ held) (map acquired ks) preparing)
        (sym (ap (λ l. l ++ held) (reverse-cons k ks) ∙ append_assoc (reverse ks) (k ∷ []) held))
        (acquire_all (k ∷ held) ks))

  release_all : (ks : List K) → Follows halted ks (map released ks) halted []
  release_all [] = here
  release_all (k ∷ ks) = then_by (release k) (release_all ks)

  -- A trace that starts with nothing held and ends holding nothing.
  abbrev pub IsComplete : List (Effect K) → Type 0
  IsComplete es = Follows preparing [] es preparing [] ⊎ Follows preparing [] es halted []

  release_uncomposed_all :
      (ks : List K)
      → Follows preparing ks (map released ks) preparing []
        ⊎ Follows preparing ks (map released ks) halted []
  release_uncomposed_all [] = inl here
  release_uncomposed_all (k ∷ ks) = inr (then_by (release_uncomposed k) (release_all ks))

  acquired_first : (ks : List K) → Follows preparing [] (map acquired ks) preparing (reverse ks)
  acquired_first ks =
      subst (Follows preparing [] (map acquired ks) preparing) (append-nil (reverse ks))
        (acquire_all [] ks)

  unwind-IsComplete : (ks : List K) → IsComplete (map acquired ks ++ releases ks)
  unwind-IsComplete ks = elim (release_uncomposed_all (reverse ks)) [
    | inl f ↦ inl (Follows-append (acquired_first ks) f)
    | inr f ↦ inr (Follows-append (acquired_first ks) f)
  ]

module _ {K E : Type 0} (clean : K → Option E) (ks : List K) where
  -- A trace that goes on from the acquisitions to the phase that releases.
  halted-IsComplete :
      (es : List (Effect K))
      → Follows preparing (reverse ks) es halted (reverse ks)
      → IsComplete (map acquired ks ++ (es ++ (run_cleanups clean ks).effects))
  halted-IsComplete es f =
      subst (λ rs. IsComplete (map acquired ks ++ (es ++ rs))) (sym (run_cleanups-effects clean ks))
        (inr (Follows-append (acquired_first ks) (Follows-append f (release_all (reverse ks)))))

  unwound-IsComplete :
      (before : List (Effect K))
      → before ≡ map acquired ks
      → IsComplete (before ++ (run_cleanups clean ks).effects)
  unwound-IsComplete before h =
      subst IsComplete
        (sym (
          ap (λ b. b ++ (run_cleanups clean ks).effects) h
          ∙ ap (λ rs. map acquired ks ++ rs) (run_cleanups-effects clean ks)))
        (unwind-IsComplete ks)

  pub supervise-effects :
      (app : Application E) (before : List (Effect K))
      → (supervise clean ks app before).effects
        ≡ before
          ++ (admission_opened ∷ admission_closed ∷ stopped ∷ (run_cleanups clean ks).effects)
  unfolding supervise
  supervise-effects app before = ground arith

  launch-IsComplete :
      (app : Application E) → IsComplete (launch clean ks app (map acquired ks)).effects
  unfolding launch
  launch-IsComplete app = elim (Option-cases app.composition_err) [
    | inr (x, e) ↦ rw (e, launch) (unwound-IsComplete _ refl)
    | inl e ↦ elim (Option-cases app.start) [
      | inr (x, f) ↦
          rw (e, launch)
            (rw f (
              halted-IsComplete (composed ∷ stopped ∷ [])
                (then_by compose (then_by stop_unstarted here))))
      | inl f ↦ elim (Option-cases app.initialize) [
        | inr (x, g) ↦
            rw (e, launch)
              (rw f (
                rw g (
                  halted-IsComplete (composed ∷ started ∷ admission_closed ∷ stopped ∷ []) (
                    then_by compose
                      (then_by start (then_by refuse_admission (then_by stop here)))))))
        | inl g ↦
            rw (e, launch)
              (rw f (
                rw g (
                  subst IsComplete
                    (sym (supervise-effects app _ ∙ append_assoc (map acquired ks) _ _))
                    (halted-IsComplete
                      (composed ∷ started ∷ initialized ∷ admission_opened ∷ admission_closed
                        ∷ stopped ∷ [])
                      (then_by compose (
                        then_by start (
                          then_by initialize (
                            then_by open_admission
                              (then_by close_admission (then_by stop here))))))))))
      ]
    ]
  ]

module _ {C K V M L E : Type 0} (default_logger : String → L) (clean : K → Option E)
    (application : M → List V → Application E) where
  run_prepared-IsComplete :
      (factory : C → Composition M E) (config : C) (is : List (Integration C K V E))
      → IsComplete (run_prepared default_logger clean application factory config is).effects
  unfolding run_prepared
  run_prepared-IsComplete factory config is =
      elim (Option-cases (prepare_integrations config is).failure) [
        | inr (x, e) ↦
            rw (e, run_prepared)
              (unwound-IsComplete clean _ _ (prepare_integrations-effects config is))
        | inl e ↦ elim (Result-cases (build_modules factory config)) [
          | inl (x, f) ↦
              rw (e, run_prepared)
                (rw f (unwound-IsComplete clean _ _ (prepare_integrations-effects config is)))
          | inr (m, f) ↦
              rw (e, run_prepared)
                (rw f (
                  subst
                    (λ es.
                      IsComplete
                        (launch clean (prepare_integrations config is).cleanups
                          (application m (prepare_integrations config is).values) es).effects)
                    (sym (prepare_integrations-effects config is))
                    (launch-IsComplete clean (prepare_integrations config is).cleanups
                      (application m (prepare_integrations config is).values))))
        ]
      ]

  -- Every run follows the life cycle: what is prepared is released once, in reverse order, after the
  -- application was stopped if it was composed; admission opens only after the
  -- start and every startup condition, and is closed before the application is stopped.
  pub run-IsComplete :
      (spec : Spec C M E) (options : List (RunOption C K V L E))
      → IsComplete (run default_logger clean application spec options).effects
  unfolding run
  run-IsComplete spec options = elim (Result-cases (resolve_settings default_logger spec options)) [
    | inl (x, e) ↦ rw (e, run) (inl here)
    | inr (settings, e) ↦ elim (Option-cases spec.load) [
      | inl f ↦ rw (e, run) (rw f (inl here))
      | inr (loaded, f) ↦ elim (Result-cases loaded) [
        | inl (x, g) ↦ rw (e, run) (rw f (rw g (inl here)))
        | inr (config, g) ↦ elim (Option-cases spec.modules) [
          | inl h ↦ rw (e, run) (rw f (rw g (rw h (inl here))))
          | inr (factory, h) ↦
              rw (e, run)
                (rw f (rw g (rw h (run_prepared-IsComplete factory config settings.integrations))))
        ]
      ]
    ]
  ]
