-- ===== src/Runner/Phases/Cleaning.antt =====
-- hanami.go: runCleanups calls every cleanup once, the last one first, and prepareIntegrations keeps every
-- cleanup that it was given.
use mathlib.Core.List.{append-nil, append_assoc, map-append}
use hanami.Base.{
  ◌≡◌, refl, sym, ap, ◌∙◌, Option, List, [], ◌∷◌, ◌++◌, map, reverse, Option-cases, Result-cases,
  inl, inr, to_errors,
}
use hanami.Runner.Settings.{Integration, RunError, cleanup_failed}
use hanami.Runner.Phases.{
  Effect, acquired, released, Cleaned, join_cleanups, run_cleanups, prepare_from,
  prepare_integrations, list_of,
}

abbrev pub releases : {K : Type 0} → List K → List (Effect K)
releases ks = map released (reverse ks)

module _ {K E : Type 0} (clean : K → Option E) where
  -- The errors of the cleanups that fail, in the order of their calls.
  abbrev pub cleanup_errors : List K → List (RunError E)
  cleanup_errors [] = []
  cleanup_errors (k ∷ ks) = map cleanup_failed (to_errors (clean k)) ++ cleanup_errors ks

  join_cleanups-effects :
      (ks : List K) (c : Cleaned K E)
      → (join_cleanups clean c ks).effects ≡ c.effects ++ map released ks
  unfolding join_cleanups
  join_cleanups-effects [] c = sym (append-nil c.effects)
  join_cleanups-effects (k ∷ ks) c =
      join_cleanups-effects ks _ ∙ append_assoc c.effects (released k ∷ []) (map released ks)

  join_cleanups-errors :
      (ks : List K) (c : Cleaned K E)
      → (join_cleanups clean c ks).errors ≡ c.errors ++ cleanup_errors ks
  unfolding join_cleanups
  join_cleanups-errors [] c = sym (append-nil c.errors)
  join_cleanups-errors (k ∷ ks) c = elim (Option-cases (clean k)) [
    | inl e ↦ join_cleanups-errors ks _ ∙ rw e refl
    | inr (x, e) ↦
        join_cleanups-errors ks _
        ∙ rw e (append_assoc c.errors (cleanup_failed x ∷ []) (cleanup_errors ks))
  ]

  -- Every cleanup is called, in reverse order.
  pub run_cleanups-effects : (ks : List K) → (run_cleanups clean ks).effects ≡ releases ks
  unfolding run_cleanups
  run_cleanups-effects ks = join_cleanups-effects (reverse ks) _

  pub run_cleanups-errors :
      (ks : List K) → (run_cleanups clean ks).errors ≡ cleanup_errors (reverse ks)
  unfolding run_cleanups
  run_cleanups-errors ks = join_cleanups-errors (reverse ks) _

module _ {C K V E : Type 0} (config : C) where
  prepare_from-effects :
      (is : List (Integration C K V E)) (cs : List K) (vs : List V) (es : List (Effect K))
      → es ≡ map acquired cs
      → (prepare_from cs vs es config is).effects
        ≡ map acquired (prepare_from cs vs es config is).cleanups
  unfolding prepare_from
  prepare_from-effects [] cs vs es h = h
  prepare_from-effects (i ∷ is) cs vs es h = elim (Result-cases (i.prepare config)) [
    | inl (e, q) ↦ rw (prepare_from, q) h
    | inr (p, q) ↦
        rw (prepare_from, q)
          (prepare_from-effects is _ _ _ (
            ap (λ x. x ++ map acquired (list_of p.cleanup)) h
            ∙ sym (map-append acquired cs (list_of p.cleanup))))
  ]

  -- What was acquired is held as a cleanup, whether the preparation failed or not.
  pub prepare_integrations-effects :
      (is : List (Integration C K V E))
      → (prepare_integrations config is).effects
        ≡ map acquired (prepare_integrations config is).cleanups
  unfolding prepare_integrations
  prepare_integrations-effects is = prepare_from-effects is [] [] [] refl
