-- ===== src/Ownership/Running.antt =====
-- ownership/ownership.go in hanami.go's Run: the lock over a run of the process.
use hanami.Base.{
  ◌≡◌, refl, Option, some, List, [], ◌∷◌, String, Result, ok, err, Result-cases, inl, inr, ◌⊎◌,
}
use hanami.Runner.Settings.{Integration, prepare_failed, Composition}
use hanami.Runner.Phases.{
  prepare_from, prepare_integrations, Application, run_cleanups, run_prepared, join_cleanups,
}
use hanami.Runner.Phases.Holding.{IsHeld, run_prepared-IsHeld}
use hanami.Ownership.{Requirement, FileSystem, OwnershipError, prepare_ownership}

-- `WithRequirement`; `keep` and `fault` put the lock and the errors among those of the other
-- integrations.
unfoldable pub ownership_integration :
    {F L C K V E : Type 0}
    → FileSystem F L
    → Option (C → Result F Requirement)
    → (L → K)
    → (OwnershipError F → E)
    → Integration C K V E
ownership_integration fs build keep fault = record {
  name = "ownership";
  prepare = λ config. elim (prepare_ownership fs build config) [
    | err e ↦ err (fault e)
    | ok lock ↦ ok (record { cleanup = some (keep lock); values = [] })
  ];
}

acquired_lock :
    {F L C K V E : Type 0} (fs : FileSystem F L) (build : Option (C → Result F Requirement))
    (config : C) (keep : L → K) (fault : OwnershipError F → E) (lock : L)
    → prepare_ownership fs build config ≡ ok lock
    → (ownership_integration {V = V} fs build keep fault).prepare config
      ≡ ok (record { cleanup = some (keep lock); values = [] })
unfolding ownership_integration
acquired_lock fs build config keep fault lock q = rw (ownership_integration, q) refl

refused_lock :
    {F L C K V E : Type 0} (fs : FileSystem F L) (build : Option (C → Result F Requirement))
    (config : C) (keep : L → K) (fault : OwnershipError F → E) (is : List (Integration C K V E))
    (e : OwnershipError F)
    → prepare_ownership fs build config ≡ err e
    → prepare_integrations config (ownership_integration fs build keep fault ∷ is) ≡ record {
      cleanups = [];
      values = [];
      effects = [];
      failure = some (prepare_failed "ownership" (fault e));
    }
unfolding prepare_integrations ownership_integration
refused_lock fs build config keep fault is e q =
    rw (prepare_integrations, prepare_from, ownership_integration, q) refl

-- In a run whose first integration is the ownership, either the preparation of the lock fails, and then the
-- run has no effect and returns that error alone, or it holds a lock, which is acquired before
-- everything else and released after everything else, however the run ends.
pub run_prepared-ownership :
    {F L C K V M D E : Type 0} (default_logger : String → D) (clean : K → Option E)
    (application : M → List V → Application E) (factory : C → Composition M E) (config : C)
    (fs : FileSystem F L) (build : Option (C → Result F Requirement)) (keep : L → K)
    (fault : OwnershipError F → E) (is : List (Integration C K V E))
    → let exit =
        run_prepared default_logger clean application factory config
          (ownership_integration fs build keep fault ∷ is) in
      ((e : OwnershipError F) × (prepare_ownership fs build config ≡ err e)
        × (exit.effects ≡ [])
        × (exit.errors ≡ prepare_failed "ownership" (fault e) ∷ []))
      ⊎ ((lock : L) × (prepare_ownership fs build config ≡ ok lock)
          × IsHeld (keep lock) exit.effects)
unfolding run_prepared run_cleanups join_cleanups
run_prepared-ownership default_logger clean application factory config fs build keep fault is =
    elim (Result-cases (prepare_ownership fs build config)) [
      | inl (e, q) ↦
          let refused = refused_lock fs build config keep fault is e q in
          inl (
            e,
            q,
            rw (run_prepared, refused) (rw (refused) refl),
            rw (run_prepared, refused) (rw (refused) refl),
          )
      | inr (lock, q) ↦
          let prepares = acquired_lock fs build config keep fault lock q in
          inr (
            lock,
            q,
            run_prepared-IsHeld default_logger clean application factory config
                (ownership_integration fs build keep fault) is
                (record { cleanup = some (keep lock); values = [] }) (keep lock) prepares refl,
          )
    ]
