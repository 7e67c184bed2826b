-- ===== src/Ownership/Tests.antt =====
-- A lock that is taken with the default interval, alone and in a run.
use hanami.Base.{
  ℕ, pos, ◌≡◌, refl, true, false, none, some, List, [], ◌∷◌, Option, String, Result, ok, err, ◌⊎◌,
}
use hanami.Process.{stop_reason_requested}
use hanami.Runner.Settings.{Composition, prepare_failed}
use hanami.Runner.Phases.{Application, stop_requested, run_prepared}
use hanami.Runner.Phases.Holding.{IsHeld}
use hanami.Ownership.Running.{ownership_integration, run_prepared-ownership}
use hanami.Ownership.{
  Requirement, FileSystem, OwnershipError, retry_of, acquire, prepare_ownership, release,
}
use hanami.Ownership.Acquiring.{IsAcquired, prepare_ownership-IsAcquired}

abbrev files : FileSystem ℕ ℕ
files = record {
  is_abs = λ path. true;
  directory = λ path. "/run";
  stat_directory = λ path. ok true;
  try_lock = λ path interval. ok (3, true);
  close_lock = λ lock. none;
}

abbrev requirement : Requirement
requirement = record { lock_path = "/run/app.lock"; retry_interval = pos 0 }

abbrev build : ℕ → Result ℕ Requirement
build config = ok requirement

acquired : prepare_ownership files (some build) 0 ≡ ok 3
unfolding prepare_ownership acquire retry_of
acquired = refl

released : release files 3 ≡ none
unfolding release
released = refl

requirement-IsAcquired : (q : Requirement) × (build 0 ≡ ok q) × IsAcquired files q 3
requirement-IsAcquired = (prepare_ownership-IsAcquired files build 0 3).0 acquired

abbrev clean : ℕ → Option ℕ
clean k = some k

abbrev served : ℕ → List ℕ → Application ℕ
served modules values = record {
  composition_err = none;
  start = none;
  initialize = none;
  wake =
      stop_requested
        (record { reason = stop_reason_requested; err = none; external_restart_required = false });
  stop = none;
}

abbrev logger : String → ℕ
logger name = 0

abbrev factory : ℕ → Composition ℕ ℕ
factory config = Composition.returned (some config)

abbrev keep : ℕ → ℕ
keep lock = lock

abbrev fault : OwnershipError ℕ → ℕ
fault e = 5

run_prepared-ownership_example :
    let exit =
      run_prepared logger clean served factory 0
        (ownership_integration files (some build) keep fault ∷ []) in
    ((e : OwnershipError ℕ) × (prepare_ownership files (some build) 0 ≡ err e)
      × (exit.effects ≡ [])
      × (exit.errors ≡ prepare_failed "ownership" (fault e) ∷ []))
    ⊎ ((lock : ℕ) × (prepare_ownership files (some build) 0 ≡ ok lock)
        × IsHeld (keep lock) exit.effects)
run_prepared-ownership_example =
    run_prepared-ownership logger clean served factory 0 files (some build) keep fault []
