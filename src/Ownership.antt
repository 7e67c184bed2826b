-- ===== src/Ownership.antt =====
-- ownership/ownership.go: the integration that holds a file lock while the process runs. The file system and
-- gofrs/flock are an interface.
pub mod Acquiring
pub mod Running
mod Tests
use hanami.Base.{
  ℕ, ℤ, pos, is_nonpositive, Bool, true, false, not, Option, none, some, List, [], ◌∷◌, String,
  is_blank, if◌then◌else◌, Result, ok, err, is_none,
}

pub record Requirement : Type 0 where
  pub lock_path : String
  pub retry_interval : ℤ

-- `C` is the type of the configuration, `L` that of the native locks. `try_lock` answers for a path and an
-- interval; `stat_directory` says whether what is there is a directory.
pub record FileSystem (F L : Type 0) : Type 0 where
  pub is_abs : String → Bool
  pub directory : String → String
  pub stat_directory : String → Result F Bool
  pub try_lock : String → ℤ → Result F (L × Bool)
  pub close_lock : L → Option F

pub data OwnershipError (F : Type 0) : Type 0 where
  builder_missing path_empty path_not_absolute parent_not_directory not_acquired : OwnershipError F
  build_failed inspect_failed acquire_failed release_failed : F → OwnershipError F

-- 100 ms.
abbrev pub default_retry : ℤ
default_retry = pos 100000000

unfoldable pub retry_of : Requirement → ℤ
retry_of q = if is_nonpositive q.retry_interval then default_retry else q.retry_interval

module _ {F L : Type 0} (fs : FileSystem F L) where
  -- `Prepare` from the requirement on. The lock is what the cleanup closes.
  unfoldable pub acquire : Requirement → Result (OwnershipError F) L
  acquire q =
      if is_blank q.lock_path
      then err path_empty
      else if not (fs.is_abs q.lock_path)
      then err path_not_absolute
      else elim (fs.stat_directory (fs.directory q.lock_path)) [
        | err f ↦ err (inspect_failed f)
        | ok false ↦ err parent_not_directory
        | ok true ↦ elim (fs.try_lock q.lock_path (retry_of q)) [
          | err f ↦ err (acquire_failed f)
          | ok (lock, false) ↦ err not_acquired
          | ok (lock, true) ↦ ok lock
        ]
      ]

  unfoldable pub prepare_ownership :
      {C : Type 0} → Option (C → Result F Requirement) → C → Result (OwnershipError F) L
  prepare_ownership none config = err builder_missing
  prepare_ownership (some build) config = elim (build config) [
    | err f ↦ err (build_failed f)
    | ok q ↦ acquire q
  ]

  -- The cleanup that Prepare hands to the composition.
  unfoldable pub release : L → Option (OwnershipError F)
  release lock = elim (fs.close_lock lock) [ some f ↦ some (release_failed f) | none ↦ none ]
