-- ===== src/Ownership/Acquiring.antt =====
-- ownership/ownership.go: when Prepare holds the lock.
use hanami.Base.{
  ◌≡◌, refl, sym, ap, ◌∙◌, ◌↔◌, ℤ, is_nonpositive, true, false, some, is_blank, Result, ok,
  Result-cases, arith, inl, inr,
}
use hanami.Ownership.{Requirement, FileSystem, retry_of, acquire, prepare_ownership}

-- The lock of a requirement was taken, waiting with a positive interval for a path that is absolute in a
-- directory that exists.
pub record IsAcquired {F L : Type 0} (fs : FileSystem F L) (q : Requirement) (lock : L)
    : Type 0 where
  pub not_blank : is_blank q.lock_path ≡ false
  pub absolute : fs.is_abs q.lock_path ≡ true
  pub parent : fs.stat_directory (fs.directory q.lock_path) ≡ ok true
  pub interval : ℤ
  pub positive : is_nonpositive interval ≡ false
  pub chosen : interval ≡ retry_of q
  pub taken : fs.try_lock q.lock_path interval ≡ ok (lock, true)

retry_positive : (q : Requirement) → is_nonpositive (retry_of q) ≡ false
unfolding retry_of
retry_positive q = ground arith

-- Prepare succeeds with a lock exactly when the builder answers a requirement whose lock is acquired.
pub prepare_ownership-IsAcquired :
    {F L C : Type 0} (fs : FileSystem F L) (build : C → Result F Requirement) (config : C)
    (lock : L)
    → (prepare_ownership fs (some build) config ≡ ok lock)
      ↔ ((q : Requirement) × (build config ≡ ok q) × IsAcquired fs q lock)
unfolding prepare_ownership acquire
prepare_ownership-IsAcquired fs build config lock = (
  λ h. elim (Result-cases (build config)) [
    | inl (f, e) ↦ absurd (ground arith)
    | inr (q, e) ↦ (
      q,
      e,
      record {
        not_blank = ground arith;
        absolute = ground arith;
        parent = ground arith;
        interval = retry_of q;
        positive = retry_positive q;
        chosen = refl;
        taken = ground arith;
      },
    )
  ],
  λ (q, e, a).
      let taken = ap (fs.try_lock q.lock_path) (sym a.chosen) ∙ a.taken in
      rw (prepare_ownership, e, acquire, a.not_blank, a.absolute, a.parent, taken) refl,
)
