-- ===== src/Migration/Barrier.antt =====
-- migration/migration.go: the startup condition and what is pending after it.
use hanami.Base.{◌≡◌, ◌≢◌, Bool, false, none, some, arith, Result, ok}
use hanami.Migration.{
  Policy, disabled, validate_only, Provider, Manager, new_manager, validate, migrate, run_condition,
}

-- What goose documents of `Up`: when it returns no error, every migration is applied.
abbrev pub IsComplete : {D E : Type 0} → Provider D E → Type 0
IsComplete p = (d : _) → (p.up d).1 ≡ none → p.has_pending (p.up d).0 ≡ ok false

module _ {D E : Type 0} where
  new_manager-enabled :
      (policy : Policy) (has_database : Bool) (made : Result E (Provider D E)) (p : Provider D E)
      (m : Manager D E)
      → made ≡ ok p
      → new_manager policy has_database made ≡ ok m
      → policy ≢ disabled
      → (m.policy ≡ policy) × (m.provider ≡ some p)
  unfolding new_manager
  new_manager-enabled policy has_database made p m e h n = (ground arith, ground arith)

  run_condition-enabled :
      (p : Provider D E) (m : Manager D E) (d : D)
      → IsComplete p
      → m.provider ≡ some p
      → m.policy ≢ disabled
      → (run_condition m d).1 ≡ none
      → (p.has_pending (run_condition m d).0 ≡ ok false)
        × (m.policy ≡ validate_only → (run_condition m d).0 ≡ d)
  unfolding run_condition validate migrate
  run_condition-enabled p m d c q n r = (ground (arith, c d), λ v. ground arith)

  -- Behind the startup condition of an enabled manager nothing is pending: when the condition passes, no
  -- migration is left to apply to the database that it leaves, and under the validate-only policy
  -- that is the database that there was.
  pub run_condition-current :
      (policy : Policy) (has_database : Bool) (made : Result E (Provider D E)) (p : Provider D E)
      (m : Manager D E)
      → IsComplete p
      → made ≡ ok p
      → new_manager policy has_database made ≡ ok m
      → policy ≢ disabled
      → (d : D) → (run_condition m d).1 ≡ none
      → (p.has_pending (run_condition m d).0 ≡ ok false)
        × (policy ≡ validate_only → (run_condition m d).0 ≡ d)
  run_condition-current policy has_database made p m c e h n d r =
      let facts = new_manager-enabled policy has_database made p m e h n in
      let found = run_condition-enabled p m d c facts.1 (λ z. n (cc)) r in
      (found.0, λ v. found.1 (cc))
