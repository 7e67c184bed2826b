-- ===== src/Migration.antt =====
-- migration/migration.go: the migrations that run, or are asked for, before the application starts. goose's
-- provider is an interface over the state `D` of the database; `E` is the type of the errors.
pub mod Barrier
mod Tests
use hanami.Base.{
  ℕ, ltb, ◌==◌, Bool, true, false, Option, none, some, if◌then◌else◌, Result, ok, err, String,
}
use hanami.Bootstrap.{Condition}
use hanami.Base.{pos}

-- An unsigned byte, of which the source names three values.
abbrev pub Policy : Type 0
Policy = ℕ

abbrev pub disabled : Policy
disabled = 0

abbrev pub validate_only : Policy
validate_only = 1

abbrev pub migrate_before_start : Policy
migrate_before_start = 2

pub record Provider (D E : Type 0) : Type 0 where
  pub has_pending : D → Result E Bool
  pub up : D → D × Option E

pub data MigrationError (E : Type 0) : Type 0 where
  unknown_policy : Policy → MigrationError E
  database_nil pending_migrations : MigrationError E
  provider_failed check_failed apply_failed : E → MigrationError E

-- `provider` is nil when migrations are disabled. The pool is the state that the operations take.
pub record Manager (D E : Type 0) : Type 0 where
  pub policy : Policy
  pub provider : Option (Provider D E)

module _ {D E : Type 0} where
  -- `has_database` tells whether the pool is not nil; `made` is what goose's constructor returns.
  unfoldable pub new_manager :
      Policy → Bool → Result E (Provider D E) → Result (MigrationError E) (Manager D E)
  new_manager policy has_database made =
      if ltb migrate_before_start policy
      then err (unknown_policy policy)
      else if policy == disabled
      then ok (record { policy = policy; provider = none })
      else if has_database
      then elim made [
        | err e ↦ err (provider_failed e)
        | ok p ↦ ok (record { policy = policy; provider = some p })
      ]
      else err database_nil

  -- Named `Validate` in the source. A nil provider under an enabled policy, which `New` never makes,
  -- would be a crash; it passes here.
  unfoldable pub validate : Manager D E → D → Option (MigrationError E)
  validate m d = if m.policy == disabled then none else elim m.provider [
    | none ↦ none
    | some p ↦ elim (p.has_pending d) [
      | err e ↦ some (check_failed e)
      | ok pending ↦ if pending then some pending_migrations else none
    ]
  ]

  unfoldable pub migrate : Manager D E → D → D × Option (MigrationError E)
  migrate m d = if m.policy == disabled then (d, none) else elim m.provider [
    | none ↦ (d, none)
    | some p ↦ ((p.up d).0, elim (p.up d).1 [ none ↦ none | some e ↦ some (apply_failed e) ])
  ]

  -- The runner of the startup condition.
  unfoldable pub run_condition : Manager D E → D → D × Option (MigrationError E)
  run_condition m d =
      if m.policy == disabled
      then (d, none)
      else if m.policy == validate_only
      then (d, validate m d)
      else if m.policy == migrate_before_start
      then migrate m d
      else (d, some (unknown_policy m.policy))

  unfoldable pub condition : Manager D E → Condition (D → D × Option (MigrationError E))
  condition m = record { name = "migrations"; timeout = pos 0; run = some (run_condition m) }
