-- ===== src/Migration/Tests.antt =====
-- Runs of the migrations on a database that is the number of its pending migrations.
use hanami.Base.{ℕ, ◌≡◌, ◌≢◌, refl, true, false, not, none, some, ◌==◌, ok, arith}
use hanami.Migration.{
  Provider, Manager, validate_only, migrate_before_start, disabled, new_manager, validate, migrate,
  run_condition, pending_migrations,
}
use hanami.Migration.Barrier.{IsComplete, run_condition-current}

abbrev goose : Provider ℕ ℕ
goose = record { has_pending = λ d. ok (not (d == 0)); up = λ d. (0, none) }

abbrev migrating : Manager ℕ ℕ
migrating = record { policy = migrate_before_start; provider = some goose }

goose-IsComplete : IsComplete goose
goose-IsComplete d h = refl

made : new_manager migrate_before_start true (ok goose) ≡ ok migrating
unfolding new_manager
made = refl

passes : (run_condition migrating 3).1 ≡ none
unfolding run_condition migrate
passes = refl

pending_is_refused :
    (run_condition (record { policy = validate_only; provider = some goose }) 3).1
    ≡ some pending_migrations
unfolding run_condition validate
pending_is_refused = refl

is_enabled : migrate_before_start ≢ disabled
is_enabled h = absurd (omega (arith, h))

run_condition-current_example :
    (goose.has_pending (run_condition migrating 3).0 ≡ ok false)
    × (migrate_before_start ≡ validate_only → (run_condition migrating 3).0 ≡ 3)
run_condition-current_example =
    run_condition-current migrate_before_start true (ok goose) goose migrating goose-IsComplete refl
      made is_enabled 3 passes
