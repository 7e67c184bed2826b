-- ===== src/Bootstrap/Tests.antt =====
-- Runs of the coordinator.
use mathlib.Core.List.Perm
use hanami.Base.{
  ℕ, pos, negsuc, ◌≡◌, refl, false, none, some, List, [], ◌∷◌, map, Perm, check_each, contains,
}
use hanami.Bootstrap.{
  Condition, Coordinator, built, refused, negative_timeout, registered_twice, new_coordinator, Race,
  returned, context_done, Outcome, condition_outcome, initialize,
}
use hanami.Bootstrap.Startup.{failures, initialize-failures}

abbrev migrations : Condition ℕ
migrations = record { name = "migrations"; timeout = pos 0; run = some 1 }

abbrev database : Condition ℕ
database = record { name = "database"; timeout = pos 5; run = some 2 }

abbrev sorted : Coordinator ℕ ℕ
sorted = record { conditions = database ∷ migrations ∷ []; initialized = false; result = [] }

builds : new_coordinator (migrations ∷ database ∷ []) ≡ built sorted
unfolding new_coordinator check_each contains
builds = refl

refuses_twice :
    new_coordinator {E = ℕ} (database ∷ database ∷ []) ≡ refused (registered_twice "database")
unfolding new_coordinator check_each contains
refuses_twice = refl

refuses_negative :
    new_coordinator {E = ℕ} (record database { timeout = negsuc 0 } ∷ [])
    ≡ refused (negative_timeout "database")
unfolding new_coordinator check_each contains
refuses_negative = refl

abbrev race : Condition ℕ → Race ℕ
race c = elim c.run [ none ↦ returned none | some n ↦ context_done n ]

abbrev outcomes : List (Outcome ℕ)
outcomes =
    record { name = "migrations"; err = some 1 } ∷ record { name = "database"; err = some 2 } ∷ []

initialize-failures_example :
    Perm
      (initialize outcomes sorted).result
      (failures (map (condition_outcome race) sorted.conditions))
unfolding condition_outcome
initialize-failures_example = (initialize-failures race sorted outcomes refl (Perm.swap _ _ [])).0
