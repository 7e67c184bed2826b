-- ===== src/Health/Tests.antt =====
-- Runs of the registry.
use mathlib.Core.List.{mem-cons}
use mathlib.Core.Logic.Or
use hanami.Base.{
  ℕ, zero, suc, ◌<◌, ◌≤◌, ◌≡◌, refl, ◌↔◌, true, some, none, [], ◌∷◌, String, arith, Mem, sort_by,
  check_each, pos, length,
}
use hanami.Bootstrap.{Admission}
use hanami.Health.{
  Check, Registry, RunResult, readiness, check, handler, collect, selected, new_registry, built,
  check_errors, check_error, registered_twice, check_le, effective_status, shown_detail,
  check_result,
}
use hanami.Health.Arrivals.{IsOrder}
use hanami.Health.Verdict.{check-arrivals, handler-healthy}
use hanami.Health.Worst.{worst}
use hanami.Health.Arrivals.{rows}

abbrev database : Check ℕ
database = record { name = "database"; kind = readiness; timeout = pos 0; run = some 1 }

abbrev scheduler : Check ℕ
scheduler = record { name = "scheduler"; kind = readiness; timeout = pos 0; run = some 2 }

abbrev opened : Admission
opened = record { is_open = true }

abbrev registry : Registry ℕ
registry = record { checks = database ∷ scheduler ∷ []; admission = opened }

new_registry_runs : new_registry (scheduler ∷ database ∷ []) opened ≡ built registry
unfolding new_registry check_errors check_each check_error check_le sort_by
new_registry_runs = refl

abbrev message : ℕ → String
message n = "error"

-- The first check passes, the second fails with an error.
abbrev outcome : ℕ → RunResult ℕ
outcome zero = record { status = 0; detail = "up"; err = none }
outcome (suc i) = record { status = 0; detail = ""; err = some 4 }

failure_is_shown :
    (check message true registry readiness ((1, outcome 1) ∷ (0, outcome 0) ∷ [])).checks
    ≡ record { name = "database"; status = "pass"; detail = "up" }
      ∷ record { name = "scheduler"; status = "fail"; detail = "error" }
      ∷ []
unfolding check collect selected effective_status shown_detail check_result
failure_is_shown = refl

answers_503 :
    (handler message true registry readiness ((1, outcome 1) ∷ (0, outcome 0) ∷ [])).0 ≡ 503
unfolding handler check collect selected effective_status shown_detail check_result
answers_503 = refl

same_name_is_refused : check_errors (database ∷ database ∷ []) ≡ some registered_twice
unfolding check_errors check_each check_error
same_name_is_refused = refl

below_two : (i : ℕ) → i < 2 → Mem i (1 ∷ 0 ∷ [])
below_two zero h = mem-cons.1 (Or.inr (mem-cons.1 (Or.inl refl)))
below_two (suc zero) h = mem-cons.1 (Or.inl refl)
below_two (suc (suc i)) h = absurd (omega arith)

late_first : IsOrder (selected readiness registry) (1 ∷ 0 ∷ [])
unfolding selected
late_first = record { below = (omega arith, (omega arith, tt)); complete = below_two }

check-arrivals_example :
    check message true registry readiness ((1, outcome 1) ∷ (0, outcome 0) ∷ []) ≡ record {
      version = "v1";
      status = "fail";
      checks =
          rows message true (selected readiness registry) outcome 0 (selected readiness registry);
    }
unfolding worst selected effective_status
check-arrivals_example =
    check-arrivals message true registry readiness outcome (1 ∷ 0 ∷ []) late_first

handler-healthy_example :
    let healthy =
      ((i : ℕ) → i < length (selected readiness registry) → effective_status (outcome i) ≤ 2)
      × (readiness ≡ readiness → true ≡ true) in
    (((handler message true registry readiness ((1, outcome 1) ∷ (0, outcome 0) ∷ [])).0 ≡ 200)
      ↔ healthy)
    × (((handler message true registry readiness ((1, outcome 1) ∷ (0, outcome 0) ∷ [])).0 ≡ 503)
        ↔ ¬ healthy)
handler-healthy_example =
    handler-healthy message true registry readiness outcome (1 ∷ 0 ∷ []) late_first
