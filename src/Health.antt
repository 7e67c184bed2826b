-- ===== src/Health.antt =====
-- health/health.go: the registry of health checks, the report it makes and the status code of its
-- handler. The goroutines of `Check` send their outcomes over a channel in any order: the
-- order is an argument. `F` is the type of the functions that run a check, `E` of the errors.
pub mod Arrivals
pub mod Worst
pub mod Verdict
pub mod Construct
mod Tests
use hanami.Base.{
  ℕ, suc, ltb, ◌==◌, ℤ, pos, is_negative, is_zero, Bool, true, false, not, ◌&&◌, ◌||◌, Option, none,
  some, List, [], ◌∷◌, map, length, get_elem?, set, select, String, is_blank, str_eq, check_each,
  sort_by, text_lt, is_none, if◌then◌else◌,
}
use hanami.Bootstrap.{Admission}

-- Nanoseconds.
abbrev pub default_timeout : ℤ
default_timeout = pos 5000000000

abbrev pub Kind : Type 0
Kind = ℕ

abbrev pub liveness : Kind
liveness = 1

abbrev pub readiness : Kind
readiness = 2

abbrev pub Status : Type 0
Status = ℕ

abbrev pub status_pass : Status
status_pass = 1

abbrev pub status_warn : Status
status_warn = 2

abbrev pub status_fail : Status
status_fail = 3

-- `none` is a nil runner.
pub record Check (F : Type 0) : Type 0 where
  pub name : String
  pub kind : Kind
  pub timeout : ℤ
  pub run : Option F

-- Named `Result` in the source.
pub record RunResult (E : Type 0) : Type 0 where
  pub status : Status
  pub detail : String
  pub err : Option E

pub record CheckResult : Type 0 where
  pub name : String
  pub status : String
  pub detail : String

pub record Report : Type 0 where
  pub version : String
  pub status : String
  pub checks : List CheckResult

pub record Registry (F : Type 0) : Type 0 where
  pub checks : List (Check F)
  pub admission : Admission

pub data CheckError : Type 0 where
  name_or_runner_missing invalid_kind negative_timeout registered_twice : CheckError

-- An error, or the registry over the sorted copy of the checks.
pub data Constructed (F : Type 0) : Type 0 where
  refused : CheckError → Constructed F
  built : Registry F → Constructed F

abbrev pub has_key : Kind × String → List (Kind × String) → Bool
has_key k [] = false
has_key k (x ∷ xs) = (k.0 == x.0 && str_eq k.1 x.1) || has_key k xs

module _ {F : Type 0} where
  unfoldable pub check_error : Check F → Option CheckError
  check_error c =
      if is_blank c.name || is_none c.run
      then some name_or_runner_missing
      else if not (c.kind == liveness) && not (c.kind == readiness)
      then some invalid_kind
      else if is_negative c.timeout
      then some negative_timeout
      else none

  -- The key printed from both: the kind comes first and holds no colon, so it determines the pair.
  abbrev pub check_key : Check F → Kind × String
  check_key c = (c.kind, c.name)

  unfoldable pub check_errors : List (Check F) → Option CheckError
  unfolding check_error
  check_errors = check_each has_key check_key check_error (λ c. registered_twice) []

  -- The comparison of the sort: not positive.
  unfoldable pub check_le : Check F → Check F → Bool
  check_le left right =
      if text_lt left.name right.name
      then true
      else if text_lt right.name left.name
      then false
      else not (ltb right.kind left.kind)

  -- Named `New` in the source.
  unfoldable pub new_registry : List (Check F) → Admission → Constructed F
  unfolding check_errors sort_by check_le
  new_registry checks admission = elim (check_errors checks) [
    | some e ↦ refused e
    | none ↦ built (record { checks = sort_by check_le checks; admission = admission })
  ]

  unfoldable pub selected : Kind → Registry F → List (Check F)
  selected kind r = select (λ c. c.kind == kind) r.checks

  -- The bound of a check's context.
  abbrev pub timeout_of : Check F → ℤ
  timeout_of c = if is_zero c.timeout then default_timeout else c.timeout

-- `selected[i].Name`; the source panics on an index out of range.
abbrev pub name_at : {F : Type 0} → List (Check F) → ℕ → String
name_at checks i = elim (get_elem? checks i) [ some c ↦ c.name | none ↦ "" ]

-- What ends the `select` of a check's goroutine: the runner's result or the context's error.
pub data Race (E : Type 0) : Type 0 where
  returned : RunResult E → Race E
  expired : E → Race E

abbrev pub status_name : Status → String
status_name s = if s == status_pass then "pass" else if s == status_warn then "warn" else "fail"

module _ {E : Type 0} where
  unfoldable pub race_result : Race E → RunResult E
  race_result (returned r) = r
  race_result (expired e) = record { status = status_fail; detail = ""; err = some e }

  -- An unset status is a failure if there is an error and a pass otherwise.
  unfoldable pub effective_status : RunResult E → Status
  effective_status r =
      if r.status == 0 then elim r.err [ some e ↦ status_fail | none ↦ status_pass ] else r.status

  -- `message` is the `Error` method of the errors.
  unfoldable pub shown_detail : (E → String) → Bool → RunResult E → String
  shown_detail message reveal r =
      if reveal
      then (if is_blank r.detail then elim r.err [ some e ↦ message e | none ↦ "" ] else r.detail)
      else ""

  unfoldable pub check_result : (E → String) → Bool → String → RunResult E → CheckResult
  check_result message reveal name r = record {
    name = name;
    status = status_name (effective_status r);
    detail = shown_detail message reveal r;
  }

abbrev pub status_ok : ℕ
status_ok = 200

abbrev pub status_service_unavailable : ℕ
status_service_unavailable = 503

-- An outcome as it is received: the index of the check and its result.
abbrev pub Outcome : Type 0 → Type 0
Outcome E = ℕ × RunResult E

-- The zero values that the table of results starts with.
abbrev pub blank_results : {F : Type 0} → List (Check F) → List CheckResult
blank_results = map (λ c. record { name = ""; status = ""; detail = "" })

module _ {F E : Type 0} (message : E → String) (reveal : Bool) where
  -- The loop that receives the outcomes.
  unfoldable pub collect :
      List (Check F) → List CheckResult → Status → List (Outcome E) → List CheckResult × Status
  collect checks results overall [] = (results, overall)
  collect checks results overall (o ∷ os) =
      collect checks (set results o.0 (check_result message reveal (name_at checks o.0) o.1))
        (if ltb overall (effective_status o.1) then effective_status o.1 else overall) os

  -- Named `Registry.Check` in the source.
  unfoldable pub check : Registry F → Kind → List (Outcome E) → Report
  unfolding collect selected
  check r kind arrivals =
      let checks = selected kind r in
      let (results, overall) = collect checks (blank_results checks) status_pass arrivals in
      record {
        version = "v1";
        status =
            status_name
              (if kind == readiness && not r.admission.is_open then status_fail else overall);
        checks = results;
      }

  -- The status code and the report that the handler writes.
  unfoldable pub handler : Registry F → Kind → List (Outcome E) → ℕ × Report
  handler r kind arrivals =
      let report = check r kind arrivals in
      (if str_eq report.status "fail" then status_service_unavailable else status_ok, report)
