-- ===== src/Bootstrap.antt =====
-- bootstrap/admission.go and bootstrap/condition.go: the flag that says whether the application takes
-- work, and the coordinator that runs the startup conditions. The goroutines of `Initialize`
-- report over a channel, in any order: the order is an argument, a list of outcomes.
pub mod Construct
pub mod Startup
mod Tests
use hanami.Base.{
  ℕ, ℤ, is_negative, Bool, true, false, Option, none, some, List, [], ◌∷◌, ◌++◌, map, String,
  is_blank, contains, check_each, sort_by, text_le, is_none, if◌then◌else◌,
}

pub record Admission : Type 0 where
  pub is_open : Bool

unfoldable pub new_admission : Admission
new_admission = record { is_open = false }

unfoldable pub open_admission : Admission → Admission
open_admission a = record a { is_open = true }

unfoldable pub close_admission : Admission → Admission
close_admission a = record a { is_open = false }

-- `R` is the type of the functions that run a condition; `none` is a nil one.
pub record Condition (R : Type 0) : Type 0 where
  pub name : String
  pub timeout : ℤ
  pub run : Option R

pub data ConditionError : Type 0 where
  name_empty : ConditionError
  no_runner negative_timeout registered_twice : String → ConditionError

-- A failed condition with its error.
pub record Failure (E : Type 0) : Type 0 where
  pub condition : String
  pub error : E

-- `result` is nil when it is empty; otherwise it holds what `errors.Join` joined, in order.
pub record Coordinator (R E : Type 0) : Type 0 where
  pub conditions : List (Condition R)
  pub initialized : Bool
  pub result : List (Failure E)

module _ {R : Type 0} where
  -- The checks of one round of the loop that come before the test for a repeated name.
  unfoldable pub check_condition : Condition R → Option ConditionError
  check_condition c =
      if is_blank c.name
      then some name_empty
      else if is_none c.run
      then some (no_runner c.name)
      else if is_negative c.timeout
      then some (negative_timeout c.name)
      else none

  abbrev pub by_name : Condition R → Condition R → Bool
  by_name left right = text_le left.name right.name

  unfoldable pub condition_errors : List (Condition R) → Option ConditionError
  unfolding check_condition
  condition_errors =
      check_each contains (λ c. c.name) check_condition (λ c. registered_twice c.name) []

-- An error, or the coordinator over the sorted copy of the conditions.
pub data Constructed (R E : Type 0) : Type 0 where
  refused : ConditionError → Constructed R E
  built : Coordinator R E → Constructed R E

unfoldable pub new_coordinator : {R E : Type 0} → List (Condition R) → Constructed R E
unfolding condition_errors sort_by
new_coordinator conditions = elim (condition_errors conditions) [
  | some e ↦ refused e
  | none ↦
      built (record { conditions = sort_by by_name conditions; initialized = false; result = [] })
]

-- What ends the `select` of a condition's goroutine: its runner returned, or the context (with
-- the condition's own timeout, if it has one) was done first.
pub data Race (E : Type 0) : Type 0 where
  returned : Option E → Race E
  context_done : E → Race E

pub record Outcome (E : Type 0) : Type 0 where
  pub name : String
  pub err : Option E

-- The loop that receives the outcomes and joins the errors, in the order of arrival.
unfoldable pub join_outcomes : {E : Type 0} → List (Failure E) → List (Outcome E) → List (Failure E)
join_outcomes result [] = result
join_outcomes result (o ∷ os) =
    join_outcomes
      (elim o.err [
        | none ↦ result
        | some e ↦ result ++ (record { condition = o.name; error = e } ∷ [])
      ])
      os

module _ {R E : Type 0} where
  unfoldable pub condition_outcome : (Condition R → Race E) → Condition R → Outcome E
  condition_outcome race c = record {
    name = c.name;
    err = elim (race c) [ returned e ↦ e | context_done e ↦ some e ];
  }

  -- The coordinator afterwards; its `result` is what the call returns.
  unfoldable pub initialize : List (Outcome E) → Coordinator R E → Coordinator R E
  unfolding join_outcomes
  initialize arrivals c =
      if c.initialized
      then c
      else record c { initialized = true; result = join_outcomes [] arrivals }
