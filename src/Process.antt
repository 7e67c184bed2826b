-- ===== src/Process.antt =====
-- process/process.go: the controller through which any part of the program asks the runner to stop.
-- The body of `RequestStop` runs under `sync.Once`, so concurrent calls are one after another; a call
-- of a method is a function from the controller to the controller. `E` is the type of the
-- errors of the program's parts; a Go `error` is an `Option E`.

pub mod Stops
mod Tests
use hanami.Base.{
  Bool, true, false, Option, none, some, List, [], ◌∷◌, String, is_blank, if◌then◌else◌, is_some,
}

abbrev pub StopReason : Type 0
StopReason = String

abbrev pub stop_reason_context_cancelled : StopReason
stop_reason_context_cancelled = "context_cancelled"

abbrev pub stop_reason_requested : StopReason
stop_reason_requested = "requested"

abbrev pub stop_reason_runtime_failure : StopReason
stop_reason_runtime_failure = "runtime_failure"

abbrev pub stop_reason_startup_failure : StopReason
stop_reason_startup_failure = "startup_failure"

pub record Request {ℓ} (E : Type ℓ) : Type ℓ where
  pub reason : StopReason
  pub err : Option E
  pub external_restart_required : Bool

-- `once` is the state of the `sync.Once`, `done` whether the channel is closed.
pub record Controller {ℓ} (E : Type ℓ) : Type ℓ where
  pub once : Bool
  pub done : Bool
  pub request : Request E

module _ {ℓ} {E : Type ℓ} where
  abbrev pub zero_request : Request E
  zero_request = record { reason = ""; err = none; external_restart_required = false }

  unfoldable pub new_controller : Controller E
  new_controller = record { once = false; done = false; request = zero_request }

  -- The reason that an unset one is replaced by.
  pub default_reason : Request E → StopReason
  default_reason r =
      if is_blank r.reason
      then (if is_some r.err then stop_reason_runtime_failure else stop_reason_requested)
      else r.reason

  -- The new controller, and whether this call was the one that is accepted.
  unfoldable pub request_stop : Controller E → Request E → Controller E × Bool
  unfolding default_reason
  request_stop c r = if c.once then (c, false) else (
    record c { once = true; done = true; request = record r { reason = default_reason r } },
    true,
  )

  -- `fallback` is the error that the source makes when it is given none.
  unfoldable pub request_external_restart : E → Controller E → Option E → Controller E × Bool
  unfolding request_stop
  request_external_restart fallback c reason = request_stop c (record {
    reason = stop_reason_requested;
    err = some (elim reason [ none ↦ fallback | some e ↦ e ]);
    external_restart_required = true;
  })

  -- A history of calls: the final controller and the answers in order.
  pub request_all : Controller E → List (Request E) → Controller E × List Bool
  request_all c [] = (c, [])
  request_all c (r ∷ rs) =
      let (c', accepted) = request_stop c r in
      let (c'', answers) = request_all c' rs in (c'', accepted ∷ answers)
