-- ===== src/Http/Fixed.antt =====
-- http/server.go: the server that keeps one listener for the life of the process. What the listener,
-- the serve loop and the shutdown of net/http answer is an argument.
pub mod Draining
use hanami.Base.{
  Bool, true, false, ◌||◌, Option, none, some, List, [], ◌∷◌, ◌++◌, String, str_eq, if◌then◌else◌,
  Result, ok, err,
}
use hanami.Bootstrap.{Admission, close_admission}
use hanami.Process.{Controller, request_stop, stop_reason_runtime_failure}
use hanami.Http.Config.{Net, ServerConfig, ConfigError, validate}
use hanami.Http.Manager.Lifecycle.{Ending, stop_errors, serve_errors}

-- `listener` is the address of the listener once there is one; the admission and the controller are
-- shared with the rest of the program.
pub record FixedServer (n : Net) : Type 0 where
  pub config : ServerConfig n
  pub handler : n.Handler
  pub admission : Admission
  pub controller : Controller n.Failure
  pub listener : Option String

pub data FixedError (F : Type 0) : Type 0 where
  fixed_config_invalid : ConfigError F → FixedError F
  handler_nil : FixedError F

-- What the wrapped handler answers to a path: 503, or what the handler under it returns.
pub data Admitted (B : Type 0) : Type 0 where
  refused : Admitted B
  handled : B → Admitted B

unfoldable pub admission_handler : {B : Type 0} → Admission → (String → B) → String → Admitted B
admission_handler a next path =
    if a.is_open || str_eq path "/health/live" || str_eq path "/health/ready"
    then handled (next path)
    else refused

module _ {n : Net} where
  unfoldable pub new_fixed_server :
      ServerConfig n
      → Option n.Handler
      → Admission
      → Controller n.Failure
      → Result (FixedError n.Failure) (FixedServer n)
  new_fixed_server c handler a k = elim (validate c) [
    | some e ↦ err (fixed_config_invalid e)
    | none ↦ elim handler [
      | none ↦ err handler_nil
      | some h ↦
          ok (record { config = c; handler = h; admission = a; controller = k; listener = none })
    ]
  ]

  -- The listener's address or the error, which is what `Start` returns.
  unfoldable pub start_fixed :
      Result n.Failure String → FixedServer n → FixedServer n × Option n.Failure
  start_fixed (err e) s = (s, some e)
  start_fixed (ok address) s = (record s { listener = some address }, none)

  -- The end of the serve loop; `ErrServerClosed` counts as no error.
  unfoldable pub serve_ended : Option n.Failure → FixedServer n → FixedServer n
  serve_ended none s = s
  serve_ended (some e) s = record s {
    admission = close_admission s.admission;
    controller =
        (request_stop s.controller (record {
          reason = stop_reason_runtime_failure;
          err = some e;
          external_restart_required = false;
        })).0;
  }

  -- The errors that `Stop` joins, none for nil.
  unfoldable pub stop_fixed : Ending n.Failure → FixedServer n → FixedServer n × List n.Failure
  stop_fixed r s =
      (record s { admission = close_admission s.admission }, stop_errors r ++ serve_errors r.serve)

  unfoldable pub fixed_address : FixedServer n → String
  fixed_address s = elim s.listener [ none ↦ s.config.address | some a ↦ a ]
