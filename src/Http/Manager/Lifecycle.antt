-- ===== src/Http/Manager/Lifecycle.antt =====
-- http/manager.go: how a manager is made, how generations end, the rotation of a certificate, what
-- happens when a serve loop fails, and the snapshot of the state.
use hanami.Base.{
  ℕ, ℤ, is_nonpositive, pos, Bool, true, false, not, ◌&&◌, ◌||◌, Option, none, some, List, [], ◌∷◌,
  ◌++◌, length, String, is_blank, str_eq, is_some, is_none, is_empty, if◌then◌else◌, Result, ok,
  err, to_errors,
}
use hanami.Bootstrap.{Admission, new_admission, open_admission, close_admission}
use hanami.Process.{Controller, new_controller, request_stop, stop_reason_runtime_failure}
use hanami.Http.Config.{
  Net, Certificate, ServerConfig, ConfigError, Protocol, normalized, protocol_https,
  certificate_fingerprint,
}
use hanami.Http.Manager.{Manager, Generation}

-- An argument of `NewManager`; `none` is a nil pointer.
pub data ManagerArgument (n : Net) : Type 0 where
  manager_config :
      ServerConfig n → Option Admission → Option (Controller n.Failure) → ManagerArgument n
  server_config : Option (ServerConfig n) → ManagerArgument n
  handler_argument : n.Handler → ManagerArgument n
  admission_argument : Option Admission → ManagerArgument n
  controller_argument : Option (Controller n.Failure) → ManagerArgument n
  protocol_argument : Protocol → ManagerArgument n
  address_argument : String → ManagerArgument n
  other_argument : ManagerArgument n

pub data ManagerError (F : Type 0) : Type 0 where
  config_nil unsupported_argument : ManagerError F
  config_refused : ConfigError F → ManagerError F
  token_failed : F → ManagerError F

-- The variables of the loop over the arguments.
pub record Arguments (n : Net) : Type 0 where
  pub config : ServerConfig n
  pub handler : Option n.Handler
  pub admission : Option Admission
  pub controller : Option (Controller n.Failure)

module _ {n : Net} where
  unfoldable pub take_argument :
      ManagerArgument n → Arguments n → Result (ManagerError n.Failure) (Arguments n)
  take_argument (manager_config c a k) v =
      ok (record v { config = c; admission = a; controller = k })
  take_argument (server_config none) v = err config_nil
  take_argument (server_config (some c)) v = ok (record v { config = c })
  take_argument (handler_argument h) v = ok (record v { handler = some h })
  take_argument (admission_argument a) v = ok (record v { admission = a })
  take_argument (controller_argument k) v = ok (record v { controller = k })
  take_argument (protocol_argument p) v =
      ok (record v { config = record v.config { protocol = p } })
  take_argument (address_argument s) v =
      if is_blank v.config.address
      then ok (record v { config = record v.config { address = s } })
      else ok v
  take_argument other_argument v = err unsupported_argument

  unfoldable pub take_arguments :
      List (ManagerArgument n) → Arguments n → Result (ManagerError n.Failure) (Arguments n)
  take_arguments [] v = ok v
  take_arguments (a ∷ rest) v = elim (take_argument a v) [
    | err e ↦ err e
    | ok v' ↦ take_arguments rest v'
  ]

  -- `token` is what the random source gives.
  unfoldable pub make_manager :
      Result n.Failure String → Arguments n → Result (ManagerError n.Failure) (Manager n)
  make_manager token v =
      let handler : Option n.Handler = elim v.config.handler [
        | some h ↦ some h
        | none ↦ elim v.handler [ some h ↦ some h | none ↦ some n.not_found ]
      ] in
      elim (normalized (record v.config { handler = handler })) [
        | err e ↦ err (config_refused e)
        | ok c ↦ elim token [
          | err e ↦ err (token_failed e)
          | ok t ↦ ok (record {
            config = c;
            handler = c.handler;
            admission = elim v.admission [ some a ↦ a | none ↦ open_admission new_admission ];
            controller = elim v.controller [ some k ↦ k | none ↦ new_controller ];
            probe_token = t;
            generation = 0;
            active = none;
            candidates = [];
            draining = [];
            closed = false;
          })
        ]
      ]

  -- `zero_config` is the zero value of the configuration.
  unfoldable pub new_manager :
      ServerConfig n
      → Result n.Failure String
      → List (ManagerArgument n)
      → Result (ManagerError n.Failure) (Manager n)
  new_manager zero_config token arguments =
      elim (take_arguments arguments
        (record { config = zero_config; handler = none; admission = none; controller = none })) [
          | err e ↦ err e
          | ok v ↦ make_manager token v
        ]

  unfoldable pub is_refused :
      (Certificate n.PrivateKey → Bool) → Certificate n.PrivateKey → Generation n → Bool
  is_refused matches k g =
      not (str_eq g.config.protocol protocol_https)
      || is_empty k.chain
      || is_none k.private_key
      || not (matches k)

  abbrev pub published : Certificate n.PrivateKey → Manager n → Generation n → Manager n
  published k m g = record m {
    active =
        some (record g { certificate = some k; config = record g.config { certificate = some k } });
    config = record m.config { certificate = some k };
  }

  -- The certificate is published for the handshakes to come; `matches` tells whether the leaf parses and
  -- its public key is the private key's.
  unfoldable pub rotate_certificate :
      (Certificate n.PrivateKey → Bool) → Certificate n.PrivateKey → Manager n → Manager n × Bool
  rotate_certificate matches k m = elim m.active [
    | none ↦ (m, false)
    | some g ↦ if is_refused matches k g then (m, false) else (published k m g, true)
  ]

  -- The manager after `Shutdown` has released the lock, and the generations that it then closes.
  unfoldable pub shutdown : Manager n → Manager n × List (Generation n)
  shutdown m = if m.closed then (m, []) else (
    record m {
      closed = true;
      admission = close_admission m.admission;
      active = none;
      candidates = [];
      draining = [];
    },
    m.candidates ++ (m.draining ++ elim m.active [ none ↦ [] | some g ↦ g ∷ [] ]),
  )

  -- The end of the serve loop of a generation, with the error that it returned.
  unfoldable pub serve_failed : Generation n → n.Failure → Manager n → Manager n
  serve_failed g e m =
      if g.promoted
      then record m {
        admission = close_admission m.admission;
        controller =
            (request_stop m.controller (record {
              reason = stop_reason_runtime_failure;
              err = some e;
              external_restart_required = false;
            })).0;
      }
      else m

-- How a generation's end goes: what `Shutdown` and `Close` of its runtime return, and whether the serve
-- loop's result or the deadline comes first.
pub data ServeEnd (F : Type 0) : Type 0 where
  serve_done : Option F → ServeEnd F
  deadline : F → ServeEnd F

pub record Ending (F : Type 0) : Type 0 where
  pub shutdown : Option F
  pub close : Option F
  pub serve : ServeEnd F

abbrev pub stop_errors : {F : Type 0} → Ending F → List F
stop_errors r = elim r.shutdown [ none ↦ [] | some e ↦ e ∷ to_errors r.close ]

abbrev pub serve_errors : {F : Type 0} → ServeEnd F → List F
serve_errors (serve_done e) = to_errors e
serve_errors (deadline e) = e ∷ []

abbrev pub is_deadline : {F : Type 0} → ServeEnd F → Bool
is_deadline (serve_done e) = false
is_deadline (deadline e) = true

module _ {n : Net} where
  -- The joined errors, empty for nil, and the generation. Hijacked connections are closed only when
  -- the shutdown failed or the deadline passed.
  unfoldable pub drain_generation :
      Bool → Ending n.Failure → Generation n → Generation n × List n.Failure
  drain_generation force r g = (
    record g {
      hijacked = if force && (is_some r.shutdown || is_deadline r.serve) then [] else g.hijacked;
      closed = true;
    },
    stop_errors r ++ serve_errors r.serve,
  )

  unfoldable pub close_generation :
      Bool → Ending n.Failure → Generation n → Generation n × List n.Failure
  close_generation force r g = if g.closed then (g, []) else (
    record g { hijacked = if force then [] else g.hijacked; closed = true },
    stop_errors r ++ serve_errors r.serve,
  )

abbrev pub default_drain_timeout : ℕ
default_drain_timeout = 10000000000

-- The bound of a drain.
unfoldable pub drain_timeout : ℤ → ℤ
drain_timeout z = if is_nonpositive z then pos default_drain_timeout else z

pub record ServerState : Type 0 where
  pub generation_id : Option ℕ
  pub address : String
  pub protocol : Protocol
  pub active : Bool
  pub serving : Bool
  pub tls : Bool
  pub certificate_fingerprint : String
  pub candidates : ℕ
  pub draining : ℕ

-- `address_of` is the address of a generation's listener.
unfoldable pub current : {n : Net} → (Generation n → String) → Manager n → ServerState
current address_of m = elim m.active [
  | none ↦ record {
    generation_id = none;
    address = "";
    protocol = "";
    active = false;
    serving = false;
    tls = false;
    certificate_fingerprint = "";
    candidates = length m.candidates;
    draining = length m.draining;
  }
  | some g ↦ record {
    generation_id = some g.id;
    address = address_of g;
    protocol = g.config.protocol;
    active = true;
    serving = not g.closed;
    tls = str_eq g.config.protocol protocol_https;
    certificate_fingerprint = certificate_fingerprint g.config;
    candidates = length m.candidates;
    draining = length m.draining;
  }
]
