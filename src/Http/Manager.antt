-- ===== src/Http/Manager.antt =====
-- http/manager.go: the manager of the generations. `Replace` holds the lock until it has promoted
-- the candidate, then drains the old generation without it and takes the lock again to forget
-- it: `replace` is the first part and `forget` the last. What the environment answers (the
-- listener, the runtime's factory, the probe, the caller's context) is an `Attempt`.
pub mod Lifecycle
pub mod Invariant
pub mod Replacing
pub mod Steps
pub mod Branches
pub mod Outcomes
pub mod Closing
pub mod Succeeding
pub mod Refining
mod Tests
use hanami.Base.{
  ℕ, suc, leb, ◌==◌, ℤ, pos, negsuc, Bool, true, false, not, ◌&&◌, Option, none, some, List, [],
  ◌∷◌, length, select, String, is_blank, str_eq, is_some, if◌then◌else◌, Result, ok, err,
}
use hanami.Bootstrap.{Admission}
use hanami.Process.{Controller}
use hanami.Http.Config.{
  Net, Certificate, ServerConfig, ConfigError, normalized, equivalent_config, protocol_https,
}
use hanami.Http.Gate.{GenerationGate, new_generation_gate, set_admitted}

-- The native server over the gated handler, or a runtime that the factory made.
pub data Runtime (n : Net) : Type 0 where
  native_runtime : Option n.Handler → Runtime n
  custom_runtime : Runtime n

-- `id` is the number of which the source keeps the decimal text; `hijacked` numbers the connections.
pub record Generation (n : Net) : Type 0 where
  pub id : ℕ
  pub config : ServerConfig n
  pub runtime : Runtime n
  pub gate : GenerationGate
  pub promoted : Bool
  pub certificate : Option (Certificate n.PrivateKey)
  pub hijacked : List ℕ
  pub closed : Bool

-- The application's admission and controller are shared; they are kept here, and a gate is read with
-- the admission as it is (`gate_now`): the gate of a generation always has one, since
-- `prepareGeneration` gives it the manager's. The `uint64` number `generation` is taken not to wrap.
pub record Manager (n : Net) : Type 0 where
  pub config : ServerConfig n
  pub handler : Option n.Handler
  pub admission : Admission
  pub controller : Controller n.Failure
  pub probe_token : String
  pub generation : ℕ
  pub active : Option (Generation n)
  pub candidates : List (Generation n)
  pub draining : List (Generation n)
  pub closed : Bool

-- `config` counts when it has an address, `server` before it when it has one.
pub record ReplaceRequest (n : Net) : Type 0 where
  pub server : ServerConfig n
  pub config : ServerConfig n
  pub handler : Option n.Handler

pub data FactoryOutcome (F : Type 0) : Type 0 where
  factory_failed : F → FactoryOutcome F
  factory_nil factory_made : FactoryOutcome F

-- `cancelled` and `cancelled_late` are what the context's `Err` returns before the candidate is made
-- and after its probe.
pub record Attempt (F : Type 0) : Type 0 where
  pub cancelled : Option F
  pub listen : Option F
  pub factory : FactoryOutcome F
  pub probe : Option F
  pub cancelled_late : Option F

pub data ReplaceError (F : Type 0) : Type 0 where
  manager_closed draining_limit certificate_empty tls_without_certificate runtime_nil :
      ReplaceError F
  config_invalid : ConfigError F → ReplaceError F
  context_cancelled listen_failed certificate_invalid runtime_failed probe_failed :
      F → ReplaceError F

-- How the first part of `Replace` ends: rejected, applied at once to the generation with this id, or
-- applied with an old generation to drain.
pub data Replaced (n : Net) : Type 0 where
  rejected : ReplaceError n.Failure → Replaced n
  applied : ℕ → Replaced n
  applied_draining : ℕ → Generation n → Replaced n

-- `len(draining) >= max`
abbrev pub reaches : ℕ → ℤ → Bool
reaches n (pos limit) = leb limit n
reaches n (negsuc k) = true

module _ {n : Net} where
  unfoldable pub config_for :
      Manager n → ReplaceRequest n → Result (ConfigError n.Failure) (ServerConfig n)
  config_for m req =
      let given : ServerConfig n = if is_blank req.config.address then m.config else req.config in
      let chosen : ServerConfig n = if is_blank req.server.address then given else req.server in
      let handler : Option n.Handler = elim req.handler [
        | some h ↦ some h
        | none ↦ elim chosen.handler [ some h ↦ some h | none ↦ m.handler ]
      ] in
      normalized (record chosen { handler = handler })

  -- The certificate that the generation's TLS listener serves, if it is not the TLS configuration's.
  unfoldable pub make_tls_config :
      ServerConfig n → Result (ReplaceError n.Failure) (Option (Certificate n.PrivateKey))
  make_tls_config c = elim c.certificate [
    | some k ↦ elim k.chain [
      | [] ↦ err certificate_empty
      | leaf ∷ rest ↦ elim (n.parse_certificate leaf) [
        | some e ↦ err (certificate_invalid e)
        | none ↦ ok (some k)
      ]
    ]
    | none ↦ elim c.tls_config [
      | none ↦ err tls_without_certificate
      | some t ↦ if n.tls_has_certificate t then ok none else err tls_without_certificate
    ]
  ]

  -- The TLS part of a generation's preparation, for HTTPS only.
  unfoldable pub listener_certificate :
      ServerConfig n → Result (ReplaceError n.Failure) (Option (Certificate n.PrivateKey))
  listener_certificate c = if str_eq c.protocol protocol_https then make_tls_config c else ok none

  unfoldable pub make_runtime :
      ServerConfig n
      → Option n.Handler
      → FactoryOutcome n.Failure
      → Result (ReplaceError n.Failure) (Runtime n)
  make_runtime c handler outcome = elim c.runtime_factory [
    | none ↦ ok (native_runtime handler)
    | some f ↦ elim outcome [
      | factory_failed e ↦ err (runtime_failed e)
      | factory_nil ↦ err runtime_nil
      | factory_made ↦ ok custom_runtime
    ]
  ]

  -- The handler under the gate is the manager's.
  unfoldable pub prepare_generation :
      Manager n
      → ServerConfig n
      → Attempt n.Failure
      → Manager n × Result (ReplaceError n.Failure) (Generation n)
  prepare_generation m c a = elim a.listen [
    | some e ↦ (m, err (listen_failed e))
    | none ↦
        let counted : Manager n = record m { generation = suc m.generation } in
        elim (listener_certificate c) [
          | err e ↦ (counted, err e)
          | ok certificate ↦ elim (make_runtime c m.handler a.factory) [
            | err e ↦ (counted, err e)
            | ok runtime ↦ (
              counted,
              ok (record {
                id = suc m.generation;
                config = c;
                runtime = runtime;
                gate =
                    new_generation_gate c.probe_path c.probe_identity m.probe_token
                      (some m.admission);
                promoted = false;
                certificate = certificate;
                hijacked = [];
                closed = false;
              }),
            )
          ]
        ]
  ]

  unfoldable pub gate_now : Manager n → Generation n → GenerationGate
  gate_now m g = record g.gate { admission = some m.admission }

  abbrev pub gate_shut : Generation n → Generation n
  gate_shut g = record g { gate = set_admitted false g.gate }

  abbrev pub opened : Generation n → Generation n
  opened g = record g { promoted = true; gate = set_admitted true g.gate }

  abbrev pub without : Generation n → List (Generation n) → List (Generation n)
  without g = select (λ x. not (x.id == g.id))

  unfoldable pub promote : Manager n → Generation n → ServerConfig n → Manager n × Replaced n
  promote m g c =
      let next : Manager n = record m {
        active = some (opened g);
        candidates = without g m.candidates;
        config = c;
        handler = c.handler;
      } in
      elim m.active [
        | none ↦ (next, applied g.id)
        | some old ↦ (
          record next { draining = gate_shut old ∷ m.draining },
          applied_draining g.id (gate_shut old),
        )
      ]

  -- The candidate is started, probed and then promoted or given up.
  unfoldable pub try_candidate :
      Manager n → Generation n → ServerConfig n → Attempt n.Failure → Manager n × Replaced n
  try_candidate m g c a =
      let held : Manager n = record m { candidates = g ∷ m.candidates } in
      let given_up : Manager n = record held { candidates = without g held.candidates } in
      elim a.probe [
        | some e ↦ (given_up, rejected (probe_failed e))
        | none ↦ elim a.cancelled_late [
          | some e ↦ (given_up, rejected (context_cancelled e))
          | none ↦ promote held g c
        ]
      ]

  -- From the checked configuration on, when it is not that of the active generation.
  unfoldable pub replace_with :
      Manager n → ServerConfig n → Attempt n.Failure → Manager n × Replaced n
  replace_with m c a =
      if reaches (length m.draining) c.max_draining_generations && is_some m.active
      then (m, rejected draining_limit)
      else elim a.cancelled [
        | some e ↦ (m, rejected (context_cancelled e))
        | none ↦
            let (counted, prepared) = prepare_generation m c a in
            elim prepared [ err e ↦ (counted, rejected e) | ok g ↦ try_candidate counted g c a ]
      ]

  unfoldable pub replace : Manager n → ReplaceRequest n → Attempt n.Failure → Manager n × Replaced n
  replace m req a = if m.closed then (m, rejected manager_closed) else elim (config_for m req) [
    | err e ↦ (m, rejected (config_invalid e))
    | ok c ↦ elim m.active [
      | some g ↦ if equivalent_config g.config c then (m, applied g.id) else replace_with m c a
      | none ↦ replace_with m c a
    ]
  ]

  -- The last part of `Replace`, once the old generation has drained.
  unfoldable pub forget : Generation n → Manager n → Manager n
  forget old m = record m { draining = without old m.draining }
