-- ===== src/Database.antt =====
-- database/database.go: the runtime that owns a database pool. GORM and database/sql are an interface; what
-- the native Close and a ping under a timeout answer are arguments of the calls.
pub mod Closing
mod Tests
use hanami.Base.{
  ℕ, suc, ℤ, is_nonpositive, Bool, true, false, not, Option, none, some, List, [], ◌∷◌, ◌++◌,
  String, is_blank, to_errors, if◌then◌else◌, Result, ok, err,
}
use hanami.Health.{Check, RunResult, readiness, status_pass, status_fail}

pub record PoolConfig : Type 0 where
  pub max_open_conns : ℤ
  pub max_idle_conns : ℤ
  pub conn_max_lifetime : ℤ
  pub conn_max_idle_time : ℤ

-- `D` is the type of the dialectors.
pub record DatabaseConfig (D : Type 0) : Type 0 where
  pub dialector : Option D
  pub pool : PoolConfig
  pub ping_timeout : ℤ
  pub health_timeout : ℤ
  pub health_name : String

-- The calls on `sql.DB` that set up the pool.
pub data PoolCall : Type 0 where
  set_max_open_conns set_max_idle_conns set_conn_max_lifetime set_conn_max_idle_time : ℤ → PoolCall

-- `gorm.Open` and `DB()`.
pub record Gorm (F D G S : Type 0) : Type 0 where
  pub open_gorm : D → Result F G
  pub native_pool : G → Result F S

pub data DatabaseError (F : Type 0) : Type 0 where
  dialector_missing : DatabaseError F
  open_failed pool_failed ping_failed close_failed : F → DatabaseError F

-- `closed` is what `closeOnce` has run with: none before it ran. `closes` counts the calls of the native
-- Close.
pub record Runtime (F G S : Type 0) : Type 0 where
  pub db : G
  pub sql_db : S
  pub name : String
  pub ping_timeout : ℤ
  pub health_timeout : ℤ
  pub closed : Option (Option F)
  pub closes : ℕ

abbrev pub when_positive : ℤ → PoolCall → List PoolCall
when_positive n call = if is_nonpositive n then [] else call ∷ []

unfoldable pub pool_calls : PoolConfig → List PoolCall
pool_calls p =
    when_positive p.max_open_conns (set_max_open_conns p.max_open_conns)
    ++ (when_positive p.max_idle_conns (set_max_idle_conns p.max_idle_conns)
        ++ (when_positive p.conn_max_lifetime (set_conn_max_lifetime p.conn_max_lifetime)
            ++ when_positive p.conn_max_idle_time (set_conn_max_idle_time p.conn_max_idle_time)))

-- The timeout that a call adds to its context.
unfoldable pub added_timeout : ℤ → Option ℤ
added_timeout timeout = if is_nonpositive timeout then none else some timeout

unfoldable pub check_database :
    {F G S : Type 0} → (Option ℤ → Option F) → Runtime F G S → RunResult F
check_database ping r = elim (ping (added_timeout r.health_timeout)) [
  | some f ↦ record { status = status_fail; detail = "database ping failed"; err = some f }
  | none ↦ record { status = status_pass; detail = "database is reachable"; err = none }
]

module _ {F D G S : Type 0} where
  unfoldable pub new_runtime :
      Gorm F D G S → DatabaseConfig D → Result (DatabaseError F) (Runtime F G S × List PoolCall)
  new_runtime gorm config = elim config.dialector [
    | none ↦ err dialector_missing
    | some dialector ↦ elim (gorm.open_gorm dialector) [
      | err f ↦ err (open_failed f)
      | ok db ↦ elim (gorm.native_pool db) [
        | err f ↦ err (pool_failed f)
        | ok sql_db ↦ ok (
          record {
            db = db;
            sql_db = sql_db;
            name = if is_blank config.health_name then "database" else config.health_name;
            ping_timeout = config.ping_timeout;
            health_timeout = config.health_timeout;
            closed = none;
            closes = 0;
          },
          pool_calls config.pool,
        )
      ]
    ]
  ]

module _ {F G S : Type 0} where
  -- `close`: `answer` is what the native Close returns if it is called now.
  unfoldable pub close : Option F → Runtime F G S → Runtime F G S × Option F
  close answer r = elim r.closed [
    | some earlier ↦ (r, earlier)
    | none ↦ (record r { closed = some answer; closes = suc r.closes }, answer)
  ]

  unfoldable pub start :
      (Option ℤ → Option F) → Option F → Runtime F G S → Runtime F G S × List (DatabaseError F)
  start ping answer r = elim (ping (added_timeout r.ping_timeout)) [
    | none ↦ (r, [])
    | some f ↦
        let closing = close answer r in
        (closing.0, ping_failed f ∷ elim closing.1 [ none ↦ [] | some e ↦ close_failed e ∷ [] ])
  ]

  unfoldable pub stop : Option F → Runtime F G S → Runtime F G S × Option F
  stop answer r = close answer r

  -- The check that the module registers; `R` is the type of the functions that run one.
  unfoldable pub health_check : {R : Type 0} → R → Runtime F G S → Check R
  health_check run r = record {
    name = r.name;
    kind = readiness;
    timeout = r.health_timeout;
    run = some run;
  }

-- The calls that the lifecycle and the health registry make, with what the ping and the native Close
-- answer.
pub data Event (F : Type 0) : Type 0 where
  starting : (ping : Option ℤ → Option F) (answer : Option F) → Event F
  stopping : (answer : Option F) → Event F
  checking : (ping : Option ℤ → Option F) → Event F

module _ {F G S : Type 0} where
  abbrev pub happen : Event F → Runtime F G S → Runtime F G S
  happen (starting ping answer) r = (start ping answer r).0
  happen (stopping answer) r = (stop answer r).0
  happen (checking ping) r = r

  -- What the calls leave, the first call first.
  abbrev pub happen_all : List (Event F) → Runtime F G S → Runtime F G S
  happen_all [] r = r
  happen_all (e ∷ es) r = happen_all es (happen e r)
