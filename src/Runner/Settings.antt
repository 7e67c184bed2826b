-- ===== src/Runner/Settings.antt =====
-- hanami.go: `Spec`, the run options and `resolveSettings`. `C` is the application's configuration,
-- `K` the type of cleanup functions, `V` of the values an integration supplies, `M` of `fx.Option`
-- values, `L` of loggers, `E` of the errors of the code that a run calls.
pub mod Resolve
use hanami.Base.{
  ℤ, pos, is_nonpositive, Bool, Option, none, some, List, [], ◌∷◌, ◌++◌, String, is_blank, is_none,
  contains, check_each, Result, ok, err, ◌>>=◌, if◌then◌else◌,
}

-- What `factory(config)` does: it panics with a value, or returns the modules, perhaps nil.
pub data Composition (M E : Type 0) : Type 0 where
  panicked : E → Composition M E
  returned : Option M → Composition M E

pub record Spec (C M E : Type 0) : Type 0 where
  pub name : String
  pub load : Option (Result E C)
  pub modules : Option (C → Composition M E)

-- `none` is a nil `Cleanup`.
pub record Prepared (K V : Type 0) : Type 0 where
  pub cleanup : Option K
  pub values : List V

pub record Integration (C K V E : Type 0) : Type 0 where
  pub name : String
  pub prepare : C → Result E (Prepared K V)

pub record Timeouts : Type 0 where
  pub startup : ℤ
  pub shutdown : ℤ

pub record RunSettings (C K V L E : Type 0) : Type 0 where
  pub integrations : List (Integration C K V E)
  pub timeouts : Timeouts
  pub logger : L

-- `Option[C]`: its method is not exported, so the three constructors of the package make all of them.
pub data RunOption (C K V L E : Type 0) : Type 0 where
  nil_option : RunOption C K V L E
  with_integration : Option (Integration C K V E) → RunOption C K V L E
  with_timeouts : Timeouts → RunOption C K V L E
  with_logger : Option L → RunOption C K V L E

-- Each error that `Run` returns or joins, with the error that it wraps.
pub data RunError (E : Type 0) : Type 0 where
  name_empty loader_nil module_factory_nil run_option_nil integration_nil logger_nil : RunError E
  startup_not_positive shutdown_not_positive integration_name_empty modules_nil : RunError E
  integration_twice : String → RunError E
  load_failed modules_panicked compose_failed start_failed initialize_failed : E → RunError E
  stop_failed cleanup_failed runtime_failed : E → RunError E
  prepare_failed : String → E → RunError E

-- 15 and 30 seconds, in nanoseconds.
abbrev pub default_timeouts : Timeouts
default_timeouts = record { startup = pos 15000000000; shutdown = pos 30000000000 }

module _ {C K V E : Type 0} where
  unfoldable pub integration_errors : List (Integration C K V E) → Option (RunError E)
  integration_errors =
      check_each contains (λ i. i.name)
        (λ i. if is_blank i.name then some integration_name_empty else none)
        (λ i. integration_twice i.name) []

module _ {C K V L E : Type 0} where
  unfoldable pub apply :
      RunOption C K V L E → RunSettings C K V L E → Result (RunError E) (RunSettings C K V L E)
  apply nil_option s = err run_option_nil
  apply (with_integration none) s = err integration_nil
  apply (with_integration (some i)) s = ok (record s { integrations = s.integrations ++ (i ∷ []) })
  apply (with_timeouts t) s =
      if is_nonpositive t.startup
      then err startup_not_positive
      else if is_nonpositive t.shutdown
      then err shutdown_not_positive
      else ok (record s { timeouts = t })
  apply (with_logger none) s = err logger_nil
  apply (with_logger (some l)) s = ok (record s { logger = l })

  unfoldable pub apply_all :
      List (RunOption C K V L E)
      → RunSettings C K V L E
      → Result (RunError E) (RunSettings C K V L E)
  unfolding apply
  apply_all [] s = ok s
  apply_all (o ∷ os) s = apply o s >>= apply_all os

  -- `default_logger` is what `hanamilog.New` returns for the name.
  unfoldable pub resolve_settings :
      {M : Type 0}
      → (String → L)
      → Spec C M E
      → List (RunOption C K V L E)
      → Result (RunError E) (RunSettings C K V L E)
  unfolding apply_all integration_errors
  resolve_settings default_logger spec options =
      if is_blank spec.name
      then err name_empty
      else if is_none spec.load
      then err loader_nil
      else if is_none spec.modules
      then err module_factory_nil
      else (apply_all options (record {
        integrations = [];
        timeouts = default_timeouts;
        logger = default_logger spec.name;
      })
          >>= λ settings. elim (integration_errors settings.integrations) [
            | some e ↦ err e
            | none ↦ ok settings
          ])
