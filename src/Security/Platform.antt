-- ===== src/Security/Platform.antt =====
-- security/linux: the status of the mechanisms, the errors, and the state of the process that the Linux
-- backend changes.
use hanami.Base.{ℕ, Bool, false, Option, none, List, [], String, ℤ}
use hanami.Security.Policy.{Policy, PolicyMode, PolicyError}
use hanami.Security.Handoff.{HandoffError}
use hanami.Security.Seccomp.{SeccompError}
use hanami.Security.Landlock.{Ruleset, LandlockError}

pub data DescriptorError (F : Type 0) : Type 0 where
  negative_descriptor repeated_descriptor : ℤ → DescriptorError F
  descriptor_call : F → DescriptorError F

-- The error values, with what they wrap.
pub data SecurityError (F : Type 0) : Type 0 where
  invalid_policy : PolicyError → SecurityError F
  landlock_not_selected probes_granted unsupported : SecurityError F
  foreign_architecture : String → SecurityError F
  executable_unknown no_new_privs_failed restrict_failed environment_failed exec_failed :
      F → SecurityError F
  build_failed : LandlockError F → SecurityError F
  handoff_failed : HandoffError F → SecurityError F
  descriptors_failed : DescriptorError F → SecurityError F
  filter_failed : SeccompError → SecurityError F
  filter_refused : F → SecurityError F
  required_missing : List String → SecurityError F

pub record LayerStatus (F : Type 0) : Type 0 where
  pub available : Bool
  pub applied : Bool
  pub verified : Bool
  pub error : Option (SecurityError F)

pub record Status (F : Type 0) : Type 0 where
  pub mode : PolicyMode
  pub architecture : String
  pub landlock : LayerStatus F
  pub seccomp : LayerStatus F
  pub missing : List String
  pub warnings : List String
  pub enforced : Bool
  pub handoff_verified : Bool
  pub external_restart_required : Bool

module _ {F : Type 0} where
  abbrev pub no_layer : LayerStatus F
  no_layer = record { available = false; applied = false; verified = false; error = none }

  -- `Status{Mode: …, Architecture: …}`
  abbrev pub new_status : PolicyMode → String → Status F
  new_status mode architecture = record {
    mode = mode;
    architecture = architecture;
    landlock = no_layer;
    seccomp = no_layer;
    missing = [];
    warnings = [];
    enforced = false;
    handoff_verified = false;
    external_restart_required = false;
  }

-- What the backend changes: the variable HANAMI_SECURITY_HANDOFF, blank when it is not set; the Landlock
-- domains of the thread, newest first; the flags that descriptors were given; whether the
-- descriptor of a ruleset is open; and the variable `platformState`.
pub record World (F : Type 0) : Type 0 where
  pub environment : String
  pub domains : List Ruleset
  pub no_new_privs : Bool
  pub descriptor_flags : List (ℕ × ℕ)
  pub ruleset_open : Bool
  pub published : Option (Policy × Status F)
