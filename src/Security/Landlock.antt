-- ===== src/Security/Landlock.antt =====
-- security/linux/platform_linux.go: the rights and the ruleset of Landlock. The kernel's answers are the
-- interface `Kernel`; a ruleset that an error closes again is not part of the result.
use Prim.Native.Nat.{bit_and, bit_or, bit_xor, compare, Ordering}
pub mod Rules
pub mod Bounds
pub mod Covering
use hanami.Base.{
  ℕ, ◌==◌, leb, Bool, true, false, not, Option, none, some, List, [], ◌∷◌, ◌++◌, String,
  if◌then◌else◌, Result, ok, err, ◌>>=◌,
}
use hanami.Security.Paths.{clean_path}
use hanami.Security.Policy.{Policy, Grant}
use hanami.Security.Handoff.{Opening}
use hanami.Security.Seccomp.{SockFilter, UnixConstants}

abbrev pub right_execute : ℕ
right_execute = 0x1

abbrev pub right_write_file : ℕ
right_write_file = 0x2

abbrev pub right_read_file : ℕ
right_read_file = 0x4

abbrev pub right_read_directory : ℕ
right_read_directory = 0x8

-- The rights from `RightExecute` to `RightMakeSymlink`, 1 << 0 to 1 << 12.
abbrev pub basic_rights : ℕ
basic_rights = 0x1fff

abbrev pub right_refer : ℕ
right_refer = 0x2000

abbrev pub right_truncate : ℕ
right_truncate = 0x4000

abbrev pub right_ioctl_device : ℕ
right_ioctl_device = 0x8000

-- `a &^ b`
abbrev pub and_not : ℕ → ℕ → ℕ
and_not a b = bit_xor a (bit_and a b)

-- `unix.LandlockPathBeneathAttr`, with the cleaned path that its descriptor was opened for.
pub record Rule : Type 0 where
  pub path : String
  pub allowed_access : ℕ

pub record Ruleset : Type 0 where
  pub handled : ℕ
  pub rules : List Rule

-- What os, syscall and golang.org/x/sys/unix answer. `stat` gives the device, the inode and the mode;
-- `is_beneath` tells whether the file at the first path is that at the second or lies beneath it, links
-- followed; `open_path` depends on the domains that the thread is in, newest first; `proc_self_fd` lists the names that are
-- numbers, and `set_descriptor_flags` has no error for EBADF.
pub record Kernel (F : Type 0) : Type 0 where
  pub unix : UnixConstants
  pub goarch : String
  pub landlock_abi : Result F ℕ
  pub create_ruleset : ℕ → Option F
  pub add_rule : String → ℕ → Option F
  pub executable : Result F String
  pub has_dev_null : Bool
  pub stat : String → Option (ℕ × (ℕ × ℕ))
  pub is_beneath : String → String → Bool
  pub open_path : List Ruleset → String → Opening F
  pub set_no_new_privs : Option F
  pub restrict_self : Option F
  pub proc_self_fd : Result F (List ℕ)
  pub set_descriptor_flags : ℕ → ℕ → Option F
  pub set_environment : Option F
  pub exec : Option F
  pub install_filter : ℕ → List SockFilter → Option F
  pub seccomp_mode : Option ℕ

pub data LandlockError (F : Type 0) : Type 0 where
  system_call : F → LandlockError F
  execute_with_except_exec unsupported_rights : String → LandlockError F

unfoldable pub supported_filesystem_rights : ℕ → ℕ
supported_filesystem_rights abi =
    let basic = basic_rights in
    let second = if leb 2 abi then bit_or basic right_refer else basic in
    let third = if leb 3 abi then bit_or second right_truncate else second in
    if leb 5 abi then bit_or third right_ioctl_device else third

unfoldable pub handled_rights : ℕ → Policy → ℕ
unfolding supported_filesystem_rights
handled_rights abi p =
    let supported = supported_filesystem_rights abi in
    if p.except_exec then and_not supported right_execute else supported

unfoldable pub read_rights : Policy → ℕ
read_rights p =
    let rights = bit_or right_read_file right_read_directory in
    if p.except_exec then rights else bit_or rights right_execute

module _ {F : Type 0} where
  abbrev pub checked : Option F → Result {0, 0} (LandlockError F) Unit
  checked none = ok _
  checked (some f) = err (system_call f)

  abbrev pub of_system : {A : Type 0} → Result F A → Result (LandlockError F) A
  of_system (ok a) = ok a
  of_system (err f) = err (system_call f)

  module _ (k : Kernel F) (handled : ℕ) where
    -- The closure `add` of `buildLandlock`.
    unfoldable pub add_landlock_rule : String → ℕ → Result (LandlockError F) Rule
    add_landlock_rule path rights =
        checked (k.add_rule (clean_path path) (bit_and rights handled))
        >>= (λ _. ok (record { path = clean_path path; allowed_access = bit_and rights handled }))

    unfoldable pub add_paths : ℕ → List String → Result (LandlockError F) (List Rule)
    add_paths rights [] = ok []
    add_paths rights (path ∷ paths) =
        add_landlock_rule path rights >>= (λ r. add_paths rights paths >>= (λ rs. ok (r ∷ rs)))

    unfoldable pub add_executable_paths : Bool → List String → Result (LandlockError F) (List Rule)
    add_executable_paths except_exec [] = ok []
    add_executable_paths true (path ∷ paths) = err (execute_with_except_exec path)
    add_executable_paths false (path ∷ paths) =
        add_landlock_rule path (bit_or (bit_or right_execute right_read_file) right_read_directory)
        >>= (λ r. add_executable_paths false paths >>= (λ rs. ok (r ∷ rs)))

    unfoldable pub add_grants : List Grant → Result (LandlockError F) (List Rule)
    add_grants [] = ok []
    add_grants (g ∷ gs) =
        if not (and_not g.access handled == 0)
        then err (unsupported_rights g.path)
        else add_landlock_rule g.path g.access >>= (λ r. add_grants gs >>= (λ rs. ok (r ∷ rs)))

    unfoldable pub add_executable : Bool → Result (LandlockError F) (List Rule)
    add_executable except_exec = elim k.executable [
      | err f ↦ ok []
      | ok path ↦
          add_landlock_rule path
            (if except_exec then right_read_file else bit_or right_read_file right_execute)
          >>= (λ r. ok (r ∷ []))
    ]

    unfoldable pub add_dev_null : Result (LandlockError F) (List Rule)
    add_dev_null =
        if k.has_dev_null
        then add_landlock_rule "/dev/null" (bit_or right_read_file right_write_file)
          >>= (λ r. ok (r ∷ []))
        else ok []

  unfoldable pub build_landlock : Kernel F → Policy → Result (LandlockError F) Ruleset
  build_landlock k p = of_system k.landlock_abi >>= (λ abi.
      let handled = handled_rights abi p in
      checked (k.create_ruleset handled) >>= (λ _.
        add_paths k handled (read_rights p) p.read_only_paths >>= (λ read.
          add_paths k handled handled p.writable_paths >>= (λ write.
            add_executable_paths k handled p.except_exec p.executable_paths >>= (λ execute.
              add_grants k handled p.grants >>= (λ granted.
                add_executable k handled p.except_exec >>= (λ own.
                  add_dev_null k handled >>= (λ null. ok (record {
                    handled = handled;
                    rules = read ++ (write ++ (execute ++ (granted ++ (own ++ null))));
                  })))))))))
