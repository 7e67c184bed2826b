-- ===== src/Security/Tests.antt =====
-- Policies, comparisons and filters.
use hanami.Base.{
  ℕ, ◌≡◌, refl, true, none, some, List, [], ◌∷◌, ok, err, check_each, contains, ◌==◌, if◌then◌else◌,
}
use hanami.Security.Policy.{
  Policy, Grant, mode_required, validate, path_not_absolute, syscall_twice, normalized,
}
use hanami.Security.Policy.Validity.{IsValid, validate-none}
use hanami.Security.Compare.{compare_effective_policy, permission_expansion}
use hanami.Security.Compare.Kinds.{compare-IsWithin}
use hanami.Security.Seccomp.{
  UnixConstants, SockFilter, build_seccomp_filter, abi_for_architecture, syscall_number,
  unknown_name,
}
use hanami.Security.Seccomp.Machine.{interpreter}
use hanami.Security.Seccomp.Verdict.{verdict}
use hanami.Security.Seccomp.Capacity.{validated-verdict}

abbrev policy : Policy
policy = record {
  mode = mode_required;
  read_only_paths = "/var/lib/app" ∷ [];
  writable_paths = [];
  executable_paths = [];
  grants = record { path = "/srv"; access = 4 } ∷ [];
  except_exec = true;
  deny_syscalls = "ptrace" ∷ "getpid" ∷ [];
  landlock = true;
  seccomp = true;
}

policy_validates : validate policy ≡ none
unfolding validate check_each contains hanami.Security.Policy.path_errors
    hanami.Security.Policy.grant_errors hanami.Security.Policy.syscall_errors
    hanami.Security.Policy.is_valid_mode
policy_validates = refl

abbrev expanded : Policy
expanded = record policy { read_only_paths = "/var/lib/app" ∷ "/etc/app" ∷ [] }

expansion : (compare_effective_policy policy expanded).kind ≡ permission_expansion
unfolding compare_effective_policy normalized hanami.Security.Compare.missing_from contains
    hanami.Security.Compare.changed_grants
expansion = refl

validate-none_example : IsValid policy
validate-none_example = (validate-none policy).0 policy_validates

compare-IsWithin_example :
    (compare_effective_policy policy expanded).external_restart_required ≡ true
compare-IsWithin_example = (compare-IsWithin policy expanded).1 expansion

-- The values of golang.org/x/sys/unix on Linux.
abbrev linux : UnixConstants
linux = record {
  audit_arch_x86_64 = 0xc000003e;
  audit_arch_aarch64 = 0xc00000b7;
  seccomp_ret_kill_process = 0x80000000;
  eperm = 1;
}

filters : List SockFilter
unfolding build_seccomp_filter abi_for_architecture unknown_name syscall_number
filters = elim (build_seccomp_filter linux "amd64" policy.deny_syscalls) [ ok fs ↦ fs | err e ↦ [] ]

filters_built : build_seccomp_filter linux "amd64" policy.deny_syscalls ≡ ok filters
unfolding filters
filters_built = refl

-- The system call `getpid`, number 39.
abbrev getpid_packet : ℕ → ℕ
getpid_packet offset = if offset == 4 then 0xc000003e else 39

validated-verdict_example :
    interpreter.execute filters 0 0 getpid_packet
    ≡ some (verdict linux "amd64" 0xc000003e policy.deny_syscalls getpid_packet)
unfolding abi_for_architecture
validated-verdict_example =
    validated-verdict interpreter linux "amd64" policy filters 0xc000003e getpid_packet
      policy_validates filters_built refl

getpid_refused : verdict linux "amd64" 0xc000003e policy.deny_syscalls getpid_packet ≡ 0x00050001
unfolding hanami.Security.Seccomp.Jumps.is_denied syscall_number
getpid_refused = refl
