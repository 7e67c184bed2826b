-- ===== src/Security/Seccomp.antt =====
-- security/linux/platform_linux.go: the seccomp filter program. The numbers that the source takes from
-- golang.org/x/sys/unix are the record `UnixConstants`; an opcode such as
-- `BPF_LD | BPF_W | BPF_ABS` is a constructor.
pub mod Machine
pub mod Jumps
pub mod Verdict
pub mod Capacity
use Prim.Native.Nat.{bit_or}
use hanami.Base.{
  ℕ, suc, ◌+◌, ◌-◌, ◌%◌, Bool, Option, none, some, List, [], ◌∷◌, ◌++◌, String, str_eq, Result, ok,
  err, length, is_none, if◌then◌else◌,
}

pub record UnixConstants : Type 0 where
  pub audit_arch_x86_64 : ℕ
  pub audit_arch_aarch64 : ℕ
  pub seccomp_ret_kill_process : ℕ
  pub eperm : ℕ

pub data Opcode : Type 0 where
  load_word_abs jump_eq_k jump_ge_k return_k : Opcode

pub record SockFilter : Type 0 where
  pub code : Opcode
  pub k : ℕ
  pub jt : ℕ
  pub jf : ℕ

pub data SeccompError : Type 0 where
  unknown_architecture unknown_syscall : String → SeccompError

abbrev pub seccomp_data_arch_offset : ℕ
seccomp_data_arch_offset = 4

abbrev pub seccomp_data_nr_offset : ℕ
seccomp_data_nr_offset = 0

abbrev pub seccomp_ret_allow : ℕ
seccomp_ret_allow = 0x7fff0000

abbrev pub seccomp_ret_errno : ℕ
seccomp_ret_errno = 0x00050000

-- The number from which x32 system calls count.
abbrev pub x32_bit : ℕ
x32_bit = 0x40000000

unfoldable pub abi_for_architecture : UnixConstants → String → Result SeccompError ℕ
abi_for_architecture unix arch =
    if str_eq arch "amd64"
    then ok unix.audit_arch_x86_64
    else if str_eq arch "arm64"
    then ok unix.audit_arch_aarch64
    else err (unknown_architecture arch)

abbrev pub amd64_syscalls : List (String × ℕ)
amd64_syscalls =
    ("read", 0)
    ∷ ("write", 1)
    ∷ ("open", 2)
    ∷ ("close", 3)
    ∷ ("ptrace", 101)
    ∷ ("mount", 165)
    ∷ ("kexec_load", 246)
    ∷ ("process_vm_readv", 310)
    ∷ ("process_vm_writev", 311)
    ∷ ("kexec_file_load", 320)
    ∷ ("bpf", 321)
    ∷ ("userfaultfd", 323)
    ∷ ("getpid", 39)
    ∷ ("openat", 257)
    ∷ ("connect", 42)
    ∷ ("bind", 49)
    ∷ ("execve", 59)
    ∷ ("execveat", 322)
    ∷ []

abbrev pub arm64_syscalls : List (String × ℕ)
arm64_syscalls =
    ("read", 63)
    ∷ ("write", 64)
    ∷ ("openat", 56)
    ∷ ("close", 57)
    ∷ ("ptrace", 117)
    ∷ ("mount", 40)
    ∷ ("kexec_load", 104)
    ∷ ("process_vm_readv", 270)
    ∷ ("process_vm_writev", 271)
    ∷ ("kexec_file_load", 294)
    ∷ ("bpf", 280)
    ∷ ("userfaultfd", 282)
    ∷ ("getpid", 172)
    ∷ ("connect", 203)
    ∷ ("bind", 200)
    ∷ ("execve", 221)
    ∷ ("execveat", 281)
    ∷ []

unfoldable pub lookup : String → List (String × ℕ) → Option ℕ
lookup name [] = none
lookup name ((key, nr) ∷ rest) = if str_eq key name then some nr else lookup name rest

unfoldable pub syscall_table : String → List (String × ℕ)
syscall_table arch =
    if str_eq arch "amd64"
    then amd64_syscalls
    else if str_eq arch "arm64"
    then arm64_syscalls
    else []

unfoldable pub syscall_number : String → String → Option ℕ
unfolding lookup syscall_table
syscall_number arch name = lookup name (syscall_table arch)

-- `nr, _ := syscallNumber(…)`: 0 for an unknown name.
abbrev pub number_or_zero : Option ℕ → ℕ
number_or_zero none = 0
number_or_zero (some nr) = nr

abbrev pub u8 : ℕ → ℕ
u8 n = n % 256

-- The first unknown name.
unfoldable pub unknown_name : String → List String → Option String
unknown_name arch [] = none
unknown_name arch (name ∷ names) =
    let rest = unknown_name arch names in
    elim (syscall_number arch name) [ none ↦ some name | some _ ↦ rest ]

-- The instructions of the loop for the names from index `i` on, out of `n`.
unfoldable pub deny_jumps : String → ℕ → ℕ → List String → List SockFilter
deny_jumps arch n i [] = []
deny_jumps arch n i (name ∷ names) =
    record {
      code = jump_eq_k;
      k = number_or_zero (syscall_number arch name);
      jt = u8 (n - i);
      jf = 0;
    }
    ∷ deny_jumps arch n (suc i) names

abbrev pub return_of : ℕ → SockFilter
return_of value = record { code = return_k; k = value; jt = 0; jf = 0 }

unfoldable pub prologue : UnixConstants → ℕ → ℕ → List SockFilter
prologue unix abi n =
    record { code = load_word_abs; k = seccomp_data_arch_offset; jt = 0; jf = 0 }
    ∷ record { code = jump_eq_k; k = abi; jt = 1; jf = 0 }
    ∷ return_of unix.seccomp_ret_kill_process
    ∷ record { code = load_word_abs; k = seccomp_data_nr_offset; jt = 0; jf = 0 }
    ∷ record { code = jump_ge_k; k = x32_bit; jt = u8 (n + 2); jf = 0 }
    ∷ []

unfoldable pub epilogue : UnixConstants → List SockFilter
epilogue unix =
    return_of seccomp_ret_allow
    ∷ return_of (bit_or seccomp_ret_errno unix.eperm)
    ∷ return_of unix.seccomp_ret_kill_process
    ∷ []

unfoldable pub build_seccomp_filter :
    UnixConstants → String → List String → Result SeccompError (List SockFilter)
build_seccomp_filter unix arch denied = elim (abi_for_architecture unix arch) [
  | err e ↦ err e
  | ok abi ↦ elim (unknown_name arch denied) [
    | some name ↦ err (unknown_syscall name)
    | none ↦
        let n = length denied in
        ok (prologue unix abi n ++ (deny_jumps arch n 0 denied ++ epilogue unix))
  ]
]
