-- ===== src/Security/Seccomp/Capacity.antt =====
-- security/linux/platform_linux.go: the jump offsets, which are bytes, and the names that can be denied.
use native.Mathlib.Bridge.{from_ℕ, from_le}
use mathlib.Core.List.{length as unary_length, mem-cons, not-mem-nil, Mem-prop, map-id}
use mathlib.Core.List.Nodup
use mathlib.Core.List.Subperm
use mathlib.Core.Logic.Or
use hanami.Base.{
  ℕ, suc, ◌≤◌, ◌≡◌, refl, ap, sym, subst, List, [], ◌∷◌, map, Mem, Nodup, String, arith, length,
  none, some, str_eq, eq_iff, Bool-cases, Option-cases, inl, inr, ok, contains, contains→mem,
  mem→contains, check_each_sound,
}
use hanami.Security.Policy.{Policy, validate, syscall_errors}
use hanami.Security.Seccomp.{
  lookup, syscall_number, syscall_table, unknown_name, UnixConstants, SockFilter,
  build_seccomp_filter, abi_for_architecture,
}
use hanami.Security.Seccomp.Machine.{Machine}
use hanami.Security.Seccomp.Verdict.{verdict, build_seccomp_filter-verdict}

length-from_ℕ {ℓ} : {A : Type ℓ} (xs : List A) → from_ℕ (unary_length xs) ≡ length xs
length-from_ℕ [] = refl
length-from_ℕ (x ∷ xs) = ap suc (length-from_ℕ xs)

-- A list without repetitions is no longer than one that has all its elements.
length-le_of_subset {ℓ} :
    {A : Type ℓ} (xs ys : List A)
    → Nodup xs
    → ((a : A) → Mem a xs → Mem a ys)
    → length xs ≤ length ys
length-le_of_subset xs ys n s =
    subst (λ k. k ≤ length ys) (length-from_ℕ xs)
      (subst (λ k. from_ℕ (unary_length xs) ≤ k) (length-from_ℕ ys)
        (from_le (Subperm.length-le (Nodup.subperm n s))))

names_of : List (String × ℕ) → List String
names_of [] = []
names_of ((key, nr) ∷ rest) = key ∷ names_of rest

lookup-mem :
    (name : String) (table : List (String × ℕ)) (nr : ℕ)
    → lookup name table ≡ some nr
    → Mem name (names_of table)
unfolding lookup names_of
lookup-mem name [] nr h = absurd (cc)
lookup-mem name ((key, k) ∷ rest) nr h = elim (Bool-cases (str_eq key name)) [
  | inl e ↦ mem-cons.1 (Or.inl (sym ((eq_iff key name).0 e)))
  | inr e ↦ mem-cons.1 (Or.inr (lookup-mem name rest nr (ground arith)))
]

known_names :
    (arch : String) (names : List String)
    → unknown_name arch names ≡ none
    → (name : String) → Mem name names
    → Mem name (names_of (syscall_table arch))
unfolding unknown_name syscall_number
known_names arch [] h name m = absurd (not-mem-nil m)
known_names arch (x ∷ names) h name m = elim (Option-cases (syscall_number arch x)) [
  | inl e ↦ absurd (ground arith)
  | inr (nr, e) ↦
      Or.elim (Mem-prop) (mem-cons.0 m) (λ p. rw p (lookup-mem x (syscall_table arch) nr e))
        (known_names arch names (ground arith) name)
]

table_bound : (arch : String) → length (names_of (syscall_table arch)) ≤ 18
unfolding syscall_table names_of
table_bound arch = ground arith

no_blank : (names : List String) → Nodup (map (λ name. name) names) → Nodup names
no_blank names n = rw (sym (map-id names)) n

validate-deny_syscalls : (p : Policy) → validate p ≡ none → syscall_errors p.deny_syscalls ≡ none
unfolding validate
validate-deny_syscalls p h = ground arith

build_seccomp_filter-known :
    (unix : UnixConstants) (arch : String) (denied : List String) (filters : List SockFilter)
    → build_seccomp_filter unix arch denied ≡ ok filters
    → unknown_name arch denied ≡ none
unfolding build_seccomp_filter
build_seccomp_filter-known unix arch denied filters h = ground arith

syscall_errors-Nodup : (names : List String) → syscall_errors names ≡ none → Nodup names
unfolding syscall_errors
syscall_errors-Nodup names h =
    no_blank names (check_each_sound contains _ _ _ contains→mem mem→contains [] names h).nodup

-- The filter that is built for a policy that validates decides every system call as it is meant to:
-- its deny list is too short for a jump offset to wrap around.
pub validated-verdict :
    (machine : Machine) (unix : UnixConstants) (arch : String) (p : Policy)
    (filters : List SockFilter) (abi : ℕ) (packet : ℕ → ℕ)
    → validate p ≡ none
    → build_seccomp_filter unix arch p.deny_syscalls ≡ ok filters
    → abi_for_architecture unix arch ≡ ok abi
    → machine.execute filters 0 0 packet ≡ some (verdict unix arch abi p.deny_syscalls packet)
validated-verdict machine unix arch p filters abi packet v b a =
    build_seccomp_filter-verdict machine unix arch p.deny_syscalls filters abi packet b a (
      omega (
        arith,
        table_bound arch,
        length-le_of_subset p.deny_syscalls (names_of (syscall_table arch))
            (syscall_errors-Nodup p.deny_syscalls (validate-deny_syscalls p v))
            (known_names arch p.deny_syscalls
              (build_seccomp_filter-known unix arch p.deny_syscalls filters b)),
      ))
