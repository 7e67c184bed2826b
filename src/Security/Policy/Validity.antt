-- ===== src/Security/Policy/Validity.antt =====
-- security/linux/security.go, Policy: the policies that validate.
use mathlib.Core.List.{map-id}
use hanami.Base.{
  ◌≡◌, refl, sym, ◌↔◌, true, false, none, List, [], ◌∷◌, arith, All, Nodup, Mem, not-mem-nil,
  String, contains, contains→mem, mem→contains, check_each_sound, check_each_complete, is_blank,
  ◌==◌,
}
use hanami.Security.Policy.{
  Policy, Grant, is_valid_mode, is_absolute, path_errors, grant_error, grant_errors, syscall_errors,
  validate,
}

-- Absolute paths, none twice.
pub record ArePaths (paths : List String) : Type 0 where
  pub absolute : All (λ path. is_absolute path ≡ true) paths
  pub distinct : Nodup paths

pub record IsValid (p : Policy) : Type 0 where
  pub mode : is_valid_mode p.mode ≡ true
  pub read_only : ArePaths p.read_only_paths
  pub writable : ArePaths p.writable_paths
  pub executable : ArePaths p.executable_paths
  pub grants : All (λ g. (is_absolute g.path ≡ true) × ((g.access == 0) ≡ false)) p.grants
  pub syscalls : All (λ name. is_blank name ≡ false) p.deny_syscalls
  pub distinct_syscalls : Nodup p.deny_syscalls

module _ {A : Type 0} {P Q : A → Type 0} where
  pub All-imp : ((a : A) → P a → Q a) → (xs : List A) → All P xs → All Q xs
  All-imp f [] h = tt
  All-imp f (x ∷ xs) h = (f x h.0, All-imp f xs h.1)

unseen : (names : List String) → All (λ name. ¬ Mem name []) names
unseen [] = tt
unseen (n ∷ ns) = (not-mem-nil, unseen ns)

path_errors-none : (paths : List String) → (path_errors paths ≡ none) ↔ ArePaths paths
unfolding path_errors
path_errors-none paths = (
  λ h.
      let d = check_each_sound contains _ _ _ contains→mem mem→contains [] paths h in
      record {
        absolute = All-imp (λ path e. ground arith) paths d.passes;
        distinct = rw (sym (map-id paths)) d.nodup;
      },
  λ h. check_each_complete contains _ _ _ contains→mem mem→contains [] paths (record {
    passes = All-imp (λ path e. ground arith) paths h.absolute;
    nodup = rw (map-id paths) h.distinct;
    unseen = unseen paths;
  }),
)

syscall_errors-none :
    (names : List String)
    → (syscall_errors names ≡ none) ↔ (All (λ name. is_blank name ≡ false) names × Nodup names)
unfolding syscall_errors
syscall_errors-none names = (
  λ h.
      let d = check_each_sound contains _ _ _ contains→mem mem→contains [] names h in
      (All-imp (λ name e. ground arith) names d.passes, rw (sym (map-id names)) d.nodup),
  λ h. check_each_complete contains _ _ _ contains→mem mem→contains [] names (record {
    passes = All-imp (λ name e. ground arith) names h.0;
    nodup = rw (map-id names) h.1;
    unseen = unseen names;
  }),
)

grant_errors-none :
    (gs : List Grant)
    → (grant_errors gs ≡ none)
      ↔ All (λ g. (is_absolute g.path ≡ true) × ((g.access == 0) ≡ false)) gs
unfolding grant_errors grant_error
grant_errors-none [] = (λ _. tt, λ _. refl)
grant_errors-none (g ∷ gs) = (
  λ h. ((ground arith, ground arith), (grant_errors-none gs).0 (ground arith)),
  λ h. ground (arith, (grant_errors-none gs).1 h.1),
)

validate-parts :
    (p : Policy)
    → (validate p ≡ none) ↔ (
        (is_valid_mode p.mode ≡ true)
        × (path_errors p.read_only_paths ≡ none)
        × (path_errors p.writable_paths ≡ none)
        × (path_errors p.executable_paths ≡ none)
        × (grant_errors p.grants ≡ none)
        × (syscall_errors p.deny_syscalls ≡ none))
unfolding validate
validate-parts p = ground arith

-- A policy validates exactly when its mode is a known one, every path of its three lists is absolute and
-- listed once, every grant has an absolute path and some right, and every denied system call has a
-- name and is listed once.
pub validate-none : (p : Policy) → (validate p ≡ none) ↔ IsValid p
validate-none p = (
  λ h.
      let parts = (validate-parts p).0 h in
      let syscalls = (syscall_errors-none p.deny_syscalls).0 parts.5 in
      record {
        mode = parts.0;
        read_only = (path_errors-none p.read_only_paths).0 parts.1;
        writable = (path_errors-none p.writable_paths).0 parts.2;
        executable = (path_errors-none p.executable_paths).0 parts.3;
        grants = (grant_errors-none p.grants).0 parts.4;
        syscalls = syscalls.0;
        distinct_syscalls = syscalls.1;
      },
  λ v. (validate-parts p).1 (
    v.mode,
    (path_errors-none p.read_only_paths).1 v.read_only,
    (path_errors-none p.writable_paths).1 v.writable,
    (path_errors-none p.executable_paths).1 v.executable,
    (grant_errors-none p.grants).1 v.grants,
    (syscall_errors-none p.deny_syscalls).1 (v.syscalls, v.distinct_syscalls),
  ),
)
