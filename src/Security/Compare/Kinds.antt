-- ===== src/Security/Compare/Kinds.antt =====
-- security/linux/security.go, CompareEffectivePolicy: what the classification of a change reports.
use hanami.Base.{◌≡◌, ◌≢◌, ◌↔◌, true, false, [], map, arith, Mem, Nodup}
use hanami.Security.Policy.{Grant, Policy, normalized}
use hanami.Security.Compare.{no_change, permission_expansion, last_access, compare_effective_policy}
use hanami.Security.Compare.Changes.{
  Includes, missing_from_self, changed_grants_self, changed_grants-empty, sorted-Includes,
  changed_grants_of, Includes-missing_from, last_access-Mem,
}

-- The desired policy lists no path and no denied system call that the current one does not list, selects
-- no mechanism that the current one does not, and gives no path an access other than the current one.
pub record IsWithin (current desired : Policy) : Type 0 where
  pub read_only : Includes current.read_only_paths desired.read_only_paths
  pub writable : Includes current.writable_paths desired.writable_paths
  pub executable : Includes current.executable_paths desired.executable_paths
  pub syscalls : Includes current.deny_syscalls desired.deny_syscalls
  pub grants :
      (g : Grant)
      → Mem g (normalized desired).grants
      → last_access g.path 0 (normalized current).grants ≡ g.access
  pub granted :
      (g : Grant)
      → Mem g (normalized desired).grants
      → g.access ≢ 0
      → Mem g (normalized current).grants
  pub landlock : desired.landlock ≡ true → current.landlock ≡ true
  pub seccomp : desired.seccomp ≡ true → current.seccomp ≡ true

-- A comparison is no permission expansion exactly when each path and each denied system call of the desired
-- policy is in the current one, each grant has the access that the last grant of the current one for its
-- path has, none counting as no right, so that one with a right is a grant of the current one, and
-- Landlock and seccomp are not newly selected. The mode, ExceptExec and denials that the desired policy
-- drops have no part in it. Each permission expansion requires an external restart.
pub compare-IsWithin :
    (current desired : Policy)
    → let r = compare_effective_policy current desired in
      ((r.kind ≢ permission_expansion) ↔ IsWithin current desired)
      × (r.kind ≡ permission_expansion → r.external_restart_required ≡ true)
unfolding compare_effective_policy normalized
compare-IsWithin current desired = (
  (
    λ n. record {
      read_only = sorted-Includes current.read_only_paths desired.read_only_paths (ground arith);
      writable = sorted-Includes current.writable_paths desired.writable_paths (ground arith);
      executable = sorted-Includes current.executable_paths desired.executable_paths (ground arith);
      syscalls = sorted-Includes current.deny_syscalls desired.deny_syscalls (ground arith);
      grants = changed_grants-empty _ _ (ground arith);
      granted =
          λ g m held. last_access-Mem g 0 _ (changed_grants-empty _ _ (ground arith) g m) held;
      landlock = λ h. ground arith;
      seccomp = λ h. ground arith;
    },
    λ w. ground (
      arith,
      w.landlock,
      w.seccomp,
      Includes-missing_from current.read_only_paths desired.read_only_paths w.read_only,
      Includes-missing_from current.writable_paths desired.writable_paths w.writable,
      Includes-missing_from current.executable_paths desired.executable_paths w.executable,
      Includes-missing_from current.deny_syscalls desired.deny_syscalls w.syscalls,
      changed_grants_of (normalized current).grants (normalized desired).grants w.grants,
    ),
  ),
  λ h. ground arith,
)

-- A policy compared with itself is no change, of nothing, and requires no restart, if no path has two
-- grants.
pub compare_self :
    (p : Policy)
    → Nodup (map (λ g. g.path) p.grants)
    → let r = compare_effective_policy p p in
      (r.kind ≡ no_change)
      × (r.external_restart_required ≡ false)
      × (r.added_grants ≡ [])
      × (r.removed_grants ≡ [])
unfolding compare_effective_policy normalized
compare_self p n = ground (
  arith,
  missing_from_self p.read_only_paths,
  missing_from_self p.writable_paths,
  missing_from_self p.executable_paths,
  missing_from_self p.deny_syscalls,
  changed_grants_self p.grants n,
)
