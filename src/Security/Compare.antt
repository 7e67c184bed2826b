-- ===== src/Security/Compare.antt =====
-- security/linux/security.go: `CompareEffectivePolicy`, the classification of a change of policy.
pub mod Changes
pub mod Kinds
use hanami.Base.{
  ℕ, ◌+◌, ◌==◌, Bool, true, false, not, ◌&&◌, ◌||◌, List, String, str_eq, contains, is_empty,
  select, [], ◌∷◌, if◌then◌else◌,
}
use hanami.Security.Policy.{
  PolicyMode, mode_off, mode_preferred, mode_required, other_mode, Grant, Policy, normalized,
}

pub data ChangeKind : Type 0 where
  no_change more_restrictive permission_expansion mode_change : ChangeKind

pub record PolicyComparison : Type 0 where
  pub kind : ChangeKind
  pub added_read_only_paths : List String
  pub added_writable_paths : List String
  pub added_executable_paths : List String
  pub added_syscalls : List String
  pub removed_read_only_paths : List String
  pub removed_writable_paths : List String
  pub removed_executable_paths : List String
  pub removed_syscalls : List String
  pub added_grants : List Grant
  pub removed_grants : List Grant
  pub mode_changed : Bool
  pub landlock_changed : Bool
  pub seccomp_changed : Bool
  pub except_exec_changed : Bool
  pub external_restart_required : Bool

abbrev pub mode_number : PolicyMode → ℕ
mode_number mode_off = 0
mode_number mode_preferred = 1
mode_number mode_required = 2
mode_number (other_mode n) = n + 3

abbrev pub same_mode : PolicyMode → PolicyMode → Bool
same_mode a b = mode_number a == mode_number b

abbrev pub same_flag : Bool → Bool → Bool
same_flag true b = b
same_flag false b = not b

-- The elements of the second list that are not in the first: `differences` makes two such loops, for
-- what was added and what was removed.
unfoldable pub missing_from : List String → List String → List String
missing_from known = select (λ x. not (contains x known))

-- `m[path]` of the map filled from the list in order: the last entry counts, 0 without one.
unfoldable pub last_access : String → ℕ → List Grant → ℕ
last_access path found [] = found
last_access path found (g ∷ gs) =
    last_access path (if str_eq g.path path then g.access else found) gs

-- The grants of the second list that the map of the first does not give: one of the two loops of
-- `grantDifferences`.
unfoldable pub changed_grants : List Grant → List Grant → List Grant
unfolding last_access
changed_grants known = select (λ g. not (last_access g.path 0 known == g.access))

-- Something was added, or a mechanism is to be switched on.
unfoldable pub is_expansion : PolicyComparison → Policy → Policy → Bool
is_expansion r current desired =
    not (
      is_empty r.added_read_only_paths
      && is_empty r.added_writable_paths
      && is_empty r.added_executable_paths
      && is_empty r.added_syscalls
      && is_empty r.added_grants)
    || (desired.landlock && not current.landlock)
    || (desired.seccomp && not current.seccomp)

unfoldable pub is_restriction : PolicyComparison → Policy → Policy → Bool
is_restriction r current desired =
    not (
      is_empty r.removed_read_only_paths
      && is_empty r.removed_writable_paths
      && is_empty r.removed_executable_paths
      && is_empty r.removed_syscalls
      && is_empty r.removed_grants)
    || (current.landlock && not desired.landlock)
    || (current.seccomp && not desired.seccomp)

-- The kind and the restart flag, from the differences.
unfoldable pub classify : PolicyComparison → Policy → Policy → PolicyComparison
unfolding is_expansion is_restriction
classify r current desired =
    let expansion = is_expansion r current desired in
    let restriction = is_restriction r current desired in
    record r {
      kind =
          if expansion
          then permission_expansion
          else if r.mode_changed
          then mode_change
          else if restriction
          then more_restrictive
          else no_change;
      external_restart_required =
          expansion
          || (r.mode_changed
              && (same_mode desired.mode mode_off || same_mode current.mode mode_off));
    }

unfoldable pub compare_normalized : Policy → Policy → PolicyComparison
unfolding classify
compare_normalized current desired =
    classify
      (record {
        kind = no_change;
        added_read_only_paths = missing_from current.read_only_paths desired.read_only_paths;
        added_writable_paths = missing_from current.writable_paths desired.writable_paths;
        added_executable_paths = missing_from current.executable_paths desired.executable_paths;
        added_syscalls = missing_from current.deny_syscalls desired.deny_syscalls;
        removed_read_only_paths = missing_from desired.read_only_paths current.read_only_paths;
        removed_writable_paths = missing_from desired.writable_paths current.writable_paths;
        removed_executable_paths = missing_from desired.executable_paths current.executable_paths;
        removed_syscalls = missing_from desired.deny_syscalls current.deny_syscalls;
        added_grants = changed_grants current.grants desired.grants;
        removed_grants = changed_grants desired.grants current.grants;
        mode_changed = not (same_mode current.mode desired.mode);
        landlock_changed = not (same_flag current.landlock desired.landlock);
        seccomp_changed = not (same_flag current.seccomp desired.seccomp);
        except_exec_changed = not (same_flag current.except_exec desired.except_exec);
        external_restart_required = false;
      })
      current desired

unfoldable pub compare_effective_policy : Policy → Policy → PolicyComparison
unfolding compare_normalized
compare_effective_policy current desired =
    compare_normalized (normalized current) (normalized desired)
