-- ===== src/Security/Policy.antt =====
-- security/linux/security.go: the policy, its validation and its normal form.
pub mod Validity
use Prim.Native.Nat.{compare, Ordering}
use hanami.Base.{
  ℕ, ◌==◌, leb, Bool, true, false, not, ◌&&◌, ◌||◌, Option, none, some, List, [], ◌∷◌, ◌++◌, String,
  is_blank, starts_with, contains, check_each, sort_by, text_le, text_lt, str_eq, is_empty,
  if◌then◌else◌,
}

-- `PolicyMode` is a `uint8`, so a value above `ModeRequired` can be written.
pub data PolicyMode : Type 0 where
  mode_off mode_preferred mode_required : PolicyMode
  other_mode : ℕ → PolicyMode

unfoldable pub is_valid_mode : PolicyMode → Bool
is_valid_mode (other_mode n) = false
is_valid_mode mode_off = true
is_valid_mode mode_preferred = true
is_valid_mode mode_required = true

-- `Access` is a `uint64` of Landlock bits.
pub record Grant : Type 0 where
  pub path : String
  pub access : ℕ

pub record Policy : Type 0 where
  pub mode : PolicyMode
  pub read_only_paths : List String
  pub writable_paths : List String
  pub executable_paths : List String
  pub grants : List Grant
  pub except_exec : Bool
  pub deny_syscalls : List String
  pub landlock : Bool
  pub seccomp : Bool

-- A sum of lengths differs from 0 when one of the lists is not empty.
unfoldable pub wants_landlock : Policy → Bool
wants_landlock p =
    p.landlock
    || not (
        is_empty p.read_only_paths
        && is_empty p.writable_paths
        && is_empty p.executable_paths
        && is_empty p.grants)

unfoldable pub wants_seccomp : Policy → Bool
wants_seccomp p = p.seccomp || not (is_empty p.deny_syscalls)

pub data PolicyError : Type 0 where
  invalid_mode empty_syscall : PolicyError
  path_not_absolute path_twice grant_not_absolute grant_empty syscall_twice : String → PolicyError

unfoldable pub is_absolute : String → Bool
is_absolute path = not (is_blank path) && starts_with path "/"

-- The body of the loop over one of the three lists of paths.
unfoldable pub path_errors : List String → Option PolicyError
unfolding is_absolute
path_errors =
    check_each contains (λ path. path)
      (λ path. if is_absolute path then none else some (path_not_absolute path)) path_twice []

unfoldable pub grant_error : Grant → Option PolicyError
unfolding is_absolute
grant_error g =
    if not (is_absolute g.path)
    then some (grant_not_absolute g.path)
    else if g.access == 0
    then some (grant_empty g.path)
    else none

unfoldable pub grant_errors : List Grant → Option PolicyError
unfolding grant_error
grant_errors [] = none
grant_errors (g ∷ gs) =
    let rest = grant_errors gs in elim (grant_error g) [ some e ↦ some e | none ↦ rest ]

unfoldable pub syscall_errors : List String → Option PolicyError
syscall_errors =
    check_each contains (λ name. name) (λ name. if is_blank name then some empty_syscall else none)
      syscall_twice []

-- The first of two errors.
infixl 30 ◌or_else◌
abbrev pub ◌or_else◌ : Option PolicyError → Option PolicyError → Option PolicyError
none or_else f = f
(some e) or_else f = some e

-- The source ranges over a map of the three lists, so which of their errors comes first is not
-- determined; here it is that of the first list.
unfoldable pub validate : Policy → Option PolicyError
validate p =
    if not (is_valid_mode p.mode)
    then some invalid_mode
    else path_errors p.read_only_paths
      or_else path_errors p.writable_paths
      or_else path_errors p.executable_paths
      or_else grant_errors p.grants
      or_else syscall_errors p.deny_syscalls

-- `a <= b` in the order of `SortFunc`: by the path, then by the access.
abbrev pub grant_le : Grant → Grant → Bool
grant_le a b = text_lt a.path b.path || (str_eq a.path b.path && leb a.access b.access)

unfoldable pub normalized : Policy → Policy
unfolding sort_by
normalized p = record p {
  read_only_paths = sort_by text_le p.read_only_paths;
  writable_paths = sort_by text_le p.writable_paths;
  executable_paths = sort_by text_le p.executable_paths;
  grants = sort_by grant_le p.grants;
  deny_syscalls = sort_by text_le p.deny_syscalls;
}
