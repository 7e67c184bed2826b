-- ===== src/Security/Landlock/Covering.antt =====
-- security/linux/platform_linux.go: which paths the rules of a ruleset cover.
use Prim.Native.Nat.{bit_and}
use hanami.Base.{
  ℕ, ◌≡◌, refl, ap, ◌∙◌, Bool, false, ◌||◌, List, [], ◌∷◌, ◌++◌, map, String, ok, err, arith, All,
}
use hanami.Security.Paths.{clean_path}
use hanami.Security.Policy.{Policy, Grant}
use hanami.Security.Handoff.{covers, any_covers, any_grant_covers, path_granted}
use hanami.Security.Landlock.{
  Kernel, Rule, Ruleset, right_read_file, supported_filesystem_rights, handled_rights,
  build_landlock,
}
use hanami.Security.Landlock.Rules.{
  rule_of, grant_rule, own_rule, dev_null_rule, build_landlock-rules,
}

-- The file at the path lies beneath the file of a rule.
abbrev pub any_rule_covers : {F : Type 0} → Kernel F → String → List Rule → Bool
any_rule_covers k target [] = false
any_rule_covers k target (r ∷ rs) = k.is_beneath target r.path || any_rule_covers k target rs

-- The rule for the executable covers the path.
abbrev pub own_covers : {F : Type 0} → Kernel F → String → Bool
own_covers k target = elim k.executable [
  | err f ↦ false
  | ok path ↦ k.is_beneath target (clean_path path)
]

-- The paths that a policy grants.
abbrev pub granted_paths : Policy → List String
granted_paths p =
    p.read_only_paths ++ (p.writable_paths ++ (p.executable_paths ++ map (λ g. g.path) p.grants))

-- A path is above the file as far as the file system goes only if it is in its text.
abbrev pub IsTextual : {F : Type 0} → Kernel F → String → String → Type 0
IsTextual k t path = covers t path ≡ false → k.is_beneath t (clean_path path) ≡ false

All-split : {A : Type 0} (P : A → Type 0) (xs ys : List A) → All P (xs ++ ys) → All P xs × All P ys
All-split P [] ys h = (_, h)
All-split P (x ∷ xs) ys h = let rest = All-split P xs ys h.1 in ((h.0, rest.0), rest.1)

handled_reads :
    (abi : ℕ) (p : Policy) → bit_and (handled_rights abi p) right_read_file ≡ right_read_file
unfolding handled_rights supported_filesystem_rights
handled_reads abi p = ground arith

module _ {F : Type 0} (k : Kernel F) (t : String) where
  append_uncovered :
      (xs ys : List Rule)
      → any_rule_covers k t xs ≡ false
      → any_rule_covers k t ys ≡ false
      → any_rule_covers k t (xs ++ ys) ≡ false
  append_uncovered [] ys h rest = rest
  append_uncovered (x ∷ xs) ys h rest = ground (arith, append_uncovered xs ys)

  any_covers-append :
      (xs ys : List String) → any_covers t (xs ++ ys) ≡ (any_covers t xs || any_covers t ys)
  unfolding any_covers
  any_covers-append [] ys = refl
  any_covers-append (x ∷ xs) ys = ground (arith, any_covers-append xs ys)

  paths_uncovered :
      (n r : ℕ) (paths : List String)
      → any_covers t paths ≡ false
      → All (IsTextual k t) paths
      → any_rule_covers k t (map (rule_of n r) paths) ≡ false
  unfolding any_covers
  paths_uncovered n r [] h a = refl
  paths_uncovered n r (path ∷ paths) h a = ground (arith, a.0, paths_uncovered n r paths, a.1)

  grants_uncovered :
      (n : ℕ) (gs : List Grant)
      → any_grant_covers t gs ≡ false
      → All (IsTextual k t) (map (λ g. g.path) gs)
      → any_rule_covers k t (map (grant_rule n) gs) ≡ false
  unfolding any_grant_covers
  grants_uncovered n [] h a = refl
  grants_uncovered n (g ∷ gs) h a = ground (arith, a.0, grants_uncovered n gs, a.1)

  module _ (own : own_covers k t ≡ false)
      (null : k.is_beneath t (clean_path "/dev/null") ≡ false) where
    own_uncovered : (b : Bool) (n : ℕ) → any_rule_covers k t (own_rule k.executable b n) ≡ false
    own_uncovered b n = ground arith

    null_uncovered : (b : Bool) (n : ℕ) → any_rule_covers k t (dev_null_rule b n) ≡ false
    null_uncovered b n = ground arith

    -- A path that the policy does not grant lies beneath no rule, the executable and /dev/null apart, if the
    -- paths of the policy are textual.
    pub build_landlock-uncovered :
        (p : Policy) (s : Ruleset)
        → path_granted p t ≡ false
        → All (IsTextual k t) (granted_paths p)
        → build_landlock k p ≡ ok s
        → (bit_and s.handled right_read_file ≡ right_read_file)
          × (any_rule_covers k t s.rules ≡ false)
    unfolding path_granted
    build_landlock-uncovered p s g plain h =
        let (abi, reported, same, rules) = build_landlock-rules k p s h in
        let n = handled_rights abi p in
        let split : (any_covers t p.read_only_paths ≡ false)
            × (any_covers t p.writable_paths ≡ false)
            × (any_covers t p.executable_paths ≡ false)
            × (any_grant_covers t p.grants ≡ false) =
          ground (
            arith,
            any_covers-append p.read_only_paths (p.writable_paths ++ p.executable_paths),
            any_covers-append p.writable_paths p.executable_paths,
          ) in
        let parts1 = All-split (IsTextual k t) p.read_only_paths _ plain in
        let parts2 = All-split (IsTextual k t) p.writable_paths _ parts1.1 in
        let parts3 = All-split (IsTextual k t) p.executable_paths _ parts2.1 in
        (
          ap (λ x. bit_and x right_read_file) same ∙ handled_reads abi p,
          ap (λ rs. any_rule_covers k t rs) rules
              ∙ append_uncovered _ _ (paths_uncovered _ _ _ split.0 parts1.0) (
                  append_uncovered _ _ (paths_uncovered _ _ _ split.1 parts2.0) (
                    append_uncovered _ _ (paths_uncovered _ _ _ split.2 parts3.0) (
                      append_uncovered _ _ (grants_uncovered _ _ split.3 parts3.1)
                        (append_uncovered _ _ (own_uncovered _ _) (null_uncovered _ _))))),
        )
