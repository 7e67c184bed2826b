-- ===== src/Security/Landlock/Bounds.antt =====
-- security/linux/platform_linux.go, buildLandlock: what the rules of a ruleset allow at most.
use Prim.Native.Nat.{bit_and}
use mathlib.Core.List.{mem-cons}
use mathlib.Core.Logic.Or
use hanami.Base.{
  ℕ, ◌≡◌, refl, sym, ap, ◌∙◌, subst, Bool, true, false, Bool-cases, List, [], ◌∷◌, ◌++◌, Mem,
  String, Result, ok, err, arith, inl, inr, ◌⊎◌, All, All-map, bit_and_within, bit_and_disjoint,
  bit_and_missing,
}
use hanami.Security.Paths.{clean_path, cleaned_null}
use hanami.Security.Policy.{Policy, Grant}
use hanami.Security.Landlock.{
  Kernel, Rule, Ruleset, right_execute, right_write_file, supported_filesystem_rights,
  handled_rights, read_rights, build_landlock,
}
use hanami.Security.Landlock.Rules.{
  rule_of, executable_rights, own_rule, dev_null_rule, rules_for, build_landlock-rules,
}

-- Where a rule that allows writing comes from; a rule names a path cleaned.
pub data WriteOrigin (p : Policy) (r : Rule) : Type 0 where
  writable :
      (path : String) → Mem path p.writable_paths → clean_path path ≡ r.path → WriteOrigin p r
  granted : (g : Grant) → Mem g p.grants → clean_path g.path ≡ r.path → WriteOrigin p r
  null_device : r.path ≡ "/dev/null" → WriteOrigin p r

-- A rule allows only what the ruleset handles, no execution under ExceptExec, and writing only for
-- what the policy names for it.
pub record IsBounded (p : Policy) (s : Ruleset) (r : Rule) : Type 0 where
  pub handled : bit_and r.allowed_access s.handled ≡ r.allowed_access
  pub not_executable : (p.except_exec ≡ false) ⊎ (bit_and r.allowed_access right_execute ≡ 0)
  pub written : (bit_and r.allowed_access right_write_file ≡ 0) ⊎ WriteOrigin p r

module _ {ℓ κ} {A : Type ℓ} (P : A → Type κ) where
  All-append : (xs ys : List A) → All P xs → All P ys → All P (xs ++ ys)
  All-append [] ys h k = k
  All-append (x ∷ xs) ys h k = (h.0, All-append xs ys h.1 k)

  All-members : (xs : List A) → ((x : A) → Mem x xs → P x) → All P xs
  All-members [] h = _
  All-members (x ∷ xs) h =
      (h x (mem-cons.1 (Or.inl refl)), All-members xs (λ y m. h y (mem-cons.1 (Or.inr m))))

handled_without_execute :
    (abi : ℕ) (p : Policy) → p.except_exec ≡ true → bit_and (handled_rights abi p) right_execute ≡ 0
unfolding handled_rights supported_filesystem_rights
handled_without_execute abi p e = rw e (ground arith)

module _ (p : Policy) (abi : ℕ) (s : Ruleset) (same : s.handled ≡ handled_rights abi p) where
  rule_of-IsBounded :
      (rights : ℕ) (path : String)
      → (bit_and rights right_write_file ≡ 0) ⊎ WriteOrigin p (rule_of s.handled rights path)
      → IsBounded p s (rule_of s.handled rights path)
  rule_of-IsBounded rights path h = record {
    handled = bit_and_within rights s.handled;
    not_executable = elim (Bool-cases p.except_exec) [
      | inr e ↦ inl e
      | inl e ↦ inr (
          bit_and_missing rights s.handled right_execute
            (ap (λ x. bit_and x right_execute) same ∙ handled_without_execute abi p e))
    ];
    written = elim h [
      | inl z ↦ inl (bit_and_disjoint rights s.handled right_write_file z)
      | inr o ↦ inr o
    ];
  }

  module _ {F : Type 0} (k : Kernel F) where
    own_rule-IsBounded : All (IsBounded p s) (own_rule k.executable p.except_exec s.handled)
    own_rule-IsBounded = go k.executable
      where
        lacks_write : (b : Bool) → bit_and (executable_rights b) right_write_file ≡ 0
        lacks_write true = refl
        lacks_write false = refl

        go : (r : Result F String) → All (IsBounded p s) (own_rule r p.except_exec s.handled)
        go (err f) = _
        go (ok path) = (rule_of-IsBounded _ path (inl (lacks_write p.except_exec)), _)

    dev_null_rule-IsBounded : (has : Bool) → All (IsBounded p s) (dev_null_rule has s.handled)
    dev_null_rule-IsBounded true =
        (rule_of-IsBounded _ "/dev/null" (inr (null_device cleaned_null)), _)
    dev_null_rule-IsBounded false = _

    read_rights_lack_write : bit_and (read_rights p) right_write_file ≡ 0
    unfolding read_rights
    read_rights_lack_write = elim (Bool-cases p.except_exec) [
      | inl e ↦ rw e refl
      | inr e ↦ rw e refl
    ]

    rules_for-IsBounded : All (IsBounded p s) (rules_for k s.handled p)
    rules_for-IsBounded =
        All-append _ _ _
          ((All-map _ _ _).1
            (All-members _ _ (λ x m. rule_of-IsBounded _ x (inl read_rights_lack_write))))
          (All-append _ _ _
            ((All-map _ _ _).1
              (All-members _ _ (λ x m. rule_of-IsBounded _ x (inr (writable x m refl)))))
            (All-append _ _ _
              ((All-map _ _ _).1 (All-members _ _ (λ x m. rule_of-IsBounded _ x (inl refl))))
              (All-append _ _ _
                ((All-map _ _ _).1
                  (All-members _ _ (λ g m. rule_of-IsBounded _ g.path (inr (granted g m refl)))))
                (All-append _ _ _ own_rule-IsBounded (dev_null_rule-IsBounded k.has_dev_null)))))

-- Every rule of a ruleset that buildLandlock returns allows only rights that the ruleset handles, no
-- execution under ExceptExec, and writing only for a writable path, a grant or /dev/null.
pub build_landlock-IsBounded :
    {F : Type 0} (k : Kernel F) (p : Policy) (s : Ruleset)
    → build_landlock k p ≡ ok s
    → All (IsBounded p s) s.rules
build_landlock-IsBounded k p s h =
    let (abi, reported, same, rules) = build_landlock-rules k p s h in
    subst (λ rs. All (IsBounded p s) rs) (sym rules)
      (subst (λ n. All (IsBounded p s) (rules_for k n p)) same (rules_for-IsBounded p abi s same k))
