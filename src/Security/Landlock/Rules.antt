-- ===== src/Security/Landlock/Rules.antt =====
-- security/linux/platform_linux.go, buildLandlock: the ruleset that it builds, written down without the
-- calls.
use Prim.Native.Nat.{bit_and, bit_or}
use hanami.Base.{
  ℕ, ◌≡◌, refl, Bool, true, false, Bool-cases, List, [], ◌∷◌, ◌++◌, map, String, if◌then◌else◌,
  Result, ok, err, ◌>>=◌, >>=-succeeds, >>=-known, guard-succeeds, arith, Result-cases,
  Option-cases, inl, inr,
}
use hanami.Security.Paths.{clean_path}
use hanami.Security.Policy.{Policy, Grant}
use hanami.Security.Landlock.{
  Kernel, Rule, Ruleset, LandlockError, right_execute, right_write_file, right_read_file,
  right_read_directory, handled_rights, read_rights, checked, of_system, add_landlock_rule,
  add_paths, add_executable_paths, add_grants, add_executable, add_dev_null, build_landlock,
}

-- A rule holds no right that the ruleset does not handle.
abbrev pub rule_of : ℕ → ℕ → String → Rule
rule_of handled rights path = record {
  path = clean_path path;
  allowed_access = bit_and rights handled;
}

abbrev pub grant_rule : ℕ → Grant → Rule
grant_rule handled g = rule_of handled g.access g.path

abbrev pub executable_rights : Bool → ℕ
executable_rights except_exec =
    if except_exec then right_read_file else bit_or right_read_file right_execute

abbrev pub execute_rights : ℕ
execute_rights = bit_or (bit_or right_execute right_read_file) right_read_directory

abbrev pub own_rule : {F : Type 0} → Result F String → Bool → ℕ → List Rule
own_rule (err f) except_exec handled = []
own_rule (ok path) except_exec handled = rule_of handled (executable_rights except_exec) path ∷ []

abbrev pub dev_null_rule : Bool → ℕ → List Rule
dev_null_rule has handled =
    if has then rule_of handled (bit_or right_read_file right_write_file) "/dev/null" ∷ [] else []

module _ {F : Type 0} (k : Kernel F) where
  abbrev pub rules_for : ℕ → Policy → List Rule
  rules_for handled p =
      map (rule_of handled (read_rights p)) p.read_only_paths
      ++ (map (rule_of handled handled) p.writable_paths
          ++ (map (rule_of handled execute_rights) p.executable_paths
              ++ (map (grant_rule handled) p.grants
                  ++ (own_rule k.executable p.except_exec handled
                      ++ dev_null_rule k.has_dev_null handled))))

  module _ (handled : ℕ) where
    -- After an added rule the next step goes on with it.
    add_landlock_rule-next :
        (path : String) (rights : ℕ) (next : Rule → Result (LandlockError F) (List Rule))
        (rs : List Rule)
        → (add_landlock_rule k handled path rights >>= next) ≡ ok rs
        → next (rule_of handled rights path) ≡ ok rs
    unfolding add_landlock_rule
    add_landlock_rule-next path rights next rs h =
        elim (Option-cases (k.add_rule (clean_path path) (bit_and rights handled))) [
          | inl c ↦ ground arith
          | inr (f, c) ↦ absurd (ground arith)
        ]

    -- The rest of a loop that adds `r` first.
    loop_rules :
        (r : Rule) (rest : Result (LandlockError F) (List Rule)) (expected rs : List Rule)
        → ((ts : List Rule) → rest ≡ ok ts → ts ≡ expected)
        → (rest >>= (λ ts. ok (r ∷ ts))) ≡ ok rs
        → rs ≡ r ∷ expected
    loop_rules r (ok ts) expected rs i h = ground (arith, i ts refl)
    loop_rules r (err e) expected rs i h = absurd (ground arith)

    add_paths-rules :
        (paths : List String) (rights : ℕ) (rs : List Rule)
        → add_paths k handled rights paths ≡ ok rs
        → rs ≡ map (rule_of handled rights) paths
    unfolding add_paths
    add_paths-rules [] rights rs h = ground arith
    add_paths-rules (path ∷ paths) rights rs h =
        loop_rules _ _ _ rs (λ ts. add_paths-rules paths rights ts)
          (add_landlock_rule-next path rights _ rs h)

    add_executable_paths-rules :
        (paths : List String) (except_exec : Bool) (rs : List Rule)
        → add_executable_paths k handled except_exec paths ≡ ok rs
        → rs ≡ map (rule_of handled execute_rights) paths
    unfolding add_executable_paths
    add_executable_paths-rules [] except_exec rs h = ground arith
    add_executable_paths-rules (path ∷ paths) true rs h = absurd (ground arith)
    add_executable_paths-rules (path ∷ paths) false rs h =
        loop_rules _ _ _ rs (λ ts. add_executable_paths-rules paths false ts)
          (add_landlock_rule-next path execute_rights _ rs h)

    add_grants-rules :
        (gs : List Grant) (rs : List Rule)
        → add_grants k handled gs ≡ ok rs
        → rs ≡ map (grant_rule handled) gs
    unfolding add_grants
    add_grants-rules [] rs h = ground arith
    add_grants-rules (g ∷ gs) rs h =
        loop_rules _ _ _ rs (λ ts. add_grants-rules gs ts)
          (add_landlock_rule-next g.path g.access _ rs (guard-succeeds _ _ _ h).1)

    add_executable-rules :
        (except_exec : Bool) (rs : List Rule)
        → add_executable k handled except_exec ≡ ok rs
        → rs ≡ own_rule k.executable except_exec handled
    unfolding add_executable
    add_executable-rules except_exec rs h = elim (Result-cases k.executable) [
      | inl (f, c) ↦ rw c (ground arith)
      | inr (path, c) ↦
          let rights = executable_rights except_exec in
          rw c (
            ground (arith, add_landlock_rule-next path rights (λ r. ok (r ∷ [])) rs (ground arith)))
    ]

    add_dev_null-rules :
        (rs : List Rule)
        → add_dev_null k handled ≡ ok rs
        → rs ≡ dev_null_rule k.has_dev_null handled
    unfolding add_dev_null
    add_dev_null-rules rs h = elim (Bool-cases k.has_dev_null) [
      | inl c ↦
          let rights = bit_or right_read_file right_write_file in
          rw c (
            ground (
              arith,
              add_landlock_rule-next "/dev/null" rights (λ r. ok (r ∷ [])) rs (ground arith),
            ))
      | inr c ↦ rw c (ground arith)
    ]

  of_system_known : {A : Type 0} (r : Result F A) (a : A) → of_system r ≡ ok a → r ≡ ok a
  of_system_known (ok b) a h = ground arith
  of_system_known (err f) a h = absurd (ground arith)

  -- A ruleset that is built handles the rights of the ABI version that the kernel reports and holds
  -- these rules.
  pub build_landlock-rules :
      (p : Policy) (s : Ruleset)
      → build_landlock k p ≡ ok s
      → (abi : ℕ) × (k.landlock_abi ≡ ok abi)
        × (s.handled ≡ handled_rights abi p)
        × (s.rules ≡ rules_for (handled_rights abi p) p)
  unfolding build_landlock
  build_landlock-rules p s h =
      let (abi, e0, h0) = >>=-succeeds _ (of_system k.landlock_abi) h in
      let handled = handled_rights abi p in
      let (u, e1, h1) = >>=-succeeds _ (checked (k.create_ruleset handled)) h0 in
      let h2 =
        >>=-known _ _ _ (λ rs. add_paths-rules handled p.read_only_paths (read_rights p) rs) h1 in
      let h3 = >>=-known _ _ _ (λ rs. add_paths-rules handled p.writable_paths handled rs) h2 in
      let h4 =
        >>=-known _ _ _
          (λ rs. add_executable_paths-rules handled p.executable_paths p.except_exec rs) h3 in
      let h5 = >>=-known _ _ _ (λ rs. add_grants-rules handled p.grants rs) h4 in
      let h6 = >>=-known _ _ _ (λ rs. add_executable-rules handled p.except_exec rs) h5 in
      let h7 = >>=-known _ _ _ (λ rs. add_dev_null-rules handled rs) h6 in
      (abi, of_system_known k.landlock_abi abi e0, ground arith, ground arith)
