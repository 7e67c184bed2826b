-- ===== src/Security/Apply/Tests.antt =====
-- security/linux on concrete values: a kernel with Landlock, a policy that reads /usr, and the hand-over from
-- one image to the next.
use hanami.Base.{
  ℕ, ◌==◌, ◌≡◌, refl, sym, ap, ◌∙◌, ◌||◌, Bool, true, false, not, ◌&&◌, Bool-cases, none, some,
  List, [], ◌∷◌, map, String, str_eq, eq_iff, is_blank, ok, err, arith, inl, inr, ◌⊎◌, All,
  if◌then◌else◌, contains, sort_by, insert_sorted, check_each, ◌<◌,
}
use hanami.Security.Paths.{clean_path, split_slash, join_slash, clean_parts}
use hanami.Security.Policy.{
  Policy, mode_required, validate, is_valid_mode, path_errors, is_absolute, grant_errors,
  syscall_errors, wants_landlock, wants_seccomp, normalized,
}
use hanami.Security.Handoff.{
  JsonKind, json_text, json_flag, json_unsigned, JsonValue, JsonField, JsonValues, token_mismatch,
  Handoff, Codec, Opening, opened, access_denied, covers, any_covers, any_grant_covers,
  path_granted, trim_slash, validate_handoff_shape, handoff_token, digest, encode_handoff,
  decode_handoff,
}
use hanami.Security.Handoff.RoundTrip.{is_ascii, IsFaithful, IsSized, decode_handoff-encode_handoff}
use hanami.Security.Landlock.{
  Kernel, Rule, Ruleset, supported_filesystem_rights, handled_rights, read_rights,
  add_landlock_rule, add_paths, add_executable_paths, add_grants, add_executable, add_dev_null,
  build_landlock,
}
use hanami.Security.Landlock.Rules.{rules_for, build_landlock-rules}
use hanami.Security.Landlock.Bounds.{IsBounded, build_landlock-IsBounded}
use hanami.Security.Landlock.Covering.{any_rule_covers}
use hanami.Security.Platform.{World, exec_failed}
use hanami.Security.Reexec.{
  replaced, returned, same_descriptor, is_preserved, descriptor_flag, validate_descriptors,
  seal_entries, seal_descriptors, probe_among, select_probe, plan_reexec, probe_handoff,
  enter_ruleset, reexec_for_policy, verify_in, maybe_reexec, fd_cloexec,
}
use hanami.Security.Reexec.Planning.{IsDenying, IsApart, IsPlain}
use hanami.Security.Reexec.Proving.{exec_failed-maybe_reexec}
use hanami.Security.Reexec.Sealing.{reexec_for_policy-sealed}
use hanami.Security.Apply.{exchanged, apply_platform, landlock_layer, landlock_available}
use hanami.Security.Apply.Honesty.{apply_platform-required, IsFiltering}
use hanami.Security.Apply.Handover.{IsSettled, apply_platform-IsSettled}

abbrev reading_usr : Policy
reading_usr = record {
  mode = mode_required;
  read_only_paths = "/usr" ∷ [];
  writable_paths = [];
  executable_paths = [];
  grants = [];
  except_exec = false;
  deny_syscalls = [];
  landlock = true;
  seccomp = false;
}

abbrev proof : Handoff
proof = record {
  version = 1;
  policy_digest = "policy";
  landlock_enforced = true;
  seccomp_enforced = false;
  probe_path = "/proc/1/status";
  probe_dev = 5;
  probe_ino = 6;
  probe_mode = 7;
  token = "token";
}

-- A codec for the values of this one handoff.
abbrev sample_text : String → String
sample_text name =
    if str_eq name "policy_digest"
    then "policy"
    else if str_eq name "probe_path"
    then "/proc/1/status"
    else "token"

abbrev sample_number : String → ℕ
sample_number name =
    if str_eq name "version"
    then 1
    else if str_eq name "probe_dev"
    then 5
    else if str_eq name "probe_ino"
    then 6
    else 7

abbrev sample_value : String → (k : JsonKind) → JsonValue k
sample_value name json_text = sample_text name
sample_value name json_flag = str_eq name "landlock_enforced"
sample_value name (json_unsigned limit) = sample_number name

abbrev sample : (fs : List JsonField) → JsonValues fs
sample [] = tt
sample (f ∷ fs) = (sample_value f.name f.kind, sample fs)

abbrev same_bool : Bool → Bool → Bool
same_bool true b = b
same_bool false b = not b

abbrev same_value : (k : JsonKind) → JsonValue k → JsonValue k → Bool
same_value json_text a b = str_eq a b
same_value json_flag a b = same_bool a b
same_value (json_unsigned limit) a b = a == b

abbrev same_values : (fs : List JsonField) → JsonValues fs → JsonValues fs → Bool
same_values [] a b = true
same_values (f ∷ fs) a b = same_value f.kind a.0 b.0 && same_values fs a.1 b.1

same_bool_sound : (a b : Bool) → same_bool a b ≡ true → a ≡ b
same_bool_sound true b h = sym h
same_bool_sound false true h = absurd (cc)
same_bool_sound false false h = refl

same_value_sound : (k : JsonKind) (a b : JsonValue k) → same_value k a b ≡ true → a ≡ b
same_value_sound json_text a b h = (eq_iff a b).0 h
same_value_sound json_flag a b h = same_bool_sound a b h
same_value_sound (json_unsigned limit) a b h = ground arith

both : (a b : Bool) → (a && b) ≡ true → (a ≡ true) × (b ≡ true)
both true b h = (refl, h)
both false b h = absurd (cc)

same_values_sound : (fs : List JsonField) (a b : JsonValues fs) → same_values fs a b ≡ true → a ≡ b
same_values_sound [] a b h = refl
same_values_sound (f ∷ fs) a b h =
    let (x, y) = both (same_value f.kind a.0 b.0) (same_values fs a.1 b.1) h in
    let first = same_value_sound f.kind a.0 b.0 x in
    let rest = same_values_sound fs a.1 b.1 y in λ i. (first i, rest i)

abbrev codec : Codec ℕ
codec = record {
  marshal = λ fs v. if same_values fs v (sample fs) then ok "proof" else err 1;
  unmarshal = λ fs b. if str_eq b "proof" then ok (sample fs) else err 2;
  to_base64 = λ b. b;
  from_base64 = λ b. ok b;
  token_digest = λ t. "token";
  policy_digest = λ p. "policy";
}

marshalled :
    (fs : List JsonField) (v : JsonValues fs) (b : String)
    → codec.marshal fs v ≡ ok b
    → (b ≡ "proof") × (v ≡ sample fs)
marshalled fs v b h = elim (Bool-cases (same_values fs v (sample fs))) [
  | inr q ↦ absurd (ground arith)
  | inl q ↦ (ground arith, same_values_sound fs v (sample fs) q)
]

ascii_token : is_ascii "token" ≡ true
unfolding is_ascii
ascii_token = refl

ascii_policy : is_ascii "policy" ≡ true
unfolding is_ascii
ascii_policy = refl

codec-IsFaithful : IsFaithful codec
codec-IsFaithful = record {
  base64 = λ b. refl;
  json =
      λ fs v b tagged sized h. let (name, same) = marshalled fs v b h in rw name (ap ok (sym same));
  filled = λ fs v b h. ap is_blank (marshalled fs v b h).0;
  token_hex = λ t. ascii_token;
  policy_hex = λ p. ascii_policy;
}

-- Paths without links.
abbrev beneath : String → String → Bool
beneath target path = covers target path

abbrev any_beneath : String → List Rule → Bool
any_beneath target [] = false
any_beneath target (r ∷ rs) = beneath target r.path || any_beneath target rs

abbrev deny_uncovered : List Ruleset → String → Opening ℕ
deny_uncovered [] path = opened
deny_uncovered (s ∷ outer) path = if any_beneath path s.rules then opened else access_denied

abbrev kernel : Kernel ℕ
kernel = record {
  unix = record {
    audit_arch_x86_64 = 0xc000003e;
    audit_arch_aarch64 = 0xc00000b7;
    seccomp_ret_kill_process = 0x80000000;
    eperm = 1;
  };
  goarch = "amd64";
  landlock_abi = ok 3;
  create_ruleset = λ handled. none;
  add_rule = λ path rights. none;
  executable = ok "/usr/bin/app";
  has_dev_null = true;
  stat = λ path. some (5, (6, 7));
  is_beneath = beneath;
  open_path = deny_uncovered;
  set_no_new_privs = none;
  restrict_self = none;
  proc_self_fd = ok (0 ∷ 1 ∷ 2 ∷ 7 ∷ []);
  set_descriptor_flags = λ fd flags. none;
  set_environment = none;
  exec = none;
  install_filter = λ n filters. none;
  seccomp_mode = some 2;
}

abbrev failing_kernel : Kernel ℕ
failing_kernel = record kernel { exec = some 13 }

any_beneath-same : (t : String) (rs : List Rule) → any_beneath t rs ≡ any_rule_covers kernel t rs
any_beneath-same t [] = refl
any_beneath-same t (r ∷ rs) = ap (λ b. beneath t r.path || b) (any_beneath-same t rs)

any_beneath-failing :
    (t : String) (rs : List Rule) → any_beneath t rs ≡ any_rule_covers failing_kernel t rs
any_beneath-failing t [] = refl
any_beneath-failing t (r ∷ rs) = ap (λ b. beneath t r.path || b) (any_beneath-failing t rs)

kernel-IsDenying : IsDenying kernel
kernel-IsDenying = record {
  denied = λ s outer path id there reads uncovered.
      let clear : any_beneath path s.rules ≡ false = any_beneath-same path s.rules ∙ uncovered in
      rw clear refl;
}

failing_kernel-IsDenying : IsDenying failing_kernel
failing_kernel-IsDenying = record {
  denied = λ s outer path id there reads uncovered.
      let clear : any_beneath path s.rules ≡ false = any_beneath-failing path s.rules ∙ uncovered in
      rw clear refl;
}

kernel-IsApart : IsApart kernel
unfolding IsApart covers trim_slash clean_path split_slash join_slash clean_parts
kernel-IsApart = ((refl, refl), ((refl, refl), ((refl, refl), _)))

failing_kernel-IsApart : IsApart failing_kernel
unfolding IsApart covers trim_slash clean_path split_slash join_slash clean_parts
failing_kernel-IsApart = ((refl, refl), ((refl, refl), ((refl, refl), _)))

kernel-IsPlain : IsPlain kernel reading_usr
unfolding IsPlain covers trim_slash clean_path split_slash join_slash clean_parts
kernel-IsPlain = ((λ h. refl, _), ((λ h. refl, _), ((λ h. refl, _), _)))

failing_kernel-IsPlain : IsPlain failing_kernel reading_usr
unfolding IsPlain covers trim_slash clean_path split_slash join_slash clean_parts
failing_kernel-IsPlain = ((λ h. refl, _), ((λ h. refl, _), ((λ h. refl, _), _)))

abbrev usr_rules : Ruleset
usr_rules = record {
  handled = 0x7fff;
  rules =
      record { path = "/usr"; allowed_access = 13 }
      ∷ record { path = "/usr/bin/app"; allowed_access = 5 }
      ∷ record { path = "/dev/null"; allowed_access = 6 }
      ∷ [];
}

usr_rules-built : build_landlock kernel reading_usr ≡ ok usr_rules
unfolding build_landlock add_landlock_rule add_paths add_executable_paths add_grants add_executable
    add_dev_null clean_path split_slash join_slash clean_parts handled_rights read_rights
    supported_filesystem_rights
usr_rules-built = refl

build_landlock-IsBounded_example : All (IsBounded reading_usr usr_rules) usr_rules.rules
build_landlock-IsBounded_example =
    build_landlock-IsBounded kernel reading_usr usr_rules usr_rules-built

build_landlock-rules_example :
    (abi : ℕ) × (kernel.landlock_abi ≡ ok abi)
    × (usr_rules.handled ≡ handled_rights abi reading_usr)
    × (usr_rules.rules ≡ rules_for kernel (handled_rights abi reading_usr) reading_usr)
build_landlock-rules_example = build_landlock-rules kernel reading_usr usr_rules usr_rules-built

abbrev before : World ℕ
before = record {
  environment = "";
  domains = [];
  no_new_privs = false;
  descriptor_flags = [];
  ruleset_open = false;
  published = none;
}

abbrev after : World ℕ
after = record {
  environment = "proof";
  domains = usr_rules ∷ [];
  no_new_privs = true;
  descriptor_flags = (0, 0) ∷ (1, 0) ∷ (2, 0) ∷ (7, 1) ∷ [];
  ruleset_open = true;
  published = none;
}

-- After an exec the descriptor of the ruleset is closed.
abbrev executed : World ℕ
executed = record after { ruleset_open = false }

before-replaced : reexec_for_policy codec kernel before reading_usr ≡ replaced executed
unfolding reexec_for_policy plan_reexec enter_ruleset select_probe probe_among path_granted
    any_covers any_grant_covers covers trim_slash probe_handoff digest handoff_token encode_handoff
    validate_handoff_shape seal_descriptors seal_entries descriptor_flag is_preserved
    same_descriptor validate_descriptors check_each build_landlock add_landlock_rule add_paths
    add_executable_paths add_grants add_executable add_dev_null clean_path split_slash join_slash
    clean_parts handled_rights read_rights supported_filesystem_rights validate is_valid_mode
    path_errors is_absolute grant_errors syscall_errors wants_landlock contains normalized sort_by
    insert_sorted
before-replaced = refl

failing_after :
    reexec_for_policy codec failing_kernel before reading_usr
    ≡ returned after (some (exec_failed 13))
unfolding reexec_for_policy plan_reexec enter_ruleset select_probe probe_among path_granted
    any_covers any_grant_covers covers trim_slash probe_handoff digest handoff_token encode_handoff
    validate_handoff_shape seal_descriptors seal_entries descriptor_flag is_preserved
    same_descriptor validate_descriptors check_each build_landlock add_landlock_rule add_paths
    add_executable_paths add_grants add_executable add_dev_null clean_path split_slash join_slash
    clean_parts handled_rights read_rights supported_filesystem_rights validate is_valid_mode
    path_errors is_absolute grant_errors syscall_errors wants_landlock contains normalized sort_by
    insert_sorted
failing_after = refl

before-exchanged : apply_platform codec kernel before reading_usr ≡ exchanged executed
unfolding apply_platform landlock_layer landlock_available reexec_for_policy plan_reexec
    enter_ruleset select_probe probe_among path_granted any_covers any_grant_covers covers
    trim_slash probe_handoff digest handoff_token encode_handoff validate_handoff_shape
    seal_descriptors seal_entries descriptor_flag is_preserved same_descriptor validate_descriptors
    check_each build_landlock add_landlock_rule add_paths add_executable_paths add_grants
    add_executable add_dev_null clean_path split_slash join_slash clean_parts handled_rights
    read_rights supported_filesystem_rights validate is_valid_mode path_errors is_absolute
    grant_errors syscall_errors wants_landlock contains normalized sort_by insert_sorted
before-exchanged = refl

proof-encoded : encode_handoff codec proof ≡ ok "proof"
unfolding encode_handoff validate_handoff_shape
proof-encoded = refl

proof-IsSized : IsSized proof
unfolding is_ascii
proof-IsSized =
    (omega arith, (refl, (_, (_, (refl, (omega arith, (omega arith, (omega arith, (refl, _)))))))))

decode_handoff-encode_handoff_example :
    decode_handoff codec "proof"
    ≡ (if str_eq (handoff_token codec proof) "token" then ok proof else err token_mismatch)
decode_handoff-encode_handoff_example =
    decode_handoff-encode_handoff codec proof "proof" codec-IsFaithful proof-IsSized proof-encoded

exec_failed-maybe_reexec_example :
    maybe_reexec codec failing_kernel after reading_usr ≡ returned after none
exec_failed-maybe_reexec_example =
    exec_failed-maybe_reexec codec failing_kernel before after reading_usr 13 codec-IsFaithful
      failing_kernel-IsDenying failing_kernel-IsApart failing_kernel-IsPlain failing_after

reexec_for_policy-sealed_example :
    (fds : List ℕ) × (kernel.proc_self_fd ≡ ok fds)
    × (map (λ (x : ℕ × ℕ). x.0) executed.descriptor_flags ≡ fds)
    × All (λ (x : ℕ × ℕ). (x.1 ≡ fd_cloexec) ⊎ (x.0 < 3)) executed.descriptor_flags
reexec_for_policy-sealed_example =
    reexec_for_policy-sealed codec kernel before executed reading_usr before-replaced

unfiltered : wants_seccomp reading_usr ≡ false
unfolding wants_seccomp
unfiltered = refl

apply_platform-IsSettled_example : IsSettled (apply_platform codec kernel executed reading_usr)
apply_platform-IsSettled_example =
    apply_platform-IsSettled codec kernel before executed reading_usr codec-IsFaithful
      kernel-IsDenying kernel-IsApart kernel-IsPlain (inl unfiltered) before-exchanged

abbrev settled : IsSettled (apply_platform codec kernel executed reading_usr)
settled =
    apply_platform-IsSettled codec kernel before executed reading_usr codec-IsFaithful
      kernel-IsDenying kernel-IsApart kernel-IsPlain (inl unfiltered) before-exchanged

apply_platform-required_example :
    (settled.status.enforced ≡ true)
    × ((wants_landlock reading_usr ≡ false)
        ⊎ ((settled.status.landlock.verified ≡ true)
            × ((h : Handoff) × (verify_in codec kernel executed reading_usr ≡ ok h))))
    × ((wants_seccomp reading_usr ≡ false)
        ⊎ ((settled.status.seccomp.verified ≡ true) × IsFiltering codec kernel reading_usr))
apply_platform-required_example =
    apply_platform-required codec kernel executed settled.world reading_usr settled.status refl
      settled.finishes
