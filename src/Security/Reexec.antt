-- ===== src/Security/Reexec.antt =====
-- security/linux/platform_linux.go: ReexecForPolicy, which restricts the thread and replaces the process
-- image, with the probe, the descriptors and MaybeReexec.
pub mod Planning
pub mod Proving
pub mod Sealing
use hanami.Base.{
  ℕ, ◌==◌, ◌%◌, Bool, true, false, not, ◌&&◌, ◌||◌, Option, none, some, List, [], ◌∷◌, String,
  str_eq, is_blank, if◌then◌else◌, Result, ok, err, ◌>>=◌, ℤ, pos, negsuc, is_negative, check_each,
}
use hanami.Security.Policy.{Policy, validate, wants_landlock, mode_off, PolicyMode}
use hanami.Security.Handoff.{
  Handoff, Codec, handoff_version, uint32_values, uint64_values, path_granted, handoff_token,
  digest, encode_handoff, verify_handoff,
}
use hanami.Security.Landlock.{Kernel, Ruleset, build_landlock}
use hanami.Security.Platform.{
  SecurityError, DescriptorError, World, negative_descriptor, repeated_descriptor, descriptor_call,
  invalid_policy, landlock_not_selected, foreign_architecture, probes_granted, executable_unknown,
  build_failed, no_new_privs_failed, restrict_failed, handoff_failed, descriptors_failed,
  environment_failed, exec_failed,
}

pub record ProbeIdentity : Type 0 where
  pub path : String
  pub dev : ℕ
  pub ino : ℕ
  pub mode : ℕ

abbrev pub probe_paths : List String
probe_paths = "/proc/1/status" ∷ "/proc/self/status" ∷ "/etc/hosts" ∷ []

-- A descriptor number is an `int`.
unfoldable pub same_descriptor : ℤ → ℤ → Bool
same_descriptor (pos a) (pos b) = a == b
same_descriptor (pos a) (negsuc b) = false
same_descriptor (negsuc a) (pos b) = false
same_descriptor (negsuc a) (negsuc b) = a == b

unfoldable pub is_preserved : ℤ → List ℤ → Bool
is_preserved fd [] = false
is_preserved fd (x ∷ xs) = same_descriptor x fd || is_preserved fd xs

abbrev pub standard_descriptors : List ℤ
standard_descriptors = pos 0 ∷ pos 1 ∷ pos 2 ∷ []

abbrev pub fd_cloexec : ℕ
fd_cloexec = 1

abbrev pub is_known_architecture : String → Bool
is_known_architecture arch = str_eq arch "amd64" || str_eq arch "arm64"

-- The flags that a descriptor is given.
unfoldable pub descriptor_flag : List ℤ → ℕ → ℕ
descriptor_flag preserve fd = if is_preserved (pos fd) preserve then 0 else fd_cloexec

abbrev pub is_mode_off : PolicyMode → Bool
is_mode_off mode_off = true
is_mode_off _ = false

-- What exec keeps of the world: not the memory of the process, and no descriptor that is closed on exec, as
-- that of the ruleset is.
abbrev pub new_image : {F : Type 0} → World F → World F
new_image w = record w { ruleset_open = false; published = none }

-- What a call of ReexecForPolicy comes to: the image is replaced, or the call returns.
pub data Reexec (F : Type 0) : Type 0 where
  replaced : World F → Reexec F
  returned : World F → Option (SecurityError F) → Reexec F

module _ {F : Type 0} where
  unfoldable pub validate_descriptors : List ℤ → Option (DescriptorError F)
  validate_descriptors =
      check_each is_preserved (λ fd. fd)
        (λ fd. if is_negative fd then some (negative_descriptor fd) else none) repeated_descriptor
        []

  unfoldable pub seal_entries :
      Kernel F → List ℤ → List ℕ → List (ℕ × ℕ) × Option (DescriptorError F)
  seal_entries k preserve [] = ([], none)
  seal_entries k preserve (fd ∷ fds) =
      let flags = descriptor_flag preserve fd in
      let rest = seal_entries k preserve fds in
      elim (k.set_descriptor_flags fd flags) [
        | some f ↦ ([], some (descriptor_call f))
        | none ↦ ((fd, flags) ∷ rest.0, rest.1)
      ]

  unfoldable pub seal_descriptors : Kernel F → List ℤ → List (ℕ × ℕ) × Option (DescriptorError F)
  seal_descriptors k preserve = elim (validate_descriptors preserve) [
    | some e ↦ ([], some e)
    | none ↦ elim k.proc_self_fd [
      | err f ↦ ([], some (descriptor_call f))
      | ok fds ↦ seal_entries k preserve fds
    ]
  ]

  unfoldable pub probe_among :
      Kernel F → Policy → List String → Result (SecurityError F) ProbeIdentity
  probe_among k p [] = err probes_granted
  probe_among k p (path ∷ paths) =
      let rest = probe_among k p paths in
      if path_granted p path then rest else elim (k.stat path) [
        | none ↦ rest
        | some (dev, (ino, mode)) ↦ ok (record {
          path = path;
          dev = dev % uint64_values;
          ino = ino % uint64_values;
          mode = mode % uint32_values;
        })
      ]

  unfoldable pub select_probe : Kernel F → Policy → Result (SecurityError F) ProbeIdentity
  select_probe k p = probe_among k p probe_paths

  abbrev pub executable_path : Kernel F → Result (SecurityError F) String
  executable_path k = elim k.executable [ err f ↦ err (executable_unknown f) | ok path ↦ ok path ]

  abbrev pub ruleset_for : Kernel F → Policy → Result (SecurityError F) Ruleset
  ruleset_for k p = elim (build_landlock k p) [ err e ↦ err (build_failed e) | ok s ↦ ok s ]

  -- ReexecForPolicy up to the ruleset: nothing is changed yet.
  unfoldable pub plan_reexec :
      Kernel F → Policy → Result (SecurityError F) (ProbeIdentity × Ruleset)
  plan_reexec k p = elim (validate p) [
    | some e ↦ err (invalid_policy e)
    | none ↦
        if not (wants_landlock p)
        then err landlock_not_selected
        else if not (is_known_architecture k.goarch)
        then err (foreign_architecture k.goarch)
        else select_probe k p
          >>= (λ probe. executable_path k >>= (λ argv0. ruleset_for k p >>= (λ s. ok (probe, s))))
  ]

  module _ (c : Codec F) (k : Kernel F) where
    unfoldable pub probe_handoff : Policy → ProbeIdentity → Handoff
    probe_handoff p probe =
        let h : Handoff = record {
          version = handoff_version;
          policy_digest = digest c p;
          landlock_enforced = true;
          seccomp_enforced = false;
          probe_path = probe.path;
          probe_dev = probe.dev;
          probe_ino = probe.ino;
          probe_mode = probe.mode;
          token = "";
        } in
        record h { token = handoff_token c h }

    -- The rest, from the prctl on: the world after each step, and `unix.Close(rulesetFD)` on errors.
    unfoldable pub enter_ruleset : World F → Policy → ProbeIdentity → Ruleset → Reexec F
    enter_ruleset w p probe s =
        let closed = record w { ruleset_open = false } in
        let privileged = record w { no_new_privs = true } in
        let restricted = record privileged { domains = s ∷ w.domains } in
        let sealing = seal_descriptors k standard_descriptors in
        let sealed = record restricted { descriptor_flags = sealing.0 } in
        elim k.set_no_new_privs [
          | some f ↦ returned closed (some (no_new_privs_failed f))
          | none ↦ elim k.restrict_self [
            | some f ↦
                returned (record privileged { ruleset_open = false }) (some (restrict_failed f))
            | none ↦ elim (encode_handoff c (probe_handoff p probe)) [
              | err e ↦
                  returned (record restricted { ruleset_open = false }) (some (handoff_failed e))
              | ok raw ↦ elim sealing.1 [
                | some e ↦
                    returned (record sealed { ruleset_open = false }) (some (descriptors_failed e))
                | none ↦ elim k.set_environment [
                  | some f ↦
                      returned (record sealed { ruleset_open = false })
                        (some (environment_failed f))
                  | none ↦
                      let ready = record sealed { environment = raw } in
                      elim k.exec [
                        | some f ↦ returned ready (some (exec_failed f))
                        | none ↦ replaced (new_image ready)
                      ]
                ]
              ]
            ]
          ]
        ]

    unfoldable pub reexec_for_policy : World F → Policy → Reexec F
    reexec_for_policy w p = elim (plan_reexec k p) [
      | err e ↦ returned w (some e)
      | ok (probe, s) ↦ enter_ruleset (record w { ruleset_open = true }) p probe s
    ]

    abbrev pub verification_error : Result (SecurityError F) Handoff → Option (SecurityError F)
    verification_error (ok h) = none
    verification_error (err e) = some e

    -- VerifyHandoff in the world, with the kernel's answers in the thread's domains.
    unfoldable pub verify_in : World F → Policy → Result (SecurityError F) Handoff
    verify_in w p = elim (verify_handoff c (k.open_path w.domains) w.environment p) [
      | err e ↦ err (handoff_failed e)
      | ok h ↦ ok h
    ]

    unfoldable pub maybe_reexec : World F → Policy → Reexec F
    maybe_reexec w p = elim (validate p) [
      | some e ↦ returned w (some (invalid_policy e))
      | none ↦
          if is_mode_off p.mode || not (wants_landlock p)
          then returned w none
          else if not (is_blank w.environment)
          then returned w (verification_error (verify_in w p))
          else reexec_for_policy w p
    ]
