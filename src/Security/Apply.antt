-- ===== src/Security/Apply.antt =====
-- security/linux/platform_linux.go: applyPlatform, which applies the layers that a policy selects, and the
-- integration of security.go that runs it before the composition.
pub mod Honesty
pub mod Handover
mod Tests
use hanami.Base.{
  ℕ, ◌==◌, ◌%◌, Bool, true, false, not, ◌&&◌, ◌||◌, Option, none, some, is_some, List, [], ◌∷◌,
  ◌++◌, String, is_blank, is_empty, length, if◌then◌else◌, Result, ok, err, ◌>>=◌,
}
use Prim.Native.String.{◌++◌ as text_append}
use hanami.Security.Policy.{
  Policy, PolicyMode, validate, normalized, wants_landlock, wants_seccomp, mode_off, mode_preferred,
  mode_required, other_mode,
}
use hanami.Security.Handoff.{Codec}
use hanami.Security.Seccomp.{abi_for_architecture, build_seccomp_filter}
use hanami.Security.Landlock.{Kernel}
use hanami.Security.Platform.{
  SecurityError, LayerStatus, Status, World, no_layer, new_status, invalid_policy, unsupported,
  filter_failed, filter_refused, no_new_privs_failed, required_missing,
}
use hanami.Security.Reexec.{
  Reexec, replaced, returned, is_known_architecture, is_mode_off, verify_in, reexec_for_policy,
}

abbrev pub is_mode_preferred : PolicyMode → Bool
is_mode_preferred mode_preferred = true
is_mode_preferred _ = false

abbrev pub is_mode_required : PolicyMode → Bool
is_mode_required mode_required = true
is_mode_required _ = false

-- `uint16(len(filters))`
abbrev pub u16 : ℕ → ℕ
u16 n = n % 65536

-- What a call of Apply comes to: the process image is replaced, or the call returns.
pub data Applied (F : Type 0) : Type 0 where
  exchanged : World F → Applied F
  finished : World F → Status F → Option (SecurityError F) → Applied F

-- What the integration hands to the composition.
pub data SecurityPrepared (F : Type 0) : Type 0 where
  prepare_exchanged : World F → SecurityPrepared F
  prepare_refused : World F → F → SecurityPrepared F
  prepare_failed : World F → SecurityError F → SecurityPrepared F
  prepared_status : World F → Status F → SecurityPrepared F

module _ {F : Type 0} where
  unfoldable pub set_platform_status : Policy → Status F → World F → World F
  set_platform_status p status w = record w { published = some (normalized p, status) }

  -- The zero value before the first call.
  unfoldable pub current_platform_status : World F → Status F
  current_platform_status w = elim w.published [
    | none ↦ new_status mode_off ""
    | some (p, status) ↦ status
  ]

  unfoldable pub is_enforced : Policy → Status F → Bool
  is_enforced p status =
      is_empty status.missing
      && (not (wants_landlock p) || status.landlock.verified)
      && (not (wants_seccomp p) || status.seccomp.verified)

  unfoldable pub finish_platform : World F → Policy → Status F → Applied F
  finish_platform w p status =
      let enforced = is_enforced p status in
      let warned =
        if is_mode_preferred status.mode && not enforced
        then status.warnings ++ status.missing
        else status.warnings in
      let final = record status { enforced = enforced; warnings = warned } in
      let error =
        if is_mode_required status.mode && not enforced
        then some (required_missing status.missing)
        else none in
      finished (set_platform_status p final w) final error

  unfoldable pub landlock_available : Kernel F → Bool
  landlock_available k = elim k.landlock_abi [ err f ↦ false | ok abi ↦ true ]

  unfoldable pub seccomp_enforced : Kernel F → Bool
  seccomp_enforced k = elim k.seccomp_mode [ none ↦ false | some mode ↦ mode == 2 ]

  unfoldable pub apply_seccomp :
      Kernel F → World F → List String → World F × Option (SecurityError F)
  apply_seccomp k w denied = elim (build_seccomp_filter k.unix k.goarch denied) [
    | err e ↦ (w, some (filter_failed e))
    | ok filters ↦ elim k.set_no_new_privs [
      | some f ↦ (w, some (no_new_privs_failed f))
      | none ↦
          let privileged = record w { no_new_privs = true } in
          elim (k.install_filter (u16 (length filters)) filters) [
            | some f ↦ (privileged, some (filter_refused f))
            | none ↦ (privileged, none)
          ]
    ]
  ]

  abbrev pub missing_landlock : Bool → SecurityError F → String → Status F → Status F
  missing_landlock available e name status = record status {
    landlock = record no_layer { available = available; error = some e };
    missing = status.missing ++ (name ∷ []);
  }

  module _ (c : Codec F) (k : Kernel F) where
    -- The branch of applyPlatform for Landlock, with what follows it.
    unfoldable pub landlock_layer :
        World F → Policy → Status F → (World F → Status F → Applied F) → Applied F
    landlock_layer w p status next =
        if not (landlock_available k)
        then next w (missing_landlock false unsupported "landlock" status)
        else if not (is_blank w.environment)
        then elim (verify_in c k w p) [
          | err e ↦ next w (missing_landlock true e "landlock-proof" status)
          | ok h ↦
              next (record w { environment = "" })
                (record status {
                  landlock = record {
                    available = true;
                    applied = true;
                    verified = true;
                    error = none;
                  };
                  handoff_verified = true;
                })
        ]
        else elim (reexec_for_policy c k w p) [
          | replaced w' ↦ exchanged w'
          | returned w' none ↦
              next w' (record status { landlock = record no_layer { available = true } })
          | returned w' (some e) ↦ next w' (missing_landlock true e "landlock-reexec" status)
        ]

    -- The branch for seccomp.
    unfoldable pub seccomp_layer : World F → Policy → Status F → World F × Status F
    seccomp_layer w p status = elim (abi_for_architecture k.unix k.goarch) [
      | err e ↦ (
        w,
        record status {
          seccomp = record no_layer { error = some (filter_failed e) };
          missing = status.missing ++ ("seccomp-architecture" ∷ []);
        },
      )
      | ok abi ↦
          let applied = apply_seccomp k w p.deny_syscalls in
          elim applied.1 [
            | some e ↦ (
              applied.0,
              record status {
                seccomp = record no_layer { available = true; error = some e };
                missing = status.missing ++ ("seccomp" ∷ []);
              },
            )
            | none ↦ (
              applied.0,
              record status {
                seccomp = record {
                  available = true;
                  applied = true;
                  verified = seccomp_enforced k;
                  error = none;
                };
                missing =
                    if seccomp_enforced k
                    then status.missing
                    else status.missing ++ ("seccomp-verification" ∷ []);
              },
            )
          ]
    ]

    unfoldable pub apply_rest : Policy → World F → Status F → Applied F
    apply_rest p w status =
        let layer = seccomp_layer w p status in
        if wants_seccomp p then finish_platform layer.0 p layer.1 else finish_platform w p status

    unfoldable pub apply_platform : World F → Policy → Applied F
    apply_platform w p = elim (validate p) [
      | some e ↦ finished w (new_status mode_off "") (some (invalid_policy e))
      | none ↦
          let status = new_status p.mode k.goarch in
          if is_mode_off p.mode
          then finished (set_platform_status p status w) status none
          else if not (is_known_architecture k.goarch)
          then finish_platform w p
              (record status { missing = text_append "architecture:" k.goarch ∷ [] })
          else if wants_landlock p
          then landlock_layer w p status (apply_rest p)
          else apply_rest p w status
    ]

  -- `Prepare` of the integration: the error of the context, the policy that `build` answers, and Apply.
  unfoldable pub prepare_security :
      Codec F → Kernel F → World F → Option F → Result F Policy → SecurityPrepared F
  prepare_security c k w context build = elim context [
    | some f ↦ prepare_refused w f
    | none ↦ elim build [
      | err f ↦ prepare_refused w f
      | ok p ↦ elim (apply_platform c k w p) [
        | exchanged w' ↦ prepare_exchanged w'
        | finished w' status (some e) ↦ prepare_failed w' e
        | finished w' status none ↦ prepared_status w' status
      ]
    ]
  ]
