-- ===== src/Security/Apply/Handover.antt =====
-- security/linux/platform_linux.go: Apply on both sides of the exec.
use hanami.Base.{
  ◌≡◌, ◌≢◌, refl, subst, true, false, not, Bool-cases, none, some, List, [], is_blank, ok, err,
  arith, Result-cases, inl, inr, ◌⊎◌, branch_elim, result_elim, option_elim,
}
use hanami.Security.Policy.{Policy, validate, wants_landlock, wants_seccomp, normalized}
use hanami.Security.Handoff.{Codec}
use hanami.Security.Handoff.RoundTrip.{IsFaithful}
use hanami.Security.Seccomp.{SockFilter, SeccompError, abi_for_architecture, build_seccomp_filter}
use hanami.Security.Landlock.{Kernel, Ruleset, build_landlock}
use hanami.Security.Platform.{World, Status, new_status}
use hanami.Security.Reexec.{
  replaced, verify_in, reexec_for_policy, enter_ruleset, is_known_architecture, is_mode_off,
}
use hanami.Security.Reexec.Planning.{
  IsDenying, IsApart, IsPlain, replaced-Planned, plan_reexec_sound,
}
use hanami.Security.Reexec.Proving.{ready_state}
use hanami.Security.Apply.{
  Applied, exchanged, finished, is_enforced, finish_platform, set_platform_status, apply_seccomp,
  seccomp_layer, landlock_available, landlock_layer, apply_rest, apply_platform,
}
use hanami.Security.Apply.Honesty.{reexec_elim, IsFiltering}

-- A call that finished without an error, in a status that says Enforced.
pub record IsSettled {F : Type 0} (a : Applied F) : Type 0 where
  pub world : World F
  pub status : Status F
  pub finishes : a ≡ finished world status none
  pub enforced : status.enforced ≡ true
  pub handoff_verified : status.handoff_verified ≡ true
  pub removed : world.environment ≡ ""

module _ {F : Type 0} (c : Codec F) (k : Kernel F) (p : Policy) where
  -- An exchange of the image is that of ReexecForPolicy, in a mode that is not off.
  abbrev IsExchange : World F → Applied F → Type 0
  IsExchange w (exchanged w') =
      (is_mode_off p.mode ≡ false) × (reexec_for_policy c k w p ≡ replaced w')
  IsExchange w (finished w' status e) = Unit

  apply_rest-IsExchange :
      (w w' : World F) (status : Status F) → IsExchange w (apply_rest c k p w' status)
  unfolding apply_rest finish_platform
  apply_rest-IsExchange w w' status =
      branch_elim (IsExchange w) (wants_seccomp p) _ _ (λ _. _) (λ _. _)

  landlock_layer-IsExchange :
      (w : World F) (status : Status F)
      → is_mode_off p.mode ≡ false
      → IsExchange w (landlock_layer c k w p status (apply_rest c k p))
  unfolding landlock_layer
  landlock_layer-IsExchange w status m =
      let P = IsExchange w in
      branch_elim P (not (landlock_available k)) _ _ (λ a. apply_rest-IsExchange w _ _)
        (λ a.
          branch_elim P (not (is_blank w.environment)) _ _
            (λ b.
              result_elim P (verify_in c k w p) _ _ (λ e q. apply_rest-IsExchange w _ _)
                (λ h q. apply_rest-IsExchange w _ _))
            (λ b.
              reexec_elim P (reexec_for_policy c k w p) _ _ _ (λ w' q. (m, q))
                (λ w'. apply_rest-IsExchange w _ _) (λ w' e. apply_rest-IsExchange w _ _)))

  apply_platform-IsExchange : (w : World F) → IsExchange w (apply_platform c k w p)
  unfolding apply_platform finish_platform
  apply_platform-IsExchange w =
      let P = IsExchange w in
      option_elim P (validate p) _ _ (λ e q. _)
        (λ q.
          branch_elim P (is_mode_off p.mode) _ _ (λ off. _)
            (λ on.
              branch_elim P (not (is_known_architecture k.goarch)) _ _ (λ a. _)
                (λ a.
                  branch_elim P (wants_landlock p) _ _
                    (λ b. landlock_layer-IsExchange w (new_status p.mode k.goarch) on)
                    (λ b. apply_rest-IsExchange w w (new_status p.mode k.goarch)))))

  replaced_privileges :
      (w w' : World F) → reexec_for_policy c k w p ≡ replaced w' → k.set_no_new_privs ≡ none
  unfolding reexec_for_policy enter_ruleset
  replaced_privileges w w' h = ground arith

  build_landlock-available : (s : Ruleset) → build_landlock k p ≡ ok s → landlock_available k ≡ true
  unfolding landlock_available build_landlock
  build_landlock-available s h = ground arith

  finish_platform-IsSettled :
      (w : World F) (status : Status F)
      → w.environment ≡ ""
      → status.handoff_verified ≡ true
      → is_enforced p status ≡ true
      → IsSettled (finish_platform w p status)
  unfolding finish_platform set_platform_status
  finish_platform-IsSettled w status e h d = record {
    world = record w { published = some (normalized p, record status { enforced = true }) };
    status = record status { enforced = true };
    finishes = ground arith;
    enforced = refl;
    handoff_verified = h;
    removed = e;
  }

  apply_seccomp-filtering :
      (w : World F)
      → IsFiltering c k p
      → k.set_no_new_privs ≡ none
      → apply_seccomp k w p.deny_syscalls ≡ (record w { no_new_privs = true }, none)
  unfolding apply_seccomp
  apply_seccomp-filtering w f n = rw (apply_seccomp, f.built, n, f.installed) refl

  built_architecture :
      (filters : List SockFilter) (e : SeccompError)
      → build_seccomp_filter k.unix k.goarch p.deny_syscalls ≡ ok filters
      → abi_for_architecture k.unix k.goarch ≢ err e
  unfolding build_seccomp_filter
  built_architecture filters e h q = ground arith

  seccomp_layer-filtering :
      (w : World F) (status : Status F)
      → IsFiltering c k p
      → k.set_no_new_privs ≡ none
      → seccomp_layer c k w p status ≡ (
        record w { no_new_privs = true },
        record status {
          seccomp = record { available = true; applied = true; verified = true; error = none };
        },
      )
  unfolding seccomp_layer
  seccomp_layer-filtering w status f n =
      elim (Result-cases (abi_for_architecture k.unix k.goarch)) [
        | inl (x, q) ↦ absurd (built_architecture f.filters x f.built q)
        | inr (abi, q) ↦
            let e = apply_seccomp-filtering w f n in rw (seccomp_layer, q, e, f.filtering, e) refl
      ]

  apply_rest-IsSettled :
      (w : World F) (status : Status F)
      → w.environment ≡ ""
      → status.landlock.verified ≡ true
      → status.handoff_verified ≡ true
      → status.missing ≡ []
      → (wants_seccomp p ≡ false) ⊎ IsFiltering c k p
      → k.set_no_new_privs ≡ none
      → IsSettled (apply_rest c k p w status)
  unfolding apply_rest is_enforced
  apply_rest-IsSettled w status e l h m s n = elim (Bool-cases (wants_seccomp p)) [
    | inr b ↦ rw b (finish_platform-IsSettled w status e h (ground arith))
    | inl b ↦ elim s [
      | inl x ↦ absurd (ground arith)
      | inr f ↦
          rw (b, seccomp_layer-filtering w status f n)
            (finish_platform-IsSettled _ _ e h (ground arith))
    ]
  ]

-- When Apply replaces the process image, Apply with the same policy in the new image returns without an
-- error and with everything enforced, Landlock by the hand-over, which it removes from the environment:
-- given that the packages read back what they write, that the kernel denies reading a file that lies
-- beneath no rule, that neither the executable nor /dev/null is a probe or above one, that no path of the
-- policy is above a probe but by its text, and that the kernel takes the seccomp filter where the
-- policy selects one.
pub apply_platform-IsSettled :
    {F : Type 0} (c : Codec F) (k : Kernel F) (w w' : World F) (p : Policy)
    → IsFaithful c
    → IsDenying k
    → IsApart k
    → IsPlain k p
    → (wants_seccomp p ≡ false) ⊎ IsFiltering c k p
    → apply_platform c k w p ≡ exchanged w'
    → IsSettled (apply_platform c k w' p)
unfolding apply_platform landlock_layer
apply_platform-IsSettled c k w w' p f d a b s h =
    let (on, replacing) = subst (IsExchange c k p w) h (apply_platform-IsExchange c k p w) in
    let (probe, set, planned, verified, filled) =
      ready_state c k w w' p f d a b (replaced-Planned k c w w' p replacing) in
    let (valid, wanted, known, selected, built) = plan_reexec_sound k p probe set planned in
    let available = build_landlock-available c k p set built in
    rw (apply_platform, valid, on, known, wanted, landlock_layer, available, filled, verified)
      (apply_rest-IsSettled c k p _ _ refl refl refl refl s
        (replaced_privileges c k p w w' replacing))
