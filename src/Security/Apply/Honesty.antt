-- ===== src/Security/Apply/Honesty.antt =====
-- security/linux/platform_linux.go, applyPlatform: what a status that says Enforced rests on.
use hanami.Base.{
  ◌≡◌, refl, sym, ◌∙◌, subst, true, false, not, Bool-cases, none, some, List, is_blank, length, ok,
  arith, Result-cases, branch_elim, result_elim, option_elim, inl, inr, ◌⊎◌,
}
use hanami.Security.Policy.{Policy, mode_required, validate, wants_landlock, wants_seccomp}
use hanami.Security.Handoff.{Handoff, Codec}
use hanami.Security.Seccomp.{SockFilter, abi_for_architecture, build_seccomp_filter}
use hanami.Security.Landlock.{Kernel}
use hanami.Security.Platform.{World, Status, SecurityError, new_status}
use hanami.Security.Reexec.{
  Reexec, replaced, returned, verify_in, reexec_for_policy, is_known_architecture, is_mode_off,
}
use hanami.Security.Apply.{
  Applied, exchanged, finished, u16, is_enforced, finish_platform, apply_seccomp, seccomp_enforced,
  seccomp_layer, landlock_available, landlock_layer, apply_rest, apply_platform,
}

unverified : {A : Type 0} → false ≡ true → A
unverified e = absurd (ground arith)

pub reexec_elim :
    {F : Type 0} (P : Applied F → Type 0) (r : Reexec F) (x : World F → Applied F)
    (y : World F → Applied F) (z : World F → SecurityError F → Applied F)
    → ((w : World F) → r ≡ replaced w → P (x w))
    → ((w : World F) → P (y w))
    → ((w : World F) (e : SecurityError F) → P (z w e))
    → P (elim r [ replaced w ↦ x w | returned w none ↦ y w | returned w (some e) ↦ z w e ])
reexec_elim P (replaced w) x y z h i j = h w refl
reexec_elim P (returned w none) x y z h i j = i w
reexec_elim P (returned w (some e)) x y z h i j = j w e

module _ {F : Type 0} (c : Codec F) (k : Kernel F) (p : Policy) where
  -- The kernel took the filter for the policy's system calls and says that it filters.
  pub record IsFiltering : Type 0 where
    pub filters : List SockFilter
    pub built : build_seccomp_filter k.unix k.goarch p.deny_syscalls ≡ ok filters
    pub installed : k.install_filter (u16 (length filters)) filters ≡ none
    pub filtering : seccomp_enforced k ≡ true

  -- A status that says Enforced has every selected layer verified: Landlock by a hand-over in the first
  -- world, seccomp by the kernel. Under ModeRequired a call without an error is enforced.
  abbrev pub IsHonest : World F → Applied F → Type 0
  IsHonest w (exchanged w') = Unit
  IsHonest w (finished w' status e) =
      (status.enforced ≡ true
        → wants_landlock p ≡ true
        → (status.landlock.verified ≡ true) × ((h : Handoff) × (verify_in c k w p ≡ ok h)))
      × (status.enforced ≡ true
          → wants_seccomp p ≡ true
          → (status.seccomp.verified ≡ true) × IsFiltering)
      × (p.mode ≡ mode_required → e ≡ none → status.enforced ≡ true)

  -- What the status says of its layers before it is finished.
  record IsGrounded (w : World F) (status : Status F) : Type 0 where
    mode : status.mode ≡ p.mode
    landlock : status.landlock.verified ≡ true → (h : Handoff) × (verify_in c k w p ≡ ok h)
    seccomp : status.seccomp.verified ≡ true → IsFiltering

  finish_platform-IsHonest :
      (w w' : World F) (status : Status F)
      → IsGrounded w status
      → IsHonest w (finish_platform w' p status)
  unfolding finish_platform is_enforced
  finish_platform-IsHonest w w' status g =
      let mode = g.mode in
      (
        λ enforced wants.
            let v : status.landlock.verified ≡ true = ground arith in (v, g.landlock v),
        λ enforced wants. let v : status.seccomp.verified ≡ true = ground arith in (v, g.seccomp v),
        λ required none. ground arith,
      )

  apply_seccomp-IsFiltering :
      (w : World F)
      → (apply_seccomp k w p.deny_syscalls).1 ≡ none
      → seccomp_enforced k ≡ true
      → IsFiltering
  unfolding apply_seccomp
  apply_seccomp-IsFiltering w h e =
      elim (Result-cases (build_seccomp_filter k.unix k.goarch p.deny_syscalls)) [
        | inl (x, q) ↦ absurd (ground arith)
        | inr (filters, q) ↦ record {
          filters = filters;
          built = q;
          installed = ground arith;
          filtering = e;
        }
      ]

  seccomp_layer-IsGrounded :
      (w w' : World F) (status : Status F)
      → IsGrounded w status
      → status.seccomp.verified ≡ false
      → IsGrounded w (seccomp_layer c k w' p status).1
  unfolding seccomp_layer
  seccomp_layer-IsGrounded w w' status g fresh =
      let applied = apply_seccomp k w' p.deny_syscalls in
      let P = λ (r : World F × Status F). IsGrounded w r.1 in
      result_elim P (abi_for_architecture k.unix k.goarch) _ _
        (λ e q. record { mode = g.mode; landlock = g.landlock; seccomp = λ x. unverified x })
        (λ abi q.
          option_elim P applied.1 _ _
            (λ e r. record { mode = g.mode; landlock = g.landlock; seccomp = λ x. unverified x })
            (λ r. record {
              mode = g.mode;
              landlock = g.landlock;
              seccomp = apply_seccomp-IsFiltering w' r;
            }))

  apply_rest-IsHonest :
      (w w' : World F) (status : Status F)
      → IsGrounded w status
      → status.seccomp.verified ≡ false
      → IsHonest w (apply_rest c k p w' status)
  unfolding apply_rest
  apply_rest-IsHonest w w' status g fresh =
      branch_elim (IsHonest w) (wants_seccomp p) _ _
        (λ _. finish_platform-IsHonest w _ _ (seccomp_layer-IsGrounded w w' status g fresh))
        (λ _. finish_platform-IsHonest w w' status g)

  landlock_layer-IsHonest :
      (w : World F) (status : Status F)
      → status.mode ≡ p.mode
      → status.landlock.verified ≡ false
      → status.seccomp.verified ≡ false
      → IsHonest w (landlock_layer c k w p status (apply_rest c k p))
  unfolding landlock_layer
  landlock_layer-IsHonest w status m l s =
      let P = IsHonest w in
      let unfiltered : status.seccomp.verified ≡ true → IsFiltering = λ x. unverified (sym s ∙ x) in
      branch_elim P (not (landlock_available k)) _ _
        (λ a.
          apply_rest-IsHonest w _ _
            (record { mode = m; landlock = λ x. unverified x; seccomp = unfiltered }) s)
        (λ a.
          branch_elim P (not (is_blank w.environment)) _ _
            (λ b.
              result_elim P (verify_in c k w p) _ _
                (λ e q.
                  apply_rest-IsHonest w _ _
                    (record { mode = m; landlock = λ x. unverified x; seccomp = unfiltered }) s)
                (λ h q.
                  apply_rest-IsHonest w _ _
                    (record { mode = m; landlock = λ x. (h, q); seccomp = unfiltered }) s))
            (λ b.
              reexec_elim P (reexec_for_policy c k w p) _ _ _ (λ w'. _)
                (λ w'.
                  apply_rest-IsHonest w _ _
                    (record { mode = m; landlock = λ x. unverified x; seccomp = unfiltered }) s)
                (λ w' e.
                  apply_rest-IsHonest w _ _
                    (record { mode = m; landlock = λ x. unverified x; seccomp = unfiltered }) s)))

  -- Whatever applyPlatform returns is honest.
  apply_platform-IsHonest : (w : World F) → IsHonest w (apply_platform c k w p)
  unfolding apply_platform
  apply_platform-IsHonest w =
      let P = IsHonest w in
      option_elim P (validate p) _ _
        (λ e q. (λ n. unverified n, λ n. unverified n, λ r n. absurd (ground arith)))
        (λ q.
          branch_elim P (is_mode_off p.mode) _ _
            (λ off. (λ n. unverified n, λ n. unverified n, λ r n. absurd (ground arith)))
            (λ on.
              branch_elim P (not (is_known_architecture k.goarch)) _ _
                (λ a. finish_platform-IsHonest w w _ (record {
                  mode = refl;
                  landlock = λ x. unverified x;
                  seccomp = λ x. unverified x;
                }))
                (λ a.
                  branch_elim P (wants_landlock p) _ _
                    (λ b. landlock_layer-IsHonest w (new_status p.mode k.goarch) refl refl refl)
                    (λ b.
                      apply_rest-IsHonest w w (new_status p.mode k.goarch)
                        (record {
                          mode = refl;
                          landlock = λ x. unverified x;
                          seccomp = λ x. unverified x;
                        })
                        refl))))

-- Under ModeRequired a call of Apply that returns without an error leaves every layer that the policy
-- selects verified: Landlock by a hand-over that VerifyHandoff accepts, seccomp by a filter that the
-- kernel took and says that it runs.
pub apply_platform-required :
    {F : Type 0} (c : Codec F) (k : Kernel F) (w w' : World F) (p : Policy) (status : Status F)
    → p.mode ≡ mode_required
    → apply_platform c k w p ≡ finished w' status none
    → (status.enforced ≡ true)
      × ((wants_landlock p ≡ false)
          ⊎ ((status.landlock.verified ≡ true) × ((h : Handoff) × (verify_in c k w p ≡ ok h))))
      × ((wants_seccomp p ≡ false) ⊎ ((status.seccomp.verified ≡ true) × IsFiltering c k p))
apply_platform-required c k w w' p status m e =
    let honest = subst (IsHonest c k p w) e (apply_platform-IsHonest c k p w) in
    let enforced = honest.2 m refl in
    (
      enforced,
      elim (Bool-cases (wants_landlock p)) [ inl b ↦ inr (honest.0 enforced b) | inr b ↦ inl b ],
      elim (Bool-cases (wants_seccomp p)) [ inl b ↦ inr (honest.1 enforced b) | inr b ↦ inl b ],
    )
