-- ===== src/Security/Reexec/Planning.antt =====
-- security/linux/platform_linux.go, ReexecForPolicy: the plan that it carries out and the state in which
-- it calls exec.
use Prim.Native.Nat.{bit_and}
use hanami.Base.{
  ℕ, ◌<◌, ◌≡◌, refl, sym, ap, ◌∙◌, subst, true, false, Bool-cases, none, some, Option-cases, List,
  [], ◌∷◌, String, ok, err, arith, Result-cases, inl, inr, ◌≢◌, All, option_elim, result_elim,
}
use hanami.Security.Paths.{clean_path}
use hanami.Security.Policy.{Policy, validate, wants_landlock}
use hanami.Security.Handoff.{
  uint32_values, uint64_values, Codec, path_granted, access_denied, encode_handoff,
}
use hanami.Security.Landlock.{Kernel, Ruleset, right_read_file, build_landlock}
use hanami.Security.Landlock.Covering.{any_rule_covers, own_covers, granted_paths, IsTextual}
use hanami.Security.Platform.{World, SecurityError, exec_failed, probes_granted}
use hanami.Security.Reexec.{
  ProbeIdentity, Reexec, replaced, returned, probe_paths, probe_among, select_probe, plan_reexec,
  probe_handoff, enter_ruleset, reexec_for_policy, seal_descriptors, standard_descriptors,
  is_known_architecture,
}

module _ {F : Type 0} (k : Kernel F) where
  -- What the kernel documents of a Landlock domain: reading a file that is there and lies beneath no rule is
  -- denied when the ruleset handles reading.
  pub record IsDenying : Type 0 where
    pub denied :
        (s : Ruleset) (outer : List Ruleset) (path : String) (id : ℕ × (ℕ × ℕ))
        → k.stat path ≡ some id
        → bit_and s.handled right_read_file ≡ right_read_file
        → any_rule_covers k path s.rules ≡ false
        → k.open_path (s ∷ outer) path ≡ access_denied

  -- The executable of the process and /dev/null are none of the probes, nor above one.
  unfoldable pub IsApart : Type 0
  IsApart =
      All (λ t. (own_covers k t ≡ false) × (k.is_beneath t (clean_path "/dev/null") ≡ false))
        probe_paths

  -- The file system puts a probe beneath a path of the policy only if the path's text does: no path of the
  -- policy is a link to a directory above a probe, or is above one only once it is cleaned, as `//` is.
  unfoldable pub IsPlain : Policy → Type 0
  IsPlain p = All (λ t. All (IsTextual k t) (granted_paths p)) probe_paths

  -- A probe that was found: not granted, and with a property that all candidates have.
  pub probe_among_sound :
      (Q : String → Type 0) (p : Policy) (paths : List String) (probe : ProbeIdentity)
      → All Q paths
      → probe_among k p paths ≡ ok probe
      → Q probe.path
        × (path_granted p probe.path ≡ false)
        × ((id : ℕ × (ℕ × ℕ)) × (k.stat probe.path ≡ some id))
        × (probe.dev < uint64_values)
        × (probe.ino < uint64_values)
        × (probe.mode < uint32_values)
  unfolding probe_among
  probe_among_sound Q p [] probe a h = absurd (ground arith)
  probe_among_sound Q p (path ∷ paths) probe a h = elim (Bool-cases (path_granted p path)) [
    | inl e ↦ probe_among_sound Q p paths probe a.1 (ground arith)
    | inr e ↦ elim (Option-cases (k.stat path)) [
      | inl n ↦ probe_among_sound Q p paths probe a.1 (ground arith)
      | inr (id, n) ↦
          let here : path ≡ probe.path = ground arith in
          (
            subst Q here a.0,
            sym (ap (path_granted p) here) ∙ e,
            (id, sym (ap k.stat here) ∙ n),
            ground arith,
            ground arith,
            ground arith,
          )
    ]
  ]

  pub plan_reexec_sound :
      (p : Policy) (probe : ProbeIdentity) (s : Ruleset)
      → plan_reexec k p ≡ ok (probe, s)
      → (validate p ≡ none)
        × (wants_landlock p ≡ true)
        × (is_known_architecture k.goarch ≡ true)
        × (select_probe k p ≡ ok probe)
        × (build_landlock k p ≡ ok s)
  unfolding plan_reexec
  plan_reexec_sound p probe s h = ground arith

  probe_among-refusal :
      (p : Policy) (paths : List String) (e : SecurityError F)
      → probe_among k p paths ≡ err e
      → e ≡ probes_granted
  unfolding probe_among
  probe_among-refusal p [] e h = ground arith
  probe_among-refusal p (path ∷ paths) e h = ground (arith, probe_among-refusal p paths e)

  plan_reexec-unready :
      (p : Policy) (e : SecurityError F) (f : F) → plan_reexec k p ≡ err e → e ≢ exec_failed f
  unfolding plan_reexec select_probe
  plan_reexec-unready p e f h same = ground (arith, probe_among-refusal p probe_paths e)

  module _ (c : Codec F) where
    -- The state in which the handoff of a ruleset is in the environment.
    unfoldable pub IsReady : World F → Policy → ProbeIdentity → Ruleset → World F → Type 0
    IsReady w p probe s w' =
        (encode_handoff c (probe_handoff c k p probe) ≡ ok w'.environment)
        × (w'.domains ≡ s ∷ w.domains)
        × (seal_descriptors k standard_descriptors ≡ (w'.descriptor_flags, none))

    -- Either the image is replaced in that state, or the call returns in it after exec.
    ReadyResult : World F → Policy → ProbeIdentity → Ruleset → Reexec F → Type 0
    ReadyResult w p probe s (replaced w') = IsReady w p probe s w'
    ReadyResult w p probe s (returned w' (some (exec_failed f))) = IsReady w p probe s w'
    ReadyResult w p probe s (returned w' _) = Unit

    enter_ruleset-ReadyResult :
        (w : World F) (p : Policy) (probe : ProbeIdentity) (s : Ruleset)
        → ReadyResult w p probe s (enter_ruleset c k w p probe s)
    unfolding enter_ruleset ReadyResult IsReady
    enter_ruleset-ReadyResult w p probe s =
        let P = ReadyResult w p probe s in
        option_elim P k.set_no_new_privs _ _ (λ f q. _)
          (λ q.
            option_elim P k.restrict_self _ _ (λ f q. _)
              (λ q.
                result_elim P (encode_handoff c (probe_handoff c k p probe)) _ _ (λ e q. _)
                  (λ raw e.
                    option_elim P (seal_descriptors k standard_descriptors).1 _ _ (λ x q. _)
                      (λ sealed.
                        option_elim P k.set_environment _ _ (λ f q. _)
                          (λ q.
                            option_elim P k.exec _ _
                              (λ f q. (
                                e,
                                refl,
                                ap (λ o. ((seal_descriptors k standard_descriptors).0, o)) sealed,
                              ))
                              (λ q. (
                                e,
                                refl,
                                ap (λ o. ((seal_descriptors k standard_descriptors).0, o)) sealed,
                              )))))))

    -- What a state that is ready came from.
    unfoldable pub Planned : World F → Policy → World F → Type 0
    Planned w p w' =
        (probe : ProbeIdentity) × (s : Ruleset) × (plan_reexec k p ≡ ok (probe, s))
        × IsReady (record w { ruleset_open = true }) p probe s w'

    pub replaced-Planned :
        (w w' : World F) (p : Policy) → reexec_for_policy c k w p ≡ replaced w' → Planned w p w'
    unfolding reexec_for_policy Planned ReadyResult
    replaced-Planned w w' p h = elim (Result-cases (plan_reexec k p)) [
      | inl (e, q) ↦ absurd (ground arith)
      | inr (planned, q) ↦
          let before = record w { ruleset_open = true } in
          let end : enter_ruleset c k before p planned.0 planned.1 ≡ replaced w' = ground arith in
          (
            planned.0,
            planned.1,
            q,
            subst (ReadyResult before p planned.0 planned.1) end
                (enter_ruleset-ReadyResult before p planned.0 planned.1),
          )
    ]

    pub exec_failed-Planned :
        (w w' : World F) (p : Policy) (f : F)
        → reexec_for_policy c k w p ≡ returned w' (some (exec_failed f))
        → Planned w p w'
    unfolding reexec_for_policy Planned ReadyResult
    exec_failed-Planned w w' p f h = elim (Result-cases (plan_reexec k p)) [
      | inl (e, q) ↦ absurd (ground (arith, plan_reexec-unready p e f q))
      | inr (planned, q) ↦
          let before = record w { ruleset_open = true } in
          let end : enter_ruleset c k before p planned.0 planned.1
              ≡ returned w' (some (exec_failed f)) =
            ground arith in
          (
            planned.0,
            planned.1,
            q,
            subst (ReadyResult before p planned.0 planned.1) end
                (enter_ruleset-ReadyResult before p planned.0 planned.1),
          )
    ]
