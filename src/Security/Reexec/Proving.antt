-- ===== src/Security/Reexec/Proving.antt =====
-- security/linux/platform_linux.go: what ReexecForPolicy leaves for the process that verifies its
-- hand-over.
use hanami.Base.{
  ◌<◌, ◌≡◌, refl, sym, eq_iff, str_eq, ap, ◌∙◌, true, false, none, some, String, is_blank, ok,
  arith, All,
}
use hanami.Security.Paths.{clean_path}
use hanami.Security.Policy.{Policy}
use hanami.Security.Handoff.{
  digest, uint32_values, uint64_values, decode_handoff, Codec, access_denied, lacks_probe,
  validate_handoff_shape, encode_handoff, handoff_token,
}
use hanami.Security.Handoff.RoundTrip.{
  is_ascii, IsFaithful, IsSized, decode_handoff-encode_handoff, encode_handoff-filled,
}
use hanami.Security.Handoff.Verification.{verify_landlock_probe-denied, verify_handoff-accepts}
use hanami.Security.Landlock.{Kernel, Ruleset}
use hanami.Security.Landlock.Covering.{
  own_covers, granted_paths, IsTextual, build_landlock-uncovered,
}
use hanami.Security.Platform.{World, exec_failed}
use hanami.Security.Reexec.Planning.{
  IsDenying, IsApart, IsPlain, IsReady, Planned, probe_among_sound, plan_reexec_sound,
  replaced-Planned, exec_failed-Planned,
}
use hanami.Security.Reexec.{
  ProbeIdentity, replaced, returned, probe_paths, select_probe, plan_reexec, probe_handoff,
  reexec_for_policy, verify_in, maybe_reexec,
}

module _ {F : Type 0} (c : Codec F) (k : Kernel F) where
  lacks_probe-encode :
      (p : Policy) (probe : ProbeIdentity) (raw : String)
      → encode_handoff c (probe_handoff c k p probe) ≡ ok raw
      → lacks_probe (probe_handoff c k p probe) ≡ false
  unfolding encode_handoff validate_handoff_shape probe_handoff
  lacks_probe-encode p probe raw h = ground arith

  probe_handoff-IsSized :
      (p : Policy) (probe : ProbeIdentity)
      → IsFaithful c
      → is_ascii probe.path ≡ true
      → probe.dev < uint64_values
      → probe.ino < uint64_values
      → probe.mode < uint32_values
      → IsSized (probe_handoff c k p probe)
  unfolding probe_handoff digest handoff_token
  probe_handoff-IsSized p probe f path dev ino mode =
      (omega arith, (f.policy_hex _, (_, (_, (path, (dev, (ino, (mode, (f.token_hex _, _)))))))))

  own_token :
      (p : Policy) (probe : ProbeIdentity)
      → (probe_handoff c k p probe).token ≡ handoff_token c (probe_handoff c k p probe)
  unfolding probe_handoff handoff_token
  own_token p probe = refl

  -- Where a probe stands to the rules.
  abbrev IsClear : Policy → String → Type 0
  IsClear p t =
      (own_covers k t ≡ false)
      × (k.is_beneath t (clean_path "/dev/null") ≡ false)
      × All (IsTextual k t) (granted_paths p)
      × (is_ascii t ≡ true)

  probe_paths-IsClear : (p : Policy) → IsApart k → IsPlain k p → All (IsClear p) probe_paths
  unfolding IsApart IsPlain is_ascii
  probe_paths-IsClear p a b = (
    (a.0.0, a.0.1, b.0, refl),
    ((a.1.0.0, a.1.0.1, b.1.0, refl), ((a.1.1.0.0, a.1.1.0.1, b.1.1.0, refl), _)),
  )

  ready_verifies :
      (w w' : World F) (p : Policy) (probe : ProbeIdentity) (s : Ruleset)
      → IsFaithful c
      → IsDenying k
      → IsApart k
      → IsPlain k p
      → plan_reexec k p ≡ ok (probe, s)
      → IsReady k c w p probe s w'
      → verify_in c k w' p ≡ ok (probe_handoff c k p probe)
  unfolding verify_in IsReady select_probe probe_handoff
  ready_verifies w w' p probe s f d a b planned ready =
      let (valid, wanted, known, selected, built) = plan_reexec_sound k p probe s planned in
      let (off, granted, id, dev, ino, mode) =
        probe_among_sound k (IsClear p) p probe_paths probe (probe_paths-IsClear p a b) selected in
      let h = probe_handoff c k p probe in
      let (reads, uncovered) =
        build_landlock-uncovered k probe.path off.0 off.1 p s granted off.2 built in
      let denied : k.open_path w'.domains probe.path ≡ access_denied =
        ap (λ x. k.open_path x probe.path) ready.1
        ∙ d.denied s w.domains probe.path id.0 id.1 reads uncovered in
      let proven =
        verify_landlock_probe-denied (k.open_path w'.domains) h p
          (lacks_probe-encode p probe _ ready.0) granted denied in
      let sized : IsSized h = probe_handoff-IsSized p probe f off.3 dev ino mode in
      let own : str_eq (handoff_token c h) h.token ≡ true =
        (eq_iff (handoff_token c h) h.token).1 (sym (own_token p probe)) in
      let decoded : decode_handoff c w'.environment ≡ ok h =
        decode_handoff-encode_handoff c h w'.environment f sized ready.0 ∙ rw own refl in
      let accepted =
        verify_handoff-accepts c (k.open_path w'.domains) w'.environment p h decoded refl refl
          proven in
      ground arith

  -- The state at exec: a hand-over that verifies and is not blank, for a policy whose ruleset is built.
  pub ready_state :
      (w w' : World F) (p : Policy)
      → IsFaithful c
      → IsDenying k
      → IsApart k
      → IsPlain k p
      → Planned k c w p w'
      → (probe : ProbeIdentity) × (s : Ruleset) × (plan_reexec k p ≡ ok (probe, s))
        × (verify_in c k w' p ≡ ok (probe_handoff c k p probe))
        × (is_blank w'.environment ≡ false)
  unfolding Planned IsReady
  ready_state w w' p f d a b (probe, s, planned, ready) = (
    probe,
    s,
    planned,
    ready_verifies (record w { ruleset_open = true }) w' p probe s f d a b planned ready,
    encode_handoff-filled c (probe_handoff c k p probe) w'.environment f ready.0,
  )

  verified_after :
      (w w' : World F) (p : Policy)
      → IsFaithful c
      → IsDenying k
      → IsApart k
      → IsPlain k p
      → Planned k c w p w'
      → maybe_reexec c k w' p ≡ returned w' none
  unfolding maybe_reexec
  verified_after w w' p f d a b h =
      let (probe, s, planned, verified, filled) = ready_state w w' p f d a b h in
      let (valid, wanted, known, selected, built) = plan_reexec_sound k p probe s planned in
      ground arith

-- When ReexecForPolicy replaces the process image, MaybeReexec with the same policy returns nil in the
-- new image: given that the packages read back what they write, that the kernel denies reading a
-- file that lies beneath no rule, that neither the executable nor /dev/null is a probe or above one, and
-- that no path of the policy is above a probe but by its text.
pub reexec_for_policy-maybe_reexec :
    {F : Type 0} (c : Codec F) (k : Kernel F) (w w' : World F) (p : Policy)
    → IsFaithful c
    → IsDenying k
    → IsApart k
    → IsPlain k p
    → reexec_for_policy c k w p ≡ replaced w'
    → maybe_reexec c k w' p ≡ returned w' none
reexec_for_policy-maybe_reexec c k w w' p f d a b h =
    verified_after c k w w' p f d a b (replaced-Planned k c w w' p h)

-- When exec fails, the environment keeps a hand-over that MaybeReexec accepts on the same thread, although
-- the image was not replaced, under the same conditions.
pub exec_failed-maybe_reexec :
    {F : Type 0} (c : Codec F) (k : Kernel F) (w w' : World F) (p : Policy) (failure : F)
    → IsFaithful c
    → IsDenying k
    → IsApart k
    → IsPlain k p
    → reexec_for_policy c k w p ≡ returned w' (some (exec_failed failure))
    → maybe_reexec c k w' p ≡ returned w' none
exec_failed-maybe_reexec c k w w' p failure f d a b h =
    verified_after c k w w' p f d a b (exec_failed-Planned k c w w' p failure h)
