-- ===== src/Security/Handoff/Verification.antt =====
-- security/linux/security.go and platform_linux.go: what VerifyHandoff accepts.
use hanami.Base.{
  ◌≡◌, refl, Bool, true, false, ◌||◌, Bool-cases, String, arith, eq_iff, str_eq, ok, Result-cases,
  inl, inr, ◌⊎◌, if◌then◌else◌,
}
use hanami.Security.Policy.{Policy, wants_landlock}
use hanami.Security.Handoff.{
  Handoff, Codec, Opening, opened, no_entry, open_failed, access_denied, not_permitted,
  path_granted, lacks_probe, verify_landlock_probe, verify_kernel_enforcement, verify_handoff,
  digest, decode_handoff, handoff_token,
}
use hanami.Security.Handoff.RoundTrip.{decode_handoff_sound}

guarded_test : (b t : Bool) → (if b then false else t) ≡ true → (b ≡ false) × (t ≡ true)
guarded_test true t h = absurd (ground arith)
guarded_test false t h = (refl, h)

module _ {F : Type 0} where
  pub data IsDenied : Opening F → Type 0 where
    by_access : IsDenied access_denied
    by_permission : IsDenied not_permitted

  -- The probe of a handoff shows that the kernel enforces the policy.
  pub record IsProven (kernel : String → Opening F) (h : Handoff) (p : Policy) : Type 0 where
    pub enforced : h.landlock_enforced ≡ true
    pub not_granted : path_granted p h.probe_path ≡ false
    pub denied : IsDenied (kernel h.probe_path)

  abbrev denies : Opening F → Bool
  denies o = elim o [
    | access_denied ↦ true
    | not_permitted ↦ true
    | opened ↦ false
    | no_entry ↦ false
    | open_failed f ↦ false
  ]

  opening-IsDenied : (o : Opening F) → denies o ≡ true → IsDenied o
  opening-IsDenied access_denied h = by_access
  opening-IsDenied not_permitted h = by_permission
  opening-IsDenied opened h = absurd (ground arith)
  opening-IsDenied no_entry h = absurd (ground arith)
  opening-IsDenied (open_failed f) h = absurd (ground arith)

  verify_landlock_probe_sound :
      (kernel : String → Opening F) (h : Handoff) (p : Policy)
      → verify_landlock_probe kernel h p ≡ true
      → (path_granted p h.probe_path ≡ false) × IsDenied (kernel h.probe_path)
  unfolding verify_landlock_probe
  verify_landlock_probe_sound kernel h p e =
      let kept = guarded_test (lacks_probe h || path_granted p h.probe_path) _ e in
      (ground arith, opening-IsDenied (kernel h.probe_path) kept.1)

  pub verify_landlock_probe-denied :
      (kernel : String → Opening F) (h : Handoff) (p : Policy)
      → lacks_probe h ≡ false
      → path_granted p h.probe_path ≡ false
      → kernel h.probe_path ≡ access_denied
      → verify_landlock_probe kernel h p ≡ true
  unfolding verify_landlock_probe
  verify_landlock_probe-denied kernel h p l g d = ground arith

  module _ (c : Codec F) (kernel : String → Opening F) where
    -- An accepted handoff carries the token of its fields and the digest of the policy; where the policy selects
    -- Landlock, it names a path that the policy does not grant and that the kernel denies.
    pub verify_handoff-IsProven :
        (raw : String) (p : Policy) (h : Handoff)
        → verify_handoff c kernel raw p ≡ ok h
        → (h.token ≡ handoff_token c h)
          × (h.policy_digest ≡ digest c p)
          × ((wants_landlock p ≡ false) ⊎ IsProven kernel h p)
    unfolding verify_handoff verify_kernel_enforcement
    verify_handoff-IsProven raw p h e = elim (Result-cases (decode_handoff c raw)) [
      | inl (x, q) ↦ absurd (ground arith)
      | inr (k, q) ↦
          let q1 : decode_handoff c raw ≡ ok h = ground arith in
          let digests : str_eq h.policy_digest (digest c p) ≡ true = ground arith in
          (
            (decode_handoff_sound c h raw q1).1,
            (eq_iff _ _).0 digests,
            elim (Bool-cases (wants_landlock p)) [
              | inr w ↦ inl w
              | inl w ↦
                  let v : (h.landlock_enforced ≡ true) × (verify_landlock_probe kernel h p ≡ true) =
                    ground arith in
                  let (g, d) = verify_landlock_probe_sound kernel h p v.1 in
                  inr (record { enforced = v.0; not_granted = g; denied = d })
            ],
          )
    ]

    pub verify_handoff-accepts :
        (raw : String) (p : Policy) (h : Handoff)
        → decode_handoff c raw ≡ ok h
        → h.policy_digest ≡ digest c p
        → h.landlock_enforced ≡ true
        → verify_landlock_probe kernel h p ≡ true
        → verify_handoff c kernel raw p ≡ ok h
    unfolding verify_handoff verify_kernel_enforcement
    verify_handoff-accepts raw p h d g l v = ground (arith, eq_iff h.policy_digest (digest c p))
