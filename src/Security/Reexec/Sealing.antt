-- ===== src/Security/Reexec/Sealing.antt =====
-- security/linux/platform_linux.go, SealDescriptors: which descriptors pass through the exec.
use hanami.Base.{
  ℕ, ◌<◌, ◌≡◌, refl, sym, ap, ◌∙◌, subst, none, Option-cases, List, [], ◌∷◌, map, ok, Result-cases,
  arith, inl, inr, ◌⊎◌, ℤ, All,
}
use hanami.Security.Policy.{Policy}
use hanami.Security.Handoff.{Codec}
use hanami.Security.Landlock.{Kernel}
use hanami.Security.Platform.{World}
use hanami.Security.Reexec.Planning.{Planned, IsReady, replaced-Planned}
use hanami.Security.Reexec.{
  replaced, same_descriptor, is_preserved, fd_cloexec, standard_descriptors, descriptor_flag,
  validate_descriptors, seal_entries, seal_descriptors, reexec_for_policy,
}

abbrev sealed_entry : List ℤ → ℕ → ℕ × ℕ
sealed_entry preserve fd = (fd, descriptor_flag preserve fd)

module _ {F : Type 0} (k : Kernel F) where
  seal_entries-all :
      (preserve : List ℤ) (fds : List ℕ) (flags : List (ℕ × ℕ))
      → seal_entries k preserve fds ≡ (flags, none)
      → flags ≡ map (sealed_entry preserve) fds
  unfolding seal_entries
  seal_entries-all preserve [] flags h = ground arith
  seal_entries-all preserve (fd ∷ fds) flags h =
      elim (Option-cases (k.set_descriptor_flags fd (descriptor_flag preserve fd))) [
        | inr (f, q) ↦ absurd (ground arith)
        | inl q ↦
            let tail = (seal_entries k preserve fds).0 in
            let done : (seal_entries k preserve fds).1 ≡ none = ground arith in
            let rest = seal_entries-all preserve fds tail (ap (λ o. (tail, o)) done) in ground arith
      ]

  seal_descriptors-all :
      (preserve : List ℤ) (flags : List (ℕ × ℕ))
      → seal_descriptors k preserve ≡ (flags, none)
      → (fds : List ℕ) × (k.proc_self_fd ≡ ok fds) × (flags ≡ map (sealed_entry preserve) fds)
  unfolding seal_descriptors
  seal_descriptors-all preserve flags h =
      elim (Option-cases (validate_descriptors {F = F} preserve)) [
        | inr (e, q) ↦ absurd (ground arith)
        | inl q ↦ elim (Result-cases k.proc_self_fd) [
          | inl (f, r) ↦ absurd (ground arith)
          | inr (fds, r) ↦ (fds, r, seal_entries-all preserve fds flags (ground arith))
        ]
      ]

kept_standard : (fd : ℕ) → (descriptor_flag standard_descriptors fd ≡ fd_cloexec) ⊎ (fd < 3)
unfolding descriptor_flag is_preserved same_descriptor
kept_standard fd = ground arith

every_entry :
    (fds : List ℕ)
    → All
        (λ (x : ℕ × ℕ). (x.1 ≡ fd_cloexec) ⊎ (x.0 < 3))
        (map (sealed_entry standard_descriptors) fds)
every_entry [] = _
every_entry (fd ∷ fds) = (kept_standard fd, every_entry fds)

numbers :
    (preserve : List ℤ) (fds : List ℕ)
    → map (λ (x : ℕ × ℕ). x.0) (map (sealed_entry preserve) fds) ≡ fds
numbers preserve [] = refl
numbers preserve (fd ∷ fds) = ap (λ xs. fd ∷ xs) (numbers preserve fds)

-- When ReexecForPolicy replaces the process image, it has set the flags of exactly the descriptors that
-- the process listed, and every one from 3 on is closed by the exec.
pub reexec_for_policy-sealed :
    {F : Type 0} (c : Codec F) (k : Kernel F) (w w' : World F) (p : Policy)
    → reexec_for_policy c k w p ≡ replaced w'
    → (fds : List ℕ) × (k.proc_self_fd ≡ ok fds)
      × (map (λ (x : ℕ × ℕ). x.0) w'.descriptor_flags ≡ fds)
      × All (λ (x : ℕ × ℕ). (x.1 ≡ fd_cloexec) ⊎ (x.0 < 3)) w'.descriptor_flags
unfolding Planned IsReady
reexec_for_policy-sealed c k w w' p h =
    let (probe, s, planned, ready) = replaced-Planned k c w w' p h in
    let (fds, listed, flags) =
      seal_descriptors-all k standard_descriptors w'.descriptor_flags ready.2 in
    (
      fds,
      listed,
      ap (map (λ (x : ℕ × ℕ). x.0)) flags ∙ numbers standard_descriptors fds,
      subst (All (λ (x : ℕ × ℕ). (x.1 ≡ fd_cloexec) ⊎ (x.0 < 3))) (sym flags) (every_entry fds),
    )
