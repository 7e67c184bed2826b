-- ===== src/Http/Manager/Outcomes.antt =====
-- http/manager.go, Replace: the manager after a replacement, by its result.
use hanami.Base.{
  suc, ◌≡◌, refl, sym, ◌∙◌, subst, Bool, true, false, Option, none, some, ◌∷◌, arith, inl, inr, ◌⊎◌,
  Result-cases, Option-cases, List, ap, ok,
}
use hanami.Http.Config.{Net, ServerConfig, equivalent_config}
use hanami.Http.Config.Agreeing.{Agrees, equivalent_config-Agrees}
use hanami.Http.Gate.{set_admitted}
use hanami.Http.Manager.{
  Manager, Generation, ReplaceRequest, Attempt, native_runtime, config_for, make_runtime,
  listener_certificate, prepare_generation, promote, try_candidate, replace, without, gate_shut,
  Replaced, rejected, applied, applied_draining, opened,
}
use hanami.Http.Manager.Invariant.{IsWellFormed, without_self}
use hanami.Http.Manager.Replacing.{counted, prepare-cases}
use hanami.Http.Manager.Branches.{replace_elim, replace_with_elim, try_candidate_elim}

module _ {n : Net} where
  -- Nothing changed, but for the number that a prepared generation may have used up.
  abbrev pub IsUntouched : Manager n → Manager n → Type 0
  IsUntouched m m' = (m' ≡ m) ⊎ (m' ≡ counted m)

  abbrev pub is_rejected : Replaced n → Bool
  is_rejected (rejected e) = true
  is_rejected (applied k) = false
  is_rejected (applied_draining k g) = false

  promote-applied :
      (m : Manager n) (g : Generation n) (c : ServerConfig n)
      → ¬ (is_rejected (promote m g c).1 ≡ true)
  unfolding promote
  promote-applied m g c h = elim (Option-cases m.active) [ inl e ↦ cc | inr (old, e) ↦ cc ]

  -- What drains after a promotion.
  abbrev pub drained_by : Option (Generation n) → List (Generation n) → List (Generation n)
  drained_by none gs = gs
  drained_by (some old) gs = gate_shut old ∷ gs

  promote_rest :
      (m : Manager n) (g : Generation n) (c : ServerConfig n)
      → let m' = (promote m g c).0 in
        (m'.handler ≡ c.handler)
        × (m'.candidates ≡ without g m.candidates)
        × (m'.draining ≡ drained_by m.active m.draining)
  unfolding promote
  promote_rest m g c = elim (Option-cases m.active) [
    | inl e ↦ rw e (refl, refl, refl)
    | inr (old, e) ↦ rw e (refl, refl, refl)
  ]

  pub promote-active :
      (m : Manager n) (g : Generation n) (c : ServerConfig n)
      → ((promote m g c).0.active ≡ some (opened g)) × ((promote m g c).0.config ≡ c)
  unfolding promote
  promote-active m g c = elim (Option-cases m.active) [
    | inl e ↦ rw e (refl, refl)
    | inr (old, e) ↦ rw e (refl, refl)
  ]

  try_candidate-IsUntouched :
      (m : Manager n) (g : Generation n) (c : ServerConfig n) (a : Attempt n.Failure)
      → IsWellFormed m
      → is_rejected (try_candidate (counted m) g c a).1 ≡ true
      → (try_candidate (counted m) g c a).0 ≡ counted m
  try_candidate-IsUntouched m g c a w =
      try_candidate_elim (λ x. is_rejected x.1 ≡ true → x.0 ≡ counted m) (counted m) g c a
        (λ e h i. record (counted m) {
          candidates = (without_self m g w.settled ∙ sym w.settled) i;
        })
        (λ p q h. absurd (promote-applied _ g c h))

  -- A rejected replacement leaves the manager as it was: the active generation goes on serving with its
  -- configuration and handler, nothing drains that did not, and only the number of a prepared
  -- generation is used up.
  pub replace-rejected :
      (m : Manager n) (req : ReplaceRequest n) (a : Attempt n.Failure)
      → IsWellFormed m
      → is_rejected (replace m req a).1 ≡ true
      → IsUntouched m (replace m req a).0
  replace-rejected m req a w =
      replace_elim (λ x. is_rejected x.1 ≡ true → IsUntouched m x.0) m req a (λ e h. inl refl)
        (λ c g p q e h. inl refl)
        (λ c p.
          replace_with_elim (λ x. is_rejected x.1 ≡ true → IsUntouched m x.0) m c a
            (λ e h. inl refl) (λ e h. (prepare-cases m c a).0)
            (λ g q k h. inr (try_candidate-IsUntouched m g c a w h)))

  prepare-runtime :
      (m : Manager n) (c : ServerConfig n) (a : Attempt n.Failure) (g : Generation n)
      → (prepare_generation m c a).1 ≡ ok g
      → c.runtime_factory ≡ none
      → g.runtime ≡ native_runtime m.handler
  unfolding prepare_generation make_runtime
  prepare-runtime m c a g h k = ground arith

  prepare-parts :
      (m : Manager n) (c : ServerConfig n) (a : Attempt n.Failure) (g : Generation n)
      → (prepare_generation m c a).1 ≡ ok g
      → (listener_certificate c ≡ ok g.certificate)
        × (make_runtime c m.handler a.factory ≡ ok g.runtime)
  unfolding prepare_generation
  prepare-parts m c a g h = elim (Option-cases a.listen) [
    | inr (e, p) ↦ absurd (ground arith)
    | inl p ↦ elim (Result-cases (listener_certificate c)) [
      | inl (e, q) ↦ absurd (ground arith)
      | inr (k, q) ↦ elim (Result-cases (make_runtime c m.handler a.factory)) [
        | inl (e, r) ↦ absurd (ground arith)
        | inr (t, r) ↦ (ground arith, ground arith)
      ]
    ]
  ]

  -- Nothing changed, since the active generation agrees with the requested configuration.
  pub record IsSame (m : Manager n) (req : ReplaceRequest n) (m' : Manager n) : Type 0 where
    pub unchanged : m' ≡ m
    pub active : Generation n
    pub is_active : m.active ≡ some active
    pub config : ServerConfig n
    pub requested : config_for m req ≡ ok config
    pub agrees : Agrees active.config config
    pub equivalent : equivalent_config active.config config ≡ true

  -- The candidate was tried with success and is active; the old generation drains with its gate shut.
  pub record IsPromoted (m : Manager n) (req : ReplaceRequest n) (a : Attempt n.Failure)
      (m' : Manager n) : Type 0 where
    pub active : Generation n
    pub is_active : m'.active ≡ some active
    pub is_next : active.id ≡ suc m.generation
    pub promoted : active.promoted ≡ true
    pub admitted : active.gate.admitted ≡ true
    pub config : config_for m req ≡ ok m'.config
    pub not_cancelled : a.cancelled ≡ none
    pub probed : a.probe ≡ none
    pub not_cancelled_late : a.cancelled_late ≡ none
    pub certificate : listener_certificate m'.config ≡ ok active.certificate
    pub made : make_runtime m'.config m.handler a.factory ≡ ok active.runtime
    pub handler : m'.handler ≡ m'.config.handler
    pub candidates : m'.candidates ≡ without active m.candidates
    pub drains : m'.draining ≡ drained_by m.active m.draining
    pub runtime : m'.config.runtime_factory ≡ none → active.runtime ≡ native_runtime m.handler

  without_first :
      (g : Generation n) (gs : List (Generation n)) → without g (g ∷ gs) ≡ without (opened g) gs
  without_first g gs = ground arith

  promote-IsPromoted :
      (m : Manager n) (req : ReplaceRequest n) (a : Attempt n.Failure) (c : ServerConfig n)
      (g : Generation n)
      → config_for m req ≡ ok c
      → (prepare_generation m c a).1 ≡ ok g
      → a.cancelled ≡ none
      → a.probe ≡ none
      → a.cancelled_late ≡ none
      → IsPromoted m req a (promote (record (counted m) { candidates = g ∷ m.candidates }) g c).0
  unfolding set_admitted
  promote-IsPromoted m req a c g p q x y z =
      let (act, cfg) = promote-active (record (counted m) { candidates = g ∷ m.candidates }) g c in
      let (handler, candidates, drains) =
        promote_rest (record (counted m) { candidates = g ∷ m.candidates }) g c in
      record {
        active = opened g;
        is_active = act;
        is_next = ((prepare-cases m c a).1 g q).1;
        promoted = refl;
        admitted = refl;
        config = subst (λ d. config_for m req ≡ ok d) (sym cfg) p;
        not_cancelled = x;
        probed = y;
        not_cancelled_late = z;
        certificate =
            subst (λ d. listener_certificate d ≡ ok g.certificate) (sym cfg)
              (prepare-parts m c a g q).0;
        made =
            subst (λ d. make_runtime d m.handler a.factory ≡ ok g.runtime) (sym cfg)
              (prepare-parts m c a g q).1;
        handler = handler ∙ sym (ap (λ (d : ServerConfig n). d.handler) cfg);
        candidates = candidates ∙ without_first g m.candidates;
        drains = drains;
        runtime = λ h.
            prepare-runtime m c a g q
              (subst (λ (d : ServerConfig n). d.runtime_factory ≡ none) cfg h);
      }

  -- A replacement that is applied either changed nothing, and then the active generation agrees with the
  -- requested configuration in its address, protocol, limits, probe and certificate, or its candidate passed the probe, the caller's context was done neither
  -- before nor after, and the candidate, with the next number, is active, promoted and admitted
  -- under the requested configuration, and the generation that was active drains with its gate shut;
  -- the candidate is held no longer, has the certificate and the runtime of that configuration, and without a runtime factory it serves the handler that
  -- the manager had before the call.
  pub replace-applied :
      (m : Manager n) (req : ReplaceRequest n) (a : Attempt n.Failure)
      → is_rejected (replace m req a).1 ≡ false
      → IsSame m req (replace m req a).0 ⊎ IsPromoted m req a (replace m req a).0
  replace-applied m req a =
      replace_elim (λ x. is_rejected x.1 ≡ false → IsSame m req x.0 ⊎ IsPromoted m req a x.0) m req
        a (λ e h. absurd (cc))
        (λ c g p q e h. inl (record {
          unchanged = refl;
          active = g;
          is_active = q;
          config = c;
          requested = p;
          agrees = equivalent_config-Agrees g.config c e;
          equivalent = e;
        }))
        (λ c p.
          replace_with_elim
            (λ x. is_rejected x.1 ≡ false → IsSame m req x.0 ⊎ IsPromoted m req a x.0) m c a
            (λ e h. absurd (cc)) (λ e h. absurd (cc))
            (λ g q x.
              try_candidate_elim
                (λ z. is_rejected z.1 ≡ false → IsSame m req z.0 ⊎ IsPromoted m req a z.0)
                (counted m) g c a (λ e h. absurd (cc))
                (λ y z h. inr (promote-IsPromoted m req a c g p q x y z))))
