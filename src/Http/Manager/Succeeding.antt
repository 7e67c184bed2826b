-- ===== src/Http/Manager/Succeeding.antt =====
-- http/manager.go, Replace: when a replacement goes through.
use hanami.Base.{◌≡◌, false, Option, none, some, length, arith, Option-cases, inl, inr, ok}
use hanami.Http.Config.{Net, Certificate, ServerConfig, equivalent_config}
use hanami.Http.Manager.{
  Manager, Generation, ReplaceRequest, Attempt, Runtime, config_for, listener_certificate,
  make_runtime, prepare_generation, promote, try_candidate, replace_with, replace, reaches,
}
use hanami.Http.Manager.Outcomes.{is_rejected, IsPromoted, replace-applied}

module _ {n : Net} where
  unrejected :
      (m : Manager n) (req : ReplaceRequest n) (a : Attempt n.Failure) (c : ServerConfig n)
      (k : Option (Certificate n.PrivateKey)) (t : Runtime n)
      → m.closed ≡ false
      → config_for m req ≡ ok c
      → ((g : Generation n)
          → m.active ≡ some g
          → (equivalent_config g.config c ≡ false)
            × (reaches (length m.draining) c.max_draining_generations ≡ false))
      → listener_certificate c ≡ ok k
      → make_runtime c m.handler a.factory ≡ ok t
      → a.cancelled ≡ none
      → a.listen ≡ none
      → a.probe ≡ none
      → a.cancelled_late ≡ none
      → is_rejected (replace m req a).1 ≡ false
  unfolding replace replace_with prepare_generation try_candidate promote
  unrejected m req a c k t o p room q r x l y z = elim (Option-cases m.active) [
    | inl e ↦ ground arith
    | inr (g, e) ↦ ground (arith, room g e)
  ]

  -- A replacement on an open manager goes through when its configuration is accepted, the active generation,
  -- if there is one, has another and leaves room for one more to drain, and listening, the
  -- certificate, the runtime, the probe and the caller's context are all in order: the candidate, with the
  -- next number, is active, promoted and admitted with that configuration, certificate and runtime, and
  -- the generation that was active drains with its gate shut.
  pub replace-succeeds :
      (m : Manager n) (req : ReplaceRequest n) (a : Attempt n.Failure) (c : ServerConfig n)
      (k : Option (Certificate n.PrivateKey)) (t : Runtime n)
      → m.closed ≡ false
      → config_for m req ≡ ok c
      → ((g : Generation n)
          → m.active ≡ some g
          → (equivalent_config g.config c ≡ false)
            × (reaches (length m.draining) c.max_draining_generations ≡ false))
      → listener_certificate c ≡ ok k
      → make_runtime c m.handler a.factory ≡ ok t
      → a.cancelled ≡ none
      → a.listen ≡ none
      → a.probe ≡ none
      → a.cancelled_late ≡ none
      → (is_rejected (replace m req a).1 ≡ false) × IsPromoted m req a (replace m req a).0
  replace-succeeds m req a c k t o p room q r x l y z =
      let goes = unrejected m req a c k t o p room q r x l y z in
      (
        goes,
        elim (replace-applied m req a goes) [
          | inr promoted ↦ promoted
          | inl same ↦
              absurd
                (ground (arith, room same.active same.is_active, same.requested, same.equivalent))
        ],
      )
