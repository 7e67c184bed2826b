-- ===== src/Http/Manager/Branches.antt =====
-- http/manager.go, Replace: the ways through it, for a property of the manager and the result.
use hanami.Base.{
  ◌≡◌, refl, sym, subst, Bool, true, false, ◌&&◌, Option, none, some, ◌∷◌, length, inl, inr,
  Result-cases, Bool-cases, ok, err, Result, if◌then◌else◌, is_some,
}
use hanami.Http.Config.{Net, ServerConfig, equivalent_config}
use hanami.Http.Manager.{
  Manager, Generation, ReplaceRequest, Attempt, ReplaceError, config_for, prepare_generation,
  promote, try_candidate, replace_with, replace, without, reaches, Replaced, rejected, applied,
  manager_closed, draining_limit, config_invalid, context_cancelled, probe_failed,
}
use hanami.Http.Manager.Replacing.{counted, prepare-cases}

module _ {n : Net} (P : Manager n × Replaced n → Type 0) where
  branch_elim : (b : Bool) (x y : Manager n × Replaced n) → P x → P y → P (if b then x else y)
  branch_elim true x y h k = h
  branch_elim false x y h k = k

  option_elim :
      {F : Type 0} (o : Option F) (x : F → Manager n × Replaced n) (y : Manager n × Replaced n)
      → ((f : F) → P (x f))
      → (o ≡ none → P y)
      → P (elim o [ some f ↦ x f | none ↦ y ])
  option_elim none x y h k = k refl
  option_elim (some f) x y h k = h f

  result_elim :
      {E A : Type 0} (r : Result E A) (x : E → Manager n × Replaced n)
      (y : A → Manager n × Replaced n)
      → ((e : E) → P (x e))
      → ((a : A) → r ≡ ok a → P (y a))
      → P (elim r [ err e ↦ x e | ok a ↦ y a ])
  result_elim (ok a) x y h k = k a refl
  result_elim (err e) x y h k = h e

  active_elim :
      (m : Manager n) (c : ServerConfig n) (rest : Manager n × Replaced n)
      (a : Option (Generation n))
      → ((g : Generation n)
          → a ≡ some g
          → equivalent_config g.config c ≡ true
          → P (m, applied g.id))
      → P rest
      → P (elim a [
        | some g ↦ if equivalent_config g.config c then (m, applied g.id) else rest
        | none ↦ rest
      ])
  active_elim m c rest none h k = k
  active_elim m c rest (some g) h k = elim (Bool-cases (equivalent_config g.config c)) [
    | inl e ↦ rw e (h g refl e)
    | inr e ↦ rw e k
  ]

  -- The ways through `replace` and `replace_with`.
  pub replace_elim :
      (m : Manager n) (req : ReplaceRequest n) (a : Attempt n.Failure)
      → ((e : ReplaceError n.Failure) → P (m, rejected e))
      → ((c : ServerConfig n) (g : Generation n)
          → config_for m req ≡ ok c
          → m.active ≡ some g
          → equivalent_config g.config c ≡ true
          → P (m, applied g.id))
      → ((c : ServerConfig n) → config_for m req ≡ ok c → P (replace_with m c a))
      → P (replace m req a)
  unfolding replace
  replace_elim m req a r same next =
      branch_elim m.closed _ _ (r manager_closed) (elim (Result-cases (config_for m req)) [
        | inl (f, p) ↦ rw p (r (config_invalid f))
        | inr (c, p) ↦ rw p (active_elim m c _ m.active (λ g. same c g p) (next c p))
      ])

  pub replace_with_elim :
      (m : Manager n) (c : ServerConfig n) (a : Attempt n.Failure)
      → ((e : ReplaceError n.Failure) → P (m, rejected e))
      → ((e : ReplaceError n.Failure) → P ((prepare_generation m c a).0, rejected e))
      → ((g : Generation n)
          → (prepare_generation m c a).1 ≡ ok g
          → a.cancelled ≡ none
          → P (try_candidate (counted m) g c a))
      → P (replace_with m c a)
  unfolding replace_with
  replace_with_elim m c a r q next =
      branch_elim (reaches (length m.draining) c.max_draining_generations && is_some m.active) _ _
        (r draining_limit)
        (option_elim a.cancelled _ _ (λ f. r (context_cancelled f))
          (λ p.
            result_elim (prepare_generation m c a).1 _
              (λ g. try_candidate (prepare_generation m c a).0 g c a) q
              (λ g k.
                subst (λ z. P (try_candidate z g c a)) (sym ((prepare-cases m c a).1 g k).0)
                  (next g k p))))

  pub try_candidate_elim :
      (m : Manager n) (g : Generation n) (c : ServerConfig n) (a : Attempt n.Failure)
      → ((e : ReplaceError n.Failure)
          → P (record m { candidates = without g (g ∷ m.candidates) }, rejected e))
      → (a.probe ≡ none
          → a.cancelled_late ≡ none
          → P (promote (record m { candidates = g ∷ m.candidates }) g c))
      → P (try_candidate m g c a)
  unfolding try_candidate
  try_candidate_elim m g c a r next =
      option_elim a.probe _ _ (λ f. r (probe_failed f))
        (λ p. option_elim a.cancelled_late _ _ (λ f. r (context_cancelled f)) (next p))
