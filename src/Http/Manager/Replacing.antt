-- ===== src/Http/Manager/Replacing.antt =====
-- http/manager.go, Replace: the invariant of the manager.
use hanami.Base.{
  ℕ, suc, ℤ, ◌≡◌, refl, sym, subst, Bool, true, false, ◌&&◌, Option, none, some, List, [], ◌∷◌,
  length, arith, Bool-cases, inl, inr, ◌⊎◌, Result-cases, Option-cases, ok, Result, if◌then◌else◌,
  is_some,
}
use hanami.Http.Config.{Net, Certificate, ServerConfig, equivalent_config}
use hanami.Http.Gate.{set_admitted, new_generation_gate}
use hanami.Http.Manager.{
  Manager, Generation, ReplaceRequest, Attempt, config_for, make_runtime, listener_certificate,
  Runtime, ReplaceError, prepare_generation, promote, try_candidate, replace_with, replace, without,
  reaches, Replaced, applied,
}
use hanami.Http.Manager.Invariant.{
  Serves, IsWellFormed, All-younger, within_zero, within-suc, without_self,
}

module _ {n : Net} where
  abbrev pub counted : Manager n → Manager n
  counted m = record m { generation = suc m.generation }

  Serves-counted :
      (gs : List (Generation n)) (k : ℕ) (a : Option (Generation n))
      → Serves gs k a
      → Serves gs (suc k) a
  Serves-counted gs k none h = h
  Serves-counted gs k (some g) h = record {
    promoted = h.promoted;
    admitted = h.admitted;
    not_closed = h.not_closed;
    counted = omega (arith, h.counted);
    retired = h.retired;
  }

  counted-IsWellFormed : (m : Manager n) → IsWellFormed m → IsWellFormed (counted m)
  counted-IsWellFormed m w = record {
    settled = w.settled;
    serves = Serves-counted m.draining m.generation m.active w.serves;
    limit = w.limit;
  }

  -- There is room for one more generation to drain, or none that would.
  abbrev HasRoom : Option (Generation n) → ℕ → ℤ → Type 0
  HasRoom none k z = Unit
  HasRoom (some g) k z = reaches k z ≡ false

  promoted_state :
      (m : Manager n) (g : Generation n) (c : ServerConfig n) (a : Option (Generation n))
      → m.active ≡ a
      → Serves m.draining m.generation a
      → without g m.candidates ≡ []
      → g.id ≡ suc m.generation
      → g.closed ≡ false
      → HasRoom a (length m.draining) c.max_draining_generations
      → IsWellFormed (promote (counted m) g c).0
  unfolding set_admitted promote
  promoted_state m g c none e s w i o r = rw e (record {
    settled = w;
    serves = record {
      promoted = refl;
      admitted = refl;
      not_closed = o;
      counted = omega (arith, i);
      retired = rw s tt;
    };
    limit = rw s (within_zero c.max_draining_generations);
  })
  promoted_state m g c (some old) e s w i o r = rw e (record {
    settled = w;
    serves = record {
      promoted = refl;
      admitted = refl;
      not_closed = o;
      counted = omega (arith, i);
      retired = (
        (s.promoted, refl, omega (arith, i, s.counted)),
        All-younger old.id g.id m.draining (omega (arith, i, s.counted)) s.retired,
      );
    };
    limit = within-suc (length m.draining) c.max_draining_generations r;
  })

  prepared :
      Manager n → ServerConfig n → Runtime n → Option (Certificate n.PrivateKey) → Generation n
  prepared m c t k = record {
    id = suc m.generation;
    config = c;
    runtime = t;
    gate = new_generation_gate c.probe_path c.probe_identity m.probe_token (some m.admission);
    promoted = false;
    certificate = k;
    hijacked = [];
    closed = false;
  }

  prepared_facts :
      (m : Manager n) (c : ServerConfig n) (t : Runtime n) (k : Option (Certificate n.PrivateKey))
      (g : Generation n)
      → Path (Result (ReplaceError n.Failure) (Generation n)) (ok (prepared m c t k)) (ok g)
      → (g.id ≡ suc m.generation) × (g.closed ≡ false) × (g.config ≡ c)
  unfolding prepared
  prepared_facts m c t k g h =
      let e : g ≡ prepared m c t k = ground arith in rw e (refl, refl, refl)

  room :
      (a : Option (Generation n)) (k : ℕ) (z : ℤ)
      → (reaches k z && is_some a) ≡ false
      → HasRoom a k z
  room none k z h = tt
  room (some g) k z h = ground arith

  -- What a prepared generation is, and the manager that prepared it.
  pub prepare-cases :
      (m : Manager n) (c : ServerConfig n) (a : Attempt n.Failure)
      → let (m', r) = prepare_generation m c a in
        ((m' ≡ m) ⊎ (m' ≡ counted m))
        × ((g : Generation n)
            → r ≡ ok g
            → (m' ≡ counted m) × (g.id ≡ suc m.generation) × (g.closed ≡ false) × (g.config ≡ c))
  unfolding prepared prepare_generation
  prepare-cases m c a = elim (Option-cases a.listen) [
    | inr (e, p) ↦ rw (prepare_generation, p) (inl refl, λ g h. absurd (cc))
    | inl p ↦ elim (Result-cases (listener_certificate c)) [
      | inl (e, q) ↦ rw (prepare_generation, p, q) (inr refl, λ g h. absurd (cc))
      | inr (k, q) ↦ elim (Result-cases (make_runtime c m.handler a.factory)) [
        | inl (e, r) ↦ rw (prepare_generation, p, q, r) (inr refl, λ g h. absurd (cc))
        | inr (t, r) ↦
            rw (prepare_generation, p, q, r)
              (inr refl, λ g h. let f = prepared_facts m c t k g h in (refl, f.0, f.1, f.2))
      ]
    ]
  ]

  prepared_kept :
      (m : Manager n) (c : ServerConfig n) (a : Attempt n.Failure)
      → IsWellFormed m
      → IsWellFormed (prepare_generation m c a).0
  prepared_kept m c a w = elim ((prepare-cases m c a).0) [
    | inl e ↦ subst IsWellFormed (sym e) w
    | inr e ↦ subst IsWellFormed (sym e) (counted-IsWellFormed m w)
  ]

  try_candidate-IsWellFormed :
      (m : Manager n) (g : Generation n) (c : ServerConfig n) (a : Attempt n.Failure)
      → IsWellFormed m
      → g.id ≡ suc m.generation
      → g.closed ≡ false
      → HasRoom m.active (length m.draining) c.max_draining_generations
      → IsWellFormed (try_candidate (counted m) g c a).0
  unfolding try_candidate
  try_candidate-IsWellFormed m g c a w i o r =
      let gone = without_self m g w.settled in
      let kept =
        counted-IsWellFormed (record m { candidates = without g (g ∷ m.candidates) })
          (record { settled = gone; serves = w.serves; limit = w.limit }) in
      elim (Option-cases a.probe) [
        | inr (e, p) ↦ rw p kept
        | inl p ↦ elim (Option-cases a.cancelled_late) [
          | inr (e, q) ↦ rw (p, q) kept
          | inl q ↦
              rw (p, q)
                (promoted_state (record m { candidates = g ∷ m.candidates }) g c m.active refl
                  w.serves gone i o r)
        ]
      ]

  replace_with-IsWellFormed :
      (m : Manager n) (c : ServerConfig n) (a : Attempt n.Failure)
      → IsWellFormed m
      → IsWellFormed (replace_with m c a).0
  unfolding replace_with
  replace_with-IsWellFormed m c a w =
      elim (Bool-cases
        (reaches (length m.draining) c.max_draining_generations && is_some m.active)) [
          | inl e ↦ rw e w
          | inr e ↦ elim (Option-cases a.cancelled) [
            | inr (f, p) ↦ rw (e, p) w
            | inl p ↦
                let facts = prepare-cases m c a in
                elim (Result-cases (prepare_generation m c a).1) [
                  | inl (f, q) ↦ rw (e, p, q) (prepared_kept m c a w)
                  | inr (g, q) ↦
                      let (same, i, o, k) = facts.1 g q in
                      rw (e, p, q, same)
                        (try_candidate-IsWellFormed m g c a w i o (room m.active _ _ e))
                ]
          ]
        ]

  pub branch-IsWellFormed :
      {B : Type 0} (b : Bool) (x y : Manager n × B)
      → IsWellFormed x.0
      → IsWellFormed y.0
      → IsWellFormed (if b then x else y).0
  branch-IsWellFormed true x y h k = h
  branch-IsWellFormed false x y h k = k

  compare-IsWellFormed :
      (m : Manager n) (c : ServerConfig n) (rest : Manager n × Replaced n)
      (a : Option (Generation n))
      → IsWellFormed m
      → IsWellFormed rest.0
      → let chosen : Manager n × Replaced n = elim a [
        | some g ↦ if equivalent_config g.config c then (m, applied g.id) else rest
        | none ↦ rest
      ] in
        IsWellFormed chosen.0
  compare-IsWellFormed m c rest none w h = h
  compare-IsWellFormed m c rest (some g) w h =
      branch-IsWellFormed (equivalent_config g.config c) _ rest w h

  -- `Replace` keeps the invariant, however it ends.
  pub replace-IsWellFormed :
      (m : Manager n) (req : ReplaceRequest n) (a : Attempt n.Failure)
      → IsWellFormed m
      → IsWellFormed (replace m req a).0
  unfolding replace
  replace-IsWellFormed m req a w =
      branch-IsWellFormed m.closed _ _ w (elim (Result-cases (config_for m req)) [
        | inl (f, p) ↦ rw p w
        | inr (c, p) ↦
            rw p (compare-IsWellFormed m c _ m.active w (replace_with-IsWellFormed m c a w))
      ])
