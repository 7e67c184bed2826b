-- ===== src/Http/Manager/Invariant.antt =====
-- http/manager.go: the invariant of the manager, and the lemmas on the lists of generations.
use hanami.Base.{
  ℕ, suc, ◌≤◌, ◌<◌, leb, ℤ, pos, negsuc, ◌≡◌, refl, sym, subst, ==_iff, select_kept, select_dropped,
  Bool, true, false, not, Option, none, some, List, [], ◌∷◌, length, select, All, arith, Bool-cases,
  inl, inr, ◌==◌,
}
use hanami.Http.Config.{Net}
use hanami.Http.Manager.{Manager, Generation, without, reaches}

-- `n <= max`, nothing being below a negative limit but zero.
abbrev pub within : ℕ → ℤ → Bool
within n (pos limit) = leb n limit
within n (negsuc k) = n == 0

pub within_zero : (z : ℤ) → within 0 z ≡ true
within_zero (pos m) = ground arith
within_zero (negsuc k) = refl

pub within-suc : (k : ℕ) (z : ℤ) → reaches k z ≡ false → within (suc k) z ≡ true
within-suc k (pos m) h = ground arith
within-suc k (negsuc j) h = absurd (cc)

module _ {n : Net} where
  -- A retired generation: promoted once, no longer admitted, older than the number.
  abbrev pub IsRetired : ℕ → Generation n → Type 0
  IsRetired bound g = (g.promoted ≡ true) × (g.gate.admitted ≡ false) × (g.id < bound)

  -- The active generation: promoted, admitted, not closed, older than every id to come and
  -- younger than all that drain.
  pub record IsServing (draining : List (Generation n)) (number : ℕ) (g : Generation n)
      : Type 0 where
    pub promoted : g.promoted ≡ true
    pub admitted : g.gate.admitted ≡ true
    pub not_closed : g.closed ≡ false
    pub counted : g.id ≤ number
    pub retired : All (IsRetired g.id) draining

  abbrev pub Serves : List (Generation n) → ℕ → Option (Generation n) → Type 0
  Serves draining number none = draining ≡ []
  Serves draining number (some g) = IsServing draining number g

  -- Between the operations nothing is a candidate, at most one generation is admitted, and no more
  -- generations drain than the configuration allows.
  pub record IsWellFormed (m : Manager n) : Type 0 where
    pub settled : m.candidates ≡ []
    pub serves : Serves m.draining m.generation m.active
    pub limit : within (length m.draining) m.config.max_draining_generations ≡ true

  pub All-younger :
      (a b : ℕ) (gs : List (Generation n)) → a ≤ b → All (IsRetired a) gs → All (IsRetired b) gs
  All-younger a b [] l h = tt
  All-younger a b (g ∷ gs) l h = ((h.0.0, h.0.1, omega (arith, l, h.0.2)), All-younger a b gs l h.1)

  pub All-select :
      (p : Generation n → Bool) (a : ℕ) (gs : List (Generation n))
      → All (IsRetired a) gs
      → All (IsRetired a) (select p gs)
  All-select p a [] h = tt
  All-select p a (g ∷ gs) h = elim (Bool-cases (p g)) [
    | inl e ↦ subst (All (IsRetired a)) (sym (select_kept p g gs e)) (h.0, All-select p a gs h.1)
    | inr e ↦ subst (All (IsRetired a)) (sym (select_dropped p g gs e)) (All-select p a gs h.1)
  ]

  pub length-select :
      (p : Generation n → Bool) (gs : List (Generation n)) → length (select p gs) ≤ length gs
  length-select p [] = omega arith
  length-select p (g ∷ gs) = elim (Bool-cases (p g)) [
    | inl e ↦ rw (select_kept p g gs e) (omega (arith, length-select p gs))
    | inr e ↦ rw (select_dropped p g gs e) (omega (arith, length-select p gs))
  ]

  -- A candidate that is given up, or promoted, is no longer one.
  pub without_self :
      (m : Manager n) (g : Generation n) → m.candidates ≡ [] → without g (g ∷ m.candidates) ≡ []
  without_self m g h =
      rw h (select_dropped (λ x. not (x.id == g.id)) g [] (ground (arith, ==_iff g.id g.id)))
