-- ===== src/Health/Worst.antt =====
-- health/health.go, Check: the overall status and the order in which the outcomes arrive.
use mathlib.Core.List.{mem-cons, Mem-prop}
use mathlib.Core.Logic.Or
use hanami.Base.{
  ℕ, zero, suc, ◌≤◌, ◌<◌, ltb, ◌==◌, ==_iff, ◌≡◌, sym, subst, Bool, List, [], ◌∷◌, arith, length,
  set, All, ◌+◌, String, Mem, not-mem-nil, if◌then◌else◌, Bool-cases, inl, inr,
}
use hanami.Health.{RunResult, CheckResult, Check, Status, effective_status, collect}
use hanami.Health.Arrivals.{arrivals, IsOrder, row}

module _ {F E : Type 0} where
  -- The worst status of the checks from index `k` on, a pass if there is none.
  unfoldable pub worst : (ℕ → RunResult E) → ℕ → List (Check F) → Status
  worst outcome k [] = 1
  worst outcome k (c ∷ cs) =
      let rest = worst outcome (suc k) cs in
      if ltb rest (effective_status (outcome k)) then effective_status (outcome k) else rest

module _ {F E : Type 0} (message : E → String) (reveal : Bool) (checks : List (Check F))
    (outcome : ℕ → RunResult E) where
  abbrev raised : Status → ℕ → Status
  raised s i = if ltb s (effective_status (outcome i)) then effective_status (outcome i) else s

  collect-start :
      (order : List ℕ) (rs : List CheckResult) (s : Status)
      → s ≤ (collect message reveal checks rs s (arrivals outcome order)).1
  unfolding collect
  collect-start [] rs s = omega arith
  collect-start (i ∷ is) rs s =
      ground (arith, collect-start is (set rs i (row message reveal checks outcome i)) (raised s i))

  collect-above :
      (order : List ℕ) (rs : List CheckResult) (s : Status) (j : ℕ)
      → Mem j order
      → effective_status (outcome j)
        ≤ (collect message reveal checks rs s (arrivals outcome order)).1
  unfolding collect
  collect-above [] rs s j m = absurd (not-mem-nil m)
  collect-above (i ∷ is) rs s j m = elim (Bool-cases (i == j)) [
    | inl e ↦
        let k : i ≡ j = (==_iff i j).0 e in
        subst
          (λ z.
            effective_status (outcome z)
            ≤ (collect message reveal checks rs s (arrivals outcome (i ∷ is))).1)
          k
          (ground
            (arith, collect-start is (set rs i (row message reveal checks outcome i)) (raised s i)))
    | inr e ↦
        collect-above is _ _ j
          (Or.elim Mem-prop (mem-cons.0 m) (λ k. absurd (cc ((==_iff i j).1 (sym k)))) (λ r. r))
  ]

  collect-below :
      (b : ℕ) (order : List ℕ) (rs : List CheckResult) (s : Status)
      → All (λ i. effective_status (outcome i) ≤ b) order
      → s ≤ b
      → (collect message reveal checks rs s (arrivals outcome order)).1 ≤ b
  unfolding collect
  collect-below b [] rs s a h = h
  collect-below b (i ∷ is) rs s a h = collect-below b is _ _ a.1 (ground (arith, a.0))

  pub worst-below :
      (b k : ℕ) (cs : List (Check F))
      → ((i : ℕ) → i < length cs → effective_status (outcome (k + i)) ≤ b)
      → 1 ≤ b
      → worst outcome k cs ≤ b
  unfolding worst
  worst-below b k [] h l = l
  worst-below b k (c ∷ cs) h l =
      let rest : worst outcome (suc k) cs ≤ b =
        worst-below b (suc k) cs
          (λ i m.
            let e : k + suc i ≡ suc k + i = omega arith in
            subst (λ z. effective_status (outcome z) ≤ b) e (h (suc i) (omega arith)))
          l in
      let e : k + 0 ≡ k = omega arith in
      let first : effective_status (outcome k) ≤ b =
        subst (λ z. effective_status (outcome z) ≤ b) e (h 0 (omega arith)) in
      ground (arith, first, rest)

  pub worst-pass : (k : ℕ) (cs : List (Check F)) → 1 ≤ worst outcome k cs
  unfolding worst
  worst-pass k [] = omega arith
  worst-pass k (c ∷ cs) = ground (arith, worst-pass (suc k) cs)

  pub worst-above :
      (k i : ℕ) (cs : List (Check F))
      → i < length cs
      → effective_status (outcome (k + i)) ≤ worst outcome k cs
  unfolding worst
  worst-above k i [] h = absurd (omega arith)
  worst-above k zero (c ∷ cs) h =
      let e : k ≡ k + 0 = omega arith in
      subst (λ z. effective_status (outcome z) ≤ worst outcome k (c ∷ cs)) e (ground arith)
  worst-above k (suc i) (c ∷ cs) h =
      let e : suc k + i ≡ k + suc i = omega arith in
      subst (λ z. effective_status (outcome z) ≤ worst outcome k (c ∷ cs)) e
        (ground (arith, worst-above (suc k) i cs (omega arith)))

  All-worst :
      (order : List ℕ)
      → All (λ i. i < length checks) order
      → All (λ i. effective_status (outcome i) ≤ worst outcome 0 checks) order
  All-worst [] h = tt
  All-worst (i ∷ is) h = (
    let e : 0 + i ≡ i = omega arith in
        subst (λ z. effective_status (outcome z) ≤ worst outcome 0 checks) e
          (worst-above 0 i checks h.0),
    All-worst is h.1,
  )

  pub collect-worst :
      (order : List ℕ) (rs : List CheckResult)
      → IsOrder checks order
      → (collect message reveal checks rs 1 (arrivals outcome order)).1 ≡ worst outcome 0 checks
  collect-worst order rs o =
      let a : worst outcome 0 checks
          ≤ (collect message reveal checks rs 1 (arrivals outcome order)).1 =
        worst-below _ 0 checks
          (λ i h.
            let e : i ≡ 0 + i = omega arith in
            subst
              (λ z.
                effective_status (outcome z)
                ≤ (collect message reveal checks rs 1 (arrivals outcome order)).1)
              e (collect-above order rs 1 i (o.complete i h)))
          (collect-start order rs 1) in
      let b =
        collect-below (worst outcome 0 checks) order rs 1 (All-worst order o.below)
          (worst-pass 0 checks) in
      omega (arith, a, b)
