-- ===== src/Health/Arrivals.antt =====
-- health/health.go, Check: the rows of a report and the order in which the outcomes arrive.
use mathlib.Core.List.{mem-cons, Mem-prop}
use mathlib.Core.Logic.Or
use hanami.Base.{
  ℕ, zero, suc, ◌≤◌, ◌<◌, ltb, ◌==◌, ==_iff, ◌≡◌, refl, sym, ap, ◌∙◌, subst, Bool, some, List, [],
  ◌∷◌, map, arith, length, get_elem?, get_elem?-ext, get_elem?-none, length-set, set-keeps,
  set-writes, set, All, ◌+◌, String, Mem, not-mem-nil, Bool-cases, inl, inr,
}
use hanami.Health.{RunResult, CheckResult, Check, Status, check_result, collect, name_at, Outcome}

-- The order holds the index of each selected check, and no other.
pub record IsOrder {F : Type 0} (checks : List (Check F)) (order : List ℕ) : Type 0 where
  pub below : All (λ i. i < length checks) order
  pub complete : (i : ℕ) → i < length checks → Mem i order

-- The goroutines' outcomes, in the order in which these indices arrive.
abbrev pub arrivals : {E : Type 0} → (ℕ → RunResult E) → List ℕ → List (Outcome E)
arrivals outcome = map (λ i. (i, outcome i))

module _ {F E : Type 0} (message : E → String) (reveal : Bool) (checks : List (Check F))
    (outcome : ℕ → RunResult E) where
  -- The results of the checks in their own order, the first of which has index `k`.
  pub rows : ℕ → List (Check F) → List CheckResult
  rows k [] = []
  rows k (c ∷ cs) = check_result message reveal c.name (outcome k) ∷ rows (suc k) cs

  abbrev pub row : ℕ → CheckResult
  row i = check_result message reveal (name_at checks i) (outcome i)

  length-rows : (k : ℕ) (cs : List (Check F)) → length (rows k cs) ≡ length cs
  unfolding rows
  length-rows k [] = refl
  length-rows k (c ∷ cs) = ap suc (length-rows (suc k) cs)

  get_elem?-rows :
      (k i : ℕ) (cs : List (Check F))
      → i < length cs
      → get_elem? (rows k cs) i
        ≡ some (check_result message reveal (name_at cs i) (outcome (k + i)))
  unfolding rows
  get_elem?-rows k i [] h = absurd (omega arith)
  get_elem?-rows k zero (c ∷ cs) h = let e : k + 0 ≡ k = omega arith in rw e refl
  get_elem?-rows k (suc i) (c ∷ cs) h =
      let e : k + suc i ≡ suc k + i = omega arith in
      rw e (get_elem?-rows (suc k) i cs (omega arith))

  length-collect :
      (os : List (Outcome E)) (rs : List CheckResult) (s : Status)
      → length (collect message reveal checks rs s os).0 ≡ length rs
  unfolding collect
  length-collect [] rs s = refl
  length-collect (o ∷ os) rs s = length-collect os _ _ ∙ length-set rs o.0 _

  module _ (t : List CheckResult) where
    -- What is final stays so.
    collect-keeps :
        (order : List ℕ) (rs : List CheckResult) (s : Status) (j : ℕ)
        → All (λ i. get_elem? t i ≡ some (row i)) order
        → get_elem? rs j ≡ get_elem? t j
        → get_elem? (collect message reveal checks rs s (arrivals outcome order)).0 j
          ≡ get_elem? t j
    unfolding collect
    collect-keeps [] rs s j a h = h
    collect-keeps (i ∷ is) rs s j a h = collect-keeps is _ _ j a.1 (set-keeps t rs i j _ a.0 h)

    -- What has arrived is final.
    collect-writes :
        (order : List ℕ) (rs : List CheckResult) (s : Status) (j : ℕ)
        → All (λ i. get_elem? t i ≡ some (row i)) order
        → length rs ≡ length t
        → Mem j order
        → get_elem? (collect message reveal checks rs s (arrivals outcome order)).0 j
          ≡ get_elem? t j
    unfolding collect
    collect-writes [] rs s j a l m = absurd (not-mem-nil m)
    collect-writes (i ∷ is) rs s j a l m = elim (Bool-cases (i == j)) [
      | inl e ↦
          let k : i ≡ j = (==_iff i j).0 e in
          collect-keeps is _ _ j a.1 (
            subst (λ z. get_elem? (set rs i (row i)) z ≡ get_elem? t z) k
              (set-writes t rs i _ l a.0))
      | inr e ↦
          collect-writes is _ _ j a.1 (length-set rs i _ ∙ l)
            (Or.elim Mem-prop (mem-cons.0 m) (λ k. absurd (cc ((==_iff i j).1 (sym k)))) (λ r. r))
    ]

  All-rows :
      (order : List ℕ)
      → All (λ i. i < length checks) order
      → All (λ i. get_elem? (rows 0 checks) i ≡ some (row i)) order
  All-rows [] h = tt
  All-rows (i ∷ is) h =
      let e : 0 + i ≡ i = omega arith in
      (
        subst
            (λ z.
              get_elem? (rows 0 checks) i
              ≡ some (check_result message reveal (name_at checks i) (outcome z)))
            e (get_elem?-rows 0 i checks h.0),
        All-rows is h.1,
      )

  pub collect-rows :
      (order : List ℕ) (rs : List CheckResult) (s : Status)
      → IsOrder checks order
      → length rs ≡ length checks
      → (collect message reveal checks rs s (arrivals outcome order)).0 ≡ rows 0 checks
  collect-rows order rs s o l =
      let l' : length rs ≡ length (rows 0 checks) = l ∙ sym (length-rows 0 checks) in
      let same = length-collect (arrivals outcome order) rs s ∙ l' in
      get_elem?-ext _ (rows 0 checks) (λ i. elim (Bool-cases (ltb i (length checks))) [
        | inl e ↦
            collect-writes (rows 0 checks) order rs s i (All-rows order o.below) l'
              (o.complete i (ground arith))
        | inr e ↦
            let far : length (rows 0 checks) ≤ i = ground (arith, length-rows 0 checks) in
            get_elem?-none _ i (subst (λ n. n ≤ i) (sym same) far) ∙ sym (get_elem?-none _ i far)
      ])
