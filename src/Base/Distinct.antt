-- ===== src/Base/Distinct.antt =====
-- The loop by which the source refuses a bad or a repeated entry of a list: each element is
-- checked, then looked up among the keys seen, then its key is recorded.
use mathlib.Core.Path.{◌≡◌, refl, sym}
use mathlib.Core.Logic.{inl, inr}
use mathlib.Core.Logic.Or
use mathlib.Core.Bool.{Bool, true, false}
use mathlib.Core.Option.{Option, none, some}
use mathlib.Core.List.{List, [], ◌∷◌, map, Mem, Nodup, mem-cons, not-mem-nil, Nodup-cons, Nodup-nil}
use native.Mathlib.Omega.{arith}
use hanami.Base.Tests.{Bool-cases, if◌then◌else◌}
use hanami.Base.Lists.{All}

module _ {A K E : Type 0} (has : K → List K → Bool) (key : A → K) (check : A → Option E)
    (repeated : A → E) where
  -- The first error, `none` if every element passes.
  unfoldable pub check_each : List K → List A → Option E
  check_each seen [] = none
  check_each seen (x ∷ xs) =
      let rest = check_each (key x ∷ seen) xs in
      elim (check x) [
        | some e ↦ some e
        | none ↦ if has (key x) seen then some (repeated x) else rest
      ]

  -- Every element passes its check, no key occurs twice, and none is among those seen.
  pub record AreDistinct (seen : List K) (xs : List A) : Type 0 where
    pub passes : All (λ x. check x ≡ none) xs
    pub nodup : Nodup (map key xs)
    pub unseen : All (λ x. ¬ Mem (key x) seen) xs

  All-weaken :
      (k : K) (seen : List K) (xs : List A)
      → All (λ x. ¬ Mem (key x) (k ∷ seen)) xs
      → All (λ x. ¬ Mem (key x) seen) xs
  All-weaken k seen [] h = tt
  All-weaken k seen (x ∷ xs) h = (λ m. h.0 (mem-cons.1 (Or.inr m)), All-weaken k seen xs h.1)

  not-mem-keys :
      (k : K) (seen : List K) (xs : List A)
      → All (λ x. ¬ Mem (key x) (k ∷ seen)) xs
      → ¬ Mem k (map key xs)
  not-mem-keys k seen [] h m = not-mem-nil m
  not-mem-keys k seen (x ∷ xs) h m =
      Or.elim (λ a b. absurd a) (mem-cons.0 m) (λ e. h.0 (mem-cons.1 (Or.inl (sym e))))
        (not-mem-keys k seen xs h.1)

  All-strengthen :
      (k : K) (seen : List K) (xs : List A)
      → ¬ Mem k (map key xs)
      → All (λ x. ¬ Mem (key x) seen) xs
      → All (λ x. ¬ Mem (key x) (k ∷ seen)) xs
  All-strengthen k seen [] n h = tt
  All-strengthen k seen (x ∷ xs) n h = (
    λ m. Or.elim (λ a b. absurd a) (mem-cons.0 m) (λ e. n (mem-cons.1 (Or.inl (sym e)))) h.0,
    All-strengthen k seen xs (λ m. n (mem-cons.1 (Or.inr m))) h.1,
  )

  module _ (has→mem : (k : K) (ks : List K) → has k ks ≡ true → Mem k ks)
      (mem→has : (k : K) (ks : List K) → Mem k ks → has k ks ≡ true) where
    pub check_each_sound :
        (seen : List K) (xs : List A) → check_each seen xs ≡ none → AreDistinct seen xs
    unfolding check_each
    check_each_sound seen [] h = record { passes = tt; nodup = Nodup-nil; unseen = tt }
    check_each_sound seen (x ∷ xs) h =
        let step : (check x ≡ none)
            × (has (key x) seen ≡ false)
            × (check_each (key x ∷ seen) xs ≡ none) =
          ground arith in
        let rest = check_each_sound (key x ∷ seen) xs step.2 in
        record {
          passes = (step.0, rest.passes);
          nodup = Nodup-cons.1 (not-mem-keys (key x) seen xs rest.unseen, rest.nodup);
          unseen = (λ m. cc (mem→has (key x) seen m), All-weaken (key x) seen xs rest.unseen);
        }

    not-mem→not-has : (k : K) (ks : List K) → ¬ Mem k ks → has k ks ≡ false
    not-mem→not-has k ks n = elim (Bool-cases (has k ks)) [
      | inl e ↦ absurd (n (has→mem k ks e))
      | inr e ↦ e
    ]

    pub check_each_complete :
        (seen : List K) (xs : List A) → AreDistinct seen xs → check_each seen xs ≡ none
    unfolding check_each
    check_each_complete seen [] d = refl
    check_each_complete seen (x ∷ xs) d =
        let n = Nodup-cons.0 d.nodup in
        let ih = check_each_complete (key x ∷ seen) xs (record {
          passes = d.passes.1;
          nodup = n.1;
          unseen = All-strengthen (key x) seen xs n.0 d.unseen.1;
        }) in
        rw (d.passes.0, check_each) (rw (not-mem→not-has (key x) seen d.unseen.0) ih)
