-- ===== src/Base/Sorting.antt =====
-- The order of texts, and sorting (`slices.SortFunc`, `sort.Strings`) by a Boolean `≤`.
use Prim.Native.Nat.{ℕ, Ordering, compare as compare_ℕ}
use Prim.Native.Char.{code}
use Prim.Native.String.compare
use Prim.Native.String.{String, compare, then as then_by}
use mathlib.Core.Path.{◌≡◌, refl}
use mathlib.Core.Logic.{inl, inr}
use mathlib.Core.Bool.{Bool, true, false}
use mathlib.Core.List.{List, [], ◌∷◌, Perm}
use mathlib.Core.List.Perm
use native.Mathlib.Omega.{arith}
use text.Mathlib.TextEquality.{path_by_compare}
use hanami.Base.Tests.{Bool-cases, if◌then◌else◌}

-- `s < t` and `s <= t` of texts.
abbrev pub text_lt : String → String → Bool
text_lt s t = elim (compare s t) [ Ordering.lt ↦ true | _ ↦ false ]

abbrev pub text_le : String → String → Bool
text_le s t = elim (compare s t) [ Ordering.gt ↦ false | _ ↦ true ]

abbrev flip_order : Ordering → Ordering
flip_order Ordering.lt = Ordering.gt
flip_order Ordering.eq = Ordering.eq
flip_order Ordering.gt = Ordering.lt

code_flip : (a b : ℕ) → compare_ℕ b a ≡ flip_order (compare_ℕ a b)
code_flip a b = ground arith

then_flip : (o p : Ordering) → then_by (flip_order o) (flip_order p) ≡ flip_order (then_by o p)
then_flip Ordering.lt p = refl
then_flip Ordering.eq p = refl
then_flip Ordering.gt p = refl

pub compare-flip : (s t : String) → compare t s ≡ flip_order (compare s t)
compare-flip String.[] String.[] = rw (compare.nil-nil)
compare-flip String.[] (String.◌∷◌ d t) = rw (compare.nil-cons d t, compare.cons-nil d t)
compare-flip (String.◌∷◌ c s) String.[] = rw (compare.nil-cons c s, compare.cons-nil c s)
compare-flip (String.◌∷◌ c s) (String.◌∷◌ d t) =
    rw
      (
        compare.cons-cons c d s t,
        compare.cons-cons d c t s,
        compare-flip s t,
        code_flip (code c) (code d),
      )
      (then_flip (compare_ℕ (code c) (code d)) (compare s t))

-- Of two texts one is not above the other.
pub text_le-total : (s t : String) → text_le s t ≡ false → text_le t s ≡ true
text_le-total s t h = ground (arith, compare-flip s t)

-- Texts that are each not above the other are equal.
pub text_le_antisymm : (s t : String) → text_le s t ≡ true → text_le t s ≡ true → s ≡ t
text_le_antisymm s t h k = path_by_compare s t (ground (arith, compare-flip s t))

module _ {ℓ} {A : Type ℓ} (le : A → A → Bool) where
  unfoldable pub insert_sorted : A → List A → List A
  insert_sorted a [] = a ∷ []
  insert_sorted a (x ∷ xs) = if le a x then a ∷ x ∷ xs else x ∷ insert_sorted a xs

  unfoldable pub sort_by : List A → List A
  unfolding insert_sorted
  sort_by [] = []
  sort_by (x ∷ xs) = insert_sorted x (sort_by xs)

  -- Each element is not above the next.
  abbrev pub IsSortedFrom : A → List A → Type 0
  IsSortedFrom a [] = Unit
  IsSortedFrom a (x ∷ xs) = (le a x ≡ true) × IsSortedFrom x xs

  abbrev pub IsSorted : List A → Type 0
  IsSorted [] = Unit
  IsSorted (x ∷ xs) = IsSortedFrom x xs

  insert_sorted-perm : (a : A) (xs : List A) → Perm (insert_sorted a xs) (a ∷ xs)
  unfolding insert_sorted
  insert_sorted-perm a [] = Perm.refl _
  insert_sorted-perm a (x ∷ xs) = elim (Bool-cases (le a x)) [
    | inl e ↦ rw e (Perm.refl _)
    | inr e ↦ rw e (Perm.trans (Perm.cons x (insert_sorted-perm a xs)) (Perm.swap a x xs))
  ]

  -- Sorting only reorders.
  pub sort_by-perm : (xs : List A) → Perm (sort_by xs) xs
  unfolding sort_by
  sort_by-perm [] = Perm.refl _
  sort_by-perm (x ∷ xs) =
      Perm.trans (insert_sorted-perm x (sort_by xs)) (Perm.cons x (sort_by-perm xs))

  module _ (total : (a b : A) → le a b ≡ false → le b a ≡ true) where
    insert_sorted-IsSortedFrom :
        (a y : A) (xs : List A)
        → le y a ≡ true
        → IsSortedFrom y xs
        → IsSortedFrom y (insert_sorted a xs)
    unfolding insert_sorted
    insert_sorted-IsSortedFrom a y [] h s = (h, tt)
    insert_sorted-IsSortedFrom a y (x ∷ xs) h s = elim (Bool-cases (le a x)) [
      | inl e ↦ rw e (h, (e, s.1))
      | inr e ↦ rw e (s.0, insert_sorted-IsSortedFrom a x xs (total a x e) s.1)
    ]

    insert_sorted-IsSorted : (a : A) (xs : List A) → IsSorted xs → IsSorted (insert_sorted a xs)
    unfolding insert_sorted
    insert_sorted-IsSorted a [] s = tt
    insert_sorted-IsSorted a (x ∷ xs) s = elim (Bool-cases (le a x)) [
      | inl e ↦ rw e (e, s)
      | inr e ↦ rw e (insert_sorted-IsSortedFrom a x xs (total a x e) s)
    ]

    -- The result is in order.
    pub sort_by-IsSorted : (xs : List A) → IsSorted (sort_by xs)
    unfolding sort_by
    sort_by-IsSorted [] = tt
    sort_by-IsSorted (x ∷ xs) = insert_sorted-IsSorted x (sort_by xs) (sort_by-IsSorted xs)
