-- ===== src/Base/Texts.antt =====
-- Texts as keys: sets of texts, and the `seen` loops that refuse a repeated one.
use Prim.Native.String.{String}
use mathlib.Core.Path.{◌≡◌, refl, sym}
use mathlib.Core.Logic.{inl, inr}
use mathlib.Core.Logic.Or
use mathlib.Core.Bool.{Bool, true, false, ◌||◌}
use mathlib.Core.List.{List, [], ◌∷◌, Mem, mem-cons, not-mem-nil}
use native.Mathlib.Omega.{arith}
use text.Mathlib.Text.{◌==◌ as str_eq}
use text.Mathlib.TextEquality.{eq_iff}
use text.Mathlib.TextPositions.{eq_refl}
use hanami.Base.Tests.{Bool-cases}

-- `_, ok := set[k]`, the set held as the list of its keys.
unfoldable pub contains : String → List String → Bool
contains k [] = false
contains k (x ∷ xs) = str_eq x k || contains k xs

abbrev pub is_blank : String → Bool
is_blank s = str_eq s ""

pub contains→mem : (k : String) (xs : List String) → contains k xs ≡ true → Mem k xs
unfolding contains
contains→mem k [] h = absurd (cc)
contains→mem k (x ∷ xs) h = elim (Bool-cases (str_eq x k)) [
  | inl e ↦ mem-cons.1 (Or.inl (sym ((eq_iff x k).0 e)))
  | inr e ↦ mem-cons.1 (Or.inr (contains→mem k xs (ground arith)))
]

Bool-set : IsSet Bool
Bool-set = hlevel

pub mem→contains : (k : String) (xs : List String) → Mem k xs → contains k xs ≡ true
unfolding contains
mem→contains k [] m = absurd (not-mem-nil m)
mem→contains k (x ∷ xs) m =
    Or.elim (Bool-set _ _) (mem-cons.0 m) (λ e. rw (← e, eq_refl k))
      (λ r. ground (arith, mem→contains k xs r))

-- A text that is not among the keys seen is no member of them.
pub not-contains→not-mem : (k : String) (xs : List String) → contains k xs ≡ false → ¬ Mem k xs
not-contains→not-mem k xs h m = cc (mem→contains k xs m)

pub not-mem→not-contains : (k : String) (xs : List String) → ¬ Mem k xs → contains k xs ≡ false
not-mem→not-contains k xs h = elim (Bool-cases (contains k xs)) [
  | inl e ↦ absurd (h (contains→mem k xs e))
  | inr e ↦ e
]

pub contains-cons :
    (k x : String) (xs : List String) → contains k (x ∷ xs) ≡ (str_eq x k || contains k xs)
unfolding contains
contains-cons k x xs = refl
