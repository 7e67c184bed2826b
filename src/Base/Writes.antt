-- ===== src/Base/Writes.antt =====
-- Lists compared entry by entry, and writes into a list.
use Prim.Native.Nat.{ℕ, zero, suc, ◌≤◌}
use mathlib.Core.Path.{◌≡◌, refl, sym, ap}
use mathlib.Core.List.{List, [], ◌∷◌}
use mathlib.Core.Option.{none, some}
use native.Mathlib.Omega.{arith}
use hanami.Base.Lists.{length, get_elem?, set}

pub get_elem?-ext :
    {A : Type 0} (xs ys : List A) → ((i : ℕ) → get_elem? xs i ≡ get_elem? ys i) → xs ≡ ys
get_elem?-ext [] [] h = refl
get_elem?-ext [] (y ∷ ys) h = ground (arith, h 0)
get_elem?-ext (x ∷ xs) [] h = ground (arith, h 0)
get_elem?-ext (x ∷ xs) (y ∷ ys) h =
    let rest : xs ≡ ys = get_elem?-ext xs ys (λ i. h (suc i)) in
    let first : x ≡ y = grind (arith, h 0) in cc

module _ {A : Type 0} where
  pub length-set : (xs : List A) (i : ℕ) (v : A) → length (set xs i v) ≡ length xs
  length-set [] i v = refl
  length-set (x ∷ xs) zero v = refl
  length-set (x ∷ xs) (suc i) v = ap suc (length-set xs i v)

  -- A write of the final value keeps what is final.
  pub set-keeps :
      (t xs : List A) (i j : ℕ) (v : A)
      → get_elem? t i ≡ some v
      → get_elem? xs j ≡ get_elem? t j
      → get_elem? (set xs i v) j ≡ get_elem? t j
  set-keeps t [] i j v h k = k
  set-keeps t (x ∷ xs) zero zero v h k = sym h
  set-keeps t (x ∷ xs) zero (suc j) v h k = k
  set-keeps t (x ∷ xs) (suc i) zero v h k = k
  set-keeps [] (x ∷ xs) (suc i) (suc j) v h k = ground (arith)
  set-keeps (y ∷ t) (x ∷ xs) (suc i) (suc j) v h k = set-keeps t xs i j v h k

  pub set-writes :
      (t xs : List A) (i : ℕ) (v : A)
      → length xs ≡ length t
      → get_elem? t i ≡ some v
      → get_elem? (set xs i v) i ≡ get_elem? t i
  set-writes [] xs i v l h = ground arith
  set-writes (y ∷ t) [] i v l h = absurd (omega arith)
  set-writes (y ∷ t) (x ∷ xs) zero v l h = sym h
  set-writes (y ∷ t) (x ∷ xs) (suc i) v l h = set-writes t xs i v (omega arith) h

  pub get_elem?-none : (xs : List A) (i : ℕ) → length xs ≤ i → get_elem? xs i ≡ none
  get_elem?-none [] i h = refl
  get_elem?-none (x ∷ xs) zero h = absurd (omega arith)
  get_elem?-none (x ∷ xs) (suc i) h = get_elem?-none xs i (omega arith)
