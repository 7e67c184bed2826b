-- ===== src/Base/Results.antt =====
-- A value or an error: what a Go function returns as `(T, error)`.
use mathlib.Core.Option.{Option, none, some}
use mathlib.Core.Path.{◌≡◌, refl, subst}
use mathlib.Core.Logic.{◌⊎◌, inl, inr}
use mathlib.Core.Bool.{Bool, true, false}
use hanami.Base.Tests.{if◌then◌else◌}
use mathlib.Core.List.{List, [], ◌∷◌}

pub data Result {ℓ κ} (E : Type ℓ) (A : Type κ) : Type (ℓ ⊔ κ) where
  ok : A → Result E A
  err : E → Result E A

infixl 5 ◌>>=◌
-- The next call of a chain, made only after success.
abbrev pub ◌>>=◌ {ℓ κ μ} :
    {E : Type ℓ} {A : Type κ} {B : Type μ} (done : Result E A) (next : A → Result E B) → Result E B
err failure >>= next = err failure
ok value >>= next = next value

-- The nil error as an empty list, for `errors.Join`, which drops nil errors.
abbrev pub to_errors {ℓ} : {E : Type ℓ} → Option E → List E
to_errors none = []
to_errors (some e) = e ∷ []

pub Result-cases {ℓ κ} :
    {E : Type ℓ} {A : Type κ} (r : Result E A) → ((e : E) × (r ≡ err e)) ⊎ ((a : A) × (r ≡ ok a))
Result-cases (ok a) = inr (a, refl)
Result-cases (err e) = inl (e, refl)

module _ {ℓ κ μ} {E : Type ℓ} {A : Type κ} {B : Type μ} (next : A → Result E B) {last : B} where
  -- What a chain that succeeds went through.
  pub >>=-succeeds :
      (done : Result E A)
      → (done >>= next) ≡ ok last
      → (value : A) × (done ≡ ok value) × (next value ≡ ok last)
  >>=-succeeds (err failure) h = absurd (cc)
  >>=-succeeds (ok value) h = (value, refl, h)

  -- A step whose value is known leaves the next step at that value.
  pub >>=-known :
      (done : Result E A) (value : A)
      → ((a : A) → done ≡ ok a → a ≡ value)
      → (done >>= next) ≡ ok last
      → next value ≡ ok last
  >>=-known (err failure) value k h = absurd (cc)
  >>=-known (ok a) value k h = subst (λ v. next v ≡ ok last) (k a refl) h

module _ {ℓ κ} {E : Type ℓ} {A : Type κ} where
  -- A guard that a success went past.
  pub guard-succeeds :
      (b : Bool) (e : E) (rest : Result E A) {last : A}
      → (if b then err e else rest) ≡ ok last
      → (b ≡ false) × (rest ≡ ok last)
  guard-succeeds true e rest h = absurd (cc)
  guard-succeeds false e rest h = (refl, h)

-- A property of what a test leads to, from its branches.
module _ {ℓ κ} {X : Type ℓ} (P : X → Type κ) where
  pub branch_elim :
      (b : Bool) (x y : X) → (b ≡ true → P x) → (b ≡ false → P y) → P (if b then x else y)
  branch_elim true x y h k = h refl
  branch_elim false x y h k = k refl

  pub result_elim :
      {E A : Type 0} (r : Result E A) (x : E → X) (y : A → X)
      → ((e : E) → r ≡ err e → P (x e))
      → ((a : A) → r ≡ ok a → P (y a))
      → P (elim r [ err e ↦ x e | ok a ↦ y a ])
  result_elim (ok a) x y h k = k a refl
  result_elim (err e) x y h k = h e refl

  pub option_elim :
      {E : Type 0} (o : Option E) (x : E → X) (y : X)
      → ((e : E) → o ≡ some e → P (x e))
      → (o ≡ none → P y)
      → P (elim o [ some e ↦ x e | none ↦ y ])
  option_elim none x y h k = k refl
  option_elim (some e) x y h k = h e refl
