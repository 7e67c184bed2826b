-- ===== src/Base/Bits.antt =====
-- Laws of the bitwise `and` at variables, by induction on the digits of the first number.
use Prim.Native.Nat.{ℕ, zero, suc, ◌+◌, ◌*◌, ◌/◌, ◌%◌, ◌≤◌, min, bit_and, digits, bit_and-bitwise}
use mathlib.Core.Path.{◌≡◌, refl}
use native.Mathlib.Omega.{arith}

-- The definition that the native operation stands for, with its own fuel.
abbrev anded : ℕ → ℕ → ℕ → ℕ
anded = digits (λ b. zero) min

anded_fuel : (n m a b : ℕ) → a ≤ n → a ≤ m → anded n a b ≡ anded m a b
anded_fuel zero zero a b p q = refl
anded_fuel zero (suc m) zero b p q = refl
anded_fuel zero (suc m) (suc a) b p q = absurd (omega arith)
anded_fuel (suc n) zero zero b p q = refl
anded_fuel (suc n) zero (suc a) b p q = absurd (omega arith)
anded_fuel (suc n) (suc m) zero b p q = refl
anded_fuel (suc n) (suc m) (suc a) b p q =
    omega (arith, anded_fuel n m (suc a / 2) (b / 2) (omega arith) (omega arith))

zero-bit_and : (b : ℕ) → bit_and 0 b ≡ 0
zero-bit_and b = bit_and-bitwise 0 b

last_digit : (a b : ℕ) → bit_and a b ≡ bit_and (a / 2) (b / 2) * 2 + min (a % 2) (b % 2)
last_digit zero b = omega (arith, zero-bit_and b, zero-bit_and (b / 2))
last_digit (suc a) b = omega (
  arith,
  bit_and-bitwise (suc a) b,
  bit_and-bitwise (suc a / 2) (b / 2),
  anded_fuel a (suc a / 2) (suc a / 2) (b / 2) (omega arith) (omega arith),
)

-- Halving the operands halves the result.
half : (a h : ℕ) → bit_and (a / 2) (h / 2) ≡ bit_and a h / 2
half a h = omega (arith, last_digit a h)

last_bit : (a h : ℕ) → bit_and a h % 2 ≡ min (a % 2) (h % 2)
last_bit a h = omega (arith, last_digit a h)

nested_digit :
    (a h b : ℕ)
    → bit_and (bit_and a h) b
      ≡ bit_and (bit_and (a / 2) (h / 2)) (b / 2) * 2 + min (min (a % 2) (h % 2)) (b % 2)
nested_digit a h b = rw (half a h) (omega (arith, last_digit (bit_and a h) b, last_bit a h))

within_fuel : (n a h : ℕ) → a ≤ n → bit_and (bit_and a h) h ≡ bit_and a h
within_fuel n zero h p = rw (zero-bit_and h) (zero-bit_and h)
within_fuel zero (suc a) h p = absurd (omega arith)
within_fuel (suc n) (suc a) h p =
    let a2 = suc a / 2 in
    let h2 = h / 2 in
    omega (arith, last_digit (suc a) h, nested_digit (suc a) h h, within_fuel n a2 h2 (omega arith))

disjoint_fuel : (n a h b : ℕ) → a ≤ n → bit_and a b ≡ 0 → bit_and (bit_and a h) b ≡ 0
disjoint_fuel n zero h b p e = rw (zero-bit_and h) (zero-bit_and b)
disjoint_fuel zero (suc a) h b p e = absurd (omega arith)
disjoint_fuel (suc n) (suc a) h b p e =
    let a2 = suc a / 2 in
    let h2 = h / 2 in
    let b2 = b / 2 in
    omega (
      arith,
      last_digit (suc a) h,
      nested_digit (suc a) h b,
      last_digit (suc a) b,
      last_digit h b,
      disjoint_fuel n a2 h2 b2 (omega arith) (omega (arith, last_digit (suc a) b)),
    )

missing_fuel : (n a h b : ℕ) → a ≤ n → bit_and h b ≡ 0 → bit_and (bit_and a h) b ≡ 0
missing_fuel n zero h b p e = rw (zero-bit_and h) (zero-bit_and b)
missing_fuel zero (suc a) h b p e = absurd (omega arith)
missing_fuel (suc n) (suc a) h b p e =
    let a2 = suc a / 2 in
    let h2 = h / 2 in
    let b2 = b / 2 in
    omega (
      arith,
      last_digit (suc a) h,
      nested_digit (suc a) h b,
      last_digit (suc a) b,
      last_digit h b,
      missing_fuel n a2 h2 b2 (omega arith) (omega (arith, last_digit h b)),
    )

pub bit_and_within : (a h : ℕ) → bit_and (bit_and a h) h ≡ bit_and a h
bit_and_within a h = within_fuel a a h (omega arith)

-- What one operand lacks the result lacks.
pub bit_and_disjoint : (a h b : ℕ) → bit_and a b ≡ 0 → bit_and (bit_and a h) b ≡ 0
bit_and_disjoint a h b = disjoint_fuel a a h b (omega arith)

pub bit_and_missing : (a h b : ℕ) → bit_and h b ≡ 0 → bit_and (bit_and a h) b ≡ 0
bit_and_missing a h b = missing_fuel a a h b (omega arith)
