-- ===== src/Prelude/Bits.antt =====
-- Laws of the bitwise operations at variables: the recursion on the lowest digit, the exclusive or
-- with zero and with a mask of ones, and the number without its lowest digit of one.
use Prim.Native.Nat.{
  ℕ, zero, suc, ◌+◌, ◌-◌, ◌*◌, ◌/◌, ◌%◌, ◌^◌, ◌≤◌, ◌<◌, min, bit_and, bit_or, bit_xor, digits,
  differ, bit_and-bitwise, bit_or-bitwise, bit_xor-bitwise,
}
use mathlib.Core.Path.{◌≡◌, refl, ap}
use native.Mathlib.Nat.{pow-suc, one-le-pow}
use native.Mathlib.Omega.{arith}

module _ (z : ℕ → ℕ) (f : ℕ → ℕ → ℕ) where
  abbrev rounds : ℕ → ℕ → ℕ → ℕ
  rounds = digits z f

  -- The number of rounds does not matter once it covers the first number.
  rounds_enough : (n m a b : ℕ) → a ≤ n → a ≤ m → rounds n a b ≡ rounds m a b
  rounds_enough n m zero b p q = go n m
    where
      go : (n m : ℕ) → rounds n 0 b ≡ rounds m 0 b
      go zero zero = refl
      go zero (suc m) = refl
      go (suc n) zero = refl
      go (suc n) (suc m) = refl
  rounds_enough zero m (suc a) b p q = absurd (omega arith)
  rounds_enough (suc n) zero (suc a) b p q = absurd (omega arith)
  rounds_enough (suc n) (suc m) (suc a) b p q =
      rw (rounds_enough n m (suc a / 2) (b / 2) (omega arith) (omega arith))

differ_digits : (x y : ℕ) → x < 2 → y < 2 → differ x y ≡ (x + y) % 2
differ_digits zero y p q = omega arith
differ_digits (suc zero) zero p q = refl
differ_digits (suc zero) (suc zero) p q = refl
differ_digits (suc (suc x)) y p q = absurd (omega arith)
differ_digits (suc zero) (suc (suc y)) p q = absurd (omega arith)

pub bit_xor_step : (a b : ℕ) → bit_xor a b ≡ bit_xor (a / 2) (b / 2) * 2 + (a + b) % 2
bit_xor_step zero b = omega (arith, bit_xor-bitwise 0 b, bit_xor-bitwise 0 (b / 2))
bit_xor_step (suc a) b = omega (
  arith,
  bit_xor-bitwise (suc a) b,
  bit_xor-bitwise (suc a / 2) (b / 2),
  rounds_enough (λ b. b) differ a (suc a / 2) (suc a / 2) (b / 2) (omega arith) (omega arith),
  differ_digits (suc a % 2) (b % 2) (omega arith) (omega arith),
)

xor-zero_fuel : (n a : ℕ) → a ≤ n → bit_xor a 0 ≡ a
xor-zero_fuel n zero h = refl
xor-zero_fuel zero (suc a) h = absurd (omega arith)
xor-zero_fuel (suc n) (suc a) h =
    omega (arith, bit_xor_step (suc a) 0, xor-zero_fuel n (suc a / 2) (omega arith))

pub bit_xor-zero : (a : ℕ) → bit_xor a 0 ≡ a
bit_xor-zero a = xor-zero_fuel a a (omega arith)

-- The exclusive or with a mask of `w` ones complements a word of `w` bits.
pub bit_xor_ones : (w a : ℕ) → a < 2 ^ w → bit_xor a (2 ^ w - 1) ≡ 2 ^ w - 1 - a
bit_xor_ones zero zero h = refl
bit_xor_ones zero (suc a) h = absurd (omega arith)
bit_xor_ones (suc w) a h =
    ground
      (arith, pow-suc 2 w, one-le-pow w 2, bit_xor_step a (2 ^ suc w - 1), bit_xor_ones w (a / 2))

pub bit_or-zero_left : (b : ℕ) → bit_or 0 b ≡ b
bit_or-zero_left b = bit_or-bitwise 0 b

pub bit_and_lowest : (v m : ℕ) → bit_and v m ≡ min (v % 2) (m % 2) + 2 * bit_and (v / 2) (m / 2)
bit_and_lowest zero m = omega (bit_and-bitwise 0 (m / 2), bit_and-bitwise 0 m, arith)
bit_and_lowest (suc v) m =
    let fuel = rounds_enough (λ d. zero) min v (suc v / 2) (suc v / 2) (m / 2) in
    omega (
      bit_and-bitwise (suc v / 2) (m / 2),
      bit_and-bitwise (suc v) m,
      fuel (omega arith) (omega arith),
      arith,
    )

bit_and-self_fuel : (n a : ℕ) → a ≤ n → bit_and a a ≡ a
bit_and-self_fuel n zero h = refl
bit_and-self_fuel zero (suc a) h = absurd (omega arith)
bit_and-self_fuel (suc n) (suc a) h =
    omega (arith, bit_and_lowest (suc a) (suc a), bit_and-self_fuel n (suc a / 2) (omega arith))

-- Below an odd number the digits are the same but for the last; below an even one, those of the half
-- are those of the half's predecessor.
pub bit_and-odd : (k : ℕ) → bit_and (2 * k + 1) (2 * k) ≡ 2 * k
bit_and-odd k =
    let e : (2 * k + 1) / 2 ≡ k = omega arith in
    let g : (2 * k) / 2 ≡ k = omega arith in
    omega (
      arith,
      bit_and_lowest (2 * k + 1) (2 * k),
      ap (λ x. bit_and x ((2 * k) / 2)) e,
      ap (bit_and k) g,
      bit_and-self_fuel k k (omega arith),
    )

pub bit_and-even : (k : ℕ) → 1 ≤ k → bit_and (2 * k) (2 * k - 1) ≡ 2 * bit_and k (k - 1)
bit_and-even k h =
    let e : (2 * k) / 2 ≡ k = omega arith in
    let g : (2 * k - 1) / 2 ≡ k - 1 = omega arith in
    omega (
      arith,
      bit_and_lowest (2 * k) (2 * k - 1),
      ap (λ x. bit_and x ((2 * k - 1) / 2)) e,
      ap (bit_and k) g,
    )
