-- ===== src/Address/Mask.antt =====
-- src/address.cc: `CreateMask` and `BitCount`, for an unsigned type of `size` bytes.
use sylar_framework.Prelude.{
  ℕ, zero, suc, ◌+◌, ◌-◌, ◌*◌, ◌/◌, ◌%◌, ◌^◌, ◌≤◌, ◌<◌, ◌≡◌, refl, ap, ◌∙◌, ◌⊎◌, inl, inr, bit_and,
  Option, none, some, if◌then◌else◌, leb, leb→le, Bool-cases, leb→le, Bool-cases, arith,
}
use sylar_framework.Prelude.Bits.{bit_and-odd, bit_and-even}
use native.Mathlib.Nat.{pow-suc, one-le-pow}

-- `CreateMask`: the shift counts from `sizeof(T)`. Where that is less than `val` the difference wraps,
-- and no shift by it is defined.
unfoldable pub create_mask : ℕ → ℕ → Option ℕ
create_mask size val = if leb val size then some (2 ^ (8 * size) - 2 ^ (size - val)) else none

-- The loop of `BitCount`, on fuel.
unfoldable pub bit_count_loop : ℕ → ℕ → ℕ → Option ℕ
bit_count_loop fuel zero res = some res
bit_count_loop zero (suc v) res = none
bit_count_loop (suc fuel) (suc v) res = bit_count_loop fuel (bit_and (suc v) v) (suc res)

unfoldable pub bit_count : ℕ → Option ℕ
unfolding bit_count_loop
bit_count val = bit_count_loop val val 0

-- How many of the lowest binary digits are ones.
abbrev pub ones_in : ℕ → ℕ → ℕ
ones_in zero v = 0
ones_in (suc n) v = v % 2 + ones_in n (v / 2)

ones_in_double : (n k : ℕ) → ones_in (suc n) (2 * k) ≡ ones_in n k
ones_in_double n k = let e : (2 * k) / 2 ≡ k = omega arith in omega (arith, ap (ones_in n) e)

ones_in_odd : (n k : ℕ) → ones_in (suc n) (2 * k + 1) ≡ suc (ones_in n k)
ones_in_odd n k = let e : (2 * k + 1) / 2 ≡ k = omega arith in omega (arith, ap (ones_in n) e)

ones_in_le : (n v : ℕ) → ones_in n v ≤ v
ones_in_le zero v = omega arith
ones_in_le (suc n) v = omega (arith, ones_in_le n (v / 2))

parity : (v : ℕ) → ((k : ℕ) × (v ≡ 2 * k)) ⊎ ((k : ℕ) × (v ≡ 2 * k + 1))
parity zero = inl (0, refl)
parity (suc v) = elim (parity v) [
  | inl (k, e) ↦ inr (k, omega (arith, e))
  | inr (k, e) ↦ inl (suc k, omega (arith, e))
]

-- One round of the loop takes one digit of one away.
abbrev Clears : ℕ → ℕ → ℕ → Type 0
Clears n v w = (suc (ones_in n (bit_and v w)) ≡ ones_in n v) × (bit_and v w ≤ w)

Clears-odd : (n k : ℕ) → Clears (suc n) (2 * k + 1) (2 * k)
Clears-odd n k = rw (bit_and-odd, ones_in_double, ones_in_odd) (refl, omega arith)

Clears-even : (n k : ℕ) → Clears n (suc k) k → Clears (suc n) (2 * suc k) (2 * suc k - 1)
Clears-even n k h =
    let e : suc k - 1 ≡ k = omega arith in
    rw (bit_and-even (suc k) (omega arith), ones_in_double, ones_in_double, e)
      (h.0, omega (arith, h.1))

Clears-one : (n v : ℕ) → suc v < 2 ^ n → Clears n (suc v) v
Clears-one zero v h = absurd (omega arith)
Clears-one (suc n) v h = elim (parity (suc v)) [
  | inr (k, e) ↦ let g : v ≡ 2 * k = omega (arith, e) in rw (e, g) (Clears-odd n k)
  | inl (zero, e) ↦ absurd (omega (arith, e))
  | inl (suc k, e) ↦
      let g : v ≡ 2 * suc k - 1 = omega (arith, e) in
      rw (e, g) (Clears-even n k (Clears-one n k (omega (arith, e, pow-suc 2 n))))
]

loop_counts :
    (n fuel v res : ℕ)
    → v < 2 ^ n
    → ones_in n v ≤ fuel
    → bit_count_loop fuel v res ≡ some (res + ones_in n v)
unfolding bit_count_loop
loop_counts n fuel zero res h e =
    let g : res ≡ res + ones_in n 0 = omega (arith, ones_in_le n 0) in ap some g
loop_counts n zero (suc v) res h e = absurd (omega (arith, e, (Clears-one n v h).0))
loop_counts n (suc fuel) (suc v) res h e =
    let c = Clears-one n v h in
    let g : suc res + ones_in n (bit_and (suc v) v) ≡ res + ones_in n (suc v) =
      omega (arith, c.0) in
    loop_counts n fuel (bit_and (suc v) v) (suc res) (omega (arith, c.1)) (omega (arith, c.0, e))
    ∙ ap some g

-- On a value of `n` bits the loop that takes the lowest one away ends, and its count is the number of
-- ones among the `n` digits.
pub bit_count-ones_in : (n v : ℕ) → v < 2 ^ n → bit_count v ≡ some (ones_in n v)
unfolding bit_count
bit_count-ones_in n v h =
    let g : 0 + ones_in n v ≡ ones_in n v = omega arith in
    loop_counts n v v 0 h (ones_in_le n v) ∙ ap some g

ones_in_all : (n : ℕ) → ones_in n (2 ^ n - 1) ≡ n
ones_in_all zero = refl
ones_in_all (suc n) =
    let e : 2 ^ suc n - 1 ≡ 2 * (2 ^ n - 1) + 1 = omega (arith, pow-suc 2 n, one-le-pow n 2) in
    rw (e, ones_in_odd, ones_in_all n) refl

ones_in_high : (n k : ℕ) → k ≤ n → ones_in n (2 ^ n - 2 ^ k) ≡ n - k
ones_in_high n zero h = ones_in_all n ∙ omega arith
ones_in_high zero (suc k) h = absurd (omega arith)
ones_in_high (suc n) (suc k) h =
    let e : 2 ^ suc n - 2 ^ suc k ≡ 2 * (2 ^ n - 2 ^ k) = omega (arith, pow-suc 2 n, pow-suc 2 k) in
    rw (e, ones_in_double, ones_in_high n k (omega arith)) (omega arith)

mask_ones :
    (size val : ℕ)
    → val ≤ size
    → bit_count (2 ^ (8 * size) - 2 ^ (size - val)) ≡ some (val + 7 * size)
mask_ones size val h =
    let e : 8 * size - (size - val) ≡ val + 7 * size = omega (arith, h) in
    bit_count-ones_in (8 * size) (2 ^ (8 * size) - 2 ^ (size - val))
      (omega (arith, one-le-pow (8 * size) 2, one-le-pow (size - val) 2))
    ∙ ap some (ones_in_high (8 * size) (size - val) (omega arith) ∙ e)

-- A mask for a prefix of `val` has, in a type of `size` bytes, `val` ones and seven more for every byte
-- of the type, since the shift counts from the number of bytes.
pub bit_count-create_mask :
    (size val mask : ℕ) → create_mask size val ≡ some mask → bit_count mask ≡ some (val + 7 * size)
unfolding create_mask
bit_count-create_mask size val mask h = elim (Bool-cases (leb val size)) [
  | inl e ↦ cc (h, e, mask_ones size val (leb→le val size e))
  | inr e ↦ cc (h, e)
]
