-- ===== src/ByteArray/ZigZag.antt =====
-- `EncodeZigZag` and `DecodeZigZag`.
use native.Mathlib.Nat.{pow-suc, mod-eq-sub-mod, mod-eq_of_lt, div-eq_of_lt, div-eq_of_lt-le}
use sylar_framework.Prelude.{
  ℕ, zero, suc, ◌+◌, ◌-◌, ◌*◌, ◌/◌, ◌%◌, ◌^◌, ◌≤◌, ◌<◌, ◌≡◌, ◌≢◌, refl, ◌∙◌, inl, inr, false, arith,
  ltb, lt→ltb, Bool-cases,
}
use sylar_framework.Prelude.Bits.{bit_xor-zero, bit_xor_ones, bit_xor_step}
use sylar_framework.ByteArray.Varint.{signed, unsigned, encode_zigzag, decode_zigzag}

-- What the bit operations compute.
pub encode_zigzag-nonneg : (k v : ℕ) → v < 2 ^ k → encode_zigzag signed (suc k) v ≡ 2 * v
unfolding encode_zigzag
encode_zigzag-nonneg k v h =
    let e : suc k - 1 ≡ k = omega arith in
    let m : 2 * v % 2 ^ suc k ≡ 2 * v = grind (arith, pow-suc 2 k) in
    rw (e, lt→ltb v (2 ^ k) h, m) (bit_xor-zero (2 * v))

-- The shift of a word with the top bit set drops that bit.
wrapped : (k v : ℕ) → 2 ^ k ≤ v → v < 2 ^ suc k → 2 * v % 2 ^ suc k ≡ 2 * v - 2 ^ suc k
wrapped k v lo hi =
    mod-eq-sub-mod (omega (arith, pow-suc 2 k)) ∙ mod-eq_of_lt (omega (arith, pow-suc 2 k))

pub encode_zigzag_neg :
    (k v : ℕ)
    → 2 ^ k ≤ v
    → v < 2 ^ suc k
    → encode_zigzag signed (suc k) v ≡ 2 ^ suc k - 1 - (2 * v - 2 ^ suc k)
unfolding encode_zigzag
encode_zigzag_neg k v lo hi =
    let e : suc k - 1 ≡ k = omega arith in
    let big : ltb v (2 ^ k) ≡ false = ground arith in
    let m = wrapped k v lo hi in
    rw (e, big, m) (bit_xor_ones (suc k) (2 * v - 2 ^ suc k) (omega (arith, pow-suc 2 k)))

pub decode_zigzag-even : (bits v : ℕ) → v % 2 ≡ 0 → decode_zigzag bits v ≡ v / 2
unfolding decode_zigzag
decode_zigzag-even bits v h = rw h (bit_xor-zero (v / 2))

pub decode_zigzag_odd :
    (bits v : ℕ) → v % 2 ≡ 1 → v / 2 < 2 ^ bits → decode_zigzag bits v ≡ 2 ^ bits - 1 - v / 2
unfolding decode_zigzag
decode_zigzag_odd bits v h fits = rw h (bit_xor_ones bits (v / 2) fits)

-- The signed encoding is undone by the decoder, at every width and for every value.
pub decode_zigzag-encode_zigzag :
    (k v : ℕ) → v < 2 ^ suc k → decode_zigzag (suc k) (encode_zigzag signed (suc k) v) ≡ v
decode_zigzag-encode_zigzag k v fits = elim (Bool-cases (ltb v (2 ^ k))) [
  | inl low ↦
      let h : v < 2 ^ k = ground arith in
      rw (encode_zigzag-nonneg k v h)
        (decode_zigzag-even (suc k) (2 * v) (omega arith) ∙ omega arith)
  | inr high ↦
      let h : 2 ^ k ≤ v = ground arith in
      let p = pow-suc 2 k in
      let e = 2 ^ suc k - 1 - (2 * v - 2 ^ suc k) in
      rw (encode_zigzag_neg k v h fits)
        (decode_zigzag_odd (suc k) e (omega (arith, p)) (omega (arith, p)) ∙ omega (arith, p))
]

-- The unsigned encoding is undone below half of the range.
pub unsigned_low :
    (k v : ℕ) → v < 2 ^ k → encode_zigzag unsigned (suc k) v ≡ encode_zigzag signed (suc k) v
unfolding encode_zigzag
unsigned_low k v h =
    let e : suc k - 1 ≡ k = omega arith in rw (e, lt→ltb v (2 ^ k) h, div-eq_of_lt h) refl

encode_zigzag_high :
    (k v : ℕ) → 2 ^ k ≤ v → v < 2 ^ suc k → encode_zigzag unsigned (suc k) v ≡ 2 * v - 2 ^ suc k + 1
unfolding encode_zigzag
encode_zigzag_high k v lo hi =
    let e : suc k - 1 ≡ k = omega arith in
    let p = pow-suc 2 k in
    let one : v / 2 ^ k ≡ 1 = div-eq_of_lt-le (2 ^ k) (omega arith) (omega (arith, p)) in
    let x = 2 * v - 2 ^ suc k in
    rw (e, wrapped k v lo hi, one) (omega (arith, p, bit_xor_step x 1, bit_xor-zero (x / 2)))

-- From half of the range on no unsigned value survives, at any width of two bits or more.
pub unsigned_high :
    (k v : ℕ)
    → 1 ≤ k
    → 2 ^ k ≤ v
    → v < 2 ^ suc k
    → decode_zigzag (suc k) (encode_zigzag unsigned (suc k) v) ≢ v
unsigned_high zero v h lo hi e = absurd (omega arith)
unsigned_high (suc j) v h lo hi e =
    let k = suc j in
    let x = 2 * v - 2 ^ suc k + 1 in
    let p = pow-suc 2 k in
    let q = pow-suc 2 j in
    let d : decode_zigzag (suc k) x ≡ 2 ^ suc k - 1 - x / 2 =
      decode_zigzag_odd (suc k) x (omega (arith, p)) (omega (arith, p)) in
    omega (arith, p, q, rw (encode_zigzag_high k v lo hi) at e, d)
