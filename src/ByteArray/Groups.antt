-- ===== src/ByteArray/Groups.antt =====
-- `EncodeVarint` and what `WriteVint8` and its siblings put into the array.
use native.Mathlib.Numerals.{towards_suc}
use native.Mathlib.Nat.{pow-suc}
use sylar_framework.Prelude.{
  ℕ, zero, suc, ◌+◌, ◌-◌, ◌*◌, ◌/◌, ◌%◌, ◌^◌, ◌≤◌, ◌<◌, ◌≡◌, refl, ap, ◌∙◌, ◌⊎◌, inl, inr, true,
  false, List, [], ◌∷◌, none, some, arith, take, set, replicate, ltb, ◌==◌, Bool-cases,
}
use sylar_framework.ByteArray.Chain.{Cell}
use sylar_framework.ByteArray.Varint.{Sign, signed, unsigned, encode_loop, varint_cells, max_size}

-- The widths of the accessors.
abbrev pub IsWidth : ℕ → Type 0
IsWidth bits = (bits ≡ 8) ⊎ (bits ≡ 16) ⊎ (bits ≡ 32) ⊎ (bits ≡ 64)

-- The loop on an unsigned word writes its first cell only, and counts the groups.
encode_loop-unsigned :
    (fuel i bits v : ℕ) (c : Cell) (rest : List Cell)
    → v < 128 ^ suc fuel
    → (t j : ℕ) × (encode_loop (suc fuel) i unsigned bits v (c ∷ rest)
        ≡ (suc (i + j), some t ∷ rest))
      × (128 ≤ v → 1 ≤ j)
      × (j ≤ fuel)
unfolding encode_loop
encode_loop-unsigned zero i bits v c rest h =
    let small : (v / 128 == 0) ≡ true = ground arith in
    let e : i + 0 ≡ i = omega arith in
    (v % 128, 0, rw (small, e) refl, λ k. absurd (omega arith), omega arith)
encode_loop-unsigned (suc fuel) i bits v c rest h = elim (Bool-cases (v / 128 == 0)) [
  | inl small ↦
      let e : i + 0 ≡ i = omega arith in
      (v % 128, 0, rw (small, e) refl, λ k. absurd (ground arith), omega arith)
  | inr more ↦
      let (t, j, e, _, bound) =
        encode_loop-unsigned fuel (suc i) bits (v / 128) (some (v % 128 + 128)) rest
          (omega (arith, pow-suc 128 (suc fuel))) in
      let k : suc i + j ≡ i + suc j = omega arith in
      (t, suc j, rw (more, ← k) e, λ _. omega arith, omega arith)
]

-- A cell that nobody has written.
abbrev pub unwritten : Cell
unwritten = none

take-replicate : (j n : ℕ) → j ≤ n → take j (replicate n unwritten) ≡ replicate j unwritten
take-replicate zero n h = refl
take-replicate (suc j) zero h = absurd (omega arith)
take-replicate (suc j) (suc n) h = ap (λ l. unwritten ∷ l) (take-replicate j n (omega arith))

-- What the caller writes of the array after two groups or more.
abbrev OneOf : List Cell → Type 0
OneOf cells = (t j : ℕ) × (cells ≡ some t ∷ unwritten ∷ replicate j unwritten)

cut_array : (t j : ℕ) → 1 ≤ j → j ≤ 9 → OneOf (take (suc (0 + j)) (some t ∷ replicate 9 unwritten))
cut_array t zero lo hi = absurd (omega arith)
cut_array t (suc j) lo hi =
    let e : 0 + suc j ≡ suc j = omega arith in
    (t, j, rw e (ap (λ l. some t ∷ l) (take-replicate (suc j) 9 hi)))

varint_cells-many :
    (fuel bits v : ℕ)
    → max_size bits ≡ suc fuel
    → fuel ≤ 9
    → v < 128 ^ suc fuel
    → 128 ≤ v
    → OneOf (varint_cells unsigned bits v)
unfolding varint_cells
varint_cells-many fuel bits v size bound fits large =
    let (t, j, e, two, short) =
      encode_loop-unsigned fuel 0 bits v unwritten (replicate 9 unwritten) fits in
    let (u, k, cut) = cut_array t j (two large) (omega arith) in
    let whole : varint_cells unsigned bits v ≡ take (suc (0 + j)) (some t ∷ replicate 9 unwritten) =
      rw (size, e) refl in
    (u, k, whole ∙ cut)

-- An unsigned word of two groups or more goes out as one byte and then at least one
-- indeterminate one, and nothing else.
pub varint_cells_unwritten :
    (bits v : ℕ)
    → IsWidth bits
    → 128 ≤ v
    → v < 2 ^ bits
    → (t j : ℕ) × (varint_cells unsigned bits v ≡ some t ∷ unwritten ∷ replicate j unwritten)
varint_cells_unwritten bits v (inl e) large fits =
    let f : v < 2 ^ 8 = rw e at fits in
    varint_cells-many 1 bits v (rw e refl) (omega arith) (omega arith) large
varint_cells_unwritten bits v (inr (inl e)) large fits =
    let f : v < 2 ^ 16 = rw e at fits in
    varint_cells-many 2 bits v (rw e refl) (omega arith) (omega arith) large
varint_cells_unwritten bits v (inr (inr (inl e))) large fits =
    let f : v < 2 ^ 32 = rw e at fits in
    varint_cells-many 4 bits v (rw e refl) (omega arith) (omega arith) large
varint_cells_unwritten bits v (inr (inr (inr e))) large fits =
    let f : v < 2 ^ 64 = rw e at fits in
    varint_cells-many 9 bits v (rw e refl) (omega arith) (omega arith) large

-- The loop on a negative word of `s + 7` bits never ends by its test: the count stays 0.
encode_loop-negative :
    (fuel i s bits v : ℕ) (buf : List Cell)
    → bits ≡ s + 7
    → 2 ≤ 2 ^ s
    → 64 * 2 ^ s ≤ v
    → v < 128 * 2 ^ s
    → (encode_loop fuel i signed bits v buf).0 ≡ 0
unfolding encode_loop
encode_loop-negative zero i s bits v buf w pos lo hi = refl
encode_loop-negative (suc fuel) i s bits v buf w pos lo hi =
    let half : 2 ^ (bits - 1) ≡ 64 * 2 ^ s =
      ap (λ n. 2 ^ n) (let e : bits - 1 ≡ s + 6 = omega arith in e)
      ∙ simp towards_suc (omega arith) in
    let all : 2 ^ bits ≡ 128 * 2 ^ s = ap (λ n. 2 ^ n) w ∙ simp towards_suc (omega arith) in
    let low : 2 ^ (bits - 7) ≡ 2 ^ s = ap (λ n. 2 ^ n) (let e : bits - 7 ≡ s = omega arith in e) in
    let neg : ltb v (2 ^ (bits - 1)) ≡ false = ground (arith, half) in
    elim (Bool-cases (v / 128 == 0)) [
      | inl h ↦ absurd (ground arith)
      | inr h ↦
          rw (h, neg)
            (encode_loop-negative fuel (suc i) s bits (v / 128 + (2 ^ bits - 2 ^ (bits - 7)))
              (set buf 0 (some (v % 128 + 128))) w pos (omega (arith, all, low))
              (omega (arith, all, low)))
    ]

pub varint_cells-one :
    (fuel bits v : ℕ) (s : Sign)
    → max_size bits ≡ suc fuel
    → v < 128
    → varint_cells s bits v ≡ some v ∷ []
unfolding varint_cells encode_loop
varint_cells-one fuel bits v s size small =
    let e : (v / 128 == 0) ≡ true = ground arith in
    let m : v % 128 ≡ v = omega arith in rw (size, e, m) refl

pub IsWidth-size : (bits : ℕ) → IsWidth bits → (n : ℕ) × (max_size bits ≡ suc n)
IsWidth-size bits (inl e) = (1, rw e refl)
IsWidth-size bits (inr (inl e)) = (2, rw e refl)
IsWidth-size bits (inr (inr (inl e))) = (4, rw e refl)
IsWidth-size bits (inr (inr (inr e))) = (9, rw e refl)

varint_cells-negative_at :
    (s bits v : ℕ)
    → bits ≡ s + 7
    → 2 ≤ 2 ^ s
    → 64 * 2 ^ s ≤ v
    → v < 128 * 2 ^ s
    → varint_cells signed bits v ≡ []
unfolding varint_cells
varint_cells-negative_at s bits v w pos lo hi =
    let buf : List Cell = replicate 10 unwritten in
    ap (λ n. take n (encode_loop (max_size bits) 0 signed bits v buf).1)
      (encode_loop-negative (max_size bits) 0 s bits v buf w pos lo hi)

-- A signed word whose encoding has its top bit set is written as nothing at all.
pub varint_cells_negative :
    (bits v : ℕ)
    → IsWidth bits
    → 2 ^ (bits - 1) ≤ v
    → v < 2 ^ bits
    → varint_cells signed bits v ≡ []
varint_cells_negative bits v (inl e) lo hi =
    let l : 2 ^ 7 ≤ v = rw e at lo in
    let h : v < 2 ^ 8 = rw e at hi in
    varint_cells-negative_at 1 bits v e (omega arith) (omega arith) (omega arith)
varint_cells_negative bits v (inr (inl e)) lo hi =
    let l : 2 ^ 15 ≤ v = rw e at lo in
    let h : v < 2 ^ 16 = rw e at hi in
    varint_cells-negative_at 9 bits v e (omega arith) (omega arith) (omega arith)
varint_cells_negative bits v (inr (inr (inl e))) lo hi =
    let l : 2 ^ 31 ≤ v = rw e at lo in
    let h : v < 2 ^ 32 = rw e at hi in
    varint_cells-negative_at 25 bits v e (omega arith) (omega arith) (omega arith)
varint_cells_negative bits v (inr (inr (inr e))) lo hi =
    let l : 2 ^ 63 ≤ v = rw e at lo in
    let h : v < 2 ^ 64 = rw e at hi in
    varint_cells-negative_at 57 bits v e (omega arith) (omega arith) (omega arith)
