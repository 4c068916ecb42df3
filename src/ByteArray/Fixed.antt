-- ===== src/ByteArray/Fixed.antt =====
-- The fixed-width accessors read back what they wrote, but for the 8-bit ones where
-- `SYLAR_BYTE_ORDER` is `SYLAR_BIG_ENDIAN`.
use mathlib.Core.List.{reverse, reverse-reverse, reverse-cons}
use native.Mathlib.Nat.{pow-suc}
use sylar_framework.Prelude.{
  ℕ, zero, suc, ◌+◌, ◌*◌, ◌/◌, ◌%◌, ◌^◌, ◌<◌, ◌≡◌, refl, sym, ap, ◌∙◌, ◌⊎◌, inl, inr, List, [], ◌∷◌,
  map, some, arith, length, length-append, length-map, All, All-append, false, ◌==◌, if◌then◌else◌,
}
use sylar_framework.ByteArray.Chain.{ByteArray, done, read, write}
use sylar_framework.ByteArray.Content.{content}
use sylar_framework.ByteArray.Ready.{IsReady}
use sylar_framework.ByteArray.Fifo.{read-write}
use sylar_framework.ByteArray.Word.{
  Order, little, big, le_bytes, le_value, bswap, byte_swap, in_memory, from_memory, bytes_of,
  fixed_value, value_of, write_fixed, write_float, read_float, read_fixed, swap_to_little,
  with_value,
}

abbrev IsByte : ℕ → Type 0
IsByte b = b < 256

length-le_bytes : (w v : ℕ) → length (le_bytes w v) ≡ w
unfolding le_bytes
length-le_bytes zero v = refl
length-le_bytes (suc w) v = ap suc (length-le_bytes w (v / 256))

le_bytes-IsByte : (w v : ℕ) → All IsByte (le_bytes w v)
unfolding le_bytes
le_bytes-IsByte zero v = tt
le_bytes-IsByte (suc w) v = (omega arith, le_bytes-IsByte w (v / 256))

le_value-le_bytes : (w v : ℕ) → v < 256 ^ w → le_value (le_bytes w v) ≡ v
unfolding le_bytes le_value
le_value-le_bytes zero v h = omega arith
le_value-le_bytes (suc w) v h =
    let p = pow-suc 256 w in omega (arith, le_value-le_bytes w (v / 256) (omega (arith, p)))

le_bytes-le_value : (bs : List ℕ) → All IsByte bs → le_bytes (length bs) (le_value bs) ≡ bs
unfolding le_bytes le_value
le_bytes-le_value [] h = refl
le_bytes-le_value (b ∷ bs) h =
    let low : (b + 256 * le_value bs) % 256 ≡ b = omega (arith, h.0) in
    let high : (b + 256 * le_value bs) / 256 ≡ le_value bs = omega (arith, h.0) in
    rw (low, high, le_bytes-le_value bs h.1) refl

length-reverse : (xs : List ℕ) → length (reverse xs) ≡ length xs
length-reverse [] = refl
length-reverse (x ∷ xs) =
    ap length (reverse-cons x xs)
    ∙ omega (arith, length-append (reverse xs) (x ∷ []), length-reverse xs)

reverse-IsByte : (xs : List ℕ) → All IsByte xs → All IsByte (reverse xs)
reverse-IsByte [] h = tt
reverse-IsByte (x ∷ xs) h =
    rw (reverse-cons x xs)
      (All-append IsByte (reverse xs) (x ∷ []) (reverse-IsByte xs h.1) (h.0, tt))

-- The bytes of a byte-swapped word are those of the word, reversed.
le_bytes-bswap : (w v : ℕ) → le_bytes w (bswap w v) ≡ reverse (le_bytes w v)
le_bytes-bswap w v =
    ap (λ n. le_bytes n (bswap w v)) (sym (length-reverse (le_bytes w v) ∙ length-le_bytes w v))
    ∙ le_bytes-le_value (reverse (le_bytes w v))
        (reverse-IsByte (le_bytes w v) (le_bytes-IsByte w v))

bswap-bswap : (w v : ℕ) → v < 256 ^ w → bswap w (bswap w v) ≡ v
bswap-bswap w v h =
    ap (λ l. le_value (reverse l)) (le_bytes-bswap w v)
    ∙ ap le_value (reverse-reverse (le_bytes w v))
    ∙ le_value-le_bytes w v h

abbrev pub IsWide : ℕ → Type 0
IsWide w = (w ≡ 2) ⊎ (w ≡ 4) ⊎ (w ≡ 8)

byte_swap-IsWide : (w v : ℕ) → IsWide w → byte_swap w v ≡ bswap w v
byte_swap-IsWide w v (inl e) = rw e refl
byte_swap-IsWide w v (inr (inl e)) = rw e refl
byte_swap-IsWide w v (inr (inr e)) = rw e refl

bytes_of-map : (bs : List ℕ) → bytes_of (map some bs) ≡ some bs
bytes_of-map [] = refl
bytes_of-map (b ∷ bs) = rw (bytes_of-map bs) refl

le_value-lt : (bs : List ℕ) → All IsByte bs → le_value bs < 256 ^ length bs
unfolding le_value
le_value-lt [] h = omega arith
le_value-lt (b ∷ bs) h =
    let p = pow-suc 256 (length bs) in omega (arith, p, h.0, le_value-lt bs h.1)

bswap-lt : (w v : ℕ) → bswap w v < 256 ^ w
bswap-lt w v =
    let r = reverse (le_bytes w v) in
    let n : length r ≡ w = length-reverse (le_bytes w v) ∙ length-le_bytes w v in
    omega (
      arith,
      le_value-lt r (reverse-IsByte (le_bytes w v) (le_bytes-IsByte w v)),
      ap (λ k. 256 ^ k) n,
    )

memory_trip : (host : Order) (w x : ℕ) → x < 256 ^ w → from_memory host (in_memory host w x) ≡ x
memory_trip little w x h = le_value-le_bytes w x h
memory_trip big w x h = ap le_value (reverse-reverse (le_bytes w x)) ∙ le_value-le_bytes w x h

length-in_memory : (host : Order) (w x : ℕ) → length (in_memory host w x) ≡ w
length-in_memory little w x = length-le_bytes w x
length-in_memory big w x = length-reverse (le_bytes w x) ∙ length-le_bytes w x

-- What the reading macro makes of a word in memory.
abbrev unswap : Order → ℕ → ℕ → ℕ
unswap little w x = x
unswap big w x = byte_swap w x

fixed_value-in_memory :
    (order host : Order) (w x : ℕ)
    → x < 256 ^ w
    → fixed_value order host w (map some (in_memory host w x)) ≡ some (unswap order w x)
fixed_value-in_memory little host w x h =
    ap (value_of little host w) (bytes_of-map (in_memory host w x))
    ∙ ap some (memory_trip host w x h)
fixed_value-in_memory big host w x h =
    ap (value_of big host w) (bytes_of-map (in_memory host w x))
    ∙ ap (λ y. some (byte_swap w y)) (memory_trip host w x h)

IsWide-ne_one : (w : ℕ) → IsWide w → (w == 1) ≡ false
IsWide-ne_one w (inl e) = rw e refl
IsWide-ne_one w (inr (inl e)) = rw e refl
IsWide-ne_one w (inr (inr e)) = rw e refl

swap_lt : (order : Order) (w v : ℕ) → IsWide w → v < 256 ^ w → swap_to_little order w v < 256 ^ w
swap_lt little w v wide h = h
swap_lt big w v wide h = rw (byte_swap-IsWide w v wide) (bswap-lt w v)

unswap_swap :
    (order : Order) (w v : ℕ)
    → IsWide w
    → v < 256 ^ w
    → unswap order w (swap_to_little order w v) ≡ v
unswap_swap little w v wide h = refl
unswap_swap big w v wide h =
    ap (byte_swap w) (byte_swap-IsWide w v wide)
    ∙ byte_swap-IsWide w (bswap w v) wide
    ∙ bswap-bswap w v h

-- The trip of the cells of one word through the array.
word_trip :
    (order host : Order) (w x : ℕ) (b : ByteArray)
    → x < 256 ^ w
    → IsReady b
    → b.read_pos ≡ length (content b)
    → (b' b'' : ByteArray) × (write b (map some (in_memory host w x)) ≡ done b')
      × (read_fixed order host w b' ≡ done (b'', some (unswap order w x)))
word_trip order host w x b h ready empty =
    let cells = map some (in_memory host w x) in
    let n : length cells ≡ w = length-map (in_memory host w x) some ∙ length-in_memory host w x in
    let (b', b'', wr, rd) = read-write b cells ready empty in
    (
      b',
      b'',
      wr,
      ap (λ k. with_value (fixed_value order host w) (read b' k)) (sym n)
          ∙ ap (with_value (fixed_value order host w)) rd
          ∙ ap (λ v. done (b'', v)) (fixed_value-in_memory order host w x h),
    )

-- Words of 2, 4 and 8 bytes make the trip through the array under both settings of
-- `SYLAR_BYTE_ORDER` and on hosts of both orders, with every byte read so far.
pub read_fixed-write_fixed :
    (order host : Order) (w v : ℕ) (b : ByteArray)
    → IsWide w
    → v < 256 ^ w
    → IsReady b
    → b.read_pos ≡ length (content b)
    → (b' b'' : ByteArray) × (write_fixed order host w v b ≡ done b')
      × (read_fixed order host w b' ≡ done (b'', some v))
read_fixed-write_fixed order host w v b wide h ready empty =
    let x = swap_to_little order w v in
    let (b', b'', wr, rd) = word_trip order host w x b (swap_lt order w v wide h) ready empty in
    (
      b',
      b'',
      ap (λ t. write b (map some (in_memory host w (if t then v else x)))) (IsWide-ne_one w wide)
          ∙ wr,
      rd ∙ ap (λ y. done (b'', some y)) (unswap_swap order w v wide h),
    )

-- A byte makes the trip where `SYLAR_BYTE_ORDER` is `SYLAR_LITTLE_ENDIAN`; under
-- `SYLAR_BIG_ENDIAN` every byte is read back as 0.
pub read_fixed-write_fixed_byte :
    (order host : Order) (v : ℕ) (b : ByteArray)
    → v < 256
    → IsReady b
    → b.read_pos ≡ length (content b)
    → (b' b'' : ByteArray) × (write_fixed order host 1 v b ≡ done b')
      × (read_fixed order host 1 b' ≡ done (b'', some (elim order [ little ↦ v | big ↦ 0 ])))
read_fixed-write_fixed_byte little host v b h ready empty =
    word_trip little host 1 v b (omega arith) ready empty
read_fixed-write_fixed_byte big host v b h ready empty =
    word_trip big host 1 v b (omega arith) ready empty

-- A floating point value of `w` bytes makes the trip through the array bit for bit, with every byte
-- read so far.
pub read_float-write_float :
    (host : Order) (w v : ℕ) (b : ByteArray)
    → v < 256 ^ w
    → IsReady b
    → b.read_pos ≡ length (content b)
    → (b' b'' : ByteArray) × (write_float host w v b ≡ done b')
      × (read_float host w b' ≡ done (b'', some v))
read_float-write_float host w v b h ready empty = word_trip little host w v b h ready empty
