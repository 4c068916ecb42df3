-- ===== src/ByteArray/Varint.antt =====
-- src/bytearray.cc: the variable-width accessors, `EncodeZigZag`, `DecodeZigZag`, `EncodeVarint`,
-- `DecodeVarint`, `WriteVint8` to `WriteVuint64`, `ReadVint8` to `ReadVuint64`, and the string
-- accessors. A value of `bits` bits is its bit pattern.
use sylar_framework.Prelude.{
  ℕ, zero, suc, ◌+◌, ◌-◌, ◌*◌, ◌/◌, ◌%◌, ◌^◌, bit_or, bit_xor, List, [], ◌∷◌, ◌++◌, Option, none,
  some, length, take, set, replicate, ltb, leb, ◌==◌, if◌then◌else◌,
}
use sylar_framework.ByteArray.Chain.{
  Cell, ByteArray, Outcome, done, out_of_range, faulted, diverged, write, read,
}
use sylar_framework.ByteArray.Word.{Order, swap_to_little, read_fixed}

pub data Sign : Type 0 where
  signed unsigned : Sign

-- `val >> (bits - 1)`: the sign spread over the word, or the top bit.
abbrev pub top : Sign → ℕ → ℕ → ℕ
top signed bits v = if ltb v (2 ^ (bits - 1)) then 0 else 2 ^ bits - 1
top unsigned bits v = v / 2 ^ (bits - 1)

-- `EncodeZigZag`.
unfoldable pub encode_zigzag : Sign → ℕ → ℕ → ℕ
encode_zigzag s bits v = bit_xor (2 * v % 2 ^ bits) (top s bits v)

-- `DecodeZigZag`: `-(val & 1)` is all ones or zero.
unfoldable pub decode_zigzag : ℕ → ℕ → ℕ
decode_zigzag bits v = bit_xor (v / 2) (if v % 2 == 1 then 2 ^ bits - 1 else 0)

-- `max_sz`.
abbrev pub max_size : ℕ → ℕ
max_size bits =
    if bits == 8
    then 2
    else if bits == 16
    then 3
    else if bits == 32
    then 5
    else if bits == 64
    then 10
    else 0

-- `val >>= 7`.
abbrev pub shift_seven : Sign → ℕ → ℕ → ℕ
shift_seven signed bits v =
    if ltb v (2 ^ (bits - 1)) then v / 128 else v / 128 + (2 ^ bits - 2 ^ (bits - 7))
shift_seven unsigned bits v = v / 128

-- The loop of `EncodeVarint`: `bytes` is both the count that is returned and the index that is
-- written to, and it stays 0 until the last group.
unfoldable pub encode_loop : ℕ → ℕ → Sign → ℕ → ℕ → List Cell → ℕ × List Cell
encode_loop zero i s bits v buf = (0, buf)
encode_loop (suc fuel) i s bits v buf =
    let more =
      encode_loop fuel (suc i) s bits (shift_seven s bits v) (set buf 0 (some (v % 128 + 128))) in
    if v / 128 == 0 then (suc i, set buf 0 (some (v % 128))) else more

-- `EncodeVarint` on the caller's array of ten bytes, and the bytes that the caller writes.
unfoldable pub varint_cells : Sign → ℕ → ℕ → List Cell
unfolding encode_loop
varint_cells s bits v =
    let (bytes, buf) = encode_loop (max_size bits) 0 s bits v (replicate 10 none) in take bytes buf

-- `WriteVint8` and its siblings.
abbrev pub write_varint : Order → Sign → ℕ → ℕ → ByteArray → Outcome ByteArray
write_varint order s bits v b =
    write b (varint_cells s bits (encode_zigzag s bits (swap_to_little order (bits / 8) v)))

-- `b << offset` in `int`: `none` where the result does not fit, which is undefined.
abbrev pub shift_int : ℕ → ℕ → Option ℕ
shift_int b offset = if ltb (b * 2 ^ offset) (2 ^ 31) then some (b * 2 ^ offset) else none

or_into : ℕ → ℕ → Option ℕ → Option ℕ
or_into bits v none = none
or_into bits v (some x) = some (bit_or v (x % 2 ^ bits))

-- `DecodeVarint`: the loop ends at a byte with the high bit set.
unfoldable pub decode_varint : ℕ → List ℕ → ℕ → ℕ → Option ℕ
unfolding or_into
decode_varint bits [] offset v = some v
decode_varint bits (b ∷ bs) offset v =
    let more : Option ℕ = elim (or_into bits v (shift_int (b % 128) offset)) [
      | none ↦ none
      | some v' ↦ decode_varint bits bs (offset + 7) v'
    ] in
    if leb 128 b then or_into bits v (shift_int b offset) else more

-- The loop of the macro behind `ReadVint8` and its siblings, with the bytes read so far: at the
-- tenth byte with the high bit set, no byte is decoded. `none` is an indeterminate byte.
unfoldable pub collect :
    ℕ → Order → Order → List ℕ → ByteArray → Outcome (ByteArray × Option (List ℕ))
collect zero order host seen b = done (b, some [])
collect (suc left) order host seen b = elim (read_fixed order host 1 b) [
  | done (b', some byte) ↦
      let more = collect left order host (seen ++ byte ∷ []) b' in
      if ltb byte 128 then done (b', some (seen ++ byte ∷ [])) else more
  | done (b', none) ↦ done (b', none)
  | out_of_range ↦ out_of_range
  | faulted ↦ faulted
  | diverged ↦ diverged
]

unfoldable pub finish_decode : ℕ → ByteArray → Option ℕ → Outcome (ByteArray × Option ℕ)
finish_decode bits b none = done (b, none)
finish_decode bits b (some v) = done (b, some (decode_zigzag bits v))

unfoldable pub decode_bytes :
    ℕ → Outcome (ByteArray × Option (List ℕ)) → Outcome (ByteArray × Option ℕ)
unfolding finish_decode
decode_bytes bits (done (b, none)) = done (b, none)
decode_bytes bits (done (b, some bs)) = finish_decode bits b (decode_varint bits bs 0 0)
decode_bytes bits out_of_range = out_of_range
decode_bytes bits faulted = faulted
decode_bytes bits diverged = diverged

-- `ReadVint8` and its siblings.
unfoldable pub read_varint : Order → Order → ℕ → ByteArray → Outcome (ByteArray × Option ℕ)
unfolding decode_bytes
read_varint order host bits b = decode_bytes bits (collect 10 order host [] b)

unfoldable pub then_write : Outcome ByteArray → List Cell → Outcome ByteArray
then_write (done b) cs = write b cs
then_write out_of_range cs = out_of_range
then_write faulted cs = faulted
then_write diverged cs = diverged

-- `WriteStringWithoutLength`.
unfoldable pub write_string : Order → List Cell → ByteArray → Outcome ByteArray
unfolding then_write
write_string order cs b = then_write (write_varint order unsigned 64 (length cs) b) cs

unfoldable pub finish_string :
    Outcome (ByteArray × List Cell) → Outcome (ByteArray × Option (List Cell))
finish_string (done (b, cs)) = done (b, some cs)
finish_string out_of_range = out_of_range
finish_string faulted = faulted
finish_string diverged = diverged

unfoldable pub read_sized :
    Outcome (ByteArray × Option ℕ) → Outcome (ByteArray × Option (List Cell))
unfolding finish_string
read_sized (done (b, none)) = done (b, none)
read_sized (done (b, some size)) = finish_string (read b size)
read_sized out_of_range = out_of_range
read_sized faulted = faulted
read_sized diverged = diverged

-- `ReadStringWithoutLength`.
unfoldable pub read_string : Order → Order → ByteArray → Outcome (ByteArray × Option (List Cell))
unfolding read_sized
read_string order host b = read_sized (read_varint order host 64 b)
