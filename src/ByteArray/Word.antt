-- ===== src/ByteArray/Word.antt =====
-- src/include/endian.hh and the fixed-width accessors of src/bytearray.cc (`WriteFint8` to
-- `WriteFuint64`, `ReadFint8` to `ReadFuint64`). A word is its bit pattern, a number below
-- 256 ^ width. The order that `SYLAR_BYTE_ORDER` names and the order of the host's memory are
-- arguments, since the first depends on which headers stand in front of endian.hh.
use sylar_framework.Prelude.{
  ℕ, zero, suc, ◌+◌, ◌*◌, ◌/◌, ◌%◌, ◌||◌, List, [], ◌∷◌, map, Option, none, some, ◌==◌,
  if◌then◌else◌,
}
use mathlib.Core.List.{reverse}
use sylar_framework.ByteArray.Chain.{
  Cell, ByteArray, Outcome, done, out_of_range, faulted, diverged, write, read,
}

pub data Order : Type 0 where
  little big : Order

-- The bytes of a word, lowest first, and back.
unfoldable pub le_bytes : ℕ → ℕ → List ℕ
le_bytes zero v = []
le_bytes (suc w) v = (v % 256) ∷ le_bytes w (v / 256)

unfoldable pub le_value : List ℕ → ℕ
le_value [] = 0
le_value (b ∷ bs) = b + 256 * le_value bs

-- `bswap_16`, `bswap_32`, `bswap_64`.
abbrev pub bswap : ℕ → ℕ → ℕ
bswap w v = le_value (reverse (le_bytes w v))

-- `ByteSwap`: any width but 2, 4 and 8 gives 0.
abbrev pub byte_swap : ℕ → ℕ → ℕ
byte_swap w v = if w == 2 || w == 4 || w == 8 then bswap w v else 0

-- `SwapToLittle`.
abbrev pub swap_to_little : Order → ℕ → ℕ → ℕ
swap_to_little little w v = v
swap_to_little big w v = byte_swap w v

-- A word as it lies in memory, and back.
abbrev pub in_memory : Order → ℕ → ℕ → List ℕ
in_memory little w v = le_bytes w v
in_memory big w v = reverse (le_bytes w v)

abbrev pub from_memory : Order → List ℕ → ℕ
from_memory little bs = le_value bs
from_memory big bs = le_value (reverse bs)

-- The bytes of some cells, if all of them have been written.
abbrev pub bytes_of : List Cell → Option (List ℕ)
bytes_of [] = some []
bytes_of (none ∷ cs) = none
bytes_of (some b ∷ cs) = elim (bytes_of cs) [ none ↦ none | some bs ↦ some (b ∷ bs) ]

-- The cells of `WriteFint8` and its siblings: the 8-bit ones do not swap.
abbrev pub fixed_cells : Order → Order → ℕ → ℕ → List Cell
fixed_cells order host w v =
    map some (in_memory host w (if w == 1 then v else swap_to_little order w v))

abbrev pub write_fixed : Order → Order → ℕ → ℕ → ByteArray → Outcome ByteArray
write_fixed order host w v b = write b (fixed_cells order host w v)

-- The macro behind `ReadFint8` and its siblings, on the cells that were read. All of them swap,
-- the 8-bit ones too; `none` is a value made of bytes that nobody has written.
abbrev pub value_of : Order → Order → ℕ → Option (List ℕ) → Option ℕ
value_of order host w none = none
value_of little host w (some bs) = some (from_memory host bs)
value_of big host w (some bs) = some (byte_swap w (from_memory host bs))

abbrev pub fixed_value : Order → Order → ℕ → List Cell → Option ℕ
fixed_value order host w cs = value_of order host w (bytes_of cs)

abbrev pub with_value :
    (List Cell → Option ℕ) → Outcome (ByteArray × List Cell) → Outcome (ByteArray × Option ℕ)
with_value f (done (b, cs)) = done (b, f cs)
with_value f out_of_range = out_of_range
with_value f faulted = faulted
with_value f diverged = diverged

abbrev pub read_fixed : Order → Order → ℕ → ByteArray → Outcome (ByteArray × Option ℕ)
read_fixed order host w b = with_value (fixed_value order host w) (read b w)

-- `WriteFloat` and `WriteDouble`, of 4 and 8 bytes, on the bit pattern of the value: no swap.
abbrev pub write_float : Order → ℕ → ℕ → ByteArray → Outcome ByteArray
write_float host w v b = write b (map some (in_memory host w v))

-- `ReadFloat` and `ReadDouble`.
abbrev pub read_float : Order → ℕ → ByteArray → Outcome (ByteArray × Option ℕ)
read_float host w b = with_value (λ cs. value_of little host w (bytes_of cs)) (read b w)
