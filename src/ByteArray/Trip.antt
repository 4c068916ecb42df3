-- ===== src/ByteArray/Trip.antt =====
-- src/bytearray.cc: values and strings on their way through the array and back, `WriteVint8` to
-- `ReadStringWithoutLength`.
use native.Mathlib.Nat.{pow-suc, mod-eq_of_lt}
use sylar_framework.Prelude.{
  ℕ, suc, ◌+◌, ◌*◌, ◌%◌, ◌^◌, ◌≤◌, ◌<◌, ◌≡◌, refl, ap, ◌∙◌, ◌⊎◌, inl, inr, true, false, List, [],
  ◌∷◌, some, arith, length, take, ltb, leb, lt→ltb,
}
use sylar_framework.Prelude.Bits.{bit_or-zero_left}
use sylar_framework.ByteArray.Chain.{Cell, ByteArray, done, read, write}
use sylar_framework.ByteArray.Content.{content}
use sylar_framework.ByteArray.Ready.{IsReady}
use sylar_framework.ByteArray.Fifo.{read-write}
use sylar_framework.ByteArray.Word.{Order, little, big, le_value}
use sylar_framework.ByteArray.Varint.{
  signed, unsigned, encode_zigzag, decode_zigzag, varint_cells, write_varint, decode_varint,
  decode_bytes, finish_decode, collect, read_varint,
}
use sylar_framework.ByteArray.ZigZag.{
  encode_zigzag-nonneg, encode_zigzag_neg, decode_zigzag-encode_zigzag,
}
use mathlib.Core.Path.{ap₂}
use sylar_framework.Prelude.{◌++◌, drop, take_all, drop_past, append_assoc, length-append}
use sylar_framework.ByteArray.Chain.{finish_read, read_loop}
use sylar_framework.ByteArray.Ready.{push, valid-Covers}
use sylar_framework.ByteArray.Fifo.{write-push, moved, read-moved, moved-IsReady}
use sylar_framework.ByteArray.Varint.{
  write_string, read_string, then_write, read_sized, finish_string,
}
use sylar_framework.ByteArray.ZigZag.{unsigned_low}
use sylar_framework.ByteArray.Groups.{IsWidth, IsWidth-size, varint_cells-one}

collect-one :
    (host : Order) (e : ℕ) (b b' : ByteArray)
    → e < 128
    → read b 1 ≡ done (b', some e ∷ [])
    → collect 10 little host [] b ≡ done (b', some (e ∷ []))
unfolding collect le_value
collect-one little e b b' small got =
    let z : e + 256 * 0 ≡ e = omega arith in rw (got, collect) (rw (z, lt→ltb e 128 small) refl)
collect-one big e b b' small got =
    let z : e + 256 * 0 ≡ e = omega arith in rw (got, collect) (rw (z, lt→ltb e 128 small) refl)

decode_varint-one :
    (bits e : ℕ) → e < 128 → 128 ≤ 2 ^ bits → decode_varint bits (e ∷ []) 0 0 ≡ some e
unfolding decode_varint
decode_varint-one bits e small wide =
    let under : leb 128 e ≡ false = ground arith in
    let m : e % 128 ≡ e = omega arith in
    let o : e * 1 ≡ e = omega arith in
    let fits : ltb e (2 ^ 31) ≡ true = ground arith in
    rw (under, m, o, fits) (ap some (bit_or-zero_left _ ∙ mod-eq_of_lt (omega arith)))

-- A single byte below 128 is what the reader takes for a whole varint.
read_varint-one :
    (host : Order) (bits e : ℕ) (b b' : ByteArray)
    → 128 ≤ 2 ^ bits
    → e < 128
    → read b 1 ≡ done (b', some e ∷ [])
    → read_varint little host bits b ≡ done (b', some (decode_zigzag bits e))
unfolding read_varint
read_varint-one host bits e b b' wide small got =
    ap (decode_bytes bits) (collect-one host e b b' small got)
    ∙ ap (finish_decode bits b') (decode_varint-one bits e small wide)

IsWidth-le : (bits : ℕ) → IsWidth bits → 256 ≤ 2 ^ bits
IsWidth-le bits (inl e) = rw e (omega arith)
IsWidth-le bits (inr (inl e)) = rw e (omega arith)
IsWidth-le bits (inr (inr (inl e))) = rw e (omega arith)
IsWidth-le bits (inr (inr (inr e))) = rw e (omega arith)

encode_zigzag_near :
    (k v : ℕ)
    → 256 ≤ 2 ^ suc k
    → v < 2 ^ suc k
    → (v < 64) ⊎ (2 ^ suc k ≤ v + 64)
    → encode_zigzag signed (suc k) v < 128
encode_zigzag_near k v wide fits (inl low) =
    let p = pow-suc 2 k in omega (arith, p, encode_zigzag-nonneg k v (omega (arith, p)))
encode_zigzag_near k v wide fits (inr high) =
    let p = pow-suc 2 k in omega (arith, p, encode_zigzag_neg k v (omega (arith, p)) fits)

-- Under `SYLAR_LITTLE_ENDIAN` the signed values from -64 to 63, whose encodings are below 128, make
-- the whole trip: with every byte read so far, what is written is what is read back.
pub read_varint-write_varint :
    (host : Order) (k v : ℕ) (b : ByteArray)
    → IsWidth (suc k)
    → v < 2 ^ suc k
    → (v < 64) ⊎ (2 ^ suc k ≤ v + 64)
    → IsReady b
    → b.read_pos ≡ length (content b)
    → (b' b'' : ByteArray) × (write_varint little signed (suc k) v b ≡ done b')
      × (read_varint little host (suc k) b' ≡ done (b'', some v))
read_varint-write_varint host k v b width fits near ready empty =
    let wide = IsWidth-le (suc k) width in
    let e = encode_zigzag signed (suc k) v in
    let small = encode_zigzag_near k v wide fits near in
    let (n, size) = IsWidth-size (suc k) width in
    let (b', b'', w, r) = read-write b (some e ∷ []) ready empty in
    (
      b',
      b'',
      ap (write b) (varint_cells-one n (suc k) e signed size small) ∙ w,
      read_varint-one host (suc k) e b' b'' (omega arith) small r
          ∙ ap (λ x. done (b'', some x)) (decode_zigzag-encode_zigzag k v fits),
    )

read-nothing : (b : ByteArray) → read b 0 ≡ done (b, [])
unfolding read finish_read read_loop
read-nothing b = let e : ltb b.capacity 0 ≡ false = ground arith in rw e refl

-- The rest of the content, behind one byte.
read_rest :
    (b : ByteArray) (cs : List Cell)
    → IsReady b
    → b.read_pos + 1 + length cs ≡ length (content b)
    → drop (b.read_pos + 1) (content b) ≡ cs
    → (b' : ByteArray) × (read (moved b 1) (length cs) ≡ done (b', cs))
read_rest b [] ready fits rest = (moved b 1, read-nothing (moved b 1))
read_rest b (c ∷ cs) ready fits rest =
    let n = length (c ∷ cs) in
    let next : IsReady (moved b 1) =
      moved-IsReady b ready 1 (omega (arith, fits))
        (omega (arith, fits, (valid-Covers b ready.valid).ends)) in
    (
      moved (moved b 1) n,
      read-moved (moved b 1) next n (omega (arith, fits))
          ∙ ap (λ l. done (moved (moved b 1) n, l))
              (ap (take n) rest ∙ take_all n (c ∷ cs) (omega arith)),
    )

-- Under `SYLAR_LITTLE_ENDIAN` a string of fewer than 64 bytes makes the trip through the array, with
-- every byte read so far.
pub read_string-write_string :
    (host : Order) (cs : List Cell) (b : ByteArray)
    → length cs < 64
    → IsReady b
    → b.read_pos ≡ length (content b)
    → (b' b'' : ByteArray) × (write_string little cs b ≡ done b')
      × (read_string little host b' ≡ done (b'', some cs))
unfolding push write_string then_write read_string read_sized finish_string
read_string-write_string host cs b short ready empty =
    let n = length cs in
    let e = encode_zigzag signed 64 n in
    let small : e < 128 = encode_zigzag_near 63 n (omega arith) (omega arith) (inl short) in
    let cells : varint_cells unsigned 64 (encode_zigzag unsigned 64 n) ≡ some e ∷ [] =
      ap (varint_cells unsigned 64) (unsigned_low 63 n (omega arith))
      ∙ varint_cells-one 9 64 e unsigned refl small in
    let (b1, w1, v1, r1) = write-push b (some e ∷ []) ready in
    let (b2, w2, v2, r2) = write-push b1 cs r1 in
    let pos : b2.read_pos ≡ length (content b) =
      ap (λ q. q.taken) v2 ∙ ap (λ q. q.taken) v1 ∙ empty in
    let bytes : content b2 ≡ content b ++ some e ∷ cs =
      ap (λ q. q.bytes) v2
      ∙ ap (λ q. q.bytes ++ cs) v1
      ∙ append_assoc (content b) (some e ∷ []) cs in
    let all : b2.read_pos + 1 + n ≡ length (content b2) =
      omega (arith, pos, ap length bytes, length-append (content b) (some e ∷ cs)) in
    let from : (k : ℕ) → drop (b2.read_pos + k) (content b2) ≡ drop k (some e ∷ cs) =
      λ k. ap₂ (λ p l. drop (p + k) l) pos bytes ∙ drop_past k (content b) (some e ∷ cs) in
    let zero_more : b2.read_pos ≡ b2.read_pos + 0 = omega arith in
    let got : read b2 1 ≡ done (moved b2 1, some e ∷ []) =
      read-moved b2 r2 1 (omega (arith, all))
      ∙ ap (λ l. done (moved b2 1, take 1 l)) (ap (λ p. drop p (content b2)) zero_more ∙ from 0) in
    let (b3, rest) = read_rest b2 cs r2 all (from 1) in
    (
      b2,
      b3,
      ap (λ t. then_write (write b t) cs) cells ∙ ap (λ o. then_write o cs) w1 ∙ w2,
      ap read_sized (
            read_varint-one host 64 e b2 (moved b2 1) (omega arith) small got
            ∙ ap (λ x. done (moved b2 1, some x)) (decode_zigzag-encode_zigzag 63 n (omega arith)))
          ∙ ap finish_string rest,
    )
