-- ===== src/ByteArray/Fifo.antt =====
-- `ByteArray` as a queue of bytes: `Write` appends to what was written, and `Read` takes the bytes
-- at the read position, as long as the reader has not run off a full last block.
use mathlib.Core.Path.{ap₂}
use native.Mathlib.Nat.{div-lt_iff_lt-mul}
use sylar_framework.Prelude.{
  ℕ, suc, ◌+◌, ◌*◌, ◌/◌, ◌≤◌, ◌<◌, ◌≡◌, refl, sym, ap, ◌∙◌, false, List, ◌++◌, arith, length, take,
  drop, length-append, length-drop, take_within, drop_within, drop_past, take_all, ltb, lt→ltb,
}
use sylar_framework.ByteArray.Chain.{
  Cell, at, ByteArray, done, all_nodes, read_loop, finish_read, read, write,
}
use sylar_framework.ByteArray.Content.{flat, content}
use sylar_framework.ByteArray.Append.{write-Appended}
use sylar_framework.ByteArray.Ready.{push, pull, IsReady, view, valid-Covers, nodes-IsSized, mul-le}
use sylar_framework.ByteArray.Reading.{place, read_loop-range}

-- The array after a read of `k` bytes.
abbrev pub moved : ByteArray → ℕ → ByteArray
moved b k = record b {
  reader = place (all_nodes b) b.base_size (b.read_pos + k);
  read_pos = b.read_pos + k;
}

module _ (b : ByteArray) (ready : IsReady b) where
  pub read-moved :
      (k : ℕ)
      → b.read_pos + k ≤ length (content b)
      → read b k ≡ done (moved b k, take k (drop b.read_pos (content b)))
  unfolding read finish_read
  read-moved k fits =
      let v = ready.valid in
      let c = valid-Covers b v in
      let nodes = all_nodes b in
      let reach = mul-le (suc (length b.before)) (length nodes) b.base_size c.reaches in
      let small : ltb b.capacity k ≡ false =
        let h : k ≤ b.capacity = omega (arith, c.ends, v.covered, reach) in ground arith in
      let inside : b.read_pos / b.base_size < length nodes =
        (div-lt_iff_lt-mul v.base_pos).1 (omega (arith, ready.within, reach)) in
      let here : b.reader ≡ place nodes b.base_size b.read_pos =
        ready.in_place ∙ sym (rw (lt→ltb _ _ inside) refl) in
      let got =
        read_loop-range k b.base_size nodes b.read_pos k v.base_pos (nodes-IsSized b v)
          (omega arith) (omega (arith, c.ends, reach)) in
      let cells : take k (drop b.read_pos (flat nodes)) ≡ take k (drop b.read_pos (content b)) =
        ap (λ l. take k (drop b.read_pos l)) c.splits
        ∙ ap (take k) (drop_within b.read_pos (content b) c.unwritten (omega arith))
        ∙ take_within k (drop b.read_pos (content b)) c.unwritten
            (omega (arith, length-drop b.read_pos (content b))) in
      rw small (
        ap
          (λ r.
            finish_read b
              (read_loop k b.base_size nodes (record { reader = r; read_pos = b.read_pos }) k))
          here
        ∙ ap (finish_read b) got
        ∙ ap (λ l. done (moved b k, l)) cells)

  pub moved-IsReady :
      (k : ℕ)
      → b.read_pos + k ≤ length (content b)
      → b.read_pos + k < suc (length b.before) * b.base_size
      → IsReady (moved b k)
  moved-IsReady k fits short =
      let v = ready.valid in
      let c = valid-Covers b v in
      let reach = mul-le (suc (length b.before)) (length (all_nodes b)) b.base_size c.reaches in
      let inside : (b.read_pos + k) / b.base_size < length (all_nodes b) =
        (div-lt_iff_lt-mul v.base_pos).1 (omega (arith, short, reach)) in
      record {
        valid = record {
          base_pos = v.base_pos;
          behind = v.behind;
          ahead = v.ahead;
          covered = v.covered;
        };
        in_place = rw (lt→ltb _ _ inside) refl;
        within = short;
        written = fits;
      }

-- A read of bytes that have been written, on a ready array, ends, hands out the oldest bytes of the
-- abstract queue that have not been read, and takes them off it.
pub read-pull :
    (b : ByteArray) (k : ℕ)
    → IsReady b
    → b.read_pos + k ≤ length (content b)
    → (b' : ByteArray) × (read b k ≡ done (b', (pull k (view b)).1))
      × (view b' ≡ (pull k (view b)).0)
unfolding pull
read-pull b k ready fits = (moved b k, read-moved b ready k fits, refl)

-- A read of bytes that have been written that stops before the end of the block being written
-- leaves a ready array ready.
pub read-IsReady :
    (b : ByteArray) (k : ℕ)
    → IsReady b
    → b.read_pos + k ≤ length (content b)
    → b.read_pos + k < suc (length b.before) * b.base_size
    → (b' : ByteArray) × (read b k ≡ done (b', (pull k (view b)).1)) × IsReady b'
unfolding pull
read-IsReady b k ready fits inside =
    (moved b k, read-moved b ready k fits, moved-IsReady b ready k fits inside)

-- A write to a ready array, of any size, ends, appends to the abstract queue, and leaves the array
-- ready.
pub write-push :
    (b : ByteArray) (cs : List Cell)
    → IsReady b
    → (b' : ByteArray) × (write b cs ≡ done b') × (view b' ≡ push cs (view b)) × IsReady b'
unfolding push
write-push b cs ready =
    let v = ready.valid in
    let (b', w) = write-Appended b cs v in
    let i = b.read_pos / b.base_size in
    let inside : i < suc (length b.before) = (div-lt_iff_lt-mul v.base_pos).1 ready.within in
    let on =
      mul-le (suc (length b.before)) (suc (length b'.before)) b.base_size
        (omega (arith, w.moves_on)) in
    let base : suc (length b'.before) * b'.base_size ≡ suc (length b'.before) * b.base_size =
      ap (λ n. suc (length b'.before) * n) w.same_base in
    (
      b',
      w.returns,
      ap₂ (λ l n. record { bytes = l; taken = n }) w.holds w.same_pos,
      record {
        valid = w.valid;
        in_place =
            w.same_reader i ready.in_place (omega arith)
            ∙ ap₂ (λ p n. at (p / n)) (sym w.same_pos) (sym w.same_base);
        within = omega (arith, base, on, ready.within, w.same_pos);
        written =
            omega
              (arith, w.same_pos, ap length w.holds, length-append (content b) cs, ready.written);
      },
    )

-- What a ready array is given it gives back: once all earlier bytes have been read, a write and
-- then a read of the same length return the bytes written.
pub read-write :
    (b : ByteArray) (cs : List Cell)
    → IsReady b
    → b.read_pos ≡ length (content b)
    → (b' b'' : ByteArray) × (write b cs ≡ done b') × (read b' (length cs) ≡ done (b'', cs))
unfolding push pull
read-write b cs ready empty =
    let (b', w, e, ready') = write-push b cs ready in
    let bytes : content b' ≡ content b ++ cs = ap (λ q. q.bytes) e in
    let pos : b'.read_pos ≡ length (content b) = ap (λ q. q.taken) e ∙ empty in
    let fits : b'.read_pos + length cs ≤ length (content b') =
      omega (arith, pos, ap length bytes, length-append (content b) cs) in
    let (b'', r, _) = read-pull b' (length cs) ready' fits in
    let zero_more : length (content b) ≡ length (content b) + 0 = omega arith in
    (
      b',
      b'',
      w,
      r
          ∙ ap (λ l. done (b'', l))
              (ap₂ (λ p l. take (length cs) (drop p l)) (pos ∙ zero_more) bytes
                ∙ ap (take (length cs)) (drop_past 0 (content b) cs)
                ∙ take_all (length cs) cs (omega arith)),
    )
