-- ===== src/ByteArray/Lost.antt =====
-- `ByteArray::Read` leaves a null `read_ptr_` behind when it ends at the end of a full last block,
-- and later writes do not set it again.
use mathlib.Core.Path.{subst}
use native.Mathlib.Nat.{mul-div_cancel}
use sylar_framework.Prelude.{
  ℕ, suc, ◌+◌, ◌-◌, ◌*◌, ◌/◌, ◌≤◌, ◌≡◌, refl, ap, ◌∙◌, List, [], ◌∷◌, ◌++◌, arith, length, drop,
  length-append, length-take, length-drop, take_all, All-map, ltb, false,
}
use sylar_framework.ByteArray.Chain.{
  Cell, Node, null, ByteArray, done, faulted, all_nodes, deref, read_loop, finish_read, read, write,
}
use sylar_framework.ByteArray.Content.{flat, filled, chain_content, content, IsValid, ChainValid}
use sylar_framework.ByteArray.Append.{write-Appended}
use sylar_framework.ByteArray.Ready.{IsReady, length-flat}
use sylar_framework.ByteArray.Fifo.{moved, read-moved}

-- A read through a null pointer faults, whatever is asked for within the capacity.
read-null :
    (b : ByteArray) (k : ℕ) → b.reader ≡ null → suc k ≤ b.capacity → read b (suc k) ≡ faulted
unfolding read finish_read read_loop
read-null b k lost fits =
    let small : ltb b.capacity (suc k) ≡ false = ground arith in rw small (rw (lost, deref) refl)

length-content_full :
    (b : ByteArray) (n : Node)
    → IsValid b
    → b.chain ≡ n ∷ []
    → n.rest_size ≡ 0
    → length (content b) ≡ suc (length b.before) * b.base_size
length-content_full b n v last full =
    let chain : ChainValid b.base_size (n ∷ []) = subst (ChainValid b.base_size) last v.ahead in
    ap (λ l. length (flat b.before ++ chain_content b.base_size l)) last
    ∙ omega (
      arith,
      length-append (flat b.before) (filled b.base_size n),
      length-take (b.base_size - n.rest_size) n.cells,
      length-flat b.base_size b.before (All-map (λ k h. h.0) b.before v.behind),
      chain.0,
      full,
    )

-- Whenever the last block of a ready array is full, reading all that is left succeeds and loses the
-- reader: after any further write, every read of
-- one byte or more within the first capacity is a read through null.
pub read_lost :
    (b : ByteArray) (n : Node) (cs : List Cell) (k : ℕ)
    → IsReady b
    → b.chain ≡ n ∷ []
    → n.rest_size ≡ 0
    → suc k ≤ b.capacity
    → (b' b'' : ByteArray) × (read b (length (content b) - b.read_pos)
        ≡ done (b', drop b.read_pos (content b)))
      × (write b' cs ≡ done b'')
      × (content b'' ≡ content b ++ cs)
      × (read b'' (suc k) ≡ faulted)
read_lost b n cs k ready last full fits =
    let v = ready.valid in
    let left = length (content b) - b.read_pos in
    let b' = moved b left in
    let c = length-content_full b n v last full in
    let nodes : length (all_nodes b) ≡ suc (length b.before) =
      omega (arith, length-append b.before b.chain, ap length last) in
    let end : (b.read_pos + left) / b.base_size ≡ suc (length b.before) =
      ap (λ p. p / b.base_size) (omega (arith, c, ready.written))
      ∙ mul-div_cancel (suc (length b.before)) v.base_pos in
    let lost : b'.reader ≡ null =
      let e : ltb ((b.read_pos + left) / b.base_size) (length (all_nodes b)) ≡ false =
        ground (arith, end, nodes) in
      rw e refl in
    let v' : IsValid b' = record {
      base_pos = v.base_pos;
      behind = v.behind;
      ahead = v.ahead;
      covered = v.covered;
    } in
    let (b'', w) = write-Appended b' cs v' in
    (
      b',
      b'',
      read-moved b ready left (omega (arith, ready.written))
          ∙ ap (λ l. done (b', l))
              (take_all left (drop b.read_pos (content b))
                (omega (arith, length-drop b.read_pos (content b)))),
      w.returns,
      w.holds,
      read-null b'' k (w.stays_null lost) (omega (arith, w.grows)),
    )
