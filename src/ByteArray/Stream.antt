-- ===== src/ByteArray/Stream.antt =====
-- `ByteArray::BitsStream` against the content, and `SetAllBits`.
use mathlib.Core.Path.{subst}
use sylar_framework.Prelude.{
  ℕ, suc, ◌+◌, ◌-◌, ◌*◌, ◌≤◌, ◌≡◌, refl, sym, ap, ◌∙◌, List, [], ◌∷◌, ◌++◌, arith, length, take,
  length-append, length-take, take_all, append_assoc, All, All-map,
}
use sylar_framework.ByteArray.Chain.{
  Cell, Node, ByteArray, done, all_nodes, stream_of, bits_stream, clear, set_all_bits,
}
use sylar_framework.ByteArray.Content.{
  flat, chain_content, content, IsValid, ChainValid, IsFull, IsFresh,
}
use sylar_framework.ByteArray.Reading.{IsSized}
use sylar_framework.ByteArray.Ready.{push, IsReady, nodes-IsSized, length-flat, clear-IsReady}
use sylar_framework.ByteArray.Fifo.{write-push}

stream_of-full :
    (base : ℕ) (before : List Node) (n : Node) (ns : List Node)
    → All (IsFull base) before
    → stream_of base (before ++ n ∷ ns) ≡ flat before ++ stream_of base (n ∷ ns)
unfolding stream_of
stream_of-full base [] n ns full = refl
stream_of-full base (m ∷ []) n ns full =
    rw (take_all base m.cells (omega (arith, full.0.0))) (sym (append_assoc m.cells [] _))
stream_of-full base (m ∷ k ∷ ks) n ns full =
    rw (take_all base m.cells (omega (arith, full.0.0)), stream_of-full base (k ∷ ks) n ns full.1)
      (sym (append_assoc m.cells _ _))

length-stream_of :
    (base : ℕ) (n : Node) (ns : List Node)
    → All (λ m. length m.cells ≡ base) (n ∷ ns)
    → length (stream_of base (n ∷ ns)) ≤ length (n ∷ ns) * base
unfolding stream_of
length-stream_of base n [] h = omega (arith, length-take (base - n.rest_size) n.cells, h.0)
length-stream_of base n (m ∷ ms) h = omega (
  arith,
  length-append (take base n.cells) (stream_of base (m ∷ ms)),
  length-take base n.cells,
  length-stream_of base m ms h.1,
  h.0,
)

length-stream_of-IsFresh :
    (base : ℕ) (m : Node) (ms : List Node)
    → All (IsFresh base) (m ∷ ms)
    → length (stream_of base (m ∷ ms)) ≡ length ms * base
unfolding stream_of
length-stream_of-IsFresh base m [] h =
    omega (arith, length-take (base - m.rest_size) m.cells, h.0.1)
length-stream_of-IsFresh base m (k ∷ ks) h = omega (
  arith,
  length-append (take base m.cells) (stream_of base (k ∷ ks)),
  length-take base m.cells,
  length-stream_of-IsFresh base k ks h.1,
  h.0.0,
)

-- While the block being written is the last one, the stream is what has been written.
pub bits_stream-content :
    (b : ByteArray) (n : Node) → IsValid b → b.chain ≡ n ∷ [] → bits_stream b ≡ content b
unfolding bits_stream
bits_stream-content b n v last =
    ap (λ l. stream_of b.base_size (b.before ++ l)) last
    ∙ stream_of-full b.base_size b.before n [] v.behind
    ∙ unfold stream_of in ap (λ l. flat b.before ++ chain_content b.base_size l) (sym last)

-- With a spare block behind the one being written, the stream is every block but the last one,
-- whole: its length does not depend on how much of the current block has been written.
pub length-bits_stream_spare :
    (b : ByteArray) (n m : Node) (ms : List Node)
    → IsValid b
    → b.chain ≡ n ∷ m ∷ ms
    → length (bits_stream b) ≡ (length b.before + suc (length ms)) * b.base_size
unfolding bits_stream stream_of
length-bits_stream_spare b n m ms v spare =
    let chain : ChainValid b.base_size (n ∷ m ∷ ms) =
      subst (ChainValid b.base_size) spare v.ahead in
    ap (λ l. length (stream_of b.base_size (b.before ++ l))) spare
    ∙ ap length (stream_of-full b.base_size b.before n (m ∷ ms) v.behind)
    ∙ omega (
      arith,
      length-append (flat b.before) (take b.base_size n.cells ++ stream_of b.base_size (m ∷ ms)),
      length-append (take b.base_size n.cells) (stream_of b.base_size (m ∷ ms)),
      length-take b.base_size n.cells,
      length-flat b.base_size b.before (All-map (λ k h. h.0) b.before v.behind),
      length-stream_of-IsFresh b.base_size m ms chain.2,
      chain.0,
    )

-- The stream fits the buffer of `capacity_` bytes that it is collected in.
pub length-bits_stream-le-capacity :
    (b : ByteArray) → IsValid b → length (bits_stream b) ≤ b.capacity
unfolding bits_stream
length-bits_stream-le-capacity b v = go (all_nodes b) (nodes-IsSized b v) v.covered
  where
    go :
        (nodes : List Node)
        → All (IsSized b.base_size) nodes
        → length nodes * b.base_size ≤ b.capacity
        → length (stream_of b.base_size nodes) ≤ b.capacity
    go [] h fits = unfold stream_of in omega arith
    go (n ∷ ns) h fits = omega (arith, length-stream_of b.base_size n ns h, fits)

-- `SetAllBits` on a valid array, however its reader and writer stood, ends; the array is valid and
-- ready, and holds the given bytes alone.
pub set_all_bits-content :
    (b : ByteArray) (cs : List Cell)
    → IsValid b
    → (b' : ByteArray) × (set_all_bits b cs ≡ done b')
      × IsReady b'
      × (content b' ≡ cs)
      × (b'.read_pos ≡ 0)
unfolding set_all_bits push
set_all_bits-content b cs v =
    let (ready, empty, start) = clear-IsReady b v in
    let (b', returns, e, ready') = write-push (clear b) cs ready in
    (
      b',
      returns,
      ready',
      ap (λ q. q.bytes) e ∙ ap (λ l. l ++ cs) empty,
      ap (λ q. q.taken) e ∙ start,
    )
