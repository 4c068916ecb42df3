-- ===== src/ByteArray/Writing.antt =====
-- The loop of `ByteArray::Write` fills the current node, then the fresh ones after it.
use sylar_framework.Prelude.{
  ℕ, ◌+◌, ◌-◌, ◌*◌, ◌≤◌, ◌≡◌, refl, sym, ap, ◌∙◌, inl, inr, true, List, [], ◌∷◌, ◌++◌, arith,
  length, take, drop, length-append, length-take, length-drop, append-nil, append_assoc, take_all,
  take-append-drop, All, All-append, leb, Bool-cases,
}
use sylar_framework.ByteArray.Chain.{Cell, Node, done, fill_node, write_loop}
use sylar_framework.ByteArray.Content.{
  filled, flat, chain_content, IsFull, IsFresh, ChainValid, filled-fill_node, length-fill_node,
  flat-append,
}

-- The cells that the list has room for from the write cursor on.
abbrev pub room : ℕ → List Node → ℕ
room base [] = 0
room base (n ∷ ns) = n.rest_size + length ns * base

-- What the loop leaves behind it.
pub record Written (base : ℕ) (before chain : List Node) (cs : List Cell)
    (before' chain' : List Node) : Type 0 where
  pub returns : write_loop base before chain cs ≡ done (before', chain')
  pub behind : All (IsFull base) before'
  pub ahead : ChainValid base chain'
  pub same_nodes : length (before' ++ chain') ≡ length (before ++ chain)
  pub moves_on : length before ≤ length before'
  pub holds :
      flat before' ++ chain_content base chain' ≡ (flat before ++ chain_content base chain) ++ cs

fill_node-IsFull :
    (base : ℕ) (n : Node) (cs : List Cell)
    → length n.cells ≡ base
    → n.rest_size ≤ base
    → n.rest_size ≤ length cs
    → (IsFull base (fill_node base n (take n.rest_size cs)))
      × ((fill_node base n (take n.rest_size cs)).cells ≡ filled base n ++ take n.rest_size cs)
fill_node-IsFull base n cs len rest long =
    let new = take n.rest_size cs in
    let short : length new ≤ n.rest_size = omega (arith, length-take n.rest_size cs) in
    let l = length-fill_node base n new len rest short in
    let z : n.rest_size - length new ≡ 0 = omega (arith, length-take n.rest_size cs) in
    (
      (l, z),
      sym (take_all (base - (n.rest_size - length new)) (fill_node base n new).cells (omega arith))
          ∙ filled-fill_node base n new len rest short,
    )

chain_content-fresh :
    (base : ℕ) (ns : List Node) → All (IsFresh base) ns → chain_content base ns ≡ []
chain_content-fresh base [] h = refl
chain_content-fresh base (m ∷ ms) h = let e : base - m.rest_size ≡ 0 = omega arith in rw e refl

abbrev Result : ℕ → List Node → List Node → List Cell → Type 0
Result base before chain cs =
    (before' : List Node) × (chain' : List Node) × Written base before chain cs before' chain'

-- A buffer that fits the current node goes there.
fits-Written :
    (base : ℕ) (before : List Node) (n : Node) (ns : List Node) (c : Cell) (cs : List Cell)
    → All (IsFull base) before
    → ChainValid base (n ∷ ns)
    → leb (length (c ∷ cs)) n.rest_size ≡ true
    → Written base before (n ∷ ns) (c ∷ cs) before (fill_node base n (c ∷ cs) ∷ ns)
unfolding write_loop
fits-Written base before n ns c cs behind ahead fits =
    let short : length (c ∷ cs) ≤ n.rest_size = ground arith in
    record {
      returns = rw fits;
      behind = behind;
      ahead =
          (length-fill_node base n (c ∷ cs) ahead.0 ahead.1 short, omega (arith, ahead.1), ahead.2);
      same_nodes = omega (
        arith,
        length-append before (fill_node base n (c ∷ cs) ∷ ns),
        length-append before (n ∷ ns),
      );
      moves_on = omega arith;
      holds =
          ap (◌++◌ (flat before)) (filled-fill_node base n (c ∷ cs) ahead.0 ahead.1 short)
          ∙ sym (append_assoc (flat before) (filled base n) (c ∷ cs));
    }

-- With room enough the loop ends, and appends the buffer to what the list holds.
pub write_loop-Written :
    (base : ℕ) (before chain : List Node) (cs : List Cell)
    → All (IsFull base) before
    → ChainValid base chain
    → length cs ≤ room base chain
    → Result base before chain cs
unfolding write_loop
write_loop-Written base before [] cs behind ahead fits = absurd ahead
write_loop-Written base before (n ∷ ns) [] behind ahead fits = (
  before,
  n ∷ ns,
  record {
    returns = refl;
    behind = behind;
    ahead = ahead;
    same_nodes = refl;
    moves_on = omega arith;
    holds = sym (append-nil _);
  },
)
write_loop-Written base before (n ∷ []) (c ∷ cs) behind ahead fits = (
  before,
  fill_node base n (c ∷ cs) ∷ [],
  fits-Written base before n [] c cs behind ahead (ground arith),
)
write_loop-Written base before (n ∷ m ∷ ms) (c ∷ cs) behind ahead fits =
    elim (Bool-cases (leb (length (c ∷ cs)) n.rest_size)) [
      | inl short ↦ (
        before,
        fill_node base n (c ∷ cs) ∷ m ∷ ms,
        fits-Written base before n (m ∷ ms) c cs behind ahead short,
      )
      | inr long ↦
          let new = take n.rest_size (c ∷ cs) in
          let full = fill_node base n new ∷ [] in
          let over : n.rest_size ≤ length (c ∷ cs) = ground arith in
          let at_node = fill_node-IsFull base n (c ∷ cs) ahead.0 ahead.1 over in
          let (before', chain', w) =
            write_loop-Written base (before ++ full) (m ∷ ms) (drop n.rest_size (c ∷ cs))
              (All-append (IsFull base) before full behind (at_node.0, tt))
              (ahead.2.0.0, omega (arith, ahead.2.0.1), ahead.2.1)
              (omega (arith, length-drop n.rest_size (c ∷ cs), ahead.2.0.1)) in
          (
            before',
            chain',
            record {
              returns = rw long w.returns;
              behind = w.behind;
              ahead = w.ahead;
              same_nodes = omega (
                arith,
                w.same_nodes,
                length-append (before ++ full) (m ∷ ms),
                length-append before full,
                length-append before (n ∷ m ∷ ms),
              );
              moves_on = omega (arith, w.moves_on, length-append before full);
              holds =
                  w.holds
                  ∙ simp (
                    chain_content-fresh base (m ∷ ms) ahead.2,
                    flat-append,
                    at_node.1,
                    append-nil,
                    append_assoc,
                    take-append-drop,
                  );
            },
          )
    ]
