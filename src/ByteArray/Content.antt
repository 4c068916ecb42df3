-- ===== src/ByteArray/Content.antt =====
-- What a `ByteArray` holds, and the invariant that its operations keep.
use sylar_framework.Prelude.{
  ℕ, zero, suc, ◌+◌, ◌-◌, ◌*◌, ◌≤◌, ◌<◌, ◌≡◌, refl, sym, ap, ◌∙◌, List, [], ◌∷◌, ◌++◌, arith,
  length, take, drop, none, length-append, length-replicate, length-take, length-drop, take_past,
  take_within, take_all, append_assoc, All,
}
use sylar_framework.ByteArray.Chain.{
  Cell, Node, ByteArray, all_nodes, fresh_nodes, splice, fill_node,
}

-- The part of a node's block that has been written.
abbrev pub filled : ℕ → Node → List Cell
filled base n = take (base - n.rest_size) n.cells

-- The blocks of some nodes, one after the other.
abbrev pub flat : List Node → List Cell
flat [] = []
flat (n ∷ ns) = n.cells ++ flat ns

-- All that has been written: full nodes, and the filled part of the node that is written next.
abbrev pub chain_content : ℕ → List Node → List Cell
chain_content base [] = []
chain_content base (n ∷ ns) = filled base n

abbrev pub content : ByteArray → List Cell
content b = flat b.before ++ chain_content b.base_size b.chain

abbrev pub IsFull : ℕ → Node → Type 0
IsFull base n = (length n.cells ≡ base) × (n.rest_size ≡ 0)

abbrev pub IsFresh : ℕ → Node → Type 0
IsFresh base n = (length n.cells ≡ base) × (n.rest_size ≡ base)

abbrev pub ChainValid : ℕ → List Node → Type 0
ChainValid base [] = ⊥
ChainValid base (n ∷ ns) = (length n.cells ≡ base) × (n.rest_size ≤ base) × All (IsFresh base) ns

-- Behind the write cursor all nodes are full, after it none is begun, the cursor is never null, and
-- the capacity covers the list.
pub record IsValid (b : ByteArray) : Type 0 where
  pub base_pos : 0 < b.base_size
  pub behind : All (IsFull b.base_size) b.before
  pub ahead : ChainValid b.base_size b.chain
  pub covered : length (all_nodes b) * b.base_size ≤ b.capacity

pub fresh_nodes-IsFresh : (count base : ℕ) → All (IsFresh base) (fresh_nodes count base)
fresh_nodes-IsFresh zero base = tt
fresh_nodes-IsFresh (suc count) base =
    ((length-replicate base none, refl), fresh_nodes-IsFresh count base)

pub length-splice :
    (old : List Cell) (start : ℕ) (new : List Cell)
    → start + length new ≤ length old
    → length (splice old start new) ≡ length old
length-splice old start new h = omega (
  arith,
  length-append (take start old) (new ++ drop (start + length new) old),
  length-append new (drop (start + length new) old),
  length-take start old,
  length-drop (start + length new) old,
)

-- Filling a node appends to its written part.
pub filled-fill_node :
    (base : ℕ) (n : Node) (new : List Cell)
    → length n.cells ≡ base
    → n.rest_size ≤ base
    → length new ≤ n.rest_size
    → filled base (fill_node base n new) ≡ filled base n ++ new
filled-fill_node base n new len rest fits =
    let start = base - n.rest_size in
    let tail = drop (start + length new) n.cells in
    let e : base - (n.rest_size - length new) ≡ length (take start n.cells) + length new =
      omega (arith, length-take start n.cells) in
    rw e (
      take_past (length new) (take start n.cells) (new ++ tail)
      ∙ ap (◌++◌ (take start n.cells)) (
          take_within (length new) new tail (omega arith)
          ∙ take_all (length new) new (omega arith)))

pub length-fill_node :
    (base : ℕ) (n : Node) (new : List Cell)
    → length n.cells ≡ base
    → n.rest_size ≤ base
    → length new ≤ n.rest_size
    → length (fill_node base n new).cells ≡ base
length-fill_node base n new len rest fits =
    length-splice n.cells (base - n.rest_size) new (omega arith) ∙ len

pub flat-append : (xs ys : List Node) → flat (xs ++ ys) ≡ flat xs ++ flat ys
flat-append [] ys = refl
flat-append (n ∷ xs) ys =
    ap (◌++◌ n.cells) (flat-append xs ys) ∙ sym (append_assoc n.cells (flat xs) (flat ys))
