-- ===== src/ByteArray/Ready.antt =====
-- The abstract queue that a `ByteArray` stands for, and the arrays whose reader is in step with it;
-- a new array and a cleared one are.
use native.Mathlib.Nat.{zero-div}
use sylar_framework.Prelude.{
  ℕ, suc, ◌+◌, ◌-◌, ◌*◌, ◌/◌, ◌≤◌, ◌<◌, ◌≡◌, refl, sym, ap, ◌∙◌, inl, inr, List, [], ◌∷◌, ◌++◌,
  arith, length, take, drop, length-append, length-take, append_assoc, take-append-drop,
  length-replicate, none, All, All-map, All-append, ltb, Bool-cases,
}
use sylar_framework.ByteArray.Chain.{
  Cell, Node, at, ByteArray, all_nodes, create, clear, new_node, node_size,
}
use sylar_framework.ByteArray.Content.{filled, flat, flat-append, content, IsValid, ChainValid}
use sylar_framework.ByteArray.Append.{with_chain}
use sylar_framework.ByteArray.Reading.{IsSized}

-- The abstract queue: all bytes written so far, and how many of them have been read.
pub record Queue : Type 0 where
  pub bytes : List Cell
  pub taken : ℕ

unfoldable pub push : List Cell → Queue → Queue
push cs q = record q { bytes = q.bytes ++ cs }

unfoldable pub pull : ℕ → Queue → Queue × List Cell
pull k q = (record q { taken = q.taken + k }, take k (drop q.taken q.bytes))

-- A valid array whose reader is at the read position, and has not run off a full last block.
pub record IsReady (b : ByteArray) : Type 0 where
  pub valid : IsValid b
  pub in_place : b.reader ≡ at (b.read_pos / b.base_size)
  pub within : b.read_pos < suc (length b.before) * b.base_size
  pub written : b.read_pos ≤ length (content b)

abbrev pub view : ByteArray → Queue
view b = record { bytes = content b; taken = b.read_pos }

-- The nodes of a valid array, all of the block size.
pub nodes-IsSized : (b : ByteArray) → IsValid b → All (IsSized b.base_size) (all_nodes b)
nodes-IsSized b v = go b.chain v.ahead
  where
    full : All (IsSized b.base_size) b.before
    full = All-map (λ n h. h.0) b.before v.behind

    go :
        (chain : List Node)
        → ChainValid b.base_size chain
        → All (IsSized b.base_size) (b.before ++ chain)
    go [] h = absurd h
    go (n ∷ ns) h =
        All-append (IsSized b.base_size) b.before (n ∷ ns) full (h.0, All-map (λ m k. k.0) ns h.2)

pub length-flat :
    (base : ℕ) (ns : List Node) → All (IsSized base) ns → length (flat ns) ≡ length ns * base
length-flat base [] h = omega arith
length-flat base (n ∷ ns) h =
    omega (arith, length-append n.cells (flat ns), length-flat base ns h.1, h.0)

-- The content is the start of the blocks, and ends within the current node.
pub record Covers (b : ByteArray) : Type 0 where
  pub unwritten : List Cell
  pub splits : flat (all_nodes b) ≡ content b ++ unwritten
  pub ends : length (content b) ≤ suc (length b.before) * b.base_size
  pub starts : length b.before * b.base_size ≤ length (content b)
  pub reaches : suc (length b.before) ≤ length (all_nodes b)

pub valid-Covers : (b : ByteArray) → IsValid b → Covers b
valid-Covers b v = go b.chain v
  where
    go : (chain : List Node) → IsValid (with_chain b chain) → Covers (with_chain b chain)
    go [] w = absurd w.ahead
    go (n ∷ ns) w =
        let size = b.base_size - n.rest_size in
        let behind = length-flat b.base_size b.before (All-map (λ m h. h.0) b.before w.behind) in
        record {
          unwritten = drop size n.cells ++ flat ns;
          splits =
              flat-append b.before (n ∷ ns)
              ∙ ap (λ l. flat b.before ++ (l ++ flat ns)) (sym (take-append-drop size n.cells))
              ∙ simp append_assoc;
          ends = omega (
            arith,
            behind,
            w.ahead.0,
            w.ahead.1,
            length-take size n.cells,
            length-append (flat b.before) (filled b.base_size n),
          );
          starts = omega (arith, behind, length-append (flat b.before) (filled b.base_size n));
          reaches = omega (arith, length-append b.before (n ∷ ns));
        }

pub mul-le : (a b c : ℕ) → a ≤ b → a * c ≤ b * c
mul-le a b c h = grind arith

-- An array of one fresh node, with its cursors at the start.
abbrev blank : ℕ → ℕ → ByteArray
blank size capacity = record {
  base_size = size;
  read_pos = 0;
  capacity = capacity;
  before = [];
  chain = new_node size ∷ [];
  reader = at 0;
}

blank-IsReady :
    (size capacity : ℕ)
    → 0 < size
    → size ≤ capacity
    → IsReady (blank size capacity)
      × (content (blank size capacity) ≡ [])
      × ((blank size capacity).read_pos ≡ 0)
blank-IsReady size capacity pos fits =
    let e : size - size ≡ 0 = omega arith in
    (
      record {
        valid = record {
          base_pos = pos;
          behind = tt;
          ahead = (length-replicate size none, omega arith, tt);
          covered = omega arith;
        };
        in_place = ap at (sym (zero-div size));
        within = omega arith;
        written = omega arith;
      },
      rw e refl,
      refl,
    )

-- A new array is ready and empty, whatever size is asked for.
pub create-IsReady :
    (size : ℕ) → IsReady (create size) × (content (create size) ≡ []) × ((create size).read_pos ≡ 0)
unfolding create
create-IsReady size = elim (Bool-cases (ltb size node_size)) [
  | inl small ↦ rw small (blank-IsReady node_size node_size (omega arith) (omega arith))
  | inr large ↦
      let h : node_size ≤ size = ground arith in
      rw large (blank-IsReady size size (omega arith) (omega arith))
]

-- `Clear` empties a valid array and makes it ready, whatever state its reader was in.
pub clear-IsReady :
    (b : ByteArray)
    → IsValid b
    → IsReady (clear b) × (content (clear b) ≡ []) × ((clear b).read_pos ≡ 0)
unfolding clear
clear-IsReady b v = blank-IsReady b.base_size b.capacity v.base_pos (
    omega (
      arith,
      v.covered,
      mul-le 1 (length (all_nodes b)) b.base_size (omega (arith, (valid-Covers b v).reaches)),
    ))
