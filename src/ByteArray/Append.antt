-- ===== src/ByteArray/Append.antt =====
-- `ByteArray::ExtendCapacity` and `ByteArray::Write` as operations on the content.
use native.Mathlib.Nat.{div-add-mod', mod-lt}
use sylar_framework.Prelude.{
  ℕ, ◌+◌, ◌-◌, ◌*◌, ◌≤◌, ◌<◌, ◌≡◌, refl, sym, ap, ◌∙◌, inl, inr, List, [], ◌∷◌, ◌++◌, arith, length,
  length-append, length-replicate, append-nil, ltb, ◌==◌, Bool-cases,
}
use sylar_framework.ByteArray.Chain.{
  Cell, Node, Reader, at, null, ByteArray, done, all_nodes, new_node, round_up, fresh_nodes, detach,
  extend_from, extend_capacity, make_room, finish_write, write_cells, write_loop, write,
}
use sylar_framework.ByteArray.Content.{content, IsValid, fresh_nodes-IsFresh}
use sylar_framework.ByteArray.Writing.{room, write_loop-Written}

abbrev pub with_chain : ByteArray → List Node → ByteArray
with_chain b chain = record b { chain = chain }

-- `RoundUp` gives blocks enough.
round_up-enough : (n m : ℕ) → 0 < m → n ≤ round_up n m * m
round_up-enough n m pos = omega (arith, div-add-mod' (n + m - 1) m, mod-lt (n + m - 1) pos)

-- What an extension keeps.
record Extended (b : ByteArray) (delta : ℕ) (b' : ByteArray) : Type 0 where
  pub valid : IsValid b'
  pub same_content : content b' ≡ content b
  pub same_base : b'.base_size ≡ b.base_size
  pub same_before : b'.before ≡ b.before
  pub same_pos : b'.read_pos ≡ b.read_pos
  pub enough : delta ≤ room b'.base_size b'.chain
  pub same_reader : (i : ℕ) → b.reader ≡ at i → i ≤ length b.before → b'.reader ≡ at i
  pub stays_null : b.reader ≡ null → b'.reader ≡ null
  pub grows : b.capacity ≤ b'.capacity

-- A reader at a node that stays is not moved.
detach-before :
    {r : Reader} {i w : ℕ} (nodes : List Node) → r ≡ at i → i < w → detach r w nodes ≡ at i
unfolding detach
detach-before {r} {i} {w} nodes e h = rw (e, detach) (ground arith)

extend_from-Extended :
    (b : ByteArray) (chain : List Node) (delta : ℕ)
    → IsValid (with_chain b chain)
    → Extended
        (with_chain b chain)
        delta
        (extend_from (with_chain b chain) (round_up delta b.base_size) chain)
unfolding extend_from detach
extend_from-Extended b [] delta v = absurd v.ahead
extend_from-Extended b (n ∷ ns) delta v =
    let count = round_up delta b.base_size in
    let big = round_up-enough delta b.base_size v.base_pos in
    elim (Bool-cases (count == 0)) [
      | inl none_needed ↦
          let e : count ≡ 0 = ground arith in
          rw none_needed (record {
            valid = v;
            same_content = refl;
            same_base = refl;
            same_before = refl;
            same_pos = refl;
            enough = omega (arith, ap (λ (t : ℕ). t * b.base_size) e);
            same_reader = λ i r h. r;
            stays_null = λ r. r;
            grows = omega arith;
          })
      | inr some_needed ↦ rw some_needed (record {
        valid = record {
          base_pos = v.base_pos;
          behind = v.behind;
          ahead = (v.ahead.0, v.ahead.1, fresh_nodes-IsFresh count b.base_size);
          covered = omega (
            arith,
            v.covered,
            ap (λ (t : ℕ). t * b.base_size) (length-append b.before (n ∷ ns)),
            ap (λ (t : ℕ). t * b.base_size)
                (length-append b.before (n ∷ fresh_nodes count b.base_size)),
            ap (λ (t : ℕ). t * b.base_size) (length-replicate count (new_node b.base_size)),
          );
        };
        same_content = refl;
        same_base = refl;
        same_before = refl;
        same_pos = refl;
        enough = omega (
          arith,
          big,
          ap (λ (t : ℕ). t * b.base_size) (length-replicate count (new_node b.base_size)),
        );
        same_reader = λ i r h. detach-before (all_nodes (with_chain b (n ∷ ns))) r (omega arith);
        stays_null = λ r. rw (r, detach) refl;
        grows = omega arith;
      })
    ]

-- An extension of a valid array gives an `Extended` one.
extend_capacity-Extended :
    (b : ByteArray) (delta : ℕ) → IsValid b → Extended b delta (extend_capacity b delta)
unfolding extend_capacity
extend_capacity-Extended b delta v = extend_from-Extended b b.chain delta v

-- What a write leaves behind it.
pub record Appended (b : ByteArray) (cs : List Cell) (b' : ByteArray) : Type 0 where
  pub returns : write b cs ≡ done b'
  pub valid : IsValid b'
  pub holds : content b' ≡ content b ++ cs
  pub same_base : b'.base_size ≡ b.base_size
  pub same_pos : b'.read_pos ≡ b.read_pos
  pub moves_on : length b.before ≤ length b'.before
  pub same_reader : (i : ℕ) → b.reader ≡ at i → i ≤ length b.before → b'.reader ≡ at i
  pub stays_null : b.reader ≡ null → b'.reader ≡ null
  pub grows : b.capacity ≤ b'.capacity

make_room-Extended :
    (b : ByteArray) (chain : List Node) (size : ℕ)
    → IsValid (with_chain b chain)
    → Extended (with_chain b chain) size (make_room (with_chain b chain) size chain)
unfolding make_room
make_room-Extended b [] size v = absurd v.ahead
make_room-Extended b (n ∷ ns) size v = elim (Bool-cases (ltb n.rest_size size)) [
  | inl small ↦ rw small (extend_capacity-Extended (with_chain b (n ∷ ns)) size v)
  | inr fits ↦ rw fits (record {
    valid = v;
    same_content = refl;
    same_base = refl;
    same_before = refl;
    same_pos = refl;
    enough = let h : size ≤ n.rest_size = ground arith in omega arith;
    same_reader = λ i r h. r;
    stays_null = λ r. r;
    grows = omega arith;
  })
]

-- The loop at work on an array that has room.
loop-Appended :
    (b : ByteArray) (cs : List Cell)
    → IsValid b
    → length cs ≤ room b.base_size b.chain
    → (b' : ByteArray) × (finish_write b (write_loop b.base_size b.before b.chain cs) ≡ done b')
      × IsValid b'
      × (content b' ≡ content b ++ cs)
      × (length b.before ≤ length b'.before)
      × (b'.base_size ≡ b.base_size)
      × (b'.read_pos ≡ b.read_pos)
      × (b'.reader ≡ b.reader)
      × (b'.capacity ≡ b.capacity)
unfolding finish_write
loop-Appended b cs v fits =
    let (before, chain, w) =
      write_loop-Written b.base_size b.before b.chain cs v.behind v.ahead fits in
    (
      record b { before = before; chain = chain },
      rw w.returns refl,
      record {
        base_pos = v.base_pos;
        behind = w.behind;
        ahead = w.ahead;
        covered = omega (arith, v.covered, ap (λ (t : ℕ). t * b.base_size) w.same_nodes);
      },
      w.holds,
      w.moves_on,
      refl,
      refl,
      refl,
      refl,
    )

write_cells-Appended :
    (b : ByteArray) (chain : List Node) (cs : List Cell)
    → IsValid (with_chain b chain)
    → (b' : ByteArray) × (write_cells (with_chain b chain) chain cs ≡ done b')
      × IsValid b'
      × (content b' ≡ content (with_chain b chain) ++ cs)
      × (b'.base_size ≡ b.base_size)
      × (b'.read_pos ≡ b.read_pos)
      × (length b.before ≤ length b'.before)
      × ((i : ℕ) → b.reader ≡ at i → i ≤ length b.before → b'.reader ≡ at i)
      × (b.reader ≡ null → b'.reader ≡ null)
      × (b.capacity ≤ b'.capacity)
unfolding write_cells
write_cells-Appended b [] cs v = absurd v.ahead
write_cells-Appended b (n ∷ ns) [] v = (
  with_chain b (n ∷ ns),
  refl,
  v,
  sym (append-nil _),
  refl,
  refl,
  omega arith,
  λ i r h. r,
  λ r. r,
  omega arith,
)
write_cells-Appended b (n ∷ ns) (c ∷ cs) v =
    let size = length (c ∷ cs) in
    let x = make_room-Extended b (n ∷ ns) size v in
    let (b', returns, valid, holds, moves_on, base, pos, reader, cap) =
      loop-Appended (make_room (with_chain b (n ∷ ns)) size (n ∷ ns)) (c ∷ cs) x.valid x.enough in
    (
      b',
      returns,
      valid,
      holds ∙ ap (λ l. l ++ c ∷ cs) x.same_content,
      base ∙ x.same_base,
      pos ∙ x.same_pos,
      omega (arith, moves_on, ap length x.same_before),
      λ i r h. reader ∙ x.same_reader i r h,
      λ r. reader ∙ x.stays_null r,
      omega (arith, cap, x.grows),
    )

-- Every write to a valid array leaves an `Appended` one.
pub write-Appended :
    (b : ByteArray) (cs : List Cell) → IsValid b → (b' : ByteArray) × Appended b cs b'
unfolding write
write-Appended b cs v =
    let (b', returns, valid, holds, base, pos, moves_on, reader, stays_null, grows) =
      write_cells-Appended b b.chain cs v in
    (
      b',
      record {
        returns = returns;
        valid = valid;
        holds = holds;
        same_base = base;
        same_pos = pos;
        moves_on = moves_on;
        same_reader = reader;
        stays_null = stays_null;
        grows = grows;
      },
    )

-- Every write to a valid array ends, keeps it valid, and appends the buffer to the content,
-- whatever the sizes of the buffer and of the blocks; the read position stays, and the capacity
-- does not shrink.
pub write-content :
    (b : ByteArray) (cs : List Cell)
    → IsValid b
    → (b' : ByteArray) × (write b cs ≡ done b')
      × IsValid b'
      × (content b' ≡ content b ++ cs)
      × (b'.read_pos ≡ b.read_pos)
      × (b.capacity ≤ b'.capacity)
write-content b cs v =
    let (b', w) = write-Appended b cs v in (b', w.returns, w.valid, w.holds, w.same_pos, w.grows)

-- An extension of a valid array keeps it valid, keeps the content and the read position, and
-- leaves room for at least `delta` bytes from the write cursor on.
pub extend_capacity-content :
    (b : ByteArray) (delta : ℕ)
    → IsValid b
    → IsValid (extend_capacity b delta)
      × (content (extend_capacity b delta) ≡ content b)
      × ((extend_capacity b delta).read_pos ≡ b.read_pos)
      × (delta ≤ room (extend_capacity b delta).base_size (extend_capacity b delta).chain)
extend_capacity-content b delta v =
    let x = extend_capacity-Extended b delta v in (x.valid, x.same_content, x.same_pos, x.enough)
