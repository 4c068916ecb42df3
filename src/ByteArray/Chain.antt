-- ===== src/ByteArray/Chain.antt =====
-- src/bytearray.cc: the linked list of blocks of a `ByteArray`, its write and read cursors, and
-- the operations that move raw bytes (`Write`, `Read`, `ExtendCapacity`, `Clear`, `SetAllBits`,
-- `GetBuffer`, `BitsStream`).
--
-- The list that starts at `root_ptr_` is `before ++ chain`, and `write_ptr_` is the first node of
-- `chain`, or null where that is empty. A cell is `none` until it is written: malloc leaves it
-- indeterminate. `read_ptr_` is a node of the list (by its place from the root), null, or a node
-- that the list has dropped, which only the reader still holds, with what follows that node.
use sylar_framework.Prelude.{
  ℕ, zero, suc, ◌+◌, ◌-◌, ◌*◌, ◌/◌, ◌%◌, min, Option, none, some, List, [], ◌∷◌, ◌++◌, length, take,
  drop, replicate, ltb, leb, ◌==◌, if◌then◌else◌,
}

-- One byte of memory.
abbrev pub Cell : Type 0
Cell = Option ℕ

pub record Node : Type 0 where
  pub cells : List Cell
  pub rest_size : ℕ

pub data Reader : Type 0 where
  at : ℕ → Reader
  null : Reader
  dropped : Node → List Node → Reader

pub record ByteArray : Type 0 where
  pub base_size : ℕ
  pub read_pos : ℕ
  pub capacity : ℕ
  pub before : List Node
  pub chain : List Node
  pub reader : Reader

-- `faulted` is a read through a null pointer, `diverged` a loop that has used up its fuel.
pub data Outcome (A : Type 0) : Type 0 where
  done : A → Outcome A
  out_of_range faulted diverged : Outcome A

abbrev pub node_size : ℕ
node_size = 128

-- `Node::Node`.
abbrev pub new_node : ℕ → Node
new_node size = record { cells = replicate size none; rest_size = size }

-- `ByteArray::ByteArray`.
unfoldable pub create : ℕ → ByteArray
create base =
    let size = if ltb base node_size then node_size else base in
    record {
      base_size = size;
      read_pos = 0;
      capacity = size;
      before = [];
      chain = new_node size ∷ [];
      reader = at 0;
    }

-- `RoundUp`.
abbrev pub round_up : ℕ → ℕ → ℕ
round_up n m = (n + m - 1) / m

-- What `tmp->next_ = n_node` leaves of the chain after the node at `tmp`, `count` times.
abbrev pub fresh_nodes : ℕ → ℕ → List Node
fresh_nodes count size = replicate count (new_node size)

abbrev pub all_nodes : ByteArray → List Node
all_nodes b = b.before ++ b.chain

-- The reader after the nodes from place `w` on have been unlinked.
unfoldable pub detach : Reader → ℕ → List Node → Reader
detach (at i) w nodes =
    if ltb i w then at i else elim (drop i nodes) [ [] ↦ null | n ∷ ns ↦ dropped n ns ]
detach null w nodes = null
detach (dropped n ns) w nodes = dropped n ns

-- `ExtendCapacity`. With `node_cnt` 0 nothing is linked. A null `write_ptr_` would be written
-- through; the callers exclude that, and the chain stays empty here.
unfoldable pub extend_from : ByteArray → ℕ → List Node → ByteArray
unfolding detach
extend_from b count [] = b
extend_from b count (n ∷ ns) = if count == 0 then b else record b {
  chain = n ∷ fresh_nodes count b.base_size;
  capacity = b.capacity + count * b.base_size;
  reader = detach b.reader (suc (length b.before)) (all_nodes b);
}

unfoldable pub extend_capacity : ByteArray → ℕ → ByteArray
unfolding extend_from
extend_capacity b delta = extend_from b (round_up delta b.base_size) b.chain

-- `memcpy` of a run of cells to place `start`.
abbrev pub splice : List Cell → ℕ → List Cell → List Cell
splice old start new = take start old ++ (new ++ drop (start + length new) old)

-- The body of the loop of `Write` at a node that has room for `k` cells more of the buffer.
abbrev pub fill_node : ℕ → Node → List Cell → Node
fill_node base n new = record {
  cells = splice n.cells (base - n.rest_size) new;
  rest_size = n.rest_size - length new;
}

-- The loop of `Write`, over what `write_ptr_` leads to. The result is what stays behind the new
-- `write_ptr_`, and what it leads to. At a null pointer with cells left the loop never ends.
unfoldable pub write_loop : ℕ → List Node → List Node → List Cell → Outcome (List Node × List Node)
write_loop base before [] [] = done (before, [])
write_loop base before [] (c ∷ cs) = diverged
write_loop base before (n ∷ ns) [] = done (before, n ∷ ns)
write_loop base before (n ∷ ns) (c ∷ cs) =
    let rest =
      write_loop base (before ++ fill_node base n (take n.rest_size (c ∷ cs)) ∷ []) ns
        (drop n.rest_size (c ∷ cs)) in
    if leb (length (c ∷ cs)) n.rest_size
    then done (before, fill_node base n (c ∷ cs) ∷ ns)
    else rest

-- The early test of `Write` and the extension, before its loop.
unfoldable pub make_room : ByteArray → ℕ → List Node → ByteArray
make_room b size [] = b
make_room b size (n ∷ ns) = if ltb n.rest_size size then extend_capacity b size else b

unfoldable pub finish_write : ByteArray → Outcome (List Node × List Node) → Outcome ByteArray
finish_write b (done (before, chain)) = done (record b { before = before; chain = chain })
finish_write b out_of_range = out_of_range
finish_write b faulted = faulted
finish_write b diverged = diverged

unfoldable pub write_cells : ByteArray → List Node → List Cell → Outcome ByteArray
unfolding make_room finish_write
write_cells b [] cs = done b
write_cells b (n ∷ ns) [] = done b
write_cells b (n ∷ ns) (c ∷ cs) =
    let b' = make_room b (length (c ∷ cs)) (n ∷ ns) in
    finish_write b' (write_loop b'.base_size b'.before b'.chain (c ∷ cs))

-- `Write`.
unfoldable pub write : ByteArray → List Cell → Outcome ByteArray
unfolding write_cells
write b cs = write_cells b b.chain cs

unfoldable pub head_node : List Node → Option Node
head_node [] = none
head_node (n ∷ ns) = some n

-- `*read_ptr_`.
unfoldable pub deref : List Node → Reader → Option Node
unfolding head_node
deref nodes (at i) = head_node (drop i nodes)
deref nodes null = none
deref nodes (dropped n ns) = some n

-- `read_ptr_->next_`.
unfoldable pub advance : List Node → Reader → Reader
advance nodes (at i) = if ltb (suc i) (length nodes) then at (suc i) else null
advance nodes null = null
advance nodes (dropped n []) = null
advance nodes (dropped n (m ∷ ms)) = dropped m ms

pub record Cursor : Type 0 where
  pub reader : Reader
  pub read_pos : ℕ

abbrev pub slice : ℕ → ℕ → List Cell → List Cell
slice start count cells = take count (drop start cells)

unfoldable pub prepend : List Cell → Outcome (Cursor × List Cell) → Outcome (Cursor × List Cell)
prepend cs (done (c, ds)) = done (c, cs ++ ds)
prepend cs out_of_range = out_of_range
prepend cs faulted = faulted
prepend cs diverged = diverged

-- The loop of `Read` over a list of nodes; each round reads at least one byte, so `size` rounds
-- are enough.
unfoldable pub read_loop : ℕ → ℕ → List Node → Cursor → ℕ → Outcome (Cursor × List Cell)
unfolding deref advance prepend
read_loop fuel base nodes c zero = done (c, [])
read_loop zero base nodes c (suc k) = diverged
read_loop (suc fuel) base nodes c (suc k) =
    let start = c.read_pos % base in
    let read_sz = min (base - start) (suc k) in
    let next : Cursor = record {
      reader = (if start + read_sz == base then advance nodes c.reader else c.reader);
      read_pos = c.read_pos + read_sz;
    } in
    let rest = read_loop fuel base nodes next (suc k - read_sz) in
    elim (deref nodes c.reader) [
      | none ↦ faulted
      | some n ↦ prepend (slice start read_sz n.cells) rest
    ]

unfoldable pub finish_read :
    ByteArray → Outcome (Cursor × List Cell) → Outcome (ByteArray × List Cell)
finish_read b (done (c, cs)) = done (record b { reader = c.reader; read_pos = c.read_pos }, cs)
finish_read b out_of_range = out_of_range
finish_read b faulted = faulted
finish_read b diverged = diverged

-- `Read`.
unfoldable pub read : ByteArray → ℕ → Outcome (ByteArray × List Cell)
unfolding finish_read
read b size =
    if ltb b.capacity size
    then out_of_range
    else finish_read b (
        read_loop size b.base_size (all_nodes b)
          (record { reader = b.reader; read_pos = b.read_pos }) size)

-- `Clear`. The capacity keeps its value.
unfoldable pub clear : ByteArray → ByteArray
clear b = record b { read_pos = 0; before = []; chain = new_node b.base_size ∷ []; reader = at 0 }

-- `SetAllBits`, with the cells that the vector points to.
unfoldable pub set_all_bits : ByteArray → List Cell → Outcome ByteArray
unfolding clear
set_all_bits b cs = write (clear b) cs

-- `BitsStream`, over the list from the root: a node with a successor is copied whole, the last
-- one up to its free part.
unfoldable pub stream_of : ℕ → List Node → List Cell
stream_of base [] = []
stream_of base (n ∷ []) = take (base - n.rest_size) n.cells
stream_of base (n ∷ m ∷ ns) = take base n.cells ++ stream_of base (m ∷ ns)

unfoldable pub bits_stream : ByteArray → List Cell
unfolding stream_of
bits_stream b = stream_of b.base_size (all_nodes b)

-- `GetAllBits`: the bytes of the vector that is handed out, a copy of the stream.
abbrev pub get_all_bits : ByteArray → List Cell
get_all_bits b = bits_stream b

-- `GetBuffer`: the length of each vector that is handed out, in order.
unfoldable pub buffer_lengths : ℕ → List Node → List ℕ
buffer_lengths base [] = []
buffer_lengths base (n ∷ ns) =
    (if n.rest_size == 0 then base else base - n.rest_size) ∷ buffer_lengths base ns

unfoldable pub get_buffer : ByteArray → ℕ → ByteArray × List ℕ
unfolding buffer_lengths
get_buffer b size =
    let b' = if ltb b.capacity size then extend_capacity b size else b in
    (b', buffer_lengths b'.base_size (all_nodes b'))
