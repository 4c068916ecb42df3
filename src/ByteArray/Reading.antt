-- ===== src/ByteArray/Reading.antt =====
-- The loop of `ByteArray::Read` copies a range of the blocks.
use native.Mathlib.Nat.{div-add-mod', mod-lt, div-eq_of_lt-le, div-lt_iff_lt-mul}
use mathlib.Core.Path.{ap₂}
use sylar_framework.Prelude.{
  ℕ, zero, suc, ◌+◌, ◌-◌, ◌*◌, ◌/◌, ◌%◌, ◌≤◌, ◌<◌, ◌≡◌, refl, sym, ap, ◌∙◌, inl, inr, min, List, [],
  ◌∷◌, ◌++◌, arith, length, take, drop, length-drop, take_within, drop_past, drop_within, drop-drop,
  take-add, drop-cons, All, All-drop, ltb, ◌==◌, ==_iff, lt→ltb, if◌then◌else◌, Bool-cases, some,
}
use sylar_framework.ByteArray.Chain.{
  Node, Reader, at, null, done, Cursor, head_node, deref, advance, prepend, slice, read_loop,
}
use sylar_framework.ByteArray.Content.{flat}

-- The node that holds position `pos`, or null past the last one.
abbrev pub place : List Node → ℕ → ℕ → Reader
place nodes base pos = if ltb (pos / base) (length nodes) then at (pos / base) else null

abbrev pub cursor_at : List Node → ℕ → ℕ → Cursor
cursor_at nodes base pos = record { reader = place nodes base pos; read_pos = pos }

abbrev pub IsSized : ℕ → Node → Type 0
IsSized base n = length n.cells ≡ base

drop-flat :
    (base : ℕ) (nodes : List Node) (i off : ℕ)
    → All (IsSized base) nodes
    → i ≤ length nodes
    → drop (i * base + off) (flat nodes) ≡ drop off (flat (drop i nodes))
drop-flat base nodes zero off sized h = let e : 0 * base + off ≡ off = omega arith in rw e refl
drop-flat base [] (suc i) off sized h = absurd (omega arith)
drop-flat base (n ∷ ns) (suc i) off sized h =
    let e : suc i * base + off ≡ length n.cells + (i * base + off) = omega (arith, sized.0) in
    rw e
      (drop_past (i * base + off) n.cells (flat ns) ∙ drop-flat base ns i off sized.1 (omega arith))

-- What one round finds at its node, with the position `pos` inside the list.
record Here (base : ℕ) (nodes : List Node) (pos : ℕ) : Type 0 where
  node : Node
  after : List Node
  inside : pos / base < length nodes
  found : deref nodes (at (pos / base)) ≡ some node
  size : length node.cells ≡ base
  tail : drop pos (flat nodes) ≡ drop (pos % base) node.cells ++ flat after

find-Here :
    (base : ℕ) (nodes : List Node) (pos : ℕ)
    → 0 < base
    → All (IsSized base) nodes
    → pos < length nodes * base
    → Here base nodes pos
unfolding deref head_node
find-Here base nodes pos bp sized h =
    let split = div-add-mod' pos base in
    let small = mod-lt pos bp in
    let i = pos / base in
    let inside : i < length nodes = (div-lt_iff_lt-mul bp).1 h in
    let (n, ns, e, _) = drop-cons i nodes inside in
    let size : length n.cells ≡ base = (rw e at (All-drop (IsSized base) i nodes sized)).0 in
    record {
      node = n;
      after = ns;
      inside = inside;
      found = rw e;
      size = size;
      tail =
          ap (λ p. drop p (flat nodes)) (sym split)
          ∙ drop-flat base nodes i (pos % base) sized (omega arith)
          ∙ ap (λ l. drop (pos % base) (flat l)) e
          ∙ drop_within (pos % base) n.cells (flat ns) (omega arith);
    }

abbrev sz : ℕ → ℕ → ℕ → ℕ
sz base pos k = min (base - pos % base) k

next_place :
    (base : ℕ) (nodes : List Node) (pos k : ℕ)
    → 0 < base
    → pos / base < length nodes
    → (if pos % base + sz base pos k == base
        then advance nodes (at (pos / base))
        else at (pos / base))
      ≡ place nodes base (pos + sz base pos k)
unfolding advance
next_place base nodes pos k bp inside =
    let split = div-add-mod' pos base in
    let small = mod-lt pos bp in
    elim (Bool-cases (pos % base + sz base pos k == base)) [
      | inl edge ↦
          let e : pos % base + sz base pos k ≡ base = (==_iff _ base).0 edge in
          let q : (pos + sz base pos k) / base ≡ suc (pos / base) =
            div-eq_of_lt-le base (omega arith) (omega arith) in
          rw (edge, q) refl
      | inr within ↦
          let short : pos % base + sz base pos k < base = ground arith in
          let q : (pos + sz base pos k) / base ≡ pos / base =
            div-eq_of_lt-le base (omega arith) (omega arith) in
          rw (within, q, lt→ltb (pos / base) (length nodes) inside) refl
    ]

-- One round of the loop, at a node that is there.
read_loop-suc :
    (fuel base : ℕ) (nodes : List Node) (r : Reader) (pos k : ℕ) (n : Node)
    → deref nodes r ≡ some n
    → read_loop (suc fuel) base nodes (record { reader = r; read_pos = pos }) (suc k)
      ≡ prepend (slice (pos % base) (sz base pos (suc k)) n.cells) (
          read_loop fuel base nodes
            (record {
              reader = (if pos % base + sz base pos (suc k) == base then advance nodes r else r);
              read_pos = pos + sz base pos (suc k);
            })
            (suc k - sz base pos (suc k)))
unfolding read_loop
read_loop-suc fuel base nodes r pos k n e = rw (e, read_loop) refl

-- With enough fuel, and a range inside the blocks, the loop copies the range, and leaves the cursor
-- behind it.
pub read_loop-range :
    (fuel base : ℕ) (nodes : List Node) (pos k : ℕ)
    → 0 < base
    → All (IsSized base) nodes
    → k ≤ fuel
    → pos + k ≤ length nodes * base
    → read_loop fuel base nodes (cursor_at nodes base pos) k
      ≡ done (cursor_at nodes base (pos + k), take k (drop pos (flat nodes)))
unfolding read_loop
read_loop-range fuel base nodes pos zero bp sized enough fits =
    let e : pos + 0 ≡ pos = omega arith in rw e refl
read_loop-range zero base nodes pos (suc k) bp sized enough fits = absurd (omega arith)
read_loop-range (suc fuel) base nodes pos (suc k) bp sized enough fits =
    let here = find-Here base nodes pos bp sized (omega arith) in
    let small = mod-lt pos bp in
    let s = sz base pos (suc k) in
    let total : pos + s + (suc k - s) ≡ pos + suc k = omega arith in
    let parts : s + (suc k - s) ≡ suc k = omega arith in
    let whole : take s (drop pos (flat nodes)) ≡ slice (pos % base) s here.node.cells =
      ap (take s) here.tail
      ∙ take_within s (drop (pos % base) here.node.cells) (flat here.after)
          (omega (arith, length-drop (pos % base) here.node.cells, here.size)) in
    let pieces : take (suc k) (drop pos (flat nodes))
        ≡ slice (pos % base) s here.node.cells ++ take (suc k - s) (drop (pos + s) (flat nodes)) =
      ap (λ n. take n (drop pos (flat nodes))) (sym parts)
      ∙ take-add s (suc k - s) (drop pos (flat nodes))
      ∙ ap₂ (λ a b. a ++ take (suc k - s) b) whole (drop-drop s pos (flat nodes)) in
    let at_node : place nodes base pos ≡ at (pos / base) =
      rw (lt→ltb (pos / base) (length nodes) here.inside) refl in
    let rest =
      read_loop-range fuel base nodes (pos + s) (suc k - s) bp sized (omega arith) (omega arith) in
    ap (λ r. read_loop (suc fuel) base nodes (record { reader = r; read_pos = pos }) (suc k))
      at_node
    ∙ read_loop-suc fuel base nodes (at (pos / base)) pos k here.node here.found
    ∙ ap
        (λ r.
          prepend (slice (pos % base) s here.node.cells)
            (read_loop fuel base nodes (record { reader = r; read_pos = pos + s }) (suc k - s)))
        (next_place base nodes pos (suc k) bp here.inside)
    ∙ ap (prepend (slice (pos % base) s here.node.cells)) rest
    ∙ ap₂ (λ p l. done (cursor_at nodes base p, l)) total (sym pieces)
