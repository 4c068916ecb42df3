-- ===== src/Coroutine/Shared.antt =====
-- src/coroutine.cc, `SwapContext`, `SaveStack` and `ResumeStack`, and src/include/coroutine.hh,
-- `StackMem` and `SharedMem`: coroutines that use one stack in turn. A stack's memory is a list of
-- bytes from its low end, and `dummy_` is a place in it. What a coroutine does while it runs is a
-- change of the bytes that is not looked into.
use sylar_framework.Prelude.{
  ℕ, suc, ◌+◌, ◌%◌, ◌≤◌, ◌≡◌, refl, sym, ap, ◌∙◌, true, false, List, ◌++◌, Option, none, some,
  arith, length, take, drop, length-take, length-drop, drop_past, drop_all, append-nil, ◌==◌,
  if◌then◌else◌,
}

abbrev pub change : {A : Type 0} → (ℕ → A) → ℕ → A → ℕ → A
change f i v j = if i == j then v else f j

-- The stack fields of a `Coroutine`: the shared stack that it uses, if any.
pub record Frame : Type 0 where
  pub shared : Option ℕ
  pub dummy : Option ℕ
  pub saved_stack : List ℕ

-- `StackMem`.
pub record StackMem : Type 0 where
  pub occupy_co : Option ℕ
  pub stack_buffer : List ℕ

pub record Memory : Type 0 where
  pub stacks : ℕ → StackMem
  pub frames : ℕ → Frame

-- `SharedMem`, with its stacks numbered.
pub record SharedMem : Type 0 where
  pub count : ℕ
  pub idx : ℕ

-- `GetStackMem`.
abbrev pub get_stack_mem : SharedMem → SharedMem × ℕ
get_stack_mem m = (record m { idx = suc m.idx }, m.idx % m.count)

-- `SaveStack`: `none` is the copy from a null `dummy_`.
unfoldable pub save_stack : List ℕ → Frame → Option ℕ → Option Frame
save_stack buffer f none = none
save_stack buffer f (some d) = some (record f { saved_stack = drop d buffer })

-- `ResumeStack`. A coroutine that has never run has saved no bytes.
unfoldable pub resume_stack : List ℕ → List ℕ → Option ℕ → List ℕ
resume_stack saved buffer none = buffer
resume_stack saved buffer (some d) = take d buffer ++ (saved ++ drop (d + length saved) buffer)

abbrev pub mark_dummy : ℕ → ℕ → Memory → Memory
mark_dummy prev place m = record m {
  frames = change m.frames prev (record (m.frames prev) { dummy = some place });
}

abbrev pub occupy : ℕ → ℕ → Memory → Memory
occupy k next m = record m {
  stacks = change m.stacks k (record (m.stacks k) { occupy_co = some next });
}

unfoldable pub load : ℕ → ℕ → Memory → Memory
unfolding resume_stack
load k next m =
    let f = m.frames next in
    let buffer = resume_stack f.saved_stack (m.stacks k).stack_buffer f.dummy in
    record m { stacks = change m.stacks k (record (m.stacks k) { stack_buffer = buffer }) }

unfoldable pub exchange_with : ℕ → ℕ → ℕ → Memory → Option Frame → Option Memory
unfolding load
exchange_with k old next m none = none
exchange_with k old next m (some f) =
    some (load k next (record m { frames = change m.frames old f }))

-- The occupant, if it is another coroutine, is saved, and the next one is put in its place.
unfoldable pub exchange : ℕ → ℕ → Memory → Option ℕ → Option Memory
unfolding exchange_with save_stack
exchange k next m none = some m
exchange k next m (some old) =
    let swapped =
      exchange_with k old next m
        (save_stack (m.stacks k).stack_buffer (m.frames old) (m.frames old).dummy) in
    if old == next then some m else swapped

unfoldable pub swap_to : ℕ → Memory → Option ℕ → Option Memory
unfolding exchange
swap_to next m none = some m
swap_to next m (some k) = exchange k next (occupy k next m) (m.stacks k).occupy_co

-- `SwapContext` from `prev`, whose stack ends at `place`, to `next`, up to `swapcontext`.
unfoldable pub swap_context : ℕ → ℕ → ℕ → Memory → Option Memory
unfolding swap_to
swap_context prev place next m =
    let m' = mark_dummy prev place m in swap_to next m' (m'.frames next).shared

-- Coroutine `a`, whose stack ends at `d`, is on stack `k`, which `b` uses too; `p` is a third one.
pub record Meets (p a b k d : ℕ) (m : Memory) : Type 0 where
  pub apart : (p == a) ≡ false
  pub apart_next : (p == b) ≡ false
  pub differ : (a == b) ≡ false
  pub occupied : (m.stacks k).occupy_co ≡ some a
  pub uses : (m.frames b).shared ≡ some k
  pub left_at : (m.frames a).dummy ≡ some d

abbrev swapped : ℕ → ℕ → ℕ → ℕ → ℕ → ℕ → Memory → Memory
swapped p place a b k d m =
    let m1 = occupy k b (mark_dummy p place m) in
    load k b (record m1 {
      frames =
          change m1.frames a
            (record (m.frames a) { saved_stack = drop d (m.stacks k).stack_buffer });
    })

saved_frame :
    (a k d : ℕ) (m : Memory) (f : Frame) (buffer : List ℕ)
    → f ≡ m.frames a
    → buffer ≡ (m.stacks k).stack_buffer
    → (m.frames a).dummy ≡ some d
    → save_stack buffer f f.dummy
      ≡ some (record (m.frames a) { saved_stack = drop d (m.stacks k).stack_buffer })
unfolding save_stack
saved_frame a k d m f buffer same_frame same_buffer left_at =
    ap (λ g. save_stack buffer g g.dummy) same_frame
    ∙ ap (λ l. save_stack l (m.frames a) (m.frames a).dummy) same_buffer
    ∙ ap (save_stack (m.stacks k).stack_buffer (m.frames a)) left_at

exchange_other :
    (k b a : ℕ) (m : Memory) (f : Frame)
    → (a == b) ≡ false
    → save_stack (m.stacks k).stack_buffer (m.frames a) (m.frames a).dummy ≡ some f
    → exchange k b m (some a) ≡ some (load k b (record m { frames = change m.frames a f }))
unfolding exchange exchange_with
exchange_other k b a m f differ saves =
    ap
      (λ t.
        if t
        then some m
        else exchange_with k a b m
            (save_stack (m.stacks k).stack_buffer (m.frames a) (m.frames a).dummy))
      differ
    ∙ ap (exchange_with k a b m) saves

swap_context-swapped :
    (p place a b k d : ℕ) (m : Memory)
    → Meets p a b k d m
    → swap_context p place b m ≡ some (swapped p place a b k d m)
unfolding swap_context swap_to
swap_context-swapped p place a b k d m r =
    let m' = mark_dummy p place m in
    let self : (k == k) ≡ true = ground arith in
    let same_b : m'.frames b ≡ m.frames b = rw r.apart_next refl in
    let same_a : m'.frames a ≡ m.frames a = rw r.apart refl in
    let same_buffer : ((occupy k b m').stacks k).stack_buffer ≡ (m.stacks k).stack_buffer =
      rw self refl in
    ap (swap_to b m') (ap (λ f. f.shared) same_b ∙ r.uses)
    ∙ ap (exchange k b (occupy k b m')) r.occupied
    ∙ exchange_other k b a (occupy k b m') _ r.differ
        (saved_frame a k d m (m'.frames a) _ same_a same_buffer r.left_at)

frames-swapped :
    (p place a b k d : ℕ) (m : Memory)
    → (swapped p place a b k d m).frames a
      ≡ record (m.frames a) { saved_stack = drop d (m.stacks k).stack_buffer }
unfolding load
frames-swapped p place a b k d m = let self : (a == a) ≡ true = ground arith in rw self refl

buffer-swapped :
    (p place a b k d : ℕ) (m : Memory)
    → Meets p a b k d m
    → ((swapped p place a b k d m).stacks k).stack_buffer
      ≡ resume_stack (m.frames b).saved_stack (m.stacks k).stack_buffer (m.frames b).dummy
unfolding load
buffer-swapped p place a b k d m r =
    let self : (k == k) ≡ true = ground arith in rw (self, r.differ, r.apart_next) refl

abbrev memory_of : Memory → Option Memory → Memory
memory_of m none = m
memory_of m (some n) = n

-- What was copied away comes back, if the memory has kept its size.
drop-resume_stack :
    (d : ℕ) (old new : List ℕ)
    → length new ≡ length old
    → d ≤ length old
    → drop d (resume_stack (drop d old) new (some d)) ≡ drop d old
unfolding resume_stack
drop-resume_stack d old new same inside =
    let kept : length (take d new) + 0 ≡ d = omega (arith, length-take d new) in
    let end : length new ≤ d + length (drop d old) = omega (arith, length-drop d old) in
    ap (λ n. drop n (take d new ++ (drop d old ++ drop (d + length (drop d old)) new))) (sym kept)
    ∙ drop_past 0 (take d new) _
    ∙ ap (λ l. drop d old ++ l) (drop_all (d + length (drop d old)) new end)
    ∙ append-nil (drop d old)

-- A coroutine `a` that waits while another one, `b`, runs on its stack finds its part of the stack
-- as it left it when it is switched to again: whatever `b` has written there meanwhile, as long as
-- the stack's memory has its size, `b` stands on it, and nobody else touches `a`. The switches are
-- made by a third coroutine.
pub swap_context-back :
    (p place place' a b k d e : ℕ) (m m1 m2 : Memory)
    → Meets p a b k d m
    → swap_context p place b m ≡ some m1
    → Meets p b a k e m2
    → m2.frames a ≡ m1.frames a
    → length (m2.stacks k).stack_buffer ≡ length (m.stacks k).stack_buffer
    → d ≤ length (m.stacks k).stack_buffer
    → (m3 : Memory) × (swap_context p place' a m2 ≡ some m3)
      × (drop d (m3.stacks k).stack_buffer ≡ drop d (m.stacks k).stack_buffer)
swap_context-back p place place' a b k d e m m1 m2 r h r2 kept same inside =
    let m1_is : swapped p place a b k d m ≡ m1 =
      ap (memory_of m1) (sym (swap_context-swapped p place a b k d m r) ∙ h) in
    let frame : m2.frames a
        ≡ record (m.frames a) { saved_stack = drop d (m.stacks k).stack_buffer } =
      kept ∙ ap (λ n. n.frames a) (sym m1_is) ∙ frames-swapped p place a b k d m in
    (
      swapped p place' b a k e m2,
      swap_context-swapped p place' b a k e m2 r2,
      ap (drop d) (
            buffer-swapped p place' b a k e m2 r2
            ∙ ap (λ f. resume_stack f.saved_stack (m2.stacks k).stack_buffer f.dummy) frame
            ∙ ap (resume_stack (drop d (m.stacks k).stack_buffer) (m2.stacks k).stack_buffer)
                r.left_at)
          ∙ drop-resume_stack d (m.stacks k).stack_buffer (m2.stacks k).stack_buffer same inside,
    )
