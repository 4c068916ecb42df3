-- ===== src/Epoll/Blocked.antt =====
-- src/hook.cc: `do_io` over calls that would block.
use sylar_framework.Prelude.{
  ℕ, zero, suc, ◌+◌, ◌≡◌, refl, ap, ◌∙◌, Bool, true, false, List, [], ◌∷◌, ◌++◌, Option, none, some,
  arith, leb, length,
}
use sylar_framework.Epoll.Events.{Interest, EventCtx}
use sylar_framework.Epoll.Hook.{
  Call, bytes, interrupted, would_block, Effect, registers, yields, Caller, Io, wait_effects,
  after_effects, retry, do_io, read_only, write_only,
}

abbrev pub repeat : ℕ → List Effect → List Effect
repeat zero es = []
repeat (suc n) es = es ++ repeat n es

-- Rounds in which a call would block, some of them (`true`) after an interruption, and then a call
-- that transfers bytes.
abbrev pub blocked : List Bool → ℕ → List Call → List Call
blocked [] n cs = bytes n ∷ cs
blocked (true ∷ rounds) n cs = interrupted ∷ would_block ∷ blocked rounds n cs
blocked (false ∷ rounds) n cs = would_block ∷ blocked rounds n cs

-- The effects of every round, and the bytes that are transferred at last.
abbrev pub transferred : List Bool → List Effect → ℕ → Option Io
transferred rounds es n = some (record { result = bytes n; effects = repeat (length rounds) es })

retry-blocked :
    (w : Caller) (rounds : List Bool) (n : ℕ) (cs : List Call)
    → retry w (blocked rounds n cs) ≡ transferred rounds (wait_effects w) n
unfolding retry
retry-blocked w [] n cs = refl
retry-blocked w (true ∷ rounds) n cs =
    ap (after_effects (wait_effects w)) (retry-blocked w rounds n cs)
retry-blocked w (false ∷ rounds) n cs =
    ap (after_effects (wait_effects w)) (retry-blocked w rounds n cs)

-- A coroutine that waits to read, or to write.
abbrev pub to_read : ℕ → ℕ → EventCtx
to_read fd co = record {
  type_ = read_only;
  fd = fd;
  r_callback = none;
  w_callback = none;
  r_co = some co;
  w_co = none;
}

abbrev pub to_write : ℕ → ℕ → EventCtx
to_write fd co = record {
  type_ = write_only;
  fd = fd;
  r_callback = none;
  w_callback = none;
  r_co = none;
  w_co = some co;
}

abbrev pub caller : ℕ → Interest → ℕ → ℕ → Caller
caller fd event co depth = record { fd = fd; event = event; co = co; depth = depth }

-- With the hook enabled, a call that would block any number of times, whether or not an interruption
-- comes before, and then transfers bytes returns these bytes. A reader has by then registered, every
-- time it would block, its own coroutine for a read event of the descriptor, and a writer for a write
-- event; after each registration it has yielded if another coroutine is below it on the stack, and
-- has not if it is the only one.
pub do_io-blocked :
    (fd co d n : ℕ) (rounds : List Bool) (cs : List Call)
    → (do_io true (caller fd read_only co (d + 2)) (blocked rounds n cs)
        ≡ transferred rounds (registers (to_read fd co) ∷ yields ∷ []) n)
      × (do_io true (caller fd write_only co (d + 2)) (blocked rounds n cs)
          ≡ transferred rounds (registers (to_write fd co) ∷ yields ∷ []) n)
      × (do_io true (caller fd read_only co 1) (blocked rounds n cs)
          ≡ transferred rounds (registers (to_read fd co) ∷ []) n)
      × (do_io true (caller fd write_only co 1) (blocked rounds n cs)
          ≡ transferred rounds (registers (to_write fd co) ∷ []) n)
unfolding do_io
do_io-blocked fd co d n rounds cs =
    let deep : leb 2 (d + 2) ≡ true = ground arith in
    (
      retry-blocked (caller fd read_only co (d + 2)) rounds n cs ∙ rw deep refl,
      retry-blocked (caller fd write_only co (d + 2)) rounds n cs ∙ rw deep refl,
      retry-blocked (caller fd read_only co 1) rounds n cs,
      retry-blocked (caller fd write_only co 1) rounds n cs,
    )
