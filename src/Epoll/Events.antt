-- ===== src/Epoll/Events.antt =====
-- src/epoll.cc: `RegisterEvent` and `CancelEvent`. A function gives the new table and the call of
-- `epoll_ctl` that it makes, if any. Callbacks and coroutines are numbers. The descriptor's
-- `O_NONBLOCK`, which is set first, is left out.
use sylar_framework.Prelude.{
  ℕ, ◌≡◌, refl, arith, Bool, true, not, ◌&&◌, ◌||◌, List, [], ◌∷◌, Option, none, some, ◌==◌,
  if◌then◌else◌,
}

-- `EventType` as a set of bits.
pub record Interest : Type 0 where
  pub read : Bool
  pub write : Bool

abbrev pub meets : Interest → Interest → Bool
meets a b = (a.read && b.read) || (a.write && b.write)

-- `a & ~b`.
abbrev pub without : Interest → Interest → Interest
without a b = record { read = a.read && not b.read; write = a.write && not b.write }

abbrev pub is_none : Interest → Bool
is_none a = not a.read && not a.write

abbrev pub both : Interest
both = record { read = true; write = true }

pub record EventCtx : Type 0 where
  pub type_ : Interest
  pub fd : ℕ
  pub r_callback : Option ℕ
  pub w_callback : Option ℕ
  pub r_co : Option ℕ
  pub w_co : Option ℕ

-- What `epoll_event` carries: the descriptor, or the address of the context.
pub data UserData : Type 0 where
  descriptor : ℕ → UserData
  address : UserData

pub data Op : Type 0 where
  add modify remove : Op

pub record Ctl : Type 0 where
  pub op : Op
  pub fd : ℕ
  pub events : Interest
  pub user : UserData

abbrev pub Table : Type 0
Table = List (ℕ × EventCtx)

unfoldable pub find : ℕ → Table → Option EventCtx
find fd [] = none
find fd ((k, c) ∷ t) = if k == fd then some c else find fd t

-- `reg_event_[fd] = ctx`.
unfoldable pub assign : ℕ → EventCtx → Table → Table
assign fd ctx [] = (fd, ctx) ∷ []
assign fd ctx ((k, c) ∷ t) = if k == fd then (k, ctx) ∷ t else (k, c) ∷ assign fd ctx t

unfoldable pub erase : ℕ → Table → Table
erase fd [] = []
erase fd ((k, c) ∷ t) = if k == fd then erase fd t else (k, c) ∷ erase fd t

unfoldable pub register_at : EventCtx → Table → Option EventCtx → Table × Option Ctl
register_at c t none = (
  assign c.fd c t,
  some (record { op = add; fd = c.fd; events = c.type_; user = descriptor c.fd }),
)
register_at c t (some old) = if meets old.type_ c.type_ then (t, none) else (
  assign c.fd (record c { fd = old.fd }) t,
  some (record { op = modify; fd = c.fd; events = c.type_; user = descriptor c.fd }),
)

-- `RegisterEvent` with callbacks and coroutines: the context that they make up.
unfoldable pub register_event : EventCtx → Table → Table × Option Ctl
unfolding register_at
register_event c t = register_at c t (find c.fd t)

abbrev pub op_for : Option EventCtx → Op
op_for none = add
op_for (some c) = modify

-- `RegisterEvent` with a context of the caller's.
unfoldable pub register_ctx : Interest → ℕ → EventCtx → Table → Table × Option Ctl
register_ctx type_ fd c t = (
  assign fd c t,
  some (record { op = op_for (find fd t); fd = fd; events = type_; user = address }),
)

unfoldable pub cancel_at : Interest → ℕ → Table → Option EventCtx → Table × Option Ctl
cancel_at type_ fd t none = (t, none)
cancel_at type_ fd t (some c) =
    let left = without c.type_ type_ in
    let events = without both type_ in
    if meets c.type_ type_
    then (if is_none left
        then (erase fd t, some (record { op = remove; fd = fd; events = events; user = address }))
        else (
          assign fd (record c { type_ = left }) t,
          some (record { op = modify; fd = fd; events = events; user = address }),
        ))
    else (t, none)

-- `CancelEvent`.
unfoldable pub cancel_event : Interest → ℕ → Table → Table × Option Ctl
unfolding cancel_at
cancel_event type_ fd t = cancel_at type_ fd t (find fd t)

pub find-assign :
    (k fd : ℕ) (c : EventCtx) (t : Table)
    → find k (assign fd c t) ≡ (if fd == k then some c else find k t)
unfolding find assign
find-assign k fd c [] = refl
find-assign k fd c ((i, d) ∷ t) = ground (arith, find-assign k fd c t)

pub find-erase : (k fd : ℕ) (t : Table) → find k (erase fd t) ≡ (if fd == k then none else find k t)
unfolding find erase
find-erase k fd [] = ground arith
find-erase k fd ((i, d) ∷ t) = ground (arith, find-erase k fd t)
