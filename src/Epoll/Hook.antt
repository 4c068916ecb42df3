-- ===== src/Epoll/Hook.antt =====
-- src/hook.cc: `do_io`, which the wrapped system calls go through, and `close`, `sleep`, `usleep`.
use sylar_framework.Prelude.{
  ℕ, ◌*◌, ◌/◌, ◌%◌, ◌^◌, ◌≡◌, ◌≢◌, refl, sym, ap, ◌∙◌, inl, inr, Bool, true, false, List, [], ◌∷◌,
  ◌++◌, Option, none, some, arith, leb, ◌==◌, if◌then◌else◌, Bool-cases, Option-cases,
}
use sylar_framework.Epoll.Events.{
  Interest, meets, without, is_none, EventCtx, Table, find, cancel_at, cancel_event, find-assign,
  find-erase,
}

-- What a system call gives: a number of bytes, EINTR, EAGAIN or EWOULDBLOCK, or another error.
pub data Call : Type 0 where
  bytes : ℕ → Call
  interrupted would_block failed : Call

-- What `do_io` does besides the calls.
pub data Effect : Type 0 where
  registers : EventCtx → Effect
  yields : Effect

-- Who calls: the descriptor, the events it waits for, the coroutine, and the depth of the stack.
pub record Caller : Type 0 where
  pub fd : ℕ
  pub event : Interest
  pub co : ℕ
  pub depth : ℕ

-- The second call of a round, after an interruption, is not looked at for another one.
pub record Io : Type 0 where
  pub result : Call
  pub effects : List Effect

-- The contexts that the two calls of `RegisterEvent` make up.
abbrev pub read_ctx : Caller → EventCtx
read_ctx w = record {
  type_ = w.event;
  fd = w.fd;
  r_callback = none;
  w_callback = none;
  r_co = some w.co;
  w_co = none;
}

abbrev pub write_ctx : Caller → EventCtx
write_ctx w = record {
  type_ = w.event;
  fd = w.fd;
  r_callback = none;
  w_callback = none;
  r_co = none;
  w_co = some w.co;
}

abbrev pub wait_effects : Caller → List Effect
wait_effects w =
    (if w.event.read then registers (read_ctx w) ∷ [] else [])
    ++ ((if w.event.write then registers (write_ctx w) ∷ [] else [])
        ++ (if leb 2 w.depth then yields ∷ [] else []))

abbrev pub after_effects : List Effect → Option Io → Option Io
after_effects es none = none
after_effects es (some io) = some (record io { effects = es ++ io.effects })

-- `do_io` with the hook enabled, on the results of the calls in
-- the order in which they are made; `none` where there are too few of them.
unfoldable pub retry : Caller → List Call → Option Io
retry w [] = none
retry w (bytes n ∷ cs) = some (record { result = bytes n; effects = [] })
retry w (failed ∷ cs) = some (record { result = failed; effects = [] })
retry w (would_block ∷ cs) = after_effects (wait_effects w) (retry w cs)
retry w (interrupted ∷ []) = none
retry w (interrupted ∷ bytes n ∷ cs) = some (record { result = bytes n; effects = [] })
retry w (interrupted ∷ failed ∷ cs) = some (record { result = failed; effects = [] })
retry w (interrupted ∷ interrupted ∷ cs) = some (record { result = interrupted; effects = [] })
retry w (interrupted ∷ would_block ∷ cs) = after_effects (wait_effects w) (retry w cs)

abbrev pub first_call : List Call → Option Io
first_call [] = none
first_call (c ∷ cs) = some (record { result = c; effects = [] })

-- `do_io`.
unfoldable pub do_io : Bool → Caller → List Call → Option Io
unfolding retry
do_io enabled w cs = if enabled then retry w cs else first_call cs

-- The timers of `sleep` and `usleep`, in milliseconds.
abbrev pub sleep_time : ℕ → ℕ
sleep_time seconds = seconds * 1000 % 2 ^ 32

abbrev pub usleep_time : ℕ → ℕ
usleep_time usec = usec / 1000

abbrev pub read_only : Interest
read_only = record { read = true; write = false }

abbrev pub write_only : Interest
write_only = record { read = false; write = true }

-- `close` with the hook enabled: both kinds of event are cancelled.
unfoldable pub close_events : ℕ → Table → Table
close_events fd t = (cancel_event write_only fd (cancel_event read_only fd t).0).0

result_of : Option Io → Call
result_of none = failed
result_of (some io) = io.result

result-after_effects :
    (es : List Effect) (o : Option Io) → result_of (after_effects es o) ≡ result_of o
unfolding result_of
result-after_effects es none = refl
result-after_effects es (some io) = refl

waits : (w : Caller) (cs : List Call) → result_of (retry w cs) ≢ would_block
unfolding retry result_of
waits w [] e = cc e
waits w (bytes n ∷ cs) e = cc e
waits w (failed ∷ cs) e = cc e
waits w (would_block ∷ cs) e =
    waits w cs (sym (result-after_effects (wait_effects w) (retry w cs)) ∙ e)
waits w (interrupted ∷ []) e = cc e
waits w (interrupted ∷ bytes n ∷ cs) e = cc e
waits w (interrupted ∷ failed ∷ cs) e = cc e
waits w (interrupted ∷ interrupted ∷ cs) e = cc e
waits w (interrupted ∷ would_block ∷ cs) e =
    waits w cs (sym (result-after_effects (wait_effects w) (retry w cs)) ∙ e)

-- With the hook enabled a wrapped call does not return that it would block, whoever calls and
-- whatever the calls below it give.
pub do_io-ne-would_block :
    (w : Caller) (cs : List Call) (io : Io) → do_io true w cs ≡ some io → io.result ≢ would_block
unfolding do_io result_of
do_io-ne-would_block w cs io h e = waits w cs (ap result_of h ∙ e)

-- What a cancellation leaves for its own descriptor.
abbrev after_cancel : Interest → Option EventCtx → Option EventCtx
after_cancel type_ none = none
after_cancel type_ (some c) =
    if meets c.type_ type_
    then (if is_none (without c.type_ type_)
        then none
        else some (record c { type_ = without c.type_ type_ }))
    else some c

find-cancel_event :
    (type_ : Interest) (fd k : ℕ) (t : Table)
    → find k (cancel_event type_ fd t).0
      ≡ (if fd == k then after_cancel type_ (find fd t) else find k t)
unfolding cancel_event cancel_at
find-cancel_event type_ fd k t = elim (Bool-cases (fd == k)) [
  | inl same ↦
      let e : fd ≡ k = ground arith in
      elim (Option-cases (find fd t)) [
        | inl out ↦ rw (same, out) (rw e at out)
        | inr (c, in_) ↦ elim (Bool-cases (meets c.type_ type_)) [
          | inl met ↦ elim (Bool-cases (is_none (without c.type_ type_))) [
            | inl gone ↦ rw (same, in_, met, gone, find-erase, same) refl
            | inr stays ↦ rw (same, in_, met, stays, find-assign, same) refl
          ]
          | inr apart ↦ rw (same, in_, apart) (rw e at in_)
        ]
      ]
  | inr other ↦ elim (Option-cases (find fd t)) [
    | inl out ↦ rw (other, out) refl
    | inr (c, in_) ↦ elim (Bool-cases (meets c.type_ type_)) [
      | inl met ↦ elim (Bool-cases (is_none (without c.type_ type_))) [
        | inl gone ↦ rw (other, in_, met, gone, find-erase, other) refl
        | inr stays ↦ rw (other, in_, met, stays, find-assign, other) refl
      ]
      | inr apart ↦ rw (other, in_, apart) refl
    ]
  ]
]

-- What closing leaves for the descriptor: a context that listens to nothing is not removed.
abbrev pub after_close : Option EventCtx → Option EventCtx
after_close none = none
after_close (some c) = if is_none c.type_ then some c else none

both_cancelled :
    (o : Option EventCtx) → after_cancel write_only (after_cancel read_only o) ≡ after_close o
both_cancelled none = refl
both_cancelled (some c) = bits c.type_.read c.type_.write refl refl
  where
    bits :
        (r w : Bool)
        → c.type_.read ≡ r
        → c.type_.write ≡ w
        → after_cancel write_only (after_cancel read_only (some c)) ≡ after_close (some c)
    bits true true e f = rw (e, f) refl
    bits true false e f = rw (e, f) refl
    bits false true e f = rw (e, f) refl
    bits false false e f = rw (e, f) refl

-- Closing a descriptor with the hook enabled takes its context out of the table, if that listens to
-- anything, and leaves what is registered for every other descriptor.
pub find-close_events :
    (fd k : ℕ) (t : Table)
    → find k (close_events fd t) ≡ (if fd == k then after_close (find fd t) else find k t)
unfolding close_events
find-close_events fd k t =
    let self : (fd == fd) ≡ true = ground arith in
    let t1 = (cancel_event read_only fd t).0 in
    let first : find fd t1 ≡ after_cancel read_only (find fd t) =
      find-cancel_event read_only fd fd t ∙ rw self refl in
    find-cancel_event write_only fd k t1 ∙ (elim (Bool-cases (fd == k)) [
      | inl e ↦ rw e (ap (after_cancel write_only) first ∙ both_cancelled (find fd t))
      | inr e ↦ rw e (find-cancel_event read_only fd k t ∙ rw e refl)
    ])
