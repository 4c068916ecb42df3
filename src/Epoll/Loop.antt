-- ===== src/Epoll/Loop.antt =====
-- src/coroutine.cc: what one event makes `Schedule::Eventloop` run. The callbacks and coroutines
-- that are run are taken not to change the context of the event that is handled.
use sylar_framework.Prelude.{
  ℕ, ◌≡◌, refl, inl, inr, Bool, true, false, List, [], ◌∷◌, ◌++◌, Option, none, some, arith, min,
  ◌+◌, ◌==◌, if◌then◌else◌, Option-cases, Bool-cases, ap, ◌∙◌,
}
use sylar_framework.Epoll.Events.{
  Interest, is_none, meets, EventCtx, Ctl, UserData, descriptor, address, Table, find, assign,
  register_at, register_event, find-assign,
}

pub data Action : Type 0 where
  calls resumes : ℕ → Action

-- A callback goes before a coroutine.
unfoldable pub run : Option ℕ → Option ℕ → List Action
run (some f) co = calls f ∷ []
run none (some c) = resumes c ∷ []
run none none = []

abbrev pub run_ctx : Interest → EventCtx → List Action
run_ctx got c =
    (if got.read then run c.r_callback c.r_co else [])
    ++ (if got.write then run c.w_callback c.w_co else [])

-- The descriptor of an event; the low half of an address is read as one.
abbrev pub descriptor_of : ℕ → UserData → ℕ
descriptor_of low (descriptor fd) = fd
descriptor_of low address = low

-- A context that is null is used where there is something to read or to write.
unfoldable pub run_found : Interest → Option EventCtx → Option (List Action)
run_found got none = if is_none got then some [] else none
run_found got (some c) = some (run_ctx got c)

-- One round of the loop over the events: `none` is the use of a null context. The null context that
-- is put in the table for a descriptor that is not in it is left out.
unfoldable pub handle_event : ℕ → UserData → Interest → Table → Option (List Action)
unfolding run_found
handle_event low user got t = run_found got (find (descriptor_of low user) t)

handle_found :
    (low fd : ℕ) (got : Interest) (c : EventCtx) (t : Table)
    → find fd t ≡ some c
    → handle_event low (descriptor fd) got t ≡ some (run_ctx got c)
unfolding handle_event run_found
handle_found low fd got c t h = ap (run_found got) h

assigned_runs :
    (low fd : ℕ) (got : Interest) (c : EventCtx) (t : Table)
    → handle_event low (descriptor fd) got (assign fd c t) ≡ some (run_ctx got c)
assigned_runs low fd got c t =
    let self : (fd == fd) ≡ true = ground arith in
    handle_found low fd got c _ (find-assign fd fd c t ∙ rw self refl)

unfoldable pub is_heard : Option Ctl → Bool
is_heard none = false
is_heard (some c) = true

unfoldable pub heard_as : ℕ → Option Ctl → UserData
heard_as fd none = descriptor fd
heard_as fd (some c) = c.user

-- What is to be run for one kind of event: nothing where it has not come; where it has, the callback
-- alone if there is one, without one the coroutine if there is one, and nothing without both.
abbrev pub Ran : Bool → Option ℕ → Option ℕ → List Action → Type 0
Ran false callback co as_ = as_ ≡ []
Ran true (some f) co as_ = as_ ≡ calls f ∷ []
Ran true none (some c) as_ = as_ ≡ resumes c ∷ []
Ran true none none as_ = as_ ≡ []

-- The reads go before the writes.
abbrev pub RanFor : Interest → EventCtx → List Action → Type 0
RanFor got c as_ =
    (reads : List Action) × (writes : List Action) × (as_ ≡ reads ++ writes)
    × Ran got.read c.r_callback c.r_co reads
    × Ran got.write c.w_callback c.w_co writes

run-Ran :
    (ready : Bool) (callback co : Option ℕ)
    → Ran ready callback co (if ready then run callback co else [])
unfolding run
run-Ran false callback co = refl
run-Ran true (some f) co = refl
run-Ran true none (some c) = refl
run-Ran true none none = refl

run_ctx-RanFor : (got : Interest) (c : EventCtx) → RanFor got c (run_ctx got c)
run_ctx-RanFor got c =
    (_, _, refl, run-Ran got.read c.r_callback c.r_co, run-Ran got.write c.w_callback c.w_co)

registered_runs :
    (low : ℕ) (got : Interest) (c : EventCtx) (t : Table)
    → is_heard (register_event c t).1 ≡ true
    → handle_event low (heard_as c.fd (register_event c t).1) got (register_event c t).0
      ≡ some (run_ctx got c)
unfolding register_event register_at is_heard heard_as
registered_runs low got c t heard = elim (Option-cases (find c.fd t)) [
  | inl e ↦ rw e (assigned_runs low c.fd got c t)
  | inr (old, e) ↦ elim (Bool-cases (meets old.type_ c.type_)) [
    | inl clash ↦ cc (rw (e, clash) at heard)
    | inr free ↦ rw (e, free) (assigned_runs low c.fd got (record c { fd = old.fd }) t)
  ]
]

-- Where a registration reaches the kernel, an event that comes back with the data which was passed
-- on runs what has been registered, in a table that has had any contexts before: for a read event the
-- callback alone if there is one, without one the coroutine if there is one, and else nothing; then
-- the same for a write event; and nothing for a kind of event that has not come.
pub handle_event-register_event :
    (low : ℕ) (got : Interest) (c : EventCtx) (t : Table)
    → is_heard (register_event c t).1 ≡ true
    → (as_ : List Action) × (handle_event low
          (heard_as c.fd (register_event c t).1)
          got
          (register_event c t).0
        ≡ some as_)
      × RanFor got c as_
handle_event-register_event low got c t heard =
    (run_ctx got c, registered_runs low got c t heard, run_ctx-RanFor got c)

-- `MAX_TIMEOUT`, in milliseconds.
abbrev pub max_timeout : ℕ
max_timeout = 1000

-- The timeout of `epoll_wait`.
unfoldable pub wait_time : ℕ → ℕ
wait_time interval = if interval == 0 then max_timeout else min (interval + 1) max_timeout
