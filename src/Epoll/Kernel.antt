-- ===== src/Epoll/Kernel.antt =====
-- src/epoll.cc: the calls of `epoll_ctl` keep the kernel's interest list the same as the table.
-- The kernel is a parameter: an interest list that can be looked up, and what epoll_ctl(2)
-- documents of each operation on a descriptor that it may be applied to.
use mathlib.Core.Path.{subst}
use sylar_framework.Prelude.{
  sym, All, ℕ, ◌≡◌, refl, ap, ◌∙◌, inl, inr, Bool, true, false, not, ◌&&◌, ◌||◌, List, [], ◌∷◌,
  Option, none, some, ◌==◌, if◌then◌else◌, Bool-cases, Option-cases,
}
use sylar_framework.Epoll.Events.{
  Interest, meets, without, is_none, both, EventCtx, Op, add, modify, remove, Ctl, Table, find,
  assign, erase, register_at, register_event, register_ctx, cancel_at, cancel_event, find-assign,
  find-erase,
}

pub record InterestList : Type 1 where
  pub State : Type 0
  pub watched : ℕ → State → Option Interest
  pub control : Op → ℕ → Interest → State → State
  pub control_add :
      (fd k : ℕ) (i : Interest) (s : State)
      → watched fd s ≡ none
      → watched k (control add fd i s) ≡ (if fd == k then some i else watched k s)
  pub control_modify :
      (fd k : ℕ) (i j : Interest) (s : State)
      → watched fd s ≡ some j
      → watched k (control modify fd i s) ≡ (if fd == k then some i else watched k s)
  pub control_remove :
      (fd k : ℕ) (i j : Interest) (s : State)
      → watched fd s ≡ some j
      → watched k (control remove fd i s) ≡ (if fd == k then none else watched k s)

abbrev pub interest_of : Option EventCtx → Option Interest
interest_of none = none
interest_of (some c) = some c.type_

assigned :
    (fd k : ℕ) (c : EventCtx) (t : Table) (w : Option Interest)
    → w ≡ interest_of (find k t)
    → (if fd == k then some c.type_ else w) ≡ interest_of (find k (assign fd c t))
assigned fd k c t w same = elim (Bool-cases (fd == k)) [
  | inl e ↦ rw (find-assign, e) refl
  | inr e ↦ rw (find-assign, e) same
]

erased :
    (fd k : ℕ) (t : Table) (w : Option Interest)
    → w ≡ interest_of (find k t)
    → (if fd == k then none else w) ≡ interest_of (find k (erase fd t))
erased fd k t w same = elim (Bool-cases (fd == k)) [
  | inl e ↦ rw (find-erase, e) refl
  | inr e ↦ rw (find-erase, e) same
]

-- Where `CancelEvent` leaves something to listen to, the events that it computes are what is left.
events_left :
    (a b : Interest)
    → meets a b ≡ true
    → is_none (without a b) ≡ false
    → without both b ≡ without a b
events_left a b some_met some_left = bits a.read a.write b.read b.write some_met some_left
  where
    bits :
        (ar aw br bw : Bool)
        → ((ar && br) || (aw && bw)) ≡ true
        → (not (ar && not br) && not (aw && not bw)) ≡ false
        → ◌≡◌ {A = Interest}
            (record { read = not br; write = not bw })
            (record { read = ar && not br; write = aw && not bw })
    bits true true br bw m n = refl
    bits true false true bw m n = cc n
    bits true false false bw m n = cc m
    bits false true br true m n = cc n
    bits false true true false m n = cc m
    bits false true false false m n = cc m
    bits false false br bw m n = cc m

module _ (l : InterestList) where
  open l use {State, watched, control, control_add, control_modify, control_remove}

  -- The call of `epoll_ctl`.
  abbrev pub perform : Option Ctl → State → State
  perform none s = s
  perform (some c) s = control c.op c.fd c.events s

  -- The kernel watches the descriptors of the table, each for what the table says.
  abbrev pub Agrees : Table → State → Type 0
  Agrees t s = (k : ℕ) → watched k s ≡ interest_of (find k t)

  pub register_event-Agrees :
      (c : EventCtx) (t : Table) (s : State)
      → Agrees t s
      → Agrees (register_event c t).0 (perform (register_event c t).1 s)
  unfolding register_event register_at
  register_event-Agrees c t s same k = elim (Option-cases (find c.fd t)) [
    | inl e ↦ rw e (
        control_add c.fd k c.type_ s (same c.fd ∙ ap interest_of e)
        ∙ assigned c.fd k c t (watched k s) (same k))
    | inr (old, e) ↦ rw e (elim (Bool-cases (meets old.type_ c.type_)) [
      | inl clash ↦ rw clash (same k)
      | inr free ↦ rw free (
          control_modify c.fd k c.type_ old.type_ s (same c.fd ∙ ap interest_of e)
          ∙ assigned c.fd k (record c { fd = old.fd }) t (watched k s) (same k))
    ])
  ]

  own_ctx-Agrees :
      (fd : ℕ) (c : EventCtx) (t : Table) (s : State)
      → Agrees t s
      → Agrees (register_ctx c.type_ fd c t).0 (perform (register_ctx c.type_ fd c t).1 s)
  unfolding register_ctx
  own_ctx-Agrees fd c t s same k = elim (Option-cases (find fd t)) [
    | inl e ↦ rw e (
        control_add fd k c.type_ s (same fd ∙ ap interest_of e)
        ∙ assigned fd k c t (watched k s) (same k))
    | inr (old, e) ↦ rw e (
        control_modify fd k c.type_ old.type_ s (same fd ∙ ap interest_of e)
        ∙ assigned fd k c t (watched k s) (same k))
  ]

  pub register_ctx-Agrees :
      (type_ : Interest) (fd : ℕ) (c : EventCtx) (t : Table) (s : State)
      → type_ ≡ c.type_
      → Agrees t s
      → Agrees (register_ctx type_ fd c t).0 (perform (register_ctx type_ fd c t).1 s)
  register_ctx-Agrees type_ fd c t s own same =
      subst (λ i. Agrees (register_ctx i fd c t).0 (perform (register_ctx i fd c t).1 s)) (sym own)
        (own_ctx-Agrees fd c t s same)

  pub cancel_event-Agrees :
      (type_ : Interest) (fd : ℕ) (t : Table) (s : State)
      → Agrees t s
      → Agrees (cancel_event type_ fd t).0 (perform (cancel_event type_ fd t).1 s)
  unfolding cancel_event cancel_at
  cancel_event-Agrees type_ fd t s same k = elim (Option-cases (find fd t)) [
    | inl e ↦ rw e (same k)
    | inr (old, e) ↦ rw e (elim (Bool-cases (meets old.type_ type_)) [
      | inl met ↦ elim (Bool-cases (is_none (without old.type_ type_))) [
        | inl gone ↦
            rw (met, gone)
              (control_remove fd k (without both type_) old.type_ s (same fd ∙ ap interest_of e)
                ∙ erased fd k t (watched k s) (same k))
        | inr stays ↦
            rw (met, stays)
              (control_modify fd k (without both type_) old.type_ s (same fd ∙ ap interest_of e)
                ∙ ap (λ i. if fd == k then some i else watched k s)
                    (events_left old.type_ type_ met stays)
                ∙ assigned fd k (record old { type_ = without old.type_ type_ }) t (watched k s)
                    (same k))
      ]
      | inr apart ↦ rw apart (same k)
    ])
  ]

  -- The calls of the wrapper's clients. A context that is handed over is the value that it has at that
  -- moment: it is taken to stand in the table for this descriptor alone, and not to be changed there
  -- by those who also hold it.
  pub data Request : Type 0 where
    registers : EventCtx → Request
    registers_ctx : Interest → ℕ → EventCtx → Request
    cancels : Interest → ℕ → Request

  abbrev pub serve_one : Request → Table → Table × Option Ctl
  serve_one (registers c) t = register_event c t
  serve_one (registers_ctx type_ fd c) t = register_ctx type_ fd c t
  serve_one (cancels type_ fd) t = cancel_event type_ fd t

  unfoldable pub serve : List Request → Table → State → Table × State
  serve [] t s = (t, s)
  serve (r ∷ rs) t s = serve rs (serve_one r t).0 (perform (serve_one r t).1 s)

  -- A context that is handed over names itself the descriptor and the events that it is registered
  -- for, so that one object is not handed over for two descriptors.
  abbrev pub IsOwn : Request → Type 0
  IsOwn (registers c) = Unit
  IsOwn (registers_ctx type_ fd c) = (type_ ≡ c.type_) × (fd ≡ c.fd)
  IsOwn (cancels type_ fd) = Unit

  -- In whatever order contexts are made up, handed over and cancelled, the kernel goes on watching
  -- exactly the descriptors of the table, each for the events that the table has: where every context
  -- that is handed over names itself the descriptor and the events that it is registered for, and is
  -- not changed, while it is in the table, by those who also hold it.
  pub serve-Agrees :
      (rs : List Request) (t : Table) (s : State)
      → All IsOwn rs
      → Agrees t s
      → Agrees (serve rs t s).0 (serve rs t s).1
  unfolding serve
  serve-Agrees [] t s own same = same
  serve-Agrees (registers c ∷ rs) t s own same =
      serve-Agrees rs _ _ own.1 (register_event-Agrees c t s same)
  serve-Agrees (registers_ctx type_ fd c ∷ rs) t s own same =
      serve-Agrees rs _ _ own.1 (register_ctx-Agrees type_ fd c t s own.0.0 same)
  serve-Agrees (cancels type_ fd ∷ rs) t s own same =
      serve-Agrees rs _ _ own.1 (cancel_event-Agrees type_ fd t s same)
