-- ===== src/Coroutine/Reach.antt =====
-- src/coroutine.cc: the states that a thread's scheduler can reach, by coroutines that are created,
-- resumed, yield and end in any order.
use mathlib.Core.Path.{subst}
use sylar_framework.Prelude.{
  ℕ, suc, ◌-◌, ◌<◌, ◌≡◌, ◌≢◌, refl, sym, ap, ◌∙◌, inl, inr, true, false, List, [], ◌∷◌, some, arith,
  length, ltb, ◌==◌, if◌then◌else◌, Bool-cases,
}
use sylar_framework.Coroutine.Schedule.{
  CoState, ready, running, terminal, States, update, Schedule, Switch, to, init, create, slot,
  resume, mark_resumed, leave, yield_to, yield_, finish_to, finish,
}

-- One call that hands control over, or that makes a coroutine.
pub data Step (s t : Schedule) : Type 0 where
  creates : t ≡ create s → Step s t
  resumes : (c : ℕ) → resume c s ≡ to t → Step s t
  yields : yield_ s ≡ to t → Step s t
  finishes : s.running_co ≢ 0 → finish s ≡ to t → Step s t

pub data Reach : Schedule → Type 0 where
  start : Reach init
  later : {s t : Schedule} → Reach s → Step s t → Reach t

-- The main coroutine stands at the bottom of the stack, and nowhere else.
abbrev pub IsStack : List ℕ → Type 0
IsStack [] = ⊥
IsStack (c ∷ []) = c ≡ 0
IsStack (c ∷ d ∷ cs) = (c ≢ 0) × IsStack (d ∷ cs)

abbrev pub IsTop : List ℕ → ℕ → Type 0
IsTop [] c = ⊥
IsTop (d ∷ ds) c = d ≡ c

pub record IsWell (s : Schedule) : Type 0 where
  pub bottom : IsStack s.stack
  pub current : IsTop s.stack s.running_co
  pub counted : s.stack_top ≡ length s.stack
  pub main_runs : s.states 0 ≡ running
  pub given_out : 0 < s.created

init-IsWell : IsWell init
init-IsWell = record {
  bottom = refl;
  current = refl;
  counted = refl;
  main_runs = refl;
  given_out = omega arith;
}

create-IsWell : (s : Schedule) → IsWell s → IsWell (create s)
unfolding create
create-IsWell s w = record {
  bottom = w.bottom;
  current = w.current;
  counted = w.counted;
  main_runs = let e : (s.created == 0) ≡ false = ground (arith, w.given_out) in rw e w.main_runs;
  given_out = omega arith;
}

-- A coroutine that can be resumed is not the main one.
pub ready_ne_main : (s : Schedule) (c : ℕ) → IsWell s → s.states c ≡ ready → c ≢ 0
ready_ne_main s c w r e = cc (w.main_runs, ap s.states e)

-- A call of `Resume` that hands control over.
pub record Resumed (c : ℕ) (s t : Schedule) : Type 0 where
  pub was_ready : s.states c ≡ ready
  pub was_running : s.states s.running_co ≡ running
  pub result : t ≡ record s {
    stack = c ∷ s.stack;
    stack_top = suc s.stack_top;
    running_co = c;
    states = mark_resumed s c;
  }

abbrev pub target : Schedule → Switch → Schedule
target d (to t) = t
target d _ = d

-- Above the bottom of the stack stands no main coroutine.
pub deep_ne_main : (l : List ℕ) (c : ℕ) → ltb 1 (length l) ≡ true → IsStack l → IsTop l c → c ≢ 0
deep_ne_main [] c deep b top e = b
deep_ne_main (d ∷ []) c deep b top e = cc deep
deep_ne_main (d ∷ f ∷ ds) c deep b top e = b.0 (top ∙ e)

resume_at :
    (c : ℕ) (s t : Schedule) (a b : CoState)
    → s.states c ≡ a
    → s.states s.running_co ≡ b
    → resume c s ≡ to t
    → Resumed c s t
unfolding resume
resume_at c s t ready running p q h = record {
  was_ready = p;
  was_running = q;
  result = sym (ap (target t) (rw (p, q) at h));
}
resume_at c s t ready ready p q h = cc (rw (p, q) at h)
resume_at c s t ready terminal p q h = cc (rw (p, q) at h)
resume_at c s t running b p q h = cc (rw p at h)
resume_at c s t terminal b p q h = cc (rw p at h)

pub resume-Resumed : (c : ℕ) (s t : Schedule) → resume c s ≡ to t → Resumed c s t
resume-Resumed c s t h = resume_at c s t (s.states c) (s.states s.running_co) refl refl h

Resumed-IsWell : (c : ℕ) (s t : Schedule) → IsWell s → Resumed c s t → IsWell t
Resumed-IsWell c s t w r =
    let ne = ready_ne_main s c w r.was_ready in
    let other : (c == 0) ≡ false = ground arith in
    subst IsWell (sym r.result) (record {
      bottom = push_stack s.stack ne w.bottom;
      current = refl;
      counted = ap suc w.counted;
      main_runs = rw other (marked s w);
      given_out = w.given_out;
    })
  where
    push_stack : (l : List ℕ) → c ≢ 0 → IsStack l → IsStack (c ∷ l)
    push_stack [] ne b = absurd b
    push_stack (d ∷ ds) ne b = (ne, b)

    -- With more than one coroutine on the stack the caller is not the main one.
    marked :
        (s : Schedule)
        → IsWell s
        → (if ltb 1 (length s.stack) then update s.states s.running_co ready else s.states) 0
          ≡ running
    marked s w = elim (Bool-cases (ltb 1 (length s.stack))) [
      | inl deep ↦
          let e : (s.running_co == 0) ≡ false =
            let n = deep_ne_main s.stack s.running_co deep w.bottom w.current in ground arith in
          rw (deep, e) w.main_runs
      | inr flat ↦ rw flat w.main_runs
    ]

slot_first : (c d : ℕ) (ds : List ℕ) → slot (length (c ∷ d ∷ ds) - 1) (c ∷ d ∷ ds) ≡ some c
slot_first c d ds =
    let n = length (d ∷ ds) in
    let e : suc n - 1 ≡ n = omega arith in
    let f : ltb n (suc n) ≡ true = ground arith in
    let g : suc n - suc n ≡ 0 = omega arith in rw (e, f, g) refl

slot_second : (c d : ℕ) (ds : List ℕ) → slot (length (c ∷ d ∷ ds) - 2) (c ∷ d ∷ ds) ≡ some d
slot_second c d ds =
    let n = length ds in
    let e : suc (suc n) - 2 ≡ n = omega arith in
    let f : ltb n (suc (suc n)) ≡ true = ground arith in
    let g : suc (suc n) - suc n ≡ suc 0 = omega arith in rw (e, f, g) refl

module _ (s : Schedule) (w : IsWell s) (c d : ℕ) (ds : List ℕ) (e : s.stack ≡ c ∷ d ∷ ds) where
  slots : (slot (s.stack_top - 1) s.stack ≡ some c) × (slot (s.stack_top - 2) s.stack ≡ some d)
  slots =
      let n : s.stack_top ≡ length (c ∷ d ∷ ds) = w.counted ∙ ap length e in
      rw (n, e) (slot_first c d ds, slot_second c d ds)

  pub runs_first : s.running_co ≡ c
  runs_first = sym (subst (λ l. IsTop l s.running_co) e w.current)

  pub first_ne_main : c ≢ 0
  first_ne_main = (subst IsStack e w.bottom).0

  -- With two coroutines on the stack `Yield` hands control to the second.
  pub yield-leave : yield_ s ≡ to (leave s d (update (update s.states c ready) d running))
  unfolding yield_ yield_to
  yield-leave =
      let deep : ltb (length s.stack) 2 ≡ false =
        let n : length s.stack ≡ suc (suc (length ds)) = ap length e in ground arith in
      rw deep (rw (slots.0, slots.1) refl)

  pub finish-leave : finish s ≡ to (leave s d (update s.states c terminal))
  unfolding finish finish_to
  finish-leave = rw (slots.0, slots.1, runs_first) refl

  leave-IsWell : (f : States) → f 0 ≡ running → IsWell (leave s d f)
  leave-IsWell f main = record {
    bottom = rw e (subst IsStack e w.bottom).1;
    current = rw e refl;
    counted =
        let n : s.stack_top ≡ suc (suc (length ds)) = w.counted ∙ ap length e in
        rw e (omega (arith, n));
    main_runs = main;
    given_out = w.given_out;
  }

  yield-IsWell_at : (t : Schedule) → yield_ s ≡ to t → IsWell t
  yield-IsWell_at t h = subst IsWell (ap (target t) (sym yield-leave ∙ h)) (
      leave-IsWell _ (
        let other : (c == 0) ≡ false = let ne = first_ne_main in ground arith in
        elim (Bool-cases (d == 0)) [
          | inl main ↦ rw main refl
          | inr apart ↦ rw (apart, other) w.main_runs
        ]))

  finish-IsWell_at : (t : Schedule) → finish s ≡ to t → IsWell t
  finish-IsWell_at t h = subst IsWell (ap (target t) (sym finish-leave ∙ h)) (
      leave-IsWell _ (
        let other : (c == 0) ≡ false = let ne = first_ne_main in ground arith in
        rw other w.main_runs))

yield-IsWell : (s t : Schedule) (l : List ℕ) → s.stack ≡ l → IsWell s → yield_ s ≡ to t → IsWell t
unfolding yield_
yield-IsWell s t [] e w h = absurd (subst IsStack e w.bottom)
yield-IsWell s t (c ∷ []) e w h = cc (rw e at h)
yield-IsWell s t (c ∷ d ∷ ds) e w h = yield-IsWell_at s w c d ds e t h

finish-IsWell :
    (s t : Schedule) (l : List ℕ)
    → s.stack ≡ l
    → IsWell s
    → s.running_co ≢ 0
    → finish s ≡ to t
    → IsWell t
finish-IsWell s t [] e w ne h = absurd (subst IsStack e w.bottom)
finish-IsWell s t (c ∷ []) e w ne h =
    absurd (ne (sym (subst (λ l. IsTop l s.running_co) e w.current) ∙ subst IsStack e w.bottom))
finish-IsWell s t (c ∷ d ∷ ds) e w ne h = finish-IsWell_at s w c d ds e t h

pub Step-IsWell : {s t : Schedule} → Step s t → IsWell s → IsWell t
Step-IsWell {s} (creates e) w = subst IsWell (sym e) (create-IsWell s w)
Step-IsWell {s} {t} (resumes c h) w = Resumed-IsWell c s t w (resume-Resumed c s t h)
Step-IsWell {s} {t} (yields h) w = yield-IsWell s t s.stack refl w h
Step-IsWell {s} {t} (finishes ne h) w = finish-IsWell s t s.stack refl w ne h

-- In every state that a thread reaches, whatever its coroutines do, the stack has the main coroutine
-- at its bottom and nowhere else, its top is the running coroutine, `stack_top_` is its size, and
-- the main coroutine is marked as running.
pub Reach-IsWell : {s : Schedule} → Reach s → IsWell s
Reach-IsWell start = init-IsWell
Reach-IsWell (later r st) = Step-IsWell st (Reach-IsWell r)
