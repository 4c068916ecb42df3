-- ===== src/Coroutine/Nested.antt =====
-- src/coroutine.cc: a coroutine that is resumed and yields, and one that is resumed and ends.
use mathlib.Core.Path.{subst}
use sylar_framework.Prelude.{
  ℕ, suc, ◌-◌, ◌≡◌, ◌≢◌, refl, sym, ap, ◌∙◌, inl, inr, true, false, List, [], ◌∷◌, arith, length,
  ltb, ◌==◌, Bool-cases,
}
use sylar_framework.Coroutine.Schedule.{
  ready, running, terminal, update, Schedule, to, refused, resume, mark_resumed, leave, pop, yield_,
  finish,
}
use sylar_framework.Coroutine.Reach.{
  IsStack, IsTop, IsWell, resumes, Step-IsWell, Resumed, resume-Resumed, yield-leave, finish-leave,
  target,
}

-- The stack of a state after a resumption.
calls_on_top :
    (c d : ℕ) (ds : List ℕ) (s t : Schedule)
    → Resumed c s t
    → s.stack ≡ d ∷ ds
    → t.stack ≡ c ∷ d ∷ ds
calls_on_top c d ds s t r e = ap (λ u. u.stack) r.result ∙ ap (λ l. c ∷ l) e

back_again :
    (s : Schedule) (c d i : ℕ)
    → s.states c ≡ ready
    → s.states d ≡ running
    → s.running_co ≡ d
    → update (update (mark_resumed s c) c ready) d running i ≡ s.states i
back_again s c d i was_ready was_running runs = elim (Bool-cases (d == i)) [
  | inl same ↦ rw same (sym was_running ∙ ap s.states (ground arith))
  | inr other ↦ elim (Bool-cases (c == i)) [
    | inl called ↦ rw (other, called) (sym was_ready ∙ ap s.states (ground arith))
    | inr apart ↦
        rw (other, apart)
          (elim (Bool-cases (ltb 1 (length s.stack))) [
            | inl deep ↦ rw (deep, runs, other) refl
            | inr flat ↦ rw flat refl
          ])
  ]
]

refused_from :
    (x : ℕ) (s : Schedule)
    → s.states x ≡ ready
    → s.states s.running_co ≡ ready
    → resume x s ≡ refused
unfolding resume
refused_from x s r q = rw r (rw q refl)

caller_ready :
    (s : Schedule) (c d : ℕ)
    → s.states c ≡ ready
    → s.states d ≡ running
    → s.running_co ≡ d
    → ltb 1 (length s.stack) ≡ true
    → update (mark_resumed s c) c terminal d ≡ ready
caller_ready s c d was_ready was_running runs deep =
    let apart : (c == d) ≡ false = elim (Bool-cases (c == d)) [
      | inl same ↦ let e : c ≡ d = ground arith in cc (was_ready, was_running, ap s.states e)
      | inr other ↦ other
    ] in
    let self : (d == d) ≡ true = ground arith in rw (apart, deep, runs, self) refl

module _ (s s1 : Schedule) (c : ℕ) (w : IsWell s) (h : resume c s ≡ to s1) where
  calls : Resumed c s s1
  calls = resume-Resumed c s s1 h

  well : IsWell s1
  well = Step-IsWell (resumes c h) w

  go_back :
      (l : List ℕ)
      → s.stack ≡ l
      → (s2 : Schedule) × (yield_ s1 ≡ to s2)
        × (s2.stack ≡ s.stack)
        × (s2.stack_top ≡ s.stack_top)
        × (s2.running_co ≡ s.running_co)
        × ((i : ℕ) → s2.states i ≡ s.states i)
  go_back [] e = absurd (subst IsStack e w.bottom)
  go_back (d ∷ ds) e =
      let runs : s.running_co ≡ d = sym (subst (λ l. IsTop l s.running_co) e w.current) in
      let result = calls.result in
      (
        leave s1 d (update (update s1.states c ready) d running),
        yield-leave s1 well c d ds (calls_on_top c d ds s s1 calls e),
        ap (λ u. pop u.stack) result,
        ap (λ u. u.stack_top - 1) result ∙ omega arith,
        sym runs,
        λ i.
            ap (λ u. update (update u.states c ready) d running i) result
            ∙ back_again s c d i calls.was_ready (ap s.states (sym runs) ∙ calls.was_running) runs,
      )

  -- A coroutine that is resumed and yields at once leaves the scheduler as it was: the stack, the
  -- running coroutine and the state of every coroutine.
  pub resume-yield :
      (s2 : Schedule) × (yield_ s1 ≡ to s2)
      × (s2.stack ≡ s.stack)
      × (s2.stack_top ≡ s.stack_top)
      × (s2.running_co ≡ s.running_co)
      × ((i : ℕ) → s2.states i ≡ s.states i)
  resume-yield = go_back s.stack refl

  left_ready :
      (l : List ℕ) (s2 : Schedule) (x : ℕ)
      → s.stack ≡ l
      → s.running_co ≢ 0
      → finish s1 ≡ to s2
      → s2.states x ≡ ready
      → (s2.running_co ≡ s.running_co) × (s2.states s2.running_co ≡ ready) × (resume x s2 ≡ refused)
  left_ready [] s2 x e ne f r = absurd (subst IsStack e w.bottom)
  left_ready (d ∷ []) s2 x e ne f r =
      absurd (ne (sym (subst (λ l. IsTop l s.running_co) e w.current) ∙ subst IsStack e w.bottom))
  left_ready (d ∷ g ∷ ds) s2 x e ne f r =
      let runs : s.running_co ≡ d = sym (subst (λ l. IsTop l s.running_co) e w.current) in
      let left : leave s1 d (update s1.states c terminal) ≡ s2 =
        ap (target s2)
          (sym (finish-leave s1 well c d (g ∷ ds) (calls_on_top c d (g ∷ ds) s s1 calls e)) ∙ f) in
      let runs2 : s2.running_co ≡ d = ap (λ u. u.running_co) (sym left) in
      let deep : ltb 1 (length s.stack) ≡ true =
        let n : length s.stack ≡ suc (suc (length ds)) = ap length e in ground arith in
      let state : s2.states d ≡ ready =
        ap (λ u. u.states d) (sym left)
        ∙ ap (λ u. update u.states c terminal d) calls.result
        ∙ caller_ready s c d calls.was_ready (ap s.states (sym runs) ∙ calls.was_running) runs
            deep in
      let state2 : s2.states s2.running_co ≡ ready = ap s2.states runs2 ∙ state in
      (runs2 ∙ sym runs, state2, refused_from x s2 r state2)

  -- Where a coroutine other than the main one resumes another, and that ends, the caller goes on
  -- marked as ready, and then it cannot resume any coroutine: the assertion of `Resume` fails.
  pub finish_refuses :
      (s2 : Schedule) (x : ℕ)
      → s.running_co ≢ 0
      → finish s1 ≡ to s2
      → s2.states x ≡ ready
      → (s2.running_co ≡ s.running_co) × (s2.states s2.running_co ≡ ready) × (resume x s2 ≡ refused)
  finish_refuses s2 x = left_ready s.stack s2 x refl
