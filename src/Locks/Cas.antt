-- ===== src/Locks/Cas.antt =====
-- src/include/mutex.hh: `CASLock`. Threads are numbers. `atomic_flag_test_and_set` and
-- `atomic_flag_clear` are one step each, with acquire and release order, so that the steps of all
-- threads come in one order.
use mathlib.Core.Path.{subst}
use sylar_framework.Prelude.{
  ℕ, ◌≡◌, ◌≢◌, refl, sym, ◌∙◌, inl, inr, Bool, true, false, arith, ◌==◌, if◌then◌else◌, Bool-cases,
}

pub record Shared : Type 0 where
  pub flag : Bool
  pub inside : ℕ → Bool

-- The constructor clears the flag.
abbrev pub new_lock : Shared
new_lock = record { flag = false; inside = λ i. false }

abbrev pub mark : (ℕ → Bool) → ℕ → Bool → ℕ → Bool
mark f i b j = if i == j then b else f j

-- A round of the loop of `Lock`: the flag is set, and the thread is through if it was clear.
unfoldable pub try_lock : ℕ → Shared → Shared
try_lock i s = if s.flag then s else record { flag = true; inside = mark s.inside i true }

-- `Unlock`.
unfoldable pub unlock : ℕ → Shared → Shared
unlock i s = record { flag = false; inside = mark s.inside i false }

-- Any thread that is not inside may try, and one that is inside may leave.
pub data Move (s t : Shared) : Type 0 where
  tries : (i : ℕ) → s.inside i ≡ false → t ≡ try_lock i s → Move s t
  leaves : (i : ℕ) → s.inside i ≡ true → t ≡ unlock i s → Move s t

pub data Run : Shared → Type 0 where
  begin : Run new_lock
  moves : {s t : Shared} → Run s → Move s t → Run t

record IsExclusive (s : Shared) : Type 0 where
  alone : (i j : ℕ) → s.inside i ≡ true → s.inside j ≡ true → i ≡ j
  marked : (i : ℕ) → s.inside i ≡ true → s.flag ≡ true

new_lock-IsExclusive : IsExclusive new_lock
new_lock-IsExclusive = record { alone = λ i j p q. cc p; marked = λ i p. cc p }

-- Nobody is inside while the flag is clear.
nobody : (s : Shared) (j : ℕ) → IsExclusive s → s.flag ≡ false → s.inside j ≡ true → ⊥
nobody s j w clear p = cc (w.marked j p, clear)

only_one :
    (s : Shared) (i j : ℕ) → IsExclusive s → s.flag ≡ false → mark s.inside i true j ≡ true → i ≡ j
only_one s i j w clear p = elim (Bool-cases (i == j)) [
  | inl e ↦ ground arith
  | inr e ↦ absurd (nobody s j w clear (rw e at p))
]

try_lock-IsExclusive : (i : ℕ) (s : Shared) → IsExclusive s → IsExclusive (try_lock i s)
unfolding try_lock
try_lock-IsExclusive i s w = elim (Bool-cases s.flag) [
  | inl e ↦ rw e (record { alone = w.alone; marked = λ a p. refl })
  | inr e ↦ rw e (record {
    alone = λ a b p q. sym (only_one s i a w e p) ∙ only_one s i b w e q;
    marked = λ a p. refl;
  })
]

-- After the thread inside has left, nobody is inside.
left_empty :
    (s : Shared) (i j : ℕ) → IsExclusive s → s.inside i ≡ true → mark s.inside i false j ≡ true → ⊥
left_empty s i j w inside_i p = elim (Bool-cases (i == j)) [
  | inl e ↦ cc (rw e at p)
  | inr e ↦
      let same_thread = w.alone i j inside_i (rw e at p) in
      let differ : (i == i) ≡ true = ground arith in cc (differ, e, same_thread)
]

unlock-IsExclusive :
    (i : ℕ) (s : Shared) → IsExclusive s → s.inside i ≡ true → IsExclusive (unlock i s)
unfolding unlock
unlock-IsExclusive i s w inside_i = record {
  alone = λ a b p q. absurd (left_empty s i a w inside_i p);
  marked = λ a p. absurd (left_empty s i a w inside_i p);
}

Run-IsExclusive : {s : Shared} → Run s → IsExclusive s
Run-IsExclusive begin = new_lock-IsExclusive
Run-IsExclusive (moves {s = s} r (tries i out e)) =
    subst IsExclusive (sym e) (try_lock-IsExclusive i s (Run-IsExclusive r))
Run-IsExclusive (moves {s = s} r (leaves i in_ e)) =
    subst IsExclusive (sym e) (unlock-IsExclusive i s (Run-IsExclusive r) in_)

-- Of the threads that take and give back the lock, in any order of their steps, no other one is
-- inside while one of them is.
pub inside_other : (s : Shared) (i j : ℕ) → Run s → s.inside i ≡ true → i ≢ j → s.inside j ≡ false
inside_other s i j r in_ apart = elim (Bool-cases (s.inside j)) [
  | inl e ↦ absurd (apart ((Run-IsExclusive r).alone i j in_ e))
  | inr e ↦ e
]
