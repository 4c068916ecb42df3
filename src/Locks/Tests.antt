-- ===== src/Locks/Tests.antt =====
-- src/include/mutex.hh: a scope lock that is used twice, and two threads.
use sylar_framework.Prelude.{arith, ◌≡◌, refl, false, [], ◌∷◌, some}
use sylar_framework.Locks.Scope.{
  locks, unlocks, new_scope, use_scope, destroy, holds_after, holds_after-destroy,
}
use sylar_framework.Locks.Cas.{Shared, new_lock, try_lock, Run, begin, moves, tries, inside_other}

-- Thread 1 takes the lock and thread 2 tries.
abbrev taken : Shared
taken = try_lock 2 (try_lock 1 new_lock)

taken_reached : Run taken
unfolding try_lock
taken_reached = moves (moves begin (tries 1 refl refl)) (tries 2 refl refl)

inside_other_example : taken.inside 2 ≡ false
unfolding try_lock
inside_other_example = inside_other taken 1 2 taken_reached refl (λ e. omega (arith, e))

-- Unlocked twice and locked again.
holds_after-destroy_example :
    holds_after false (destroy (use_scope (unlocks ∷ unlocks ∷ locks ∷ []) new_scope)).calls
    ≡ some false
holds_after-destroy_example = holds_after-destroy (unlocks ∷ unlocks ∷ locks ∷ [])
