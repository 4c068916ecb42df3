-- ===== src/Locks/Scope.antt =====
-- src/include/mutex.hh: `ScopeLockImpl`. The calls of the mutex are recorded in their order.
use sylar_framework.Prelude.{
  ◌≡◌, refl, ap, ◌∙◌, inl, inr, Bool, true, false, List, [], ◌∷◌, ◌++◌, Option, none, some,
  if◌then◌else◌, Bool-cases,
}

-- The calls of the mutex.
pub data MutexCall : Type 0 where
  acquires releases : MutexCall

pub record ScopeLock : Type 0 where
  pub is_locked : Bool
  pub calls : List MutexCall

-- The constructor.
abbrev pub new_scope : ScopeLock
new_scope = record { is_locked = true; calls = acquires ∷ [] }

unfoldable pub scope_lock : ScopeLock → ScopeLock
scope_lock s =
    if s.is_locked then s else record { is_locked = true; calls = s.calls ++ acquires ∷ [] }

unfoldable pub scope_unlock : ScopeLock → ScopeLock
scope_unlock s =
    if s.is_locked then record { is_locked = false; calls = s.calls ++ releases ∷ [] } else s

-- What the owner of a scope lock calls before it is destroyed.
pub data ScopeCall : Type 0 where
  locks unlocks : ScopeCall

unfoldable pub use_scope : List ScopeCall → ScopeLock → ScopeLock
use_scope [] s = s
use_scope (locks ∷ cs) s = use_scope cs (scope_lock s)
use_scope (unlocks ∷ cs) s = use_scope cs (scope_unlock s)

-- The destructor.
abbrev pub destroy : ScopeLock → ScopeLock
destroy s = scope_unlock s

-- Whether the caller holds a mutex after some calls; `none` where it takes a mutex that it holds or
-- gives back one that it does not hold.
unfoldable pub holds_after : Bool → List MutexCall → Option Bool
holds_after held [] = some held
holds_after true (acquires ∷ cs) = none
holds_after false (acquires ∷ cs) = holds_after true cs
holds_after true (releases ∷ cs) = holds_after false cs
holds_after false (releases ∷ cs) = none

abbrev one_more : Option Bool → MutexCall → Option Bool
one_more none c = none
one_more (some held) c = holds_after held (c ∷ [])

holds_after-append :
    (held : Bool) (cs : List MutexCall) (c : MutexCall)
    → holds_after held (cs ++ c ∷ []) ≡ one_more (holds_after held cs) c
unfolding holds_after
holds_after-append held [] c = refl
holds_after-append true (acquires ∷ cs) c = refl
holds_after-append false (acquires ∷ cs) c = holds_after-append true cs c
holds_after-append true (releases ∷ cs) c = holds_after-append false cs c
holds_after-append false (releases ∷ cs) c = refl

-- The flag says whether the mutex is held.
IsTrue : ScopeLock → Type 0
IsTrue s = holds_after false s.calls ≡ some s.is_locked

scope_lock-IsTrue : (s : ScopeLock) → IsTrue s → IsTrue (scope_lock s)
unfolding IsTrue scope_lock holds_after
scope_lock-IsTrue s h = elim (Bool-cases s.is_locked) [
  | inl e ↦ rw e (h ∙ ap some e)
  | inr e ↦
      rw e
        (holds_after-append false s.calls acquires ∙ ap (λ o. one_more o acquires) (h ∙ ap some e))
]

scope_unlock-IsTrue :
    (s : ScopeLock) → IsTrue s → IsTrue (scope_unlock s) × ((scope_unlock s).is_locked ≡ false)
unfolding IsTrue scope_unlock holds_after
scope_unlock-IsTrue s h = elim (Bool-cases s.is_locked) [
  | inl e ↦ rw e (
    (holds_after-append false s.calls releases ∙ ap (λ o. one_more o releases) (h ∙ ap some e)),
    refl,
  )
  | inr e ↦ rw e (h ∙ ap some e, refl)
]

use_scope-IsTrue : (cs : List ScopeCall) (s : ScopeLock) → IsTrue s → IsTrue (use_scope cs s)
unfolding use_scope
use_scope-IsTrue [] s h = h
use_scope-IsTrue (locks ∷ cs) s h = use_scope-IsTrue cs (scope_lock s) (scope_lock-IsTrue s h)
use_scope-IsTrue (unlocks ∷ cs) s h =
    use_scope-IsTrue cs (scope_unlock s) (scope_unlock-IsTrue s h).0

-- Whatever calls the owner of a scope lock makes, in any order and any number, the mutex is never
-- taken while it is held nor given back while it is not, and it is not held after the destructor.
pub holds_after-destroy :
    (cs : List ScopeCall) → holds_after false (destroy (use_scope cs new_scope)).calls ≡ some false
unfolding IsTrue holds_after
holds_after-destroy cs =
    let done = scope_unlock-IsTrue (use_scope cs new_scope) (use_scope-IsTrue cs new_scope refl) in
    done.0 ∙ ap some done.1
