-- ===== src/Config/Mirror.antt =====
-- src/include/config.hh: a listener of a `ConfigVar` that keeps a copy of the value.
use mathlib.Core.Path.{subst}
use sylar_framework.Prelude.{
  ℕ, ◌≡◌, refl, sym, ap, ◌∙◌, inl, inr, Bool, true, false, ◌||◌, List, [], ◌∷◌, ◌++◌, none, some,
  ◌==◌, if◌then◌else◌, Bool-cases,
}
use sylar_framework.Config.Vars.{Types, Listeners, Notice, Var, notify, set_value}

-- No listener is an empty function.
abbrev pub IsWhole : Listeners → Type 0
IsWhole [] = Unit
IsWhole ((k, none) ∷ ls) = ⊥
IsWhole ((k, some f) ∷ ls) = IsWhole ls

abbrev pub listens : ℕ → Listeners → Bool
listens f [] = false
listens f ((k, none) ∷ ls) = listens f ls
listens f ((k, some g) ∷ ls) = (g == f) || listens f ls

module _ (t : Types) where
  open t use {Value, same, same_equal}

  -- A copy of the value that the callback sets to the new value.
  abbrev pub follow : ℕ → List (Notice t) → Value → Value
  follow f [] x = x
  follow f (n ∷ ns) x = follow f ns (if n.callback == f then n.new_val else x)

  -- Values set one after the other.
  abbrev pub set_all : List Value → Var t → Var t × List (Notice t)
  set_all [] v = (v, [])
  set_all (x ∷ xs) v =
      let c = set_value t x v in let rest = set_all xs c.var in (rest.0, c.notices ++ rest.1)

  abbrev pub last_or : Value → List Value → Value
  last_or d [] = d
  last_or d (x ∷ xs) = last_or x xs

  follow-append :
      (f : ℕ) (ns ms : List (Notice t)) (x : Value)
      → follow f (ns ++ ms) x ≡ follow f ms (follow f ns x)
  follow-append f [] ms x = refl
  follow-append f (n ∷ ns) ms x = follow-append f ns ms _

  either :
      (a b : Bool) (x y : Value) → (if b then x else if a then x else y) ≡ (if a || b then x else y)
  either true true x y = refl
  either true false x y = refl
  either false true x y = refl
  either false false x y = refl

  follow-notify :
      (f : ℕ) (old new x : Value) (ls : Listeners)
      → IsWhole ls
      → follow f (notify t old new ls).0 x ≡ (if listens f ls then new else x)
  unfolding notify
  follow-notify f old new x [] whole = refl
  follow-notify f old new x ((k, none) ∷ ls) whole = absurd whole
  follow-notify f old new x ((k, some g) ∷ ls) whole =
      follow-notify f old new (if g == f then new else x) ls whole
      ∙ either (g == f) (listens f ls) new x

  notify_whole : (old new : Value) (ls : Listeners) → IsWhole ls → (notify t old new ls).1 ≡ false
  unfolding notify
  notify_whole old new [] whole = refl
  notify_whole old new ((k, none) ∷ ls) whole = absurd whole
  notify_whole old new ((k, some f) ∷ ls) whole = notify_whole old new ls whole

  -- One change, for a listener that is registered.
  pub record Followed (f : ℕ) (val : Value) (v : Var t) : Type 0 where
    pub copied : follow f (set_value t val v).notices v.value ≡ val
    pub changed : (set_value t val v).var.value ≡ val
    pub kept : (set_value t val v).var.listeners ≡ v.listeners

  set_value-Followed :
      (f : ℕ) (val : Value) (v : Var t)
      → IsWhole v.listeners
      → listens f v.listeners ≡ true
      → Followed f val v
  unfolding set_value
  set_value-Followed f val v whole heard = elim (Bool-cases (same val v.value)) [
    | inl e ↦
        let old : v.value ≡ val = sym (same_equal val v.value e) in
        record { copied = rw e old; changed = rw e old; kept = rw e refl }
    | inr e ↦
        let calm = notify_whole v.value val v.listeners whole in
        record {
          copied = rw e (follow-notify f v.value val v.value v.listeners whole ∙ rw heard refl);
          changed = rw e (rw calm refl);
          kept = rw e (rw calm refl);
        }
  ]

  -- Where no listener is an empty function, a copy of the value that a registered callback sets to the
  -- new value of each call is the value of the variable after any values have been set, and that is
  -- the last of them.
  pub follow-set_all :
      (f : ℕ) (xs : List Value) (v : Var t)
      → IsWhole v.listeners
      → listens f v.listeners ≡ true
      → (follow f (set_all xs v).1 v.value ≡ (set_all xs v).0.value)
        × ((set_all xs v).0.value ≡ last_or v.value xs)
  follow-set_all f [] v whole heard = (refl, refl)
  follow-set_all f (x ∷ xs) v whole heard =
      let c = set_value t x v in
      let one = set_value-Followed f x v whole heard in
      let more =
        follow-set_all f xs c.var (subst IsWhole (sym one.kept) whole)
          (ap (listens f) one.kept ∙ heard) in
      (
        follow-append f c.notices (set_all xs c.var).1 v.value
            ∙ ap (follow f (set_all xs c.var).1) (one.copied ∙ sym one.changed)
            ∙ more.0,
        more.1 ∙ ap (λ d. last_or d xs) one.changed,
      )
