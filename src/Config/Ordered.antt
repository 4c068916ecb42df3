-- ===== src/Config/Ordered.antt =====
-- src/include/config.hh: the elements of a set, put in one after the other.
use mathlib.Core.Path.{subst}
use sylar_framework.Prelude.{
  ◌≡◌, refl, sym, ap, ◌∙◌, Bool, true, List, [], ◌∷◌, ◌++◌, append_assoc, append-nil, All,
}
use sylar_framework.Config.Cast.{insert, insert_all}

-- Elements in order: each is less than all behind it.
abbrev pub IsOrdered : {A : Type 0} → (A → A → Bool) → List A → Type 0
IsOrdered less [] = Unit
IsOrdered less (x ∷ xs) = All (λ y. less x y ≡ true) xs × IsOrdered less xs

insert_last :
    {A : Type 0} (less : A → A → Bool) (x : A) (acc : List A)
    → All (λ y. less y x ≡ true) acc
    → insert less x acc ≡ acc ++ x ∷ []
unfolding insert
insert_last less x [] h = refl
insert_last less x (y ∷ acc) h = rw h.0 (ap (λ l. y ∷ l) (insert_last less x acc h.1))

All-middle : {A : Type 0} (P : A → Type 0) (x : A) (acc xs : List A) → All P (acc ++ x ∷ xs) → P x
All-middle P x [] xs h = h.0
All-middle P x (y ∷ acc) xs h = All-middle P x acc xs h.1

before_middle :
    {A : Type 0} (less : A → A → Bool) (x : A) (acc xs : List A)
    → IsOrdered less (acc ++ x ∷ xs)
    → All (λ y. less y x ≡ true) acc
before_middle less x [] xs h = tt
before_middle less x (y ∷ acc) xs h =
    (All-middle (λ z. less y z ≡ true) x acc xs h.0, before_middle less x acc xs h.1)

pub insert_all_ordered :
    {A : Type 0} (less : A → A → Bool) (acc xs : List A)
    → IsOrdered less (acc ++ xs)
    → insert_all less acc xs ≡ acc ++ xs
unfolding insert_all
insert_all_ordered less acc [] h = sym (append-nil acc)
insert_all_ordered less acc (x ∷ xs) h =
    let again = append_assoc acc (x ∷ []) xs in
    ap (λ l. insert_all less l xs) (insert_last less x acc (before_middle less x acc xs h))
    ∙ insert_all_ordered less (acc ++ x ∷ []) xs (subst (IsOrdered less) (sym again) h)
    ∙ again
