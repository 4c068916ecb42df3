-- ===== src/Config/Unordered.antt =====
-- src/include/config.hh: the `LexicalCast` of `std::unordered_set`. Such a set is a list here, and the
-- order in which the container is iterated over is a parameter, of which only the elements are known.
use mathlib.Core.Path.{subst}
use sylar_framework.Prelude.{
  ◌≡◌, refl, ap, ◌∙◌, sym, ◌↔◌, ◌⊎◌, inl, inr, Bool, true, false, List, [], ◌∷◌, Option, some, All,
  Bool-cases, if◌then◌else◌,
}
use sylar_framework.Prelude.Text.{Text}
use sylar_framework.Config.Yaml.{Yaml}
use sylar_framework.Config.Paths.{In, head, tail}
use sylar_framework.Config.Cast.{
  YamlCpp, Cast, bind, traverse, sequence_to_text, sequence_from_text,
}
use sylar_framework.Config.Trips.{IsFaithful, vector_cast-IsFaithful}

-- How a container compares and iterates.
pub record Hashed (A : Type 0) : Type 0 where
  pub same : A → A → Bool
  pub iterate : List A → List A
  pub same_eq : (x y : A) → same x y ≡ true → x ≡ y
  pub iterate_sound : (x : A) (xs : List A) → In x (iterate xs) → In x xs
  pub iterate_complete : (x : A) (xs : List A) → In x xs → In x (iterate xs)

module _ {A : Type 0} (h : Hashed A) where
  open h use {same, iterate}

  unfoldable pub contains : A → List A → Bool
  contains x [] = false
  contains x (y ∷ ys) = let rest = contains x ys in if same x y then true else rest

  -- `insert`: nothing where the element is there already.
  unfoldable pub insert_new : A → List A → List A
  unfolding contains
  insert_new x xs = if contains x xs then xs else x ∷ xs

  unfoldable pub insert_each : List A → List A → List A
  insert_each acc [] = acc
  insert_each acc (x ∷ xs) = insert_each (insert_new x acc) xs

module _ (y : YamlCpp) {A : Type 0} (h : Hashed A) (c : Cast A) where
  -- The two casts.
  unfoldable pub unordered_to_text : List A → Option Text
  unordered_to_text xs = sequence_to_text y c (h.iterate xs)

  unfoldable pub unordered_from_text : Text → Option (List A)
  unfolding insert_each
  unordered_from_text s = bind (sequence_from_text y c s) (λ xs. some (insert_each h [] xs))

pub In-cons : {A : Type 0} {x z : A} {xs : List A} → In x (z ∷ xs) → (x ≡ z) ⊎ In x xs
In-cons head = inl refl
In-cons (tail k) = inr k

module _ {A : Type 0} (h : Hashed A) where
  contains-In : (x : A) (xs : List A) → contains h x xs ≡ true → In x xs
  unfolding contains
  contains-In x [] e = cc e
  contains-In x (z ∷ zs) e = elim (Bool-cases (h.same x z)) [
    | inl f ↦ subst (λ w. In x (w ∷ zs)) (h.same_eq x z f) head
    | inr f ↦ tail (contains-In x zs (cc (e, f)))
  ]

  insert_new-In : (x z : A) (xs : List A) → In x (insert_new h z xs) ↔ ((x ≡ z) ⊎ In x xs)
  unfolding insert_new
  insert_new-In x z xs = elim (Bool-cases (contains h z xs)) [
    | inl f ↦
        rw (insert_new, f)
          (
            λ m. inr m,
            λ m. elim m [ inl e ↦ subst (λ w. In w xs) (sym e) (contains-In z xs f) | inr k ↦ k ],
          )
    | inr f ↦
        rw (insert_new, f)
          (
            λ m. In-cons m,
            λ m. elim m [ inl e ↦ subst (λ w. In x (w ∷ xs)) e head | inr k ↦ tail k ],
          )
  ]

  insert_each-In : (x : A) (acc xs : List A) → In x (insert_each h acc xs) ↔ (In x acc ⊎ In x xs)
  unfolding insert_each
  insert_each-In x acc [] = (λ m. inl m, λ m. elim m [ inl k ↦ k | inr k ↦ elim k [ ] ])
  insert_each-In x acc (z ∷ zs) =
      let i = insert_new-In x z acc in
      let j = insert_each-In x (insert_new h z acc) zs in
      (
        λ m. elim (j.0 m) [
          | inr k ↦ inr (tail k)
          | inl k ↦ elim (i.0 k) [ inl e ↦ inr (subst (λ w. In x (w ∷ zs)) e head) | inr l ↦ inl l ]
        ],
        λ m. elim m [
          | inl k ↦ j.1 (inl (i.1 (inr k)))
          | inr k ↦ elim (In-cons k) [ inl e ↦ j.1 (inl (i.1 (inl e))) | inr l ↦ j.1 (inr l) ]
        ],
      )

pub All-In : {A : Type 0} (P : A → Type 0) (xs : List A) → ((x : A) → In x xs → P x) → All P xs
All-In P [] f = tt
All-In P (x ∷ xs) f = (f x head, All-In P xs (λ z m. f z (tail m)))

pub In-All : {A : Type 0} (P : A → Type 0) (x : A) (xs : List A) → All P xs → In x xs → P x
In-All P x (z ∷ zs) h m = elim (In-cons m) [
  | inl e ↦ subst P (sym e) h.0
  | inr k ↦ In-All P x zs h.1 k
]
In-All P x [] h m = elim m [ ]

-- Two texts of the same node are read alike.
sequence_from_text_node :
    (y : YamlCpp) {A : Type 0} (c : Cast A) (s : Text) (n : Yaml)
    → y.load s ≡ some n
    → sequence_from_text y c s ≡ sequence_from_text y c (y.emit n)
unfolding sequence_from_text
sequence_from_text_node y c s n e =
    ap (λ o. bind (bind o y.elements) (traverse (λ m. c.from_text (y.emit m))))
      (e ∙ sym (y.load_emit n))

-- A set whose elements are printed and read again is printed, in whatever order the container comes
-- to them, and its text is read as a set of the same elements.
pub unordered_from_text-unordered_to_text :
    (y : YamlCpp) {A : Type 0} (h : Hashed A) (c : Cast A) (xs : List A)
    → All (IsFaithful y c) xs
    → (s : Text) × (ys : List A) × (unordered_to_text y h c xs ≡ some s)
      × (unordered_from_text y h c s ≡ some ys)
      × ((x : A) → In x ys ↔ In x xs)
unfolding unordered_to_text unordered_from_text
unordered_from_text-unordered_to_text y h c xs all =
    let every : All (IsFaithful y c) (h.iterate xs) =
      All-In (IsFaithful y c) (h.iterate xs)
        (λ x m. In-All (IsFaithful y c) x xs all (h.iterate_sound x xs m)) in
    let (s, n, prints, loads, reads) = vector_cast-IsFaithful y c (h.iterate xs) every in
    (
      s,
      insert_each h [] (h.iterate xs),
      prints,
      ap (λ o. bind o (λ zs. some (insert_each h [] zs)))
          (sequence_from_text_node y c s n loads ∙ reads),
      λ x.
          let i = insert_each-In h x [] (h.iterate xs) in
          (
            λ m. elim (i.0 m) [ inl k ↦ elim k [ ] | inr k ↦ h.iterate_sound x xs k ],
            λ m. i.1 (inr (h.iterate_complete x xs m)),
          ),
    )
