-- ===== src/Config/UnorderedMap.antt =====
-- src/include/config.hh: the `LexicalCast` of `std::unordered_map`, as for `std::unordered_set`.
use mathlib.Core.Path.{subst}
use sylar_framework.Prelude.{
  ◌≡◌, refl, ap, ◌∙◌, sym, ◌↔◌, ◌⊎◌, inl, inr, Bool, true, false, List, [], ◌∷◌, Option, some,
  Bool-cases, if◌then◌else◌,
}
use sylar_framework.Prelude.Text.{Text, equal, equal_iff}
use sylar_framework.Config.Paths.{In, head, tail}
use sylar_framework.Config.Cast.{YamlCpp, Cast, bind, traverse, assigned, from_field, map_to_text}
use sylar_framework.Config.Trips.{
  Returns, AllReturn, map_values, traverse_returns, entries-assigned,
}
use sylar_framework.Config.Unordered.{In-cons, All-In, In-All}

module _ {A : Type 0} where
  -- `insert`: nothing where the key is there already.
  unfoldable pub has_key : Text → List (Text × A) → Bool
  has_key k [] = false
  has_key k (e ∷ es) = let rest = has_key k es in if equal k e.0 then true else rest

  unfoldable pub insert_pair : Text × A → List (Text × A) → List (Text × A)
  unfolding has_key
  insert_pair e es = if has_key e.0 es then es else e ∷ es

  unfoldable pub insert_pairs : List (Text × A) → List (Text × A) → List (Text × A)
  unfolding insert_pair
  insert_pairs acc [] = acc
  insert_pairs acc (e ∷ es) = insert_pairs (insert_pair e acc) es

-- The order in which a container with these entries is iterated over: each entry once.
pub record Iteration (A : Type 0) : Type 0 where
  pub visit : List (Text × A) → List (Text × A)
  pub visit_sound : (e : Text × A) (m : List (Text × A)) → In e (visit m) → In e m
  pub visit_complete : (e : Text × A) (m : List (Text × A)) → In e m → In e (visit m)

module _ (y : YamlCpp) {A : Type 0} (h : Iteration A) (c : Cast A) where
  -- The two casts.
  unfoldable pub unordered_map_to_text : List (Text × A) → Option Text
  unordered_map_to_text m = map_to_text y c (h.visit m)

  unfoldable pub unordered_map_from_text : Text → Option (List (Text × A))
  unfolding insert_pairs
  unordered_map_from_text s =
      bind (bind (bind (y.load s) y.entries) (traverse (from_field y c)))
        (λ es. some (insert_pairs [] es))

module _ {A : Type 0} where
  has_key-In : (k : Text) (es : List (Text × A)) → has_key k es ≡ true → (x : A) × In (k, x) es
  unfolding has_key
  has_key-In k [] e = cc e
  has_key-In k (p ∷ es) e = elim (Bool-cases (equal k p.0)) [
    | inl f ↦ (p.1, subst (λ j. In (j, p.1) (p ∷ es)) (sym ((equal_iff k p.0).0 f)) head)
    | inr f ↦ let r = has_key-In k es (cc (e, f)) in (r.0, tail r.1)
  ]

  -- A key has one value.
  abbrev pub IsMap : List (Text × A) → Type 0
  IsMap m = (k : Text) (a b : A) → In (k, a) m → In (k, b) m → a ≡ b

  -- In a list whose entries are those of a map, an insertion loses none.
  insert_pair-In :
      (m : List (Text × A)) (p : Text × A) (acc : List (Text × A))
      → IsMap m
      → In p m
      → ((e : Text × A) → In e acc → In e m)
      → (e : Text × A) → In e (insert_pair p acc) ↔ ((e ≡ p) ⊎ In e acc)
  unfolding insert_pair
  insert_pair-In m p acc one at sub e = elim (Bool-cases (has_key p.0 acc)) [
    | inl f ↦
        let r = has_key-In p.0 acc f in
        let same : r.0 ≡ p.1 = one p.0 r.0 p.1 (sub (p.0, r.0) r.1) at in
        let there : In p acc = subst (λ x. In (p.0, x) acc) same r.1 in
        rw (insert_pair, f)
          (λ k. inr k, λ k. elim k [ inl g ↦ subst (λ w. In w acc) (sym g) there | inr l ↦ l ])
    | inr f ↦
        rw (insert_pair, f)
          (
            λ k. In-cons k,
            λ k. elim k [ inl g ↦ subst (λ w. In w (p ∷ acc)) (sym g) head | inr l ↦ tail l ],
          )
  ]

  insert_pairs-In :
      (m acc es : List (Text × A))
      → IsMap m
      → ((e : Text × A) → In e acc → In e m)
      → ((e : Text × A) → In e es → In e m)
      → (e : Text × A) → In e (insert_pairs acc es) ↔ (In e acc ⊎ In e es)
  unfolding insert_pairs
  insert_pairs-In m acc [] one sub all e =
      (λ k. inl k, λ k. elim k [ inl l ↦ l | inr l ↦ elim l [ ] ])
  insert_pairs-In m acc (p ∷ es) one sub all e =
      let i = insert_pair-In m p acc one (all p head) sub in
      let grown : (e : Text × A) → In e (insert_pair p acc) → In e m = λ w k. elim ((i w).0 k) [
        | inl g ↦ subst (λ v. In v m) (sym g) (all p head)
        | inr l ↦ sub w l
      ] in
      let j = insert_pairs-In m (insert_pair p acc) es one grown (λ w k. all w (tail k)) e in
      (
        λ k. elim (j.0 k) [
          | inr l ↦ inr (tail l)
          | inl l ↦ elim ((i e).0 l) [
            | inl g ↦ inr (subst (λ v. In v (p ∷ es)) (sym g) head)
            | inr n ↦ inl n
          ]
        ],
        λ k. elim k [
          | inl l ↦ j.1 (inl ((i e).1 (inr l)))
          | inr l ↦ elim (In-cons l) [ inl g ↦ j.1 (inl ((i e).1 (inl g))) | inr n ↦ j.1 (inr n) ]
        ],
      )

map_values_same : (y : YamlCpp) {A : Type 0} (m : List (Text × A)) → map_values y (λ x. x) m ≡ m
map_values_same y [] = refl
map_values_same y (e ∷ m) = ap (λ es. e ∷ es) (map_values_same y m)

-- A map whose values are read again from their texts as scalars is printed, in whatever order the
-- container comes to its entries, and its text is read as a map with the same entries.
pub unordered_map_from_text-unordered_map_to_text :
    (y : YamlCpp) {A : Type 0} (h : Iteration A) (c : Cast A) (m : List (Text × A))
    → IsMap m
    → AllReturn y c (λ x. x) m
    → (s : Text) × (es : List (Text × A)) × (unordered_map_to_text y h c m ≡ some s)
      × (unordered_map_from_text y h c s ≡ some es)
      × ((e : Text × A) → In e es ↔ In e m)
unfolding unordered_map_to_text unordered_map_from_text map_to_text
unordered_map_from_text-unordered_map_to_text y {A = A} h c m one all =
    let every : AllReturn y c (λ x. x) (h.visit m) =
      All-In (λ e. Returns y c e.1 e.1) (h.visit m)
        (λ e k. In-All (λ e. Returns y c e.1 e.1) e m all (h.visit_sound e m k)) in
    let (fields, p, q) = traverse_returns y c (λ x. x) (h.visit m) every in
    let read : Option (List (Text × A)) → Option (List (Text × A)) =
      λ o. bind o (λ es. some (insert_pairs [] es)) in
    (
      y.emit (assigned fields),
      insert_pairs [] (h.visit m),
      ap (λ o. bind o (λ es. some (y.emit (assigned es)))) p,
      ap (λ o. read (bind (bind o y.entries) (traverse (from_field y c))))
            (y.load_emit (assigned fields))
          ∙ ap (λ o. read (bind o (traverse (from_field y c)))) (entries-assigned y fields)
          ∙ ap read (q ∙ ap some (map_values_same y (h.visit m))),
      λ e.
          let i =
            insert_pairs-In m [] (h.visit m) one (λ w k. elim k [ ]) (λ w k. h.visit_sound w m k)
              e in
          (
            λ k. elim (i.0 k) [ inl l ↦ elim l [ ] | inr l ↦ h.visit_sound e m l ],
            λ k. i.1 (inr (h.visit_complete e m k)),
          ),
    )
