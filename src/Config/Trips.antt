-- ===== src/Config/Trips.antt =====
-- src/include/config.hh: values that are printed by a `LexicalCast` and read again.
use sylar_framework.Prelude.{◌≡◌, refl, ap, ◌∙◌, Bool, true, List, [], ◌∷◌, map, Option, some, All}
use sylar_framework.Prelude.Text.{Text, before}
use sylar_framework.Config.Yaml.{Yaml, scalar}
use sylar_framework.Config.Ordered.{IsOrdered, insert_all_ordered}
use sylar_framework.Config.Cast.{
  YamlCpp, nodes_list, fields_list, Cast, bind, cons_both, traverse, nodes_from, pushed,
  fields_from, assigned, insert_all, key_less, to_node, sequence_to_text, sequence_from_text,
  vector_cast, set_cast, to_field, map_to_text, from_field, map_from_text,
}

pub nodes_list-nodes_from : (ns : List Yaml) → nodes_list (nodes_from ns) ≡ ns
unfolding nodes_list
nodes_list-nodes_from [] = refl
nodes_list-nodes_from (n ∷ ns) = ap (λ l. n ∷ l) (nodes_list-nodes_from ns)

fields_list-fields_from : (es : List (Text × Yaml)) → fields_list (fields_from es) ≡ es
unfolding fields_list
fields_list-fields_from [] = refl
fields_list-fields_from (e ∷ es) = ap (λ l. e ∷ l) (fields_list-fields_from es)

abbrev sorted : {A : Type 0} → Option (List (Text × A)) → Option (List (Text × A))
sorted o = bind o (λ es. some (insert_all key_less [] es))

module _ (y : YamlCpp) where
  open y use {
    load, emit, elements, entries, load_emit, elements_sequence, elements_null, elements_scalar,
    entries_mapping, entries_null,
  }

  -- A value that is printed, and read back from its node as an element of a sequence is.
  abbrev pub IsFaithful : {A : Type 0} → Cast A → A → Type 0
  IsFaithful c x =
      (s : Text) × (n : Yaml) × (c.to_text x ≡ some s)
      × (load s ≡ some n)
      × (c.from_text (emit n) ≡ some x)

  abbrev read_all : {A : Type 0} → Cast A → Option (List Yaml) → Option (List A)
  read_all c o = bind o (traverse (λ n. c.from_text (emit n)))

  elements-pushed : (ns : List Yaml) → elements (pushed ns) ≡ some ns
  unfolding pushed
  elements-pushed [] = elements_null
  elements-pushed (n ∷ ns) =
      elements_sequence (nodes_from (n ∷ ns)) ∙ ap some (nodes_list-nodes_from (n ∷ ns))

  pub entries-assigned : (es : List (Text × Yaml)) → entries (assigned es) ≡ some es
  unfolding assigned
  entries-assigned [] = entries_null
  entries-assigned (e ∷ es) =
      entries_mapping (fields_from (e ∷ es)) ∙ ap some (fields_list-fields_from (e ∷ es))

  traverse_faithful :
      {A : Type 0} (c : Cast A) (xs : List A)
      → All (IsFaithful c) xs
      → (ns : List Yaml) × (traverse (to_node y c) xs ≡ some ns)
        × (traverse (λ n. c.from_text (emit n)) ns ≡ some xs)
  traverse_faithful c [] h = ([], refl, refl)
  traverse_faithful c (x ∷ xs) h =
      let (s, n, prints, loads, reads) = h.0 in
      let (ns, p, q) = traverse_faithful c xs h.1 in
      (
        n ∷ ns,
        ap (λ o. cons_both (bind o load) (traverse (to_node y c) xs)) prints
            ∙ ap (λ o. cons_both o (traverse (to_node y c) xs)) loads
            ∙ ap (cons_both (some n)) p,
        ap (λ o. cons_both o (traverse (λ n. c.from_text (emit n)) ns)) reads
            ∙ ap (cons_both (some x)) q,
      )

  sequence_from_pushed :
      {A : Type 0} (c : Cast A) (ns : List Yaml)
      → sequence_from_text y c (emit (pushed ns)) ≡ traverse (λ n. c.from_text (emit n)) ns
  unfolding sequence_from_text
  sequence_from_pushed c ns =
      ap (λ o. read_all c (bind o elements)) (load_emit (pushed ns))
      ∙ ap (read_all c) (elements-pushed ns)

  -- A vector or a list whose elements are printed and read back is itself printed and read back, so
  -- that it may be an element of another one.
  pub vector_cast-IsFaithful :
      {A : Type 0} (c : Cast A) (xs : List A)
      → All (IsFaithful c) xs
      → IsFaithful (vector_cast y c) xs
  unfolding sequence_to_text
  vector_cast-IsFaithful c xs h =
      let (ns, p, q) = traverse_faithful c xs h in
      (
        emit (pushed ns),
        pushed ns,
        ap (λ o. bind o (λ ns. some (emit (pushed ns)))) p,
        load_emit (pushed ns),
        sequence_from_pushed c ns ∙ q,
      )

  -- The same holds for a set, whose elements are in order.
  pub set_cast-IsFaithful :
      {A : Type 0} (c : Cast A) (less : A → A → Bool) (xs : List A)
      → All (IsFaithful c) xs
      → IsOrdered less xs
      → IsFaithful (set_cast y c less) xs
  set_cast-IsFaithful c less xs h ordered =
      let (s, n, prints, loads, reads) = vector_cast-IsFaithful c xs h in
      (
        s,
        n,
        prints,
        loads,
        ap (λ o. bind o (λ xs. some (insert_all less [] xs))) reads
            ∙ ap some (insert_all_ordered less [] xs ordered),
      )

  -- What a map's value turns into when its text goes through a scalar.
  abbrev pub Returns : {A : Type 0} → Cast A → A → A → Type 0
  Returns c x x' = (s : Text) × (c.to_text x ≡ some s) × (c.from_text (emit (scalar s)) ≡ some x')

  abbrev pub AllReturn : {A : Type 0} → Cast A → (A → A) → List (Text × A) → Type 0
  AllReturn c f m = All (λ e. Returns c e.1 (f e.1)) m

  abbrev pub map_values : {A : Type 0} → (A → A) → List (Text × A) → List (Text × A)
  map_values f m = map (λ e. (e.0, f e.1)) m

  pub traverse_returns :
      {A : Type 0} (c : Cast A) (f : A → A) (m : List (Text × A))
      → AllReturn c f m
      → (es : List (Text × Yaml)) × (traverse (to_field y c) m ≡ some es)
        × (traverse (from_field y c) es ≡ some (map_values f m))
  traverse_returns c f [] h = ([], refl, refl)
  traverse_returns c f ((k, x) ∷ m) h =
      let (s, prints, reads) = h.0 in
      let (es, p, q) = traverse_returns c f m h.1 in
      (
        (k, scalar s) ∷ es,
        ap (λ o. cons_both (bind o (λ s. some (k, scalar s))) (traverse (to_field y c) m)) prints
            ∙ ap (cons_both (some (k, scalar s))) p,
        ap (λ o. cons_both (bind o (λ x. some (k, x))) (traverse (from_field y c) es)) reads
            ∙ ap (cons_both (some (k, f x))) q,
      )

  map_values-All :
      {A : Type 0} (f : A → A) (k : Text) (m : List (Text × A))
      → All (λ e. before k e.0 ≡ true) m
      → All (λ e. before k e.0 ≡ true) (map_values f m)
  map_values-All f k [] h = tt
  map_values-All f k (e ∷ m) h = (h.0, map_values-All f k m h.1)

  map_values-IsOrdered :
      {A : Type 0} (f : A → A) (m : List (Text × A))
      → IsOrdered key_less m
      → IsOrdered key_less (map_values f m)
  map_values-IsOrdered f [] h = tt
  map_values-IsOrdered f (e ∷ m) h = (map_values-All f e.0 m h.0, map_values-IsOrdered f m h.1)

  -- A map with its keys in order is printed, and read back with the same keys, each with what its
  -- value turns into when the text of the value goes through a scalar.
  pub map_cast_returns :
      {A : Type 0} (c : Cast A) (f : A → A) (m : List (Text × A))
      → AllReturn c f m
      → IsOrdered key_less m
      → (s : Text) × (map_to_text y c m ≡ some s) × (map_from_text y c s ≡ some (map_values f m))
  unfolding map_to_text map_from_text
  map_cast_returns c f m h ordered =
      let (es, p, q) = traverse_returns c f m h in
      (
        emit (assigned es),
        ap (λ o. bind o (λ es. some (emit (assigned es)))) p,
        ap (λ o. sorted (bind (bind o entries) (traverse (from_field y c))))
              (load_emit (assigned es))
            ∙ ap (λ o. sorted (bind o (traverse (from_field y c)))) (entries-assigned es)
            ∙ ap sorted q
            ∙ ap some (
                insert_all_ordered key_less [] (map_values f m) (map_values-IsOrdered f m ordered)),
      )

  vector_lost :
      {A : Type 0} (c : Cast A) (m : List (Text × List A))
      → All (λ e. All (IsFaithful c) e.1) m
      → AllReturn (vector_cast y c) (λ xs. []) m
  unfolding sequence_from_text
  vector_lost c [] h = tt
  vector_lost c ((k, xs) ∷ m) h =
      let (s, n, prints, loads, reads) = vector_cast-IsFaithful c xs h.0 in
      (
        (
          s,
          prints,
          ap (λ o. read_all c (bind o elements)) (load_emit (scalar s))
              ∙ ap (read_all c) (elements_scalar s),
        ),
        vector_lost c m h.1,
      )

  -- A map of vectors, which is printed without an error, is read back with every vector empty.
  pub map_cast_lost :
      {A : Type 0} (c : Cast A) (m : List (Text × List A))
      → All (λ e. All (IsFaithful c) e.1) m
      → IsOrdered key_less m
      → (s : Text) × (map_to_text y (vector_cast y c) m ≡ some s)
        × (map_from_text y (vector_cast y c) s ≡ some (map_values (λ xs. []) m))
  map_cast_lost c m h ordered =
      map_cast_returns (vector_cast y c) (λ xs. []) m (vector_lost c m h) ordered
