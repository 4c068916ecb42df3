-- ===== src/Config/Cast.antt =====
-- src/include/config.hh: the `LexicalCast` between strings and vectors, lists, sets and maps, for any
-- cast of their elements. yaml-cpp is a parameter: `YAML::Load`, `operator<<` of a node, and the
-- iteration over a node, with what its documentation says of them.
use sylar_framework.Prelude.{◌≡◌, Bool, List, [], ◌∷◌, Option, none, some, if◌then◌else◌}
use sylar_framework.Prelude.Text.{Text, before}
use sylar_framework.Config.Yaml.{
  Yaml, null, scalar, sequence, mapping, Nodes, nil, cons, Fields, end, field,
}

unfoldable pub nodes_list : Nodes → List Yaml
nodes_list nil = []
nodes_list (cons n ns) = n ∷ nodes_list ns

unfoldable pub fields_list : Fields → List (Text × Yaml)
fields_list end = []
fields_list (field k v fs) = (k, v) ∷ fields_list fs

-- `none` is an exception. Iteration over a scalar or null comes to its end at once.
pub record YamlCpp : Type 0 where
  pub load : Text → Option Yaml
  pub emit : Yaml → Text
  pub elements : Yaml → Option (List Yaml)
  pub entries : Yaml → Option (List (Text × Yaml))
  pub load_emit : (n : Yaml) → load (emit n) ≡ some n
  pub elements_sequence : (ns : Nodes) → elements (sequence ns) ≡ some (nodes_list ns)
  pub elements_null : elements null ≡ some []
  pub elements_scalar : (s : Text) → elements (scalar s) ≡ some []
  pub entries_mapping : (fs : Fields) → entries (mapping fs) ≡ some (fields_list fs)
  pub entries_null : entries null ≡ some []

-- `LexicalCast<T, std::string>` and `LexicalCast<std::string, T>`.
pub record Cast (A : Type 0) : Type 0 where
  pub to_text : A → Option Text
  pub from_text : Text → Option A

abbrev pub bind : {A B : Type 0} → Option A → (A → Option B) → Option B
bind none f = none
bind (some a) f = f a

abbrev pub cons_both : {A : Type 0} → Option A → Option (List A) → Option (List A)
cons_both (some x) (some xs) = some (x ∷ xs)
cons_both _ _ = none

-- A loop that stops at the first exception.
abbrev pub traverse : {A B : Type 0} → (A → Option B) → List A → Option (List B)
traverse f [] = some []
traverse f (x ∷ xs) = cons_both (f x) (traverse f xs)

-- A node to which `push_back` has appended the elements; with none it is still null.
abbrev pub nodes_from : List Yaml → Nodes
nodes_from [] = nil
nodes_from (n ∷ ns) = cons n (nodes_from ns)

unfoldable pub pushed : List Yaml → Yaml
pushed [] = null
pushed (n ∷ ns) = sequence (nodes_from (n ∷ ns))

-- A node in which the keys, which differ, have been set.
abbrev pub fields_from : List (Text × Yaml) → Fields
fields_from [] = end
fields_from ((k, n) ∷ es) = field k n (fields_from es)

unfoldable pub assigned : List (Text × Yaml) → Yaml
assigned [] = null
assigned (e ∷ es) = mapping (fields_from (e ∷ es))

-- `insert` of `std::set` and `std::map` with an order: nothing where the element is there already.
unfoldable pub insert : {A : Type 0} → (A → A → Bool) → A → List A → List A
insert less x [] = x ∷ []
insert less x (y ∷ ys) =
    if less y x then y ∷ insert less x ys else if less x y then x ∷ y ∷ ys else y ∷ ys

unfoldable pub insert_all : {A : Type 0} → (A → A → Bool) → List A → List A → List A
insert_all less acc [] = acc
insert_all less acc (x ∷ xs) = insert_all less (insert less x acc) xs

abbrev pub key_less : {A : Type 0} → Text × A → Text × A → Bool
key_less a b = before a.0 b.0

module _ (y : YamlCpp) where
  open y use {load, emit, elements, entries}

  -- `push_back(YAML::Load(LexicalCast<T, std::string>()(*it)))` in a loop.
  abbrev pub to_node : {A : Type 0} → Cast A → A → Option Yaml
  to_node c x = bind (c.to_text x) load

  unfoldable pub sequence_to_text : {A : Type 0} → Cast A → List A → Option Text
  sequence_to_text c xs = bind (traverse (to_node c) xs) (λ ns. some (emit (pushed ns)))

  unfoldable pub sequence_from_text : {A : Type 0} → Cast A → Text → Option (List A)
  sequence_from_text c s = bind (bind (load s) elements) (traverse (λ n. c.from_text (emit n)))

  -- The casts of `std::vector` and `std::list`.
  abbrev pub vector_cast : {A : Type 0} → Cast A → Cast (List A)
  vector_cast c = record { to_text = sequence_to_text c; from_text = sequence_from_text c }

  -- The casts of `std::set`, whose elements are in order.
  abbrev pub set_from_text : {A : Type 0} → Cast A → (A → A → Bool) → Text → Option (List A)
  set_from_text c less s = bind (sequence_from_text c s) (λ xs. some (insert_all less [] xs))

  abbrev pub set_cast : {A : Type 0} → Cast A → (A → A → Bool) → Cast (List A)
  set_cast c less = record { to_text = sequence_to_text c; from_text = set_from_text c less }

  -- `node[it->first] = LexicalCast<T, std::string>()(it->second)`.
  abbrev pub to_field : {A : Type 0} → Cast A → Text × A → Option (Text × Yaml)
  to_field c e = bind (c.to_text e.1) (λ s. some (e.0, scalar s))

  unfoldable pub map_to_text : {A : Type 0} → Cast A → List (Text × A) → Option Text
  map_to_text c m = bind (traverse (to_field c) m) (λ es. some (emit (assigned es)))

  abbrev pub from_field : {A : Type 0} → Cast A → Text × Yaml → Option (Text × A)
  from_field c e = bind (c.from_text (emit e.1)) (λ x. some (e.0, x))

  unfoldable pub map_from_text : {A : Type 0} → Cast A → Text → Option (List (Text × A))
  map_from_text c s =
      bind (bind (bind (load s) entries) (traverse (from_field c)))
        (λ es. some (insert_all key_less [] es))

  -- The casts of `std::map`, whose entries are in the order of their keys.
  abbrev pub map_cast : {A : Type 0} → Cast A → Cast (List (Text × A))
  map_cast c = record { to_text = map_to_text c; from_text = map_from_text c }
