-- ===== src/Config/Codec.antt =====
-- A printer and a reader of YAML trees for the tests: a tree is printed as the orders of a machine
-- with a stack, and the reader runs them.
use sylar_framework.Prelude.{
  ℕ, zero, suc, ◌≡◌, refl, ap, ◌∙◌, List, [], ◌∷◌, ◌++◌, Option, none, some,
}
use sylar_framework.Prelude.Text.{Text}
use sylar_framework.Config.Yaml.{
  Yaml, null, scalar, sequence, mapping, Nodes, nil, cons, Fields, end, field,
}
use sylar_framework.Config.Cast.{YamlCpp, nodes_list, fields_list, Cast}

pub data Piled : Type 0 where
  a_text : Text → Piled
  a_node : Yaml → Piled
  some_nodes : Nodes → Piled
  some_fields : Fields → Piled

abbrev pub close_scalar : List Piled → List Piled
close_scalar (a_text s ∷ st) = a_node (scalar s) ∷ st
close_scalar st = st

abbrev pub close_cons : List Piled → List Piled
close_cons (a_node n ∷ some_nodes ns ∷ st) = some_nodes (cons n ns) ∷ st
close_cons st = st

abbrev pub close_sequence : List Piled → List Piled
close_sequence (some_nodes ns ∷ st) = a_node (sequence ns) ∷ st
close_sequence st = st

abbrev pub close_field : List Piled → List Piled
close_field (a_text k ∷ a_node n ∷ some_fields fs ∷ st) = some_fields (field k n fs) ∷ st
close_field st = st

abbrev pub close_mapping : List Piled → List Piled
close_mapping (some_fields fs ∷ st) = a_node (mapping fs) ∷ st
close_mapping st = st

abbrev pub put_char : ℕ → List Piled → List Piled
put_char c (a_text s ∷ st) = a_text (c ∷ s) ∷ st
put_char c st = st

unfoldable pub order : ℕ → List Piled → List Piled
order zero st = a_text [] ∷ st
order (suc zero) st = a_node null ∷ st
order (suc (suc zero)) st = close_scalar st
order (suc (suc (suc zero))) st = some_nodes nil ∷ st
order (suc (suc (suc (suc zero)))) st = close_cons st
order (suc (suc (suc (suc (suc zero))))) st = close_sequence st
order (suc (suc (suc (suc (suc (suc zero)))))) st = some_fields end ∷ st
order (suc (suc (suc (suc (suc (suc (suc zero))))))) st = close_field st
order (suc (suc (suc (suc (suc (suc (suc (suc zero)))))))) st = close_mapping st
order (suc (suc (suc (suc (suc (suc (suc (suc (suc c))))))))) st = put_char c st

unfoldable pub orders : Text → List Piled → List Piled
orders [] st = st
orders (c ∷ s) st = orders s (order c st)

pub text_orders : Text → Text
text_orders [] = 0 ∷ []
text_orders (c ∷ s) = text_orders s ++ suc (suc (suc (suc (suc (suc (suc (suc (suc c)))))))) ∷ []

mutual
  pub node_orders : Yaml → Text
  node_orders null = 1 ∷ []
  node_orders (scalar s) = text_orders s ++ 2 ∷ []
  node_orders (sequence ns) = nodes_orders ns ++ 5 ∷ []
  node_orders (mapping fs) = fields_orders fs ++ 8 ∷ []

  pub nodes_orders : Nodes → Text
  nodes_orders nil = 3 ∷ []
  nodes_orders (cons n ns) = nodes_orders ns ++ (node_orders n ++ 4 ∷ [])

  pub fields_orders : Fields → Text
  fields_orders end = 6 ∷ []
  fields_orders (field k n fs) = fields_orders fs ++ (node_orders n ++ (text_orders k ++ 7 ∷ []))

orders-append : (a b : Text) (st : List Piled) → orders (a ++ b) st ≡ orders b (orders a st)
unfolding orders
orders-append [] b st = refl
orders-append (c ∷ a) b st = orders-append a b (order c st)

-- Orders that are run in two parts.
in_parts : (a b : Text) (st u : List Piled) → orders a st ≡ u → orders (a ++ b) st ≡ orders b u
in_parts a b st u e = orders-append a b st ∙ ap (orders b) e

orders-text_orders : (s : Text) (st : List Piled) → orders (text_orders s) st ≡ a_text s ∷ st
unfolding orders order text_orders
orders-text_orders [] st = refl
orders-text_orders (c ∷ s) st = in_parts (text_orders s) _ st _ (orders-text_orders s st)

mutual
  unfolding orders order node_orders nodes_orders fields_orders

  pub orders-node : (n : Yaml) (st : List Piled) → orders (node_orders n) st ≡ a_node n ∷ st
  orders-node null st = refl
  orders-node (scalar s) st = in_parts (text_orders s) _ st _ (orders-text_orders s st)
  orders-node (sequence ns) st = in_parts (nodes_orders ns) _ st _ (orders-nodes ns st)
  orders-node (mapping fs) st = in_parts (fields_orders fs) _ st _ (orders-fields fs st)

  orders-nodes : (ns : Nodes) (st : List Piled) → orders (nodes_orders ns) st ≡ some_nodes ns ∷ st
  orders-nodes nil st = refl
  orders-nodes (cons n ns) st =
      in_parts (nodes_orders ns) _ st _ (orders-nodes ns st)
      ∙ in_parts (node_orders n) _ (some_nodes ns ∷ st) _ (orders-node n (some_nodes ns ∷ st))

  orders-fields :
      (fs : Fields) (st : List Piled) → orders (fields_orders fs) st ≡ some_fields fs ∷ st
  orders-fields end st = refl
  orders-fields (field k n fs) st =
      in_parts (fields_orders fs) _ st _ (orders-fields fs st)
      ∙ in_parts (node_orders n) _ (some_fields fs ∷ st) _ (orders-node n (some_fields fs ∷ st))
      ∙ in_parts (text_orders k) _ (a_node n ∷ some_fields fs ∷ st) _
          (orders-text_orders k (a_node n ∷ some_fields fs ∷ st))

abbrev pub result : List Piled → Option Yaml
result (a_node n ∷ []) = some n
result _ = none

abbrev pub elements : Yaml → Option (List Yaml)
elements (sequence ns) = some (nodes_list ns)
elements (mapping fs) = none
elements null = some []
elements (scalar s) = some []

abbrev pub entries : Yaml → Option (List (Text × Yaml))
entries (mapping fs) = some (fields_list fs)
entries _ = some []

abbrev pub machine : YamlCpp
machine = record {
  load = λ s. result (orders s []);
  emit = node_orders;
  elements = elements;
  entries = entries;
  load_emit = λ n. ap result (orders-node n []);
  elements_sequence = λ ns. refl;
  elements_null = refl;
  elements_scalar = λ s. refl;
  entries_mapping = λ fs. refl;
  entries_null = refl;
}

abbrev pub scalar_text : Option Yaml → Option Text
scalar_text (some (scalar s)) = some s
scalar_text _ = none

-- Texts that are printed as scalars.
abbrev pub text_cast : Cast Text
text_cast = record {
  to_text = λ s. some (machine.emit (scalar s));
  from_text = λ s. scalar_text (machine.load s);
}
