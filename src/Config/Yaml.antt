-- ===== src/Config/Yaml.antt =====
-- src/config.cc: `YamlToList`. A node is the tree that yaml-cpp shows: a scalar, a sequence, a
-- mapping whose keys are the scalars of their nodes, or null.
use sylar_framework.Prelude.{
  ℕ, Bool, true, ◌&&◌, ◌||◌, List, [], ◌∷◌, ◌++◌, leb, ◌==◌, if◌then◌else◌,
}
use sylar_framework.Prelude.Text.{Text, is_alpha}

mutual
  pub data Yaml : Type 0 where
    null : Yaml
    scalar : Text → Yaml
    sequence : Nodes → Yaml
    mapping : Fields → Yaml

  pub data Nodes : Type 0 where
    nil : Nodes
    cons : Yaml → Nodes → Nodes

  pub data Fields : Type 0 where
    end : Fields
    field : Text → Yaml → Fields → Fields

-- The characters that a key may have: letters, the digits from 1, and some signs.
unfoldable pub is_key_char : ℕ → Bool
is_key_char c =
    is_alpha c || (leb b'1' c && leb c b'9') || c == b'.' || c == b'_' || c == b'-' || c == b'/'

-- `find_first_not_of` finds nothing.
unfoldable pub all_of : (ℕ → Bool) → Text → Bool
all_of p [] = true
all_of p (c ∷ s) = p c && all_of p s

abbrev pub is_key : Text → Bool
is_key = all_of is_key_char

unfoldable pub join : Text → Text → Text
join [] k = k
join (c ∷ s) k = (c ∷ s) ++ b'.' ∷ k

abbrev pub Entry : Type 0
Entry = Text × Yaml

-- The node itself and what is below it, where its key is a valid one.
unfoldable pub listed : Text → Yaml → List Entry → List Entry
listed prefix node below = if is_key prefix then (prefix, node) ∷ below else []

unfoldable mutual
  unfolding listed

  pub children : Text → Yaml → List Entry
  children prefix (mapping fs) = list_fields prefix fs
  children prefix null = []
  children prefix (scalar s) = []
  children prefix (sequence ns) = []

  pub list_fields : Text → Fields → List Entry
  list_fields prefix end = []
  list_fields prefix (field k v fs) =
      listed (join prefix k) v (children (join prefix k) v) ++ list_fields prefix fs

-- `YamlToList`: what it appends to the list.
unfoldable pub yaml_to_list : Text → Yaml → List Entry
unfolding listed
yaml_to_list prefix node = listed prefix node (children prefix node)
