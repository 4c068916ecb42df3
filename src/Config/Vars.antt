-- ===== src/Config/Vars.antt =====
-- src/include/config.hh: `ConfigVar` and `Config`, and src/config.cc: `LoadFromYaml`. The types of
-- the variables, with `operator==`, `LexicalCast` from a string, and the comparison of types behind
-- `dynamic_pointer_cast`, are a parameter. A callback is a number; it neither throws nor changes the
-- variable.
use sylar_framework.Prelude.{
  ℕ, ◌≡◌, Bool, true, false, ◌&&◌, ◌||◌, List, [], ◌∷◌, ◌++◌, map, Option, none, some, ltb, leb,
  ◌==◌, if◌then◌else◌,
}
use sylar_framework.Prelude.Text.{Text, equal, to_lower}
use sylar_framework.Config.Yaml.{Yaml, null, scalar, sequence, mapping, all_of, Entry, yaml_to_list}

pub record Types : Type 1 where
  pub Kind : Type 0
  pub Value : Type 0
  pub same_kind : Kind → Kind → Bool
  pub same_kind_refl : (k : Kind) → same_kind k k ≡ true
  pub same : Value → Value → Bool
  pub same_equal : (a b : Value) → same a b ≡ true → a ≡ b
  pub from_string : Kind → Text → Option Value

-- The callbacks by their keys, in the order of the keys; `none` is an empty `std::function`.
abbrev pub Listeners : Type 0
Listeners = List (ℕ × Option ℕ)

-- `AddListener`.
unfoldable pub add_listener : ℕ → Option ℕ → Listeners → Listeners
add_listener key f [] = (key, f) ∷ []
add_listener key f ((k, g) ∷ ls) =
    if key == k
    then (k, f) ∷ ls
    else if ltb key k
    then (key, f) ∷ (k, g) ∷ ls
    else (k, g) ∷ add_listener key f ls

-- `DelListener`.
unfoldable pub del_listener : ℕ → Listeners → Listeners
del_listener key [] = []
del_listener key ((k, g) ∷ ls) = if key == k then ls else (k, g) ∷ del_listener key ls

-- `GetListener` looks the key up with `operator[]`, which puts an empty function under a new key.
unfoldable pub find_listener : ℕ → Listeners → Option (Option ℕ)
find_listener key [] = none
find_listener key ((k, g) ∷ ls) = if key == k then some g else find_listener key ls

abbrev pub listener_or_empty : ℕ → Listeners → Option (Option ℕ) → Listeners × Option ℕ
listener_or_empty key ls (some g) = (ls, g)
listener_or_empty key ls none = (add_listener key none ls, none)

unfoldable pub get_listener : ℕ → Listeners → Listeners × Option ℕ
get_listener key ls = listener_or_empty key ls (find_listener key ls)

module _ (t : Types) where
  open t use {Kind, Value, same_kind, same, from_string}

  -- A call of a listener.
  pub record Notice : Type 0 where
    pub callback : ℕ
    pub old_val : Value
    pub new_val : Value

  -- The calls of the listeners; the flag says that an empty function was called, which throws.
  unfoldable pub notify : Value → Value → Listeners → List Notice × Bool
  notify old new [] = ([], false)
  notify old new ((k, none) ∷ ls) = ([], true)
  notify old new ((k, some f) ∷ ls) =
      let rest = notify old new ls in
      (record { callback = f; old_val = old; new_val = new } ∷ rest.0, rest.1)

  pub record Var : Type 0 where
    pub name : Text
    pub kind : Kind
    pub description : Text
    pub value : Value
    pub listeners : Listeners

  pub record Change : Type 0 where
    pub var : Var
    pub notices : List Notice
    pub thrown : Bool

  abbrev pub finish_change : Var → Value → List Notice × Bool → Change
  finish_change v val r = record {
    var = (if r.1 then v else record v { value = val });
    notices = r.0;
    thrown = r.1;
  }

  -- `SetValue`.
  unfoldable pub set_value : Value → Var → Change
  set_value val v =
      if same val v.value
      then record { var = v; notices = []; thrown = false }
      else finish_change v val (notify v.value val v.listeners)

  -- `ConfigVar::FromString`.
  abbrev pub set_parsed : Option Value → Var → Change
  set_parsed none v = record { var = v; notices = []; thrown = true }
  set_parsed (some val) v = set_value val v

  abbrev pub set_string : Text → Var → Change
  set_string s v = set_parsed (from_string v.kind s) v

  -- `GetVarsMap`.
  abbrev pub Vars : Type 0
  Vars = List (Text × Var)

  unfoldable pub find_var : Text → Vars → Option Var
  find_var key [] = none
  find_var key ((k, v) ∷ vs) = if equal k key then some v else find_var key vs

  unfoldable pub put_var : Text → Var → Vars → Vars
  put_var key v [] = (key, v) ∷ []
  put_var key v ((k, w) ∷ vs) = if equal k key then (k, v) ∷ vs else (k, w) ∷ put_var key v vs

  abbrev pub lower : Text → Text
  lower s = map to_lower s

  -- `dynamic_pointer_cast`.
  abbrev pub cast : Kind → Option Var → Option Var
  cast k none = none
  cast k (some v) = if same_kind k v.kind then some v else none

  -- `Lookup` of a name.
  unfoldable pub lookup : Kind → Text → Vars → Option Var
  unfolding find_var
  lookup k name vs = cast k (find_var (lower name) vs)

  unfoldable pub is_lower_char : ℕ → Bool
  is_lower_char c =
      (leb b'a' c && leb c b'z')
      || (leb b'1' c && leb c b'9')
      || c == b'.'
      || c == b'_'
      || c == b'-'
      || c == b'/'

  -- What `Lookup` with a default gives back: a pointer, which may be null, or an exception.
  pub data Answer : Type 0 where
    pointer : Option Var → Answer
    invalid : Answer

  abbrev pub new_var : Kind → Text → Value → Text → Var
  new_var k key val dscp = record {
    name = key;
    kind = k;
    description = dscp;
    value = val;
    listeners = [];
  }

  unfoldable pub add_missing : Kind → Text → Value → Text → Vars → Option Var → Vars × Answer
  add_missing k key val dscp vs (some v) = (vs, pointer (cast k (some v)))
  add_missing k key val dscp vs none =
      if all_of is_lower_char key
      then (put_var key (new_var k key val dscp) vs, pointer (some (new_var k key val dscp)))
      else (vs, invalid)

  -- `Lookup` with a default and a description.
  unfoldable pub lookup_or_add : Kind → Text → Value → Text → Vars → Vars × Answer
  unfolding add_missing
  lookup_or_add k name val dscp vs =
      add_missing k (lower name) val dscp vs (find_var (lower name) vs)

  -- How a load ends: all entries are done, an exception leaves it, or a null pointer is used.
  pub data Ending : Type 0 where
    all_done thrown_out null_call : Ending

  pub record Loaded : Type 0 where
    pub vars : Vars
    pub notices : List Notice
    pub ending : Ending

  module _ (emit : Yaml → Text) where
    -- The value of a node as `LoadFromYaml` reads it; `emit` is `operator<<` of a node.
    abbrev pub text_of : Yaml → Text
    text_of (scalar s) = s
    text_of null = emit null
    text_of (sequence ns) = emit (sequence ns)
    text_of (mapping fs) = emit (mapping fs)

    -- The key under which the variable is set: as it is written for a scalar, and else in lower case.
    abbrev pub set_key : Text → Yaml → Text
    set_key key (scalar s) = key
    set_key key null = lower key
    set_key key (sequence ns) = lower key
    set_key key (mapping fs) = lower key

    -- What the loop does with one entry: nothing, an end, or a variable that is set.
    pub data Step : Type 0 where
      skips : Step
      ends : List Notice → Ending → Step
      sets : Vars → List Notice → Step

    abbrev pub of_change : Text → Vars → Change → Step
    of_change key vs c =
        if c.thrown then ends c.notices thrown_out else sets (put_var key c.var vs) c.notices

    unfoldable pub set_at : Text → Yaml → Vars → Option Var → Step
    set_at key node vs none = ends [] null_call
    set_at key node vs (some v) = of_change (set_key key node) vs (set_string (text_of node) v)

    unfoldable pub try_entry : Text → Yaml → Vars → Option Var → Step
    unfolding set_at
    try_entry key node vs none = skips
    try_entry [] node vs (some w) = skips
    try_entry (c ∷ s) node vs (some w) = set_at (c ∷ s) node vs (find_var (set_key (c ∷ s) node) vs)

    unfoldable pub load_entry : Entry → Vars → Step
    unfolding try_entry
    load_entry (key, node) vs = try_entry key node vs (find_var (lower key) vs)

    abbrev pub after : List Notice → Loaded → Loaded
    after ns l = record l { notices = ns ++ l.notices }

    unfoldable pub load_entries : List Entry → Vars → Loaded
    load_entries [] vs = record { vars = vs; notices = []; ending = all_done }
    load_entries (e ∷ es) vs = elim (load_entry e vs) [
      | skips ↦ load_entries es vs
      | ends ns x ↦ record { vars = vs; notices = ns; ending = x }
      | sets vs' ns ↦ after ns (load_entries es vs')
    ]

    -- `LoadFromYaml`.
    abbrev pub load_from_yaml : Yaml → Vars → Loaded
    load_from_yaml root vs = load_entries (yaml_to_list [] root) vs
