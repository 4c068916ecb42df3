-- ===== src/Config/Names.antt =====
-- src/include/config.hh and src/config.cc: the names of the variables, which `Lookup` puts in lower
-- case and `LoadFromYaml` does not always.
use sylar_framework.Prelude.{
  ℕ, ◌≡◌, ◌≢◌, refl, sym, ap, ◌∙◌, inl, inr, true, List, [], ◌∷◌, Option, none, some, arith,
  if◌then◌else◌, All, Bool-cases, Option-cases,
}
use sylar_framework.Prelude.Text.{
  Text, equal, equal_iff, equal_refl, to_lower, to_lower_idem, map_idem,
}
use sylar_framework.Config.Yaml.{
  Yaml, scalar, mapping, end, field, all_of, is_key, join, Entry, listed, children, list_fields,
  yaml_to_list,
}
use sylar_framework.Config.Vars.{
  Types, Var, Vars, find_var, put_var, lower, cast, lookup, is_lower_char, pointer, invalid, Answer,
  new_var, add_missing, lookup_or_add, null_call, Ending, skips, ends, set_at, try_entry,
  load_entry, load_entries, load_from_yaml,
}

module _ (t : Types) where
  open t use {Kind, Value, same_kind, same_kind_refl}

  abbrev pub answer_of : Answer t → Option (Var t)
  answer_of (pointer o) = o
  answer_of invalid = none

  pub find_var-put_var :
      (key k : Text) (v : Var t) (vs : Vars t)
      → find_var t key (put_var t k v vs) ≡ (if equal k key then some v else find_var t key vs)
  unfolding find_var put_var
  find_var-put_var key k v [] = refl
  find_var-put_var key k v ((l, w) ∷ vs) =
      ground (arith, equal_iff l k, equal_iff l key, equal_iff k key, find_var-put_var key k v vs)

  -- `Lookup` of a name finds what `Lookup` with a default has given back for a name that differs in
  -- case only: the same variable, or null where the type is another one or the name is not allowed.
  pub lookup-lookup_or_add :
      (k : Kind) (name name' : Text) (val : Value) (dscp : Text) (vs : Vars t)
      → lower t name ≡ lower t name'
      → lookup t k name' (lookup_or_add t k name val dscp vs).0
        ≡ answer_of (lookup_or_add t k name val dscp vs).1
  unfolding lookup lookup_or_add add_missing
  lookup-lookup_or_add k name name' val dscp vs same_name =
      ap (λ key. cast t k (find_var t key (lookup_or_add t k name val dscp vs).0)) (sym same_name)
      ∙ (elim (Option-cases (find_var t (lower t name) vs)) [
        | inl e ↦ elim (Bool-cases (all_of (is_lower_char t) (lower t name))) [
          | inl good ↦
              let self = equal_refl (lower t name) in
              let new = new_var t k (lower t name) val dscp in
              let put : find_var t (lower t name) (put_var t (lower t name) new vs) ≡ some new =
                find_var-put_var (lower t name) (lower t name) new vs ∙ rw self refl in
              rw (e, good) (ap (cast t k) put ∙ rw (same_kind_refl k) refl)
          | inr bad ↦ rw (e, bad) (ap (cast t k) e)
        ]
        | inr (v, e) ↦ rw e (ap (cast t k) e)
      ])

  -- The names of the table are in lower case.
  abbrev pub IsLower : Vars t → Type 0
  IsLower vs = All (λ e. lower t e.0 ≡ e.0) vs

  put_var-IsLower :
      (k : Text) (v : Var t) (vs : Vars t) → lower t k ≡ k → IsLower vs → IsLower (put_var t k v vs)
  unfolding put_var
  put_var-IsLower k v [] h low = (h, tt)
  put_var-IsLower k v ((l, w) ∷ vs) h low = elim (Bool-cases (equal l k)) [
    | inl e ↦ rw e (low.0, low.1)
    | inr e ↦ rw e (low.0, put_var-IsLower k v vs h low.1)
  ]

  -- `Lookup` with a default keeps all names in lower case.
  pub lookup_or_add-IsLower :
      (k : Kind) (name : Text) (val : Value) (dscp : Text) (vs : Vars t)
      → IsLower vs
      → IsLower (lookup_or_add t k name val dscp vs).0
  unfolding lookup_or_add add_missing
  lookup_or_add-IsLower k name val dscp vs low =
      elim (Option-cases (find_var t (lower t name) vs)) [
        | inl e ↦ elim (Bool-cases (all_of (is_lower_char t) (lower t name))) [
          | inl good ↦
              rw (e, good)
                (put_var-IsLower (lower t name) _ vs (map_idem to_lower name to_lower_idem) low)
          | inr bad ↦ rw (e, bad) low
        ]
        | inr (v, e) ↦ rw e low
      ]

  find_var_capital :
      (key : Text) (vs : Vars t) → lower t key ≢ key → IsLower vs → find_var t key vs ≡ none
  unfolding find_var
  find_var_capital key [] capital low = refl
  find_var_capital key ((k, v) ∷ vs) capital low = elim (Bool-cases (equal k key)) [
    | inl e ↦
        let same_key : k ≡ key = (equal_iff k key).0 e in
        absurd (capital (ap (lower t) (sym same_key) ∙ low.0 ∙ same_key))
    | inr e ↦ rw e (find_var_capital key vs capital low.1)
  ]

  module _ (emit : Yaml → Text) where
    load_entries-skips :
        (e : Entry) (es : List Entry) (vs : Vars t)
        → load_entry t emit e vs ≡ skips
        → load_entries t emit (e ∷ es) vs ≡ load_entries t emit es vs
    unfolding load_entries
    load_entries-skips e es vs h = rw (h, load_entries) refl

    load_entries-ends :
        (e : Entry) (es : List Entry) (vs : Vars t) (x : Ending t)
        → load_entry t emit e vs ≡ ends [] x
        → (load_entries t emit (e ∷ es) vs).ending ≡ x
    unfolding load_entries
    load_entries-ends e es vs x h = rw (h, load_entries) refl

    load_entry_root : (node : Yaml) (vs : Vars t) → load_entry t emit ([], node) vs ≡ skips
    unfolding load_entry try_entry
    load_entry_root node vs = elim (Option-cases (find_var t [] vs)) [
      | inl e ↦ rw e refl
      | inr (v, e) ↦ rw e refl
    ]

    load_entry_gone :
        (c : ℕ) (key s : Text) (v : Var t) (vs : Vars t)
        → find_var t (lower t (c ∷ key)) vs ≡ some v
        → find_var t (c ∷ key) vs ≡ none
        → load_entry t emit (c ∷ key, scalar s) vs ≡ ends [] null_call
    unfolding load_entry try_entry set_at
    load_entry_gone c key s v vs known gone =
        ap (try_entry t emit (c ∷ key) (scalar s) vs) known
        ∙ ap (set_at t emit (c ∷ key) (scalar s) vs) gone

    -- A file with a scalar under a key that has a capital letter, and is the name of a variable but
    -- for case, makes `LoadFromYaml` use a null pointer, where all names of the table are in lower
    -- case.
    pub load_from_yaml_capital :
        (key s : Text) (v : Var t) (vs : Vars t)
        → is_key key ≡ true
        → lower t key ≢ key
        → find_var t (lower t key) vs ≡ some v
        → IsLower vs
        → (load_from_yaml t emit (mapping (field key (scalar s) end)) vs).ending ≡ null_call
    unfolding yaml_to_list listed children list_fields join all_of
    load_from_yaml_capital [] s v vs valid capital known low = absurd (capital refl)
    load_from_yaml_capital (c ∷ key) s v vs valid capital known low =
        ap (λ l. l.ending)
          (load_entries-skips ([], mapping (field (c ∷ key) (scalar s) end)) _ vs
            (load_entry_root (mapping (field (c ∷ key) (scalar s) end)) vs))
        ∙ rw valid (
            load_entries-ends (c ∷ key, scalar s) [] vs null_call
              (load_entry_gone c key s v vs known (find_var_capital (c ∷ key) vs capital low)))
