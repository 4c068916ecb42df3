-- ===== src/Config/Others.antt =====
-- src/config.cc: what `LoadFromYaml` does to a variable that the file does not name.
use sylar_framework.Prelude.{
  ◌≡◌, ◌≢◌, refl, ap, ◌∙◌, inl, inr, List, [], ◌∷◌, Option, none, some, All, Bool-cases,
}
use sylar_framework.Prelude.Text.{Text, equal, equal_iff}
use sylar_framework.Config.Yaml.{Yaml, null, scalar, sequence, mapping, Entry, yaml_to_list}
use sylar_framework.Config.Vars.{
  Types, Var, Vars, Change, find_var, put_var, lower, set_key, text_of, set_string, Step, skips,
  ends, sets, of_change, set_at, try_entry, load_entry, load_entries, load_from_yaml,
}
use sylar_framework.Config.Names.{find_var-put_var}

module _ (t : Types) (emit : Yaml → Text) (key : Text) (low : lower t key ≡ key) where
  -- An entry whose key is not the name, whatever the case of its letters.
  abbrev pub IsOther : Entry → Type 0
  IsOther e = lower t e.0 ≢ key

  abbrev Keeps : Vars t → Step t emit → Type 0
  Keeps vs skips = Unit
  Keeps vs (ends ns x) = Unit
  Keeps vs (sets vs' ns) = find_var t key vs' ≡ find_var t key vs

  set_key_other : (k : Text) (node : Yaml) → lower t k ≢ key → set_key t emit k node ≢ key
  set_key_other k (scalar s) apart e = apart (ap (lower t) e ∙ low)
  set_key_other k null apart e = apart e
  set_key_other k (sequence ns) apart e = apart e
  set_key_other k (mapping fs) apart e = apart e

  put_other :
      (k : Text) (v : Var t) (vs : Vars t)
      → k ≢ key
      → find_var t key (put_var t k v vs) ≡ find_var t key vs
  put_other k v vs apart = elim (Bool-cases (equal k key)) [
    | inl e ↦ absurd (apart ((equal_iff k key).0 e))
    | inr e ↦ find_var-put_var t key k v vs ∙ rw e refl
  ]

  of_change-Keeps :
      (k : Text) (vs : Vars t) (c : Change t) → k ≢ key → Keeps vs (of_change t emit k vs c)
  of_change-Keeps k vs c apart = elim (Bool-cases c.thrown) [
    | inl e ↦ rw e tt
    | inr e ↦ rw e (put_other k c.var vs apart)
  ]

  set_at-Keeps :
      (k : Text) (node : Yaml) (vs : Vars t) (o : Option (Var t))
      → lower t k ≢ key
      → Keeps vs (set_at t emit k node vs o)
  unfolding set_at
  set_at-Keeps k node vs none apart = tt
  set_at-Keeps k node vs (some v) apart =
      of_change-Keeps (set_key t emit k node) vs (set_string t (text_of t emit node) v)
        (set_key_other k node apart)

  try_entry-Keeps :
      (k : Text) (node : Yaml) (vs : Vars t) (o : Option (Var t))
      → lower t k ≢ key
      → Keeps vs (try_entry t emit k node vs o)
  unfolding try_entry
  try_entry-Keeps k node vs none apart = tt
  try_entry-Keeps [] node vs (some w) apart = tt
  try_entry-Keeps (c ∷ s) node vs (some w) apart = set_at-Keeps (c ∷ s) node vs _ apart

  load_entries_other :
      (es : List Entry) (vs : Vars t)
      → All IsOther es
      → find_var t key (load_entries t emit es vs).vars ≡ find_var t key vs
  unfolding load_entries load_entry
  load_entries_other [] vs apart = refl
  load_entries_other ((k, node) ∷ es) vs apart =
      go (load_entry t emit (k, node) vs) refl (try_entry-Keeps k node vs _ apart.0)
        (λ us. load_entries_other es us apart.1)
    where
      go :
          (s : Step t emit)
          → load_entry t emit (k, node) vs ≡ s
          → Keeps vs s
          → ((us : Vars t) → find_var t key (load_entries t emit es us).vars ≡ find_var t key us)
          → find_var t key (load_entries t emit ((k, node) ∷ es) vs).vars ≡ find_var t key vs
      go skips e keeps rest = rw (e, load_entries) (rest vs)
      go (ends ns x) e keeps rest = rw (e, load_entries) refl
      go (sets vs' ns) e keeps rest = rw (e, load_entries) (rest vs' ∙ keeps)

  -- `LoadFromYaml` leaves alone every variable whose name, which is in lower case, is not the key of
  -- an entry of the file in lower case; and it does so however the load ends.
  pub load_from_yaml_other :
      (root : Yaml) (vs : Vars t)
      → All IsOther (yaml_to_list [] root)
      → find_var t key (load_from_yaml t emit root vs).vars ≡ find_var t key vs
  load_from_yaml_other root vs apart = load_entries_other (yaml_to_list [] root) vs apart
