-- ===== src/Config/Tests.antt =====
-- src/config.cc and src/include/config.hh: variables whose values are texts.
use sylar_framework.Prelude.{
  ◌≡◌, ◌≢◌, ◌↔◌, refl, sym, ◌∙◌, ap, true, false, Option, none, List, [], ◌∷◌, some,
}
use sylar_framework.Prelude.Text.{Text, text, equal, equal_iff, is_alpha, to_lower}
use sylar_framework.Config.Yaml.{
  Yaml, null, scalar, mapping, end, field, is_key_char, all_of, yaml_to_list,
}
use sylar_framework.Config.Paths.{
  here, below, first, later, In, head, tail, dotted, In-yaml_to_list,
}
use sylar_framework.Config.Vars.{Types, Var, Vars}
use sylar_framework.Config.Mirror.{follow, set_all, last_or, follow-set_all}
use sylar_framework.Config.Cast.{Cast}
use sylar_framework.Config.Trips.{IsFaithful}
use sylar_framework.Config.Unordered.{
  Hashed, unordered_to_text, unordered_from_text, unordered_from_text-unordered_to_text,
}
use sylar_framework.Config.UnorderedMap.{
  Iteration, IsMap, unordered_map_to_text, unordered_map_from_text,
  unordered_map_from_text-unordered_map_to_text,
}
use sylar_framework.Log.Level.{warn, level_to_string}
use sylar_framework.Log.Loggers.{AppenderConf, LoggerConf}
use sylar_framework.Config.Confs.{Subscripts, find_field, conf_to_text, conf_from_text}
use sylar_framework.Config.ConfTrips.{conf_from_text-conf_to_text}
use sylar_framework.Config.Codec.{machine, scalar_text, text_cast}

faithful : (s : Text) → IsFaithful machine text_cast s
faithful s = (
  machine.emit (scalar s),
  scalar s,
  refl,
  machine.load_emit (scalar s),
  ap scalar_text (machine.load_emit (scalar s)),
)

abbrev two_texts : List Text
two_texts = text "x" ∷ text "y" ∷ []

abbrev two_vectors : List (Text × List Text)
two_vectors = (text "a", two_texts) ∷ (text "b", []) ∷ []

abbrev texts : Types
texts = record {
  Kind = Unit;
  Value = Text;
  same_kind = λ a b. true;
  same_kind_refl = λ k. refl;
  same = equal;
  same_equal = λ a b. (equal_iff a b).0;
  from_string = λ k s. some s;
}

abbrev no_text : Yaml → Text
no_text n = []

ne_of_equal : (s u : Text) → equal s u ≡ false → s ≢ u
ne_of_equal s u h e = cc (h, (equal_iff s u).1 e)

-- A variable with two listeners.
abbrev port : Var texts
port = record {
  name = text "port";
  kind = tt;
  description = [];
  value = text "80";
  listeners = (1, some 4) ∷ (2, some 5) ∷ [];
}

abbrev vars : Vars texts
vars = (text "port", port) ∷ []

abbrev file : Yaml
file = mapping (field (text "Port") (scalar (text "8080")) end)

abbrev nested : Yaml
nested = mapping (field (text "a") (scalar []) (field (text "b") file end))

follow-set_all_example :
    (follow texts 5 (set_all texts (text "80" ∷ text "81" ∷ []) port).1 (text "80")
      ≡ (set_all texts (text "80" ∷ text "81" ∷ []) port).0.value)
    × ((set_all texts (text "80" ∷ text "81" ∷ []) port).0.value
        ≡ last_or texts (text "80") (text "80" ∷ text "81" ∷ []))
follow-set_all_example = follow-set_all texts 5 (text "80" ∷ text "81" ∷ []) port tt refl

In-yaml_to_list_example :
    In (dotted (text "b" ∷ text "Port" ∷ []), scalar (text "8080")) (yaml_to_list [] nested)
unfolding all_of is_key_char is_alpha
In-yaml_to_list_example =
    In-yaml_to_list nested (text "b" ∷ text "Port" ∷ []) (scalar (text "8080")) (refl, (refl, tt))
      ((λ e. cc e), ((λ e. cc e), tt)) (below (later first) (below first here))

abbrev at_key : Yaml → Text → Option (Option Yaml)
at_key (mapping fs) k = some (find_field k fs)
at_key null k = some none
at_key _ k = none

abbrev as_string : Yaml → Option Text
as_string (scalar s) = some s
as_string _ = none

abbrev subscripts : Subscripts
subscripts = record {
  at_key = at_key;
  as_string = as_string;
  at_key_mapping = λ fs k. refl;
  at_key_null = λ k. refl;
  as_string_scalar = λ s. refl;
}

abbrev to_std : AppenderConf
to_std = record { type_ = text "std"; file = []; formatter = text "%m" }

abbrev warns : LoggerConf
warns = record { name = text "root"; level = level_to_string warn; appenders = to_std ∷ [] }

conf_from_text-conf_to_text_example :
    conf_from_text machine subscripts (conf_to_text machine subscripts warns) ≡ some warns
unfolding to_lower
conf_from_text-conf_to_text_example =
    conf_from_text-conf_to_text machine subscripts (text "root") warn to_std []
      ((b's', text "td", refl, refl), tt)

abbrev hashed : Hashed Text
hashed = record {
  same = equal;
  iterate = λ xs. xs;
  same_eq = λ s u e. (equal_iff s u).0 e;
  iterate_sound = λ x xs m. m;
  iterate_complete = λ x xs m. m;
}

unordered_from_text-unordered_to_text_example :
    (s : Text) × (ys : List Text) × (unordered_to_text machine hashed text_cast two_texts ≡ some s)
    × (unordered_from_text machine hashed text_cast s ≡ some ys)
    × ((x : Text) → In x ys ↔ In x two_texts)
unordered_from_text-unordered_to_text_example =
    unordered_from_text-unordered_to_text machine hashed text_cast two_texts
      (faithful (text "x"), (faithful (text "y"), tt))

-- Texts that are printed as they are, and read as scalars.
abbrev plain_cast : Cast Text
plain_cast = record { to_text = λ s. some s; from_text = λ s. scalar_text (machine.load s) }

abbrev in_order : Iteration Text
in_order = record { visit = λ m. m; visit_sound = λ e m k. k; visit_complete = λ e m k. k }

abbrev one_entry : List (Text × Text)
one_entry = (text "a", text "x") ∷ []

In-one : (e f : Text × Text) → In e (f ∷ []) → e ≡ f
In-one e f head = refl
In-one e f (tail i) = elim i [ ]

one_entry-IsMap : IsMap one_entry
one_entry-IsMap k a b i j =
    ap (λ e. e.1) (In-one (k, a) (text "a", text "x") i)
    ∙ sym (ap (λ e. e.1) (In-one (k, b) (text "a", text "x") j))

unordered_map_from_text-unordered_map_to_text_example :
    (s : Text) × (es : List (Text × Text)) × (unordered_map_to_text machine in_order plain_cast
        one_entry
      ≡ some s)
    × (unordered_map_from_text machine in_order plain_cast s ≡ some es)
    × ((e : Text × Text) → In e es ↔ In e one_entry)
unordered_map_from_text-unordered_map_to_text_example =
    unordered_map_from_text-unordered_map_to_text machine in_order plain_cast one_entry
      one_entry-IsMap ((text "x", refl, ap scalar_text (machine.load_emit (scalar (text "x")))), tt)
