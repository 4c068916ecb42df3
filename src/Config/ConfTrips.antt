-- ===== src/Config/ConfTrips.antt =====
-- Configurations of loggers that are printed and read again.
use mathlib.Core.Path.{subst}
use sylar_framework.Prelude.{
  ℕ, ◌≡◌, refl, ap, ◌∙◌, sym, List, [], ◌∷◌, map, Option, none, some, All,
}
use sylar_framework.Prelude.Text.{Text, text, equal, to_lower}
use sylar_framework.Log.Level.{
  Level, level_to_string, level_from_string, level_from_string-level_to_string,
}
use sylar_framework.Log.Loggers.{AppenderConf, LoggerConf}
use sylar_framework.Config.Yaml.{Yaml, scalar, mapping, Fields}
use sylar_framework.Config.Trips.{nodes_list-nodes_from}
use sylar_framework.Config.Cast.{YamlCpp, traverse, pushed, assigned}
use sylar_framework.Config.Confs.{
  Subscripts, find_field, required, optional, appenders_from, appender_node, conf_node,
  appender_from, conf_from, conf_to_text, conf_from_text,
}

-- A type that is not empty, in small letters.
abbrev pub IsTyped : AppenderConf → Type 0
IsTyped a = (c : ℕ) × (s : Text) × (a.type_ ≡ c ∷ s) × (map to_lower (c ∷ s) ≡ c ∷ s)

module _ (y : YamlCpp) (u : Subscripts) where
  open y use {load_emit}
  open u use {at_key_mapping, at_key_null, as_string_scalar}

  required_at :
      (fs : Fields) (k v : Text)
      → find_field k fs ≡ some (scalar v)
      → required y u (mapping fs) k ≡ some v
  required_at fs k v h = rw (at_key_mapping fs k, h) (as_string_scalar v)

  optional_at :
      (fs : Fields) (k v : Text)
      → find_field k fs ≡ some (scalar v)
      → optional y u (mapping fs) k ≡ some v
  optional_at fs k v h = rw (at_key_mapping fs k, h) (as_string_scalar v)

  optional_missing :
      (fs : Fields) (k : Text) → find_field k fs ≡ none → optional y u (mapping fs) k ≡ some []
  optional_missing fs k h = rw (at_key_mapping fs k, h) refl

  -- What is read from a mapping whose three keys are known.
  appender_from_keys :
      (fs : Fields) (t f g : Text)
      → map to_lower t ≡ t
      → required y u (mapping fs) (text "type") ≡ some t
      → optional y u (mapping fs) (text "formatter") ≡ some f
      → optional y u (mapping fs) (text "file") ≡ some g
      → appender_from y u (mapping fs) ≡ some (record { type_ = t; file = g; formatter = f })
  unfolding appender_from
  appender_from_keys fs t f g l a b c = rw (appender_from, a, b, c, l) refl

  appender_trip :
      (c : ℕ) (s file formatter : Text)
      → map to_lower (c ∷ s) ≡ c ∷ s
      → appender_from y u
          (appender_node (record { type_ = c ∷ s; file = file; formatter = formatter }))
        ≡ some (record { type_ = c ∷ s; file = file; formatter = formatter })
  unfolding appender_node assigned find_field equal
  appender_trip c s [] [] h =
      appender_from_keys _ (c ∷ s) [] [] h (required_at _ _ _ refl) (optional_missing _ _ refl)
        (optional_missing _ _ refl)
  appender_trip c s [] (x ∷ f) h =
      appender_from_keys _ (c ∷ s) (x ∷ f) [] h (required_at _ _ _ refl) (optional_at _ _ _ refl)
        (optional_missing _ _ refl)
  appender_trip c s (z ∷ g) [] h =
      appender_from_keys _ (c ∷ s) [] (z ∷ g) h (required_at _ _ _ refl) (optional_missing _ _ refl)
        (optional_at _ _ _ refl)
  appender_trip c s (z ∷ g) (x ∷ f) h =
      appender_from_keys _ (c ∷ s) (x ∷ f) (z ∷ g) h (required_at _ _ _ refl)
        (optional_at _ _ _ refl) (optional_at _ _ _ refl)

  typed_trip : (a : AppenderConf) → IsTyped a → appender_from y u (appender_node a) ≡ some a
  typed_trip a (c, s, e, h) =
      subst
        (λ t.
          appender_from y u
            (appender_node (record { type_ = t; file = a.file; formatter = a.formatter }))
          ≡ some (record { type_ = t; file = a.file; formatter = a.formatter }))
        (sym e) (appender_trip c s a.file a.formatter h)

  traverse_typed :
      (rest : List AppenderConf)
      → All IsTyped rest
      → traverse (appender_from y u) (map appender_node rest) ≡ some rest
  traverse_typed [] h = refl
  traverse_typed (a ∷ rest) h = rw (typed_trip a h.0, traverse_typed rest h.1) refl

  conf_from_keys :
      (fs : Fields) (lc : LoggerConf) (l : Level) (o : Option Yaml)
      → lc.level ≡ level_to_string l
      → required y u (mapping fs) (text "name") ≡ some lc.name
      → required y u (mapping fs) (text "level") ≡ some lc.level
      → find_field (text "appenders") fs ≡ o
      → appenders_from y u o ≡ some lc.appenders
      → conf_from y u (mapping fs) ≡ some lc
  unfolding conf_from
  conf_from_keys fs lc l o e a b c d =
      let again : level_to_string (level_from_string lc.level) ≡ lc.level =
        ap (λ t. level_to_string (level_from_string t)) e
        ∙ ap level_to_string (level_from_string-level_to_string l)
        ∙ sym e in
      rw (conf_from, a, b, at_key_mapping, c, d, again) refl

  conf_from_missing :
      (fs : Fields) (name level : Text)
      → required y u (mapping fs) (text "name") ≡ some name
      → required y u (mapping fs) (text "level") ≡ some level
      → find_field (text "appenders") fs ≡ none
      → conf_from y u (mapping fs) ≡ none
  unfolding conf_from
  conf_from_missing fs name level a b c = rw (conf_from, a, b, at_key_mapping, c) refl

  appenders_pushed :
      (a : AppenderConf) (rest : List AppenderConf)
      → All IsTyped (a ∷ rest)
      → appenders_from y u (some (pushed (map appender_node (a ∷ rest)))) ≡ some (a ∷ rest)
  unfolding pushed
  appenders_pushed a rest h =
      ap (traverse (appender_from y u)) (nodes_list-nodes_from (map appender_node (a ∷ rest)))
      ∙ traverse_typed (a ∷ rest) h

  -- A configuration of a logger with a level's name, and with at least one appender, whose types are in
  -- small letters and not empty, is read again from its text.
  pub conf_from_text-conf_to_text :
      (name : Text) (l : Level) (a : AppenderConf) (rest : List AppenderConf)
      → All IsTyped (a ∷ rest)
      → conf_from_text y u (
          conf_to_text y u
            (record { name = name; level = level_to_string l; appenders = a ∷ rest }))
        ≡ some (record { name = name; level = level_to_string l; appenders = a ∷ rest })
  unfolding conf_from_text conf_to_text conf_node assigned find_field equal
  conf_from_text-conf_to_text name l a rest h =
      rw (conf_from_text, conf_to_text, load_emit)
        (conf_from_keys _ (record { name = name; level = level_to_string l; appenders = a ∷ rest })
          l (some (pushed (map appender_node (a ∷ rest)))) refl (required_at _ _ _ refl)
          (required_at _ _ _ refl) refl (appenders_pushed a rest h))

  -- A configuration without appenders is printed, and reading its text is an exception.
  pub conf_from_text_no_appenders :
      (name level : Text)
      → conf_from_text y u
          (conf_to_text y u (record { name = name; level = level; appenders = [] }))
        ≡ none
  unfolding conf_from_text conf_to_text conf_node assigned find_field equal
  conf_from_text_no_appenders name level =
      rw (conf_from_text, conf_to_text, load_emit)
        (conf_from_missing _ name level (required_at _ _ _ refl) (required_at _ _ _ refl) refl)
