-- ===== src/Config/Confs.antt =====
-- src/include/config.hh: `LexicalCast` between strings and `LoggerConf`, and src/log.cc: the comparisons
-- of configurations. yaml-cpp is a parameter here too: `node[key]` and `as<std::string>`.
use sylar_framework.Prelude.{
  ◌≡◌, Bool, true, false, ◌&&◌, List, [], ◌∷◌, ◌++◌, map, Option, none, some,
}
use sylar_framework.Prelude.Text.{Text, text, equal, before, to_lower}
use sylar_framework.Log.Level.{level_to_string, level_from_string}
use sylar_framework.Log.Loggers.{AppenderConf, LoggerConf}
use sylar_framework.Config.Yaml.{Yaml, null, scalar, sequence, mapping, Fields, end, field}
use sylar_framework.Config.Cast.{YamlCpp, nodes_list, bind, traverse, pushed, assigned}

unfoldable pub find_field : Text → Fields → Option Yaml
find_field k end = none
find_field k (field i n fs) =
    let later = find_field k fs in elim (equal i k) [ true ↦ some n | false ↦ later ]

-- `node[key]`: an exception, a node that is not defined, or a node; and `as<std::string>()`.
pub record Subscripts : Type 0 where
  pub at_key : Yaml → Text → Option (Option Yaml)
  pub as_string : Yaml → Option Text
  pub at_key_mapping : (fs : Fields) (k : Text) → at_key (mapping fs) k ≡ some (find_field k fs)
  pub at_key_null : (k : Text) → at_key null k ≡ some none
  pub as_string_scalar : (s : Text) → as_string (scalar s) ≡ some s

-- A key with a text, left out when the text is empty.
abbrev pub unless_empty : Text → Text → List (Text × Yaml)
unless_empty k [] = []
unless_empty k (c ∷ s) = (k, scalar (c ∷ s)) ∷ []

unfoldable pub appender_node : AppenderConf → Yaml
appender_node a = assigned (
    unless_empty (text "type") a.type_
    ++ (unless_empty (text "formatter") a.formatter ++ unless_empty (text "file") a.file))

-- `node["appenders"]` is there once something has been pushed.
abbrev pub appenders_field : List AppenderConf → List (Text × Yaml)
appenders_field [] = []
appenders_field (a ∷ rest) = (text "appenders", pushed (map appender_node (a ∷ rest))) ∷ []

unfoldable pub conf_node : LoggerConf → Yaml
unfolding appender_node
conf_node lc =
    assigned (
      (text "name", scalar lc.name)
      ∷ (text "level", scalar lc.level)
      ∷ appenders_field lc.appenders)

-- The elements of a sequence; of anything else an exception.
abbrev pub items : Yaml → Option (List Yaml)
items (sequence ns) = some (nodes_list ns)
items _ = none

module _ (y : YamlCpp) (u : Subscripts) where
  open y use {load, emit}
  open u use {at_key, as_string}

  -- A key that must be defined, and one that is read if it is.
  abbrev pub or_throw : Option Yaml → Option Text
  or_throw none = none
  or_throw (some n) = as_string n

  abbrev pub or_empty : Option Yaml → Option Text
  or_empty none = some []
  or_empty (some n) = as_string n

  abbrev pub required : Yaml → Text → Option Text
  required n k = bind (at_key n k) or_throw

  abbrev pub optional : Yaml → Text → Option Text
  optional n k = bind (at_key n k) or_empty

  unfoldable pub appender_from : Yaml → Option AppenderConf
  unfolding to_lower
  appender_from n = bind (required n (text "type")) (λ t. bind (optional n (text "formatter")) (λ f.
      bind (optional n (text "file"))
        (λ g. some (record { type_ = map to_lower t; file = g; formatter = f }))))

  abbrev pub appenders_from : Option Yaml → Option (List AppenderConf)
  appenders_from none = none
  appenders_from (some n) = bind (items n) (traverse appender_from)

  unfoldable pub conf_from : Yaml → Option LoggerConf
  unfolding appender_from level_from_string level_to_string
  conf_from n = bind (required n (text "name")) (λ name. bind (required n (text "level")) (λ level.
      bind (bind (at_key n (text "appenders")) appenders_from) (λ appenders. some (record {
        name = name;
        level = level_to_string (level_from_string level);
        appenders = appenders;
      }))))

  -- The two casts.
  unfoldable pub conf_to_text : LoggerConf → Text
  unfolding conf_node
  conf_to_text lc = emit (conf_node lc)

  unfoldable pub conf_from_text : Text → Option LoggerConf
  unfolding conf_from
  conf_from_text s = bind (load s) conf_from

-- `operator==` and `operator<`.
unfoldable pub same_appender : AppenderConf → AppenderConf → Bool
same_appender a b = equal a.type_ b.type_ && (equal a.file b.file && equal a.formatter b.formatter)

unfoldable pub same_appenders : List AppenderConf → List AppenderConf → Bool
same_appenders [] [] = true
same_appenders (a ∷ rest) (b ∷ others) = same_appender a b && same_appenders rest others
same_appenders _ _ = false

unfoldable pub same_conf : LoggerConf → LoggerConf → Bool
unfolding same_appenders
same_conf a b =
    equal a.name b.name && (equal a.level b.level && same_appenders a.appenders b.appenders)

unfoldable pub conf_before : LoggerConf → LoggerConf → Bool
conf_before a b = before a.name b.name
