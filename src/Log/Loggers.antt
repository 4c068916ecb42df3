-- ===== src/Log/Loggers.antt =====
-- src/log.cc: `Logger` and `LoggerManager`; src/config.cc: the listener of `LogConfInit`. A logger
-- is an object that is shared: the manager's table and `root_` hold its address. The locks are held
-- for a whole operation, so an operation is one step.
use sylar_framework.Prelude.{
  ℕ, Bool, true, false, not, ◌&&◌, List, [], ◌∷◌, ◌++◌, Option, none, some, length, set, get_elem?,
  leb, if◌then◌else◌,
}
use sylar_framework.Prelude.Text.{Text, text, equal}
use sylar_framework.Log.Level.{Level, debug, fatal, level_number, level_from_string}

-- `LogAppenderToStd` and `LogAppenderToFile`, with the pattern of the formatter.
pub data Target : Type 0 where
  to_std : Target
  to_file : Text → Target

pub record Appender : Type 0 where
  pub target : Target
  pub pattern_ : Text

pub record Logger : Type 0 where
  pub name : Text
  pub max_level : Level
  pub appenders : List Appender

abbrev pub new_logger_object : Text → Logger
new_logger_object name_ = record { name = name_; max_level = debug; appenders = [] }

abbrev pub default_pattern : Text
default_pattern = text "%d{%Y-%m-%d %H:%M:%S}%T%u%T%t%T%F%T[%p]%T[%c]%T%f:%l%T%m%n"

-- `Logger::AddAppender` and `Logger::SetMaxLevel`.
abbrev pub add_appender : Appender → Logger → Logger
add_appender a l = record l { appenders = l.appenders ++ a ∷ [] }

abbrev pub set_max_level : Level → Logger → Logger
set_max_level v l = record l { max_level = v }

-- `Logger::DelAppender`, with the test for the item's address. The loop goes on from the iterator
-- that `erase` has made invalid: `none`.
unfoldable pub del_appender : (Appender → Bool) → List Appender → Option (List Appender)
del_appender is_item [] = some []
del_appender is_item (a ∷ as_) =
    let rest : Option (List Appender) = elim (del_appender is_item as_) [
      | none ↦ none
      | some left ↦ some (a ∷ left)
    ] in
    if is_item a then none else rest

-- `Logger::Log`: the appenders that print the event.
unfoldable pub log : Logger → Level → List Appender
log l v = if leb (level_number v) (level_number l.max_level) then l.appenders else []

abbrev pub Names : Type 0
Names = List (Text × ℕ)

pub record Manager : Type 0 where
  pub objects : List Logger
  pub loggers : Names
  pub root : ℕ

-- `LoggerManager::LoggerManager`.
abbrev pub new_manager : Manager
new_manager = record {
  objects =
      record {
        name = text "root";
        max_level = fatal;
        appenders = record { target = to_std; pattern_ = default_pattern } ∷ [];
      }
      ∷ [];
  loggers = (text "root", 0) ∷ [];
  root = 0;
}

unfoldable pub find_name : Text → Names → Option ℕ
find_name s [] = none
find_name s ((k, a) ∷ rest) = if equal k s then some a else find_name s rest

unfoldable pub erase_name : Text → Names → Names
erase_name s [] = []
erase_name s ((k, a) ∷ rest) = if equal k s then erase_name s rest else (k, a) ∷ erase_name s rest

-- `GetLogger`: `none` is the exception.
abbrev pub get_logger : Text → Manager → Option ℕ
get_logger s m = find_name s m.loggers

unfoldable pub make_logger : Text → Manager → Option ℕ → Manager × ℕ
make_logger s m (some a) = (m, a)
make_logger s m none = (
  record m {
    objects = m.objects ++ new_logger_object s ∷ [];
    loggers = (s, length m.objects) ∷ m.loggers;
  },
  length m.objects,
)

-- `NewLogger`.
abbrev pub new_logger : Text → Manager → Manager × ℕ
new_logger s m = make_logger s m (find_name s m.loggers)

-- `DelLogger`.
abbrev pub del_logger : Text → Manager → Manager
del_logger s m = record m { loggers = erase_name s m.loggers }

-- `LogAppenderConf` and `LoggerConf`.
pub record AppenderConf : Type 0 where
  pub type_ : Text
  pub file : Text
  pub formatter : Text

pub record LoggerConf : Type 0 where
  pub name : Text
  pub level : Text
  pub appenders : List AppenderConf

abbrev pub is_empty : Text → Bool
is_empty [] = true
is_empty (c ∷ s) = false

abbrev pub pattern_of : Text → Text
pattern_of f = if is_empty f then default_pattern else f

-- The appender of a configuration, if its type is known.
unfoldable pub appender_of : AppenderConf → Option Appender
appender_of c =
    if equal c.type_ (text "logappendertostd")
    then some (record { target = to_std; pattern_ = pattern_of c.formatter })
    else if equal c.type_ (text "logappendertofile") && not (is_empty c.file)
    then some (record { target = to_file c.file; pattern_ = pattern_of c.formatter })
    else none

abbrev pub with_appender : Option Appender → Logger → Logger
with_appender none l = l
with_appender (some a) l = add_appender a l

unfoldable pub add_appenders : List AppenderConf → Logger → Logger
add_appenders [] l = l
add_appenders (c ∷ cs) l = add_appenders cs (with_appender (appender_of c) l)

-- An object changed through its address.
abbrev pub change_at : ℕ → Option Logger → (Logger → Logger) → List Logger → List Logger
change_at a none f ls = ls
change_at a (some l) f ls = set ls a (f l)

abbrev pub configure : LoggerConf → Logger → Logger
configure c l = add_appenders c.appenders (set_max_level (level_from_string c.level) l)

-- The body of the loop over the new value.
unfoldable pub add_conf : LoggerConf → Manager × ℕ → Manager
add_conf c (m, a) = record m {
  objects = change_at a (get_elem? m.objects a) (configure c) m.objects;
  root = (if equal c.name (text "root") then a else m.root);
}

unfoldable pub delete_all : List LoggerConf → Manager → Manager
delete_all [] m = m
delete_all (c ∷ cs) m = delete_all cs (del_logger c.name m)

unfoldable pub add_all : List LoggerConf → Manager → Manager
unfolding add_conf
add_all [] m = m
add_all (c ∷ cs) m = add_all cs (add_conf c (new_logger c.name m))

-- The listener of `LogConfInit`.
unfoldable pub on_change : List LoggerConf → List LoggerConf → Manager → Manager
unfolding delete_all add_all
on_change old_val new_val m = add_all new_val (delete_all old_val m)
