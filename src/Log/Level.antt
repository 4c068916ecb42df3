-- ===== src/Log/Level.antt =====
-- src/log.cc: `LogLevel::ToString` and `LogLevel::FromString`.
use sylar_framework.Prelude.{ℕ, ◌≡◌, refl, List, [], ◌∷◌, map, if◌then◌else◌}
use sylar_framework.Prelude.Text.{Text, text, equal, to_upper}

pub data Level : Type 0 where
  unknow debug info warn error fatal : Level

unfoldable pub level_number : Level → ℕ
level_number unknow = 0
level_number debug = 1
level_number info = 2
level_number warn = 3
level_number error = 4
level_number fatal = 5

unfoldable pub level_to_string : Level → Text
level_to_string unknow = text "UNKNOW"
level_to_string debug = text "DEBUG"
level_to_string info = text "INFO"
level_to_string warn = text "WARN"
level_to_string error = text "ERROR"
level_to_string fatal = text "FATAL"

abbrev pub level_names : List (Text × Level)
level_names =
    (text "DEBUG", debug)
    ∷ (text "INFO", info)
    ∷ (text "WARN", warn)
    ∷ (text "ERROR", error)
    ∷ (text "FATAL", fatal)
    ∷ []

abbrev pub first_level : Text → List (Text × Level) → Level
first_level s [] = unknow
first_level s ((k, l) ∷ rest) = if equal s k then l else first_level s rest

-- Any other text is `UNKNOW`.
unfoldable pub level_from_string : Text → Level
level_from_string s = first_level (map to_upper s) level_names

-- A level's name gives the level back.
pub level_from_string-level_to_string : (l : Level) → level_from_string (level_to_string l) ≡ l
unfolding level_from_string level_to_string to_upper equal
level_from_string-level_to_string unknow = refl
level_from_string-level_to_string debug = refl
level_from_string-level_to_string info = refl
level_from_string-level_to_string warn = refl
level_from_string-level_to_string error = refl
level_from_string-level_to_string fatal = refl
