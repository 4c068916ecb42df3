-- ===== src/Log/Formatter.antt =====
-- src/log.cc: `LogFormatter::Init`, which cuts a pattern into pieces and makes an item of each, and
-- `LogFormatter::Format`. `strftime` of the local time is a parameter.
use sylar_framework.Prelude.{
  ℕ, zero, suc, Bool, true, false, not, ◌&&◌, List, [], ◌∷◌, ◌++◌, map, Option, none, some, length,
  ◌==◌, if◌then◌else◌,
}
use sylar_framework.Prelude.Text.{Text, text, equal, is_alpha, decimal}
use sylar_framework.Log.Level.{Level, level_to_string}

-- An entry of the vector of tuples: the characters, what stands in the braces, and the flag.
pub record Piece : Type 0 where
  pub characters : Text
  pub details : Text
  pub parsable : Bool

abbrev pub literal : Text → Piece
literal s = record { characters = s; details = []; parsable = false }

abbrev pub specifier : Text → Text → Piece
specifier s d = record { characters = s; details = d; parsable = true }

abbrev pub parse_error : Text
parse_error = text "<<parse-error>>"

-- What the inner loop makes of the text behind a percent sign: a name, the text in braces and what
-- is left, or a brace that is never closed.
pub data Scan : Type 0 where
  found : Text → Text → Text → Scan
  unclosed : Scan

abbrev pub stops : ℕ → Bool
stops c = not (is_alpha c) && not (c == b'{') && not (c == b'}')

unfoldable pub scan_details : Text → Text → Text → Scan
scan_details name seen [] = unclosed
scan_details name seen (c ∷ s) =
    if c == b'}' then found name seen s else scan_details name (seen ++ c ∷ []) s

unfoldable pub scan_name : Text → Text → Scan
unfolding is_alpha
scan_name seen [] = found seen [] []
scan_name seen (c ∷ s) =
    if stops c
    then found seen [] (c ∷ s)
    else if c == b'{'
    then scan_details seen [] s
    else scan_name (seen ++ c ∷ []) s

-- One round of the outer loop: a character for the text before the next percent sign, or a piece.
pub data Round : Type 0 where
  plain : ℕ → Text → Round
  piece : Piece → Text → Round

-- A brace that is never closed leaves the index at the percent sign.
unfoldable pub of_scan : Text → Scan → Round
of_scan s (found name details rest) = piece (specifier name details) rest
of_scan s unclosed = piece (literal parse_error) s

unfoldable pub percent : Text → Round
unfolding scan_name of_scan
percent [] = piece (specifier [] []) []
percent (d ∷ s) = if d == b'%' then plain b'%' s else of_scan (d ∷ s) (scan_name [] (d ∷ s))

unfoldable pub round : ℕ → Text → Round
unfolding percent
round c s = if c == b'%' then percent s else plain c s

abbrev pub flush : Text → List Piece → List Piece
flush [] ps = ps
flush (c ∷ s) ps = literal (c ∷ s) ∷ ps

abbrev pub emit : Text → Piece → Option (List Piece) → Option (List Piece)
emit nstr p none = none
emit nstr p (some ps) = some (flush nstr (p ∷ ps))

-- The outer loop, with `nstr_` so far; what it holds at the end of the pattern is not used. Each
-- round takes a character or more, so the length of the pattern is enough fuel.
unfoldable pub parse : ℕ → Text → Text → Option (List Piece)
parse fuel nstr [] = some []
parse zero nstr (c ∷ s) = none
parse (suc fuel) nstr (c ∷ s) = elim (round c s) [
  | plain b rest ↦ parse fuel (nstr ++ b ∷ []) rest
  | piece p rest ↦ emit nstr p (parse fuel [] rest)
]

-- The classes derived from `FormatterItem`.
pub data Item : Type 0 where
  message level_name tab thread_id coroutine_id logger_name filename line breaks elapse : Item
  timestamp verbatim : Text → Item

abbrev pub item_names : Text → List (Text × Item)
item_names details =
    (text "m", message)
    ∷ (text "p", level_name)
    ∷ (text "d", timestamp details)
    ∷ (text "T", tab)
    ∷ (text "t", thread_id)
    ∷ (text "F", coroutine_id)
    ∷ (text "c", logger_name)
    ∷ (text "f", filename)
    ∷ (text "l", line)
    ∷ (text "n", breaks)
    ∷ (text "u", elapse)
    ∷ []

abbrev pub find_item : Text → List (Text × Item) → Item
find_item s [] = verbatim parse_error
find_item s ((k, i) ∷ rest) = if equal s k then i else find_item s rest

abbrev pub item_of : Piece → Item
item_of p =
    if p.parsable then find_item p.characters (item_names p.details) else verbatim p.characters

abbrev pub items_of : Option (List Piece) → Option (List Item)
items_of none = none
items_of (some ps) = some (map item_of ps)

-- `LogFormatter::LogFormatter`.
unfoldable pub new_formatter : Text → Option (List Item)
new_formatter pattern_ = items_of (parse (length pattern_) [] pattern_)

-- `LogEvent`, with the content of its stream.
pub record Event : Type 0 where
  pub logger_name : Text
  pub filename : Text
  pub level : Level
  pub line : ℕ
  pub elapse : ℕ
  pub thread_id : ℕ
  pub coroutine_id : ℕ
  pub timestamp : ℕ
  pub content : Text

module _ (strftime : Text → ℕ → Text) (e : Event) where
  -- The overrides of `FormatterItem::Format`.
  unfoldable pub format_item : Item → Text
  format_item message = e.content
  format_item level_name = level_to_string e.level
  format_item tab = 9 ∷ []
  format_item thread_id = decimal e.thread_id
  format_item coroutine_id = decimal e.coroutine_id
  format_item logger_name = e.logger_name
  format_item filename = e.filename
  format_item line = decimal e.line
  format_item breaks = 10 ∷ []
  format_item elapse = decimal e.elapse
  format_item (timestamp format_) = strftime format_ e.timestamp
  format_item (verbatim s) = s

  -- `LogFormatter::Format`.
  unfoldable pub format : List Item → Text
  format [] = []
  format (i ∷ is) = format_item i ++ format is
