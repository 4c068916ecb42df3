-- ===== src/Log/Pattern.antt =====
-- src/log.cc: what `LogFormatter::Init` makes of a pattern that is written out of segments.
use sylar_framework.Prelude.{
  ℕ, zero, suc, ◌+◌, ◌-◌, ◌≤◌, ◌≡◌, refl, sym, ap, ◌∙◌, inl, inr, true, false, List, [], ◌∷◌, ◌++◌,
  map, Option, none, some, arith, length, length-append, append_assoc, append-nil, All, ◌==◌,
  if◌then◌else◌, Bool-cases, ==_iff,
}
use sylar_framework.Prelude.Text.{Text, is_alpha}
use sylar_framework.Log.Formatter.{
  Piece, Item, Event, item_of, find_item, item_names, format, format_item, new_formatter, items_of,
  specifier, found, stops, scan_details, scan_name, plain, piece, of_scan, percent, round, flush,
  emit, parse,
}

-- Text to be printed as it is, then a percent sign, a name, and perhaps a text in braces.
pub record Segment : Type 0 where
  pub text_before : Text
  pub name : Text
  pub details : Option Text

-- A percent sign of the text is doubled.
unfoldable pub escape : Text → Text
escape [] = []
escape (c ∷ s) = if c == b'%' then b'%' ∷ b'%' ∷ escape s else c ∷ escape s

abbrev pub braces : Option Text → Text → Text
braces none rest = rest
braces (some d) rest = b'{' ∷ (d ++ b'}' ∷ rest)

-- The pattern of some segments with a text after the last one.
unfoldable pub render : List Segment → Text → Text
render [] tail = escape tail
render (g ∷ gs) tail = escape g.text_before ++ b'%' ∷ (g.name ++ braces g.details (render gs tail))

abbrev pub IsAlpha : ℕ → Type 0
IsAlpha c = is_alpha c ≡ true

abbrev pub IsName : Text → Type 0
IsName [] = ⊥
IsName (c ∷ s) = All IsAlpha (c ∷ s)

-- A text that cannot be taken for more of a name, nor for its braces.
abbrev pub EndsName : Text → Type 0
EndsName [] = Unit
EndsName (c ∷ s) = stops c ≡ true

abbrev pub IsClosed : Option Text → Text → Type 0
IsClosed none rest = EndsName rest
IsClosed (some d) rest = All (λ c. (c == b'}') ≡ false) d

abbrev pub IsReadable : List Segment → Text → Type 0
IsReadable [] tail = Unit
IsReadable (g ∷ gs) tail = IsName g.name × IsClosed g.details (render gs tail) × IsReadable gs tail

abbrev pub details_of : Option Text → Text
details_of none = []
details_of (some d) = d

-- The pieces that the segments stand for.
abbrev pub pieces : List Segment → List Piece
pieces [] = []
pieces (g ∷ gs) = flush g.text_before (specifier g.name (details_of g.details) ∷ pieces gs)

scan_details_closed :
    (name seen d rest : Text)
    → All (λ c. (c == b'}') ≡ false) d
    → scan_details name seen (d ++ b'}' ∷ rest) ≡ found name (seen ++ d) rest
unfolding scan_details
scan_details_closed name seen [] rest h = ap (λ s. found name s rest) (sym (append-nil seen))
scan_details_closed name seen (c ∷ d) rest h = rw h.0 (
    scan_details_closed name (seen ++ c ∷ []) d rest h.1
    ∙ ap (λ s. found name s rest) (append_assoc seen (c ∷ []) d))

alpha_goes_on : (c : ℕ) → is_alpha c ≡ true → (c == b'{') ≡ false
unfolding is_alpha
alpha_goes_on c h = ground arith

alpha_percent : (c : ℕ) → is_alpha c ≡ true → (c == b'%') ≡ false
unfolding is_alpha
alpha_percent c h = ground arith

scan_name-append :
    (seen name rest : Text)
    → All IsAlpha name
    → scan_name seen (name ++ rest) ≡ scan_name (seen ++ name) rest
unfolding scan_name
scan_name-append seen [] rest h = ap (λ s. scan_name s rest) (sym (append-nil seen))
scan_name-append seen (c ∷ name) rest h =
    let e = alpha_goes_on c h.0 in
    rw (h.0, e)
      (scan_name-append (seen ++ c ∷ []) name rest h.1
        ∙ ap (λ s. scan_name s rest) (append_assoc seen (c ∷ []) name))

scan_name_closed :
    (name : Text) (details : Option Text) (rest : Text)
    → IsClosed details rest
    → scan_name name (braces details rest) ≡ found name (details_of details) rest
unfolding scan_name
scan_name_closed name none [] h = refl
scan_name_closed name none (c ∷ rest) h = rw h refl
scan_name_closed name (some d) rest h = scan_details_closed name [] d rest h

parse_plain :
    (fuel : ℕ) (nstr : Text) (c b : ℕ) (s rest : Text)
    → round c s ≡ plain b rest
    → parse (suc fuel) nstr (c ∷ s) ≡ parse fuel (nstr ++ b ∷ []) rest
unfolding parse
parse_plain fuel nstr c b s rest h = rw (h, parse) refl

parse_piece :
    (fuel : ℕ) (nstr : Text) (c : ℕ) (p : Piece) (s rest : Text)
    → round c s ≡ piece p rest
    → parse (suc fuel) nstr (c ∷ s) ≡ emit nstr p (parse fuel [] rest)
unfolding parse
parse_piece fuel nstr c p s rest h = rw (h, parse) refl

round_other : (c : ℕ) (s : Text) → (c == b'%') ≡ false → round c s ≡ plain c s
unfolding round
round_other c s h = rw h refl

round_double : (s : Text) → round b'%' (b'%' ∷ s) ≡ plain b'%' s
unfolding round percent
round_double s = refl

parse-escape :
    (fuel : ℕ) (nstr lit rest : Text)
    → length lit ≤ fuel
    → parse fuel nstr (escape lit ++ rest) ≡ parse (fuel - length lit) (nstr ++ lit) rest
unfolding escape
parse-escape fuel nstr [] rest enough =
    let e : fuel - 0 ≡ fuel = omega arith in
    rw e (ap (λ s. parse fuel s rest) (sym (append-nil nstr)))
parse-escape zero nstr (c ∷ lit) rest enough = absurd (omega arith)
parse-escape (suc fuel) nstr (c ∷ lit) rest enough =
    let less : suc fuel - suc (length lit) ≡ fuel - length lit = omega arith in
    let go =
      parse-escape fuel (nstr ++ c ∷ []) lit rest (omega arith)
      ∙ ap (λ s. parse (fuel - length lit) s rest) (append_assoc nstr (c ∷ []) lit) in
    elim (Bool-cases (c == b'%')) [
      | inl same ↦
          let e : c ≡ b'%' = (==_iff c b'%').0 same in
          rw (same, less)
            (parse_plain fuel nstr b'%' b'%' _ _ (round_double (escape lit ++ rest))
              ∙ ap (λ b. parse fuel (nstr ++ b ∷ []) (escape lit ++ rest)) (sym e)
              ∙ go)
      | inr other ↦
          rw (other, less)
            (parse_plain fuel nstr c c _ _ (round_other c (escape lit ++ rest) other) ∙ go)
    ]

round_segment :
    (name : Text) (details : Option Text) (rest : Text)
    → IsName name
    → IsClosed details rest
    → round b'%' (name ++ braces details rest) ≡ piece (specifier name (details_of details)) rest
unfolding round percent of_scan
round_segment [] details rest named closed = absurd named
round_segment (c ∷ name) details rest named closed =
    let e = alpha_percent c named.0 in
    let s : scan_name [] (c ∷ name ++ braces details rest)
        ≡ found (c ∷ name) (details_of details) rest =
      scan_name-append [] (c ∷ name) (braces details rest) named
      ∙ scan_name_closed (c ∷ name) details rest closed in
    rw e (rw s refl)

parse_segment :
    (fuel : ℕ) (nstr name : Text) (details : Option Text) (rest : Text)
    → IsName name
    → IsClosed details rest
    → parse (suc fuel) nstr (b'%' ∷ (name ++ braces details rest))
      ≡ emit nstr (specifier name (details_of details)) (parse fuel [] rest)
parse_segment fuel nstr name details rest named closed =
    parse_piece fuel nstr b'%' _ _ rest (round_segment name details rest named closed)

abbrev size : List Segment → Text → ℕ
size [] tail = length tail
size (g ∷ gs) tail = length g.text_before + suc (size gs tail)

parse-render :
    (fuel : ℕ) (gs : List Segment) (tail : Text)
    → IsReadable gs tail
    → size gs tail ≤ fuel
    → parse fuel [] (render gs tail) ≡ some (pieces gs)
unfolding render
parse-render fuel [] tail readable enough =
    ap (parse fuel []) (sym (append-nil (escape tail)))
    ∙ parse-escape fuel [] tail [] enough
    ∙ unfold parse in refl
parse-render fuel (g ∷ gs) tail readable enough =
    let left = fuel - length g.text_before in
    let e : left ≡ suc (left - 1) = omega arith in
    parse-escape fuel [] g.text_before _ (omega arith)
    ∙ ap (λ n. parse n g.text_before (b'%' ∷ (g.name ++ braces g.details (render gs tail)))) e
    ∙ parse_segment (left - 1) g.text_before g.name g.details (render gs tail) readable.0 readable.1
    ∙ ap (emit g.text_before (specifier g.name (details_of g.details)))
        (parse-render (left - 1) gs tail readable.2 (omega arith))

length-escape : (s : Text) → length s ≤ length (escape s)
unfolding escape
length-escape [] = omega arith
length-escape (c ∷ s) = ground (arith, length-escape s)

length-braces : (d : Option Text) (rest : Text) → length rest ≤ length (braces d rest)
length-braces none rest = omega arith
length-braces (some d) rest = omega (arith, length-append d (b'}' ∷ rest))

size-le-render : (gs : List Segment) (tail : Text) → size gs tail ≤ length (render gs tail)
unfolding render
size-le-render [] tail = length-escape tail
size-le-render (g ∷ gs) tail =
    let rest = render gs tail in
    omega (
      arith,
      length-escape g.text_before,
      length-append (escape g.text_before) (b'%' ∷ (g.name ++ braces g.details rest)),
      length-append g.name (braces g.details rest),
      length-braces g.details rest,
      size-le-render gs tail,
    )

-- What the segments say, one after the other.
abbrev pub spelled : (Text → ℕ → Text) → Event → List Segment → Text
spelled strftime e [] = []
spelled strftime e (g ∷ gs) =
    g.text_before
    ++ (format_item strftime e (find_item g.name (item_names (details_of g.details)))
        ++ spelled strftime e gs)

format-flush :
    (strftime : Text → ℕ → Text) (e : Event) (lit : Text) (p : Piece) (ps : List Piece)
    → format strftime e (map item_of (flush lit (p ∷ ps)))
      ≡ lit ++ (format_item strftime e (item_of p) ++ format strftime e (map item_of ps))
unfolding format format_item
format-flush strftime e [] p ps = refl
format-flush strftime e (c ∷ lit) p ps = refl

format-pieces :
    (strftime : Text → ℕ → Text) (e : Event) (gs : List Segment)
    → format strftime e (map item_of (pieces gs)) ≡ spelled strftime e gs
unfolding format format_item
format-pieces strftime e [] = refl
format-pieces strftime e (g ∷ gs) =
    format-flush strftime e g.text_before (specifier g.name (details_of g.details)) (pieces gs)
    ∙ ap
        (λ s.
          g.text_before
          ++ (format_item strftime e (find_item g.name (item_names (details_of g.details))) ++ s))
        (format-pieces strftime e gs)

-- A formatter whose pattern is written out of segments, each of a text, a name of letters, and
-- perhaps a text in braces, prints for each segment its text and what its name stands for. The text
-- after the last segment, whatever it is, is not printed.
pub format-render :
    (strftime : Text → ℕ → Text) (e : Event) (gs : List Segment) (tail : Text)
    → IsReadable gs tail
    → (is : List Item) × (new_formatter (render gs tail) ≡ some is)
      × (format strftime e is ≡ spelled strftime e gs)
unfolding new_formatter
format-render strftime e gs tail readable = (
  map item_of (pieces gs),
  ap items_of (parse-render (length (render gs tail)) gs tail readable (size-le-render gs tail)),
  format-pieces strftime e gs,
)
