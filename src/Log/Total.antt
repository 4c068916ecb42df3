-- ===== src/Log/Total.antt =====
-- src/log.cc: the loops of `LogFormatter::Init` end for every pattern.
use sylar_framework.Prelude.{
  ℕ, zero, suc, ◌≤◌, ◌≡◌, refl, ap, inl, inr, List, [], ◌∷◌, ◌++◌, some, arith, length, ◌==◌,
  Bool-cases, map,
}
use sylar_framework.Prelude.Text.{Text}
use sylar_framework.Log.Formatter.{
  Piece, Scan, found, unclosed, stops, scan_details, scan_name, Round, plain, piece, of_scan,
  percent, round, flush, emit, parse, Item, item_of, items_of, new_formatter,
}

-- What a scan and a round leave of the text.
abbrev scan_left : Text → Scan → Text
scan_left s (found name d rest) = rest
scan_left s unclosed = s

abbrev left : Round → Text
left (plain b rest) = rest
left (piece p rest) = rest

scan_details-le :
    (name seen s t : Text)
    → length s ≤ length t
    → length (scan_left t (scan_details name seen s)) ≤ length t
unfolding scan_details
scan_details-le name seen [] t h = omega arith
scan_details-le name seen (c ∷ s) t h = elim (Bool-cases (c == b'}')) [
  | inl e ↦ rw e (omega arith)
  | inr e ↦ rw e (scan_details-le name (seen ++ c ∷ []) s t (omega arith))
]

scan_name-le :
    (seen s t : Text) → length s ≤ length t → length (scan_left t (scan_name seen s)) ≤ length t
unfolding scan_name
scan_name-le seen [] t h = omega arith
scan_name-le seen (c ∷ s) t h = elim (Bool-cases (stops c)) [
  | inl e ↦ rw e (omega arith)
  | inr e ↦ elim (Bool-cases (c == b'{')) [
    | inl f ↦ rw (e, f) (scan_details-le seen [] s t (omega arith))
    | inr f ↦ rw (e, f) (scan_name-le (seen ++ c ∷ []) s t (omega arith))
  ]
]

left-of_scan : (t : Text) (r : Scan) → left (of_scan t r) ≡ scan_left t r
unfolding of_scan
left-of_scan t (found name d rest) = refl
left-of_scan t unclosed = refl

percent-le : (s : Text) → length (left (percent s)) ≤ length s
unfolding percent
percent-le [] = omega arith
percent-le (d ∷ s) = elim (Bool-cases (d == b'%')) [
  | inl e ↦ rw e (omega arith)
  | inr e ↦ rw e (
      omega (
        arith,
        ap length (left-of_scan (d ∷ s) (scan_name [] (d ∷ s))),
        scan_name-le [] (d ∷ s) (d ∷ s) (omega arith),
      ))
]

round-le : (c : ℕ) (s : Text) → length (left (round c s)) ≤ length s
unfolding round
round-le c s = elim (Bool-cases (c == b'%')) [
  | inl e ↦ rw e (percent-le s)
  | inr e ↦ rw e (omega arith)
]

Parsed : ℕ → Text → Text → Type 0
Parsed fuel nstr s = (ps : List Piece) × (parse fuel nstr s ≡ some ps)

parse_total : (fuel : ℕ) (nstr s : Text) → length s ≤ fuel → Parsed fuel nstr s
unfolding Parsed parse
parse_total fuel nstr [] h = ([], refl)
parse_total zero nstr (c ∷ s) h = absurd (omega arith)
parse_total (suc fuel) nstr (c ∷ s) h =
    go (round c s) refl (round-le c s) (λ nstr' rest le. parse_total fuel nstr' rest le)
  where
    go :
        (r : Round)
        → round c s ≡ r
        → length (left (round c s)) ≤ length s
        → ((nstr' rest : Text)
            → length rest ≤ fuel
            → (ps : List Piece) × (parse fuel nstr' rest ≡ some ps))
        → (ps : List Piece) × (parse (suc fuel) nstr (c ∷ s) ≡ some ps)
    go (plain b rest) e le more =
        let (ps, q) = more (nstr ++ b ∷ []) rest (omega (arith, ap (λ r. length (left r)) e)) in
        (ps, rw (e, parse) q)
    go (piece p rest) e le more =
        let (ps, q) = more [] rest (omega (arith, ap (λ r. length (left r)) e)) in
        (flush nstr (p ∷ ps), rw (e, parse) (ap (emit nstr p) q))

-- Every pattern makes a formatter: the loops end, whatever braces and percent signs it has.
pub new_formatter_total : (pattern_ : Text) → (is : List Item) × (new_formatter pattern_ ≡ some is)
unfolding new_formatter Parsed
new_formatter_total pattern_ =
    let (ps, e) = parse_total (length pattern_) [] pattern_ (omega arith) in
    (map item_of ps, ap items_of e)
