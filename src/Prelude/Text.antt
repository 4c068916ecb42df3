-- ===== src/Prelude/Text.antt =====
-- Texts as lists of bytes: literals, equality, order, the ASCII classes of ctype.h, searching and
-- decimal numerals.
use Prim.Native.Char.{code}
use Prim.Native.String.{String}
use Prim.Native.Nat.{ℕ, zero, suc, ◌+◌, ◌-◌, ◌/◌, ◌%◌}
use mathlib.Core.Path.{◌≡◌, refl}
use mathlib.Core.Logic.{◌↔◌}
use mathlib.Core.Bool.{Bool, true, false, ◌&&◌, ◌||◌}
use mathlib.Core.Option.{Option, none, some}
use mathlib.Core.List.{List, [], ◌∷◌, ◌++◌, map}
use native.Mathlib.Omega.{arith}
use sylar_framework.Prelude.Tests.{ltb, leb, ◌==◌, if◌then◌else◌}

abbrev pub Text : Type 0
Text = List ℕ

-- The bytes of an ASCII literal.
abbrev pub text : String → Text
text String.[] = []
text (String.◌∷◌ c s) = code c ∷ text s

unfoldable pub equal : Text → Text → Bool
equal [] [] = true
equal (x ∷ xs) (y ∷ ys) = x == y && equal xs ys
equal _ _ = false

pub equal_iff : (s t : Text) → (equal s t ≡ true) ↔ (s ≡ t)
unfolding equal
equal_iff (x ∷ s) (y ∷ t) = ground (arith, equal_iff s t)
equal_iff _ _ = ground arith

pub equal_refl : (s : Text) → equal s s ≡ true
equal_refl s = (equal_iff s s).1 refl

-- `operator<` of `std::string`.
unfoldable pub before : Text → Text → Bool
before [] [] = false
before [] (y ∷ ys) = true
before (x ∷ xs) [] = false
before (x ∷ xs) (y ∷ ys) = if x == y then before xs ys else ltb x y

-- `toupper`, `tolower`, `isspace`, `isalpha` of the "C" locale.
unfoldable pub to_upper : ℕ → ℕ
to_upper c = if leb b'a' c && leb c b'z' then c - 32 else c

unfoldable pub to_lower : ℕ → ℕ
to_lower c = if leb b'A' c && leb c b'Z' then c + 32 else c

unfoldable pub is_space : ℕ → Bool
is_space c = c == 32 || (leb 9 c && leb c 13)

unfoldable pub is_alpha : ℕ → Bool
is_alpha c = (leb b'a' c && leb c b'z') || (leb b'A' c && leb c b'Z')

pub to_upper_idem : (c : ℕ) → to_upper (to_upper c) ≡ to_upper c
unfolding to_upper
to_upper_idem c = ground arith

pub to_lower_idem : (c : ℕ) → to_lower (to_lower c) ≡ to_lower c
unfolding to_lower
to_lower_idem c = ground arith

pub map_idem : (f : ℕ → ℕ) (s : Text) → ((c : ℕ) → f (f c) ≡ f c) → map f (map f s) ≡ map f s
map_idem f [] h = refl
map_idem f (c ∷ s) h = cc (h c, map_idem f s h)

-- The bytes without those that the test takes.
unfoldable pub remove_if : (ℕ → Bool) → Text → Text
remove_if p [] = []
remove_if p (c ∷ s) = if p c then remove_if p s else c ∷ remove_if p s

-- What follows a prefix.
unfoldable pub strip : Text → Text → Option Text
strip [] s = some s
strip (c ∷ p) [] = none
strip (c ∷ p) (x ∷ s) = if c == x then strip p s else none

-- `find` and the two `substr` calls around it: what stands before the first occurrence of a
-- pattern, and what stands behind it.
unfoldable pub break_on : Text → Text → Option (Text × Text)
unfolding strip
break_on p [] = elim (strip p []) [ none ↦ none | some r ↦ some ([], r) ]
break_on p (c ∷ s) =
    let later : Option (Text × Text) = elim (break_on p s) [
      | none ↦ none
      | some (a, b) ↦ some (c ∷ a, b)
    ] in
    elim (strip p (c ∷ s)) [ none ↦ later | some r ↦ some ([], r) ]

-- `std::to_string`, with the number itself for fuel.
decimal_from : ℕ → ℕ → Text
decimal_from zero n = (b'0' + n % 10) ∷ []
decimal_from (suc fuel) n =
    let high = decimal_from fuel (n / 10) in
    if ltb n 10 then (b'0' + n) ∷ [] else high ++ (b'0' + n % 10) ∷ []

unfoldable pub decimal : ℕ → Text
unfolding decimal_from
decimal n = decimal_from n n
