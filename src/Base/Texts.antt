-- ===== src/Base/Texts.antt =====
-- The operations on `str` that the program uses, over the code points of a text. Letter case and
-- white space are those of ASCII.
use Prim.Native.Nat.{ℕ, zero, suc, ◌+◌, ◌-◌, ◌*◌, ◌/◌, ◌%◌}
use Prim.Native.Char.{Char, code}
use Prim.Native.String.{String}
use mathlib.Core.Path.{◌≡◌, refl}
use mathlib.Core.Logic.{◌↔◌}
use mathlib.Core.Bool.{Bool, true, false, ◌||◌, ◌&&◌}
use mathlib.Core.Option.{Option, none, some}
use mathlib.Core.List.{List, [], ◌∷◌, ◌++◌, reverse}
use native.Mathlib.Omega.{arith}
use slurm_web.Base.Tests.{leb, ltb, eqb, if◌then◌else◌}
use slurm_web.Base.Int.{ℤ, pos, negsuc}

abbrev pub Text : Type 0
Text = List ℕ

abbrev pub codes : String → Text
codes String.[] = []
codes (String.◌∷◌ c s) = code c ∷ codes s

-- s == t
abbrev pub same : Text → Text → Bool
same [] [] = true
same [] (d ∷ t) = false
same (c ∷ s) [] = false
same (c ∷ s) (d ∷ t) = eqb c d && same s t

pub same_iff : (s t : Text) → (same s t ≡ true) ↔ (s ≡ t)
same_iff [] [] = (λ _. refl, λ _. refl)
same_iff [] (d ∷ t) = ground arith
same_iff (c ∷ s) [] = ground arith
same_iff (c ∷ s) (d ∷ t) = ground (arith, same_iff s t)

abbrev upper_char : ℕ → Char → Char
upper_char n c =
    if eqb n b'a'
    then "A"
    else if eqb n b'b'
    then "B"
    else if eqb n b'c'
    then "C"
    else if eqb n b'd'
    then "D"
    else if eqb n b'e'
    then "E"
    else if eqb n b'f'
    then "F"
    else if eqb n b'g'
    then "G"
    else if eqb n b'h'
    then "H"
    else if eqb n b'i'
    then "I"
    else if eqb n b'j'
    then "J"
    else if eqb n b'k'
    then "K"
    else if eqb n b'l'
    then "L"
    else if eqb n b'm'
    then "M"
    else if eqb n b'n'
    then "N"
    else if eqb n b'o'
    then "O"
    else if eqb n b'p'
    then "P"
    else if eqb n b'q'
    then "Q"
    else if eqb n b'r'
    then "R"
    else if eqb n b's'
    then "S"
    else if eqb n b't'
    then "T"
    else if eqb n b'u'
    then "U"
    else if eqb n b'v'
    then "V"
    else if eqb n b'w'
    then "W"
    else if eqb n b'x'
    then "X"
    else if eqb n b'y'
    then "Y"
    else if eqb n b'z'
    then "Z"
    else c

abbrev lower_char : ℕ → Char → Char
lower_char n c =
    if eqb n b'A'
    then "a"
    else if eqb n b'B'
    then "b"
    else if eqb n b'C'
    then "c"
    else if eqb n b'D'
    then "d"
    else if eqb n b'E'
    then "e"
    else if eqb n b'F'
    then "f"
    else if eqb n b'G'
    then "g"
    else if eqb n b'H'
    then "h"
    else if eqb n b'I'
    then "i"
    else if eqb n b'J'
    then "j"
    else if eqb n b'K'
    then "k"
    else if eqb n b'L'
    then "l"
    else if eqb n b'M'
    then "m"
    else if eqb n b'N'
    then "n"
    else if eqb n b'O'
    then "o"
    else if eqb n b'P'
    then "p"
    else if eqb n b'Q'
    then "q"
    else if eqb n b'R'
    then "r"
    else if eqb n b'S'
    then "s"
    else if eqb n b'T'
    then "t"
    else if eqb n b'U'
    then "u"
    else if eqb n b'V'
    then "v"
    else if eqb n b'W'
    then "w"
    else if eqb n b'X'
    then "x"
    else if eqb n b'Y'
    then "y"
    else if eqb n b'Z'
    then "z"
    else c

-- s.upper(), s.lower()
unfoldable pub upper : String → String
upper String.[] = String.[]
upper (String.◌∷◌ c s) = String.◌∷◌ (upper_char (code c) c) (upper s)

unfoldable pub lower : String → String
lower String.[] = String.[]
lower (String.◌∷◌ c s) = String.◌∷◌ (lower_char (code c) c) (lower s)

digit_char : ℕ → Char
digit_char n =
    if eqb n 0
    then "0"
    else if eqb n 1
    then "1"
    else if eqb n 2
    then "2"
    else if eqb n 3
    then "3"
    else if eqb n 4
    then "4"
    else if eqb n 5
    then "5"
    else if eqb n 6
    then "6"
    else if eqb n 7
    then "7"
    else if eqb n 8
    then "8"
    else "9"

-- str(n), with the digits that stand behind those of n, and fuel for the digits of n
show_onto : ℕ → ℕ → String → String
unfolding digit_char
show_onto zero n s = s
show_onto (suc fuel) n s =
    let t = String.◌∷◌ (digit_char (n % 10)) s in
    let more = show_onto fuel (n / 10) t in if ltb n 10 then t else more

-- str(n): a number has at most as many digits as its successor counts
unfoldable pub show : ℕ → String
unfolding show_onto
show n = show_onto (suc n) n ""

cut : ℕ → Text → Text → List Text
cut sep [] cur = cur ∷ []
cut sep (c ∷ s) cur = elim (eqb c sep) [
  | true ↦ cur ∷ cut sep s []
  | false ↦ cut sep s (cur ++ c ∷ [])
]

-- s.split(sep)
unfoldable pub split : ℕ → Text → List Text
unfolding cut
split sep s = cut sep s []

is_space : ℕ → Bool
is_space c = eqb c 32 || leb 9 c && leb c 13 || leb 28 c && leb c 31

lstrip : Text → Text
unfolding is_space
lstrip [] = []
lstrip (c ∷ s) = let rest = lstrip s in if is_space c then rest else c ∷ s

-- s.strip()
unfoldable pub strip : Text → Text
unfolding lstrip
strip s = reverse (lstrip (reverse (lstrip s)))

is_digit : ℕ → Bool
is_digit c = leb b'0' c && leb c b'9'

-- The digits of int(): a single underscore may stand between two digits. The flag says that the
-- character before was a digit.
digits : Bool → ℕ → Text → Option ℕ
unfolding is_digit
digits after n [] = if after then some n else none
digits after n (c ∷ s) =
    let next = digits true (n * 10 + (c - 48)) s in
    let skip = digits false n s in
    if is_digit c then next else if eqb c b'_' && after then skip else none

number : Text → Option ℕ
unfolding digits
number s = digits false 0 s

negate : ℕ → ℤ
negate zero = pos 0
negate (suc n) = negsuc n

signed : Text → Option ℤ
unfolding number negate
signed [] = none
signed (c ∷ s) =
    if eqb c b'-'
    then elim (number s) [ none ↦ none | some n ↦ some (negate n) ]
    else elim (number (if eqb c b'+' then s else c ∷ s)) [ none ↦ none | some n ↦ some (pos n) ]

-- int(s), `none` for the ValueError
unfoldable pub parse_int : Text → Option ℤ
unfolding signed strip
parse_int s = signed (strip s)

-- s.startswith(prefix), with the prefix first
abbrev pub starts_with : Text → Text → Bool
starts_with [] s = true
starts_with (p ∷ ps) [] = false
starts_with (p ∷ ps) (c ∷ s) = eqb p c && starts_with ps s
