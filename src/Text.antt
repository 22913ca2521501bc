-- ===== src/Text.antt =====
-- Text as C's programs handle it, a list of bytes with no NUL: the functions of string.h, and the
-- conversions of printf and scanf that the programs use.
mod Tests
pub mod Substring
use Prim.Native.Char.{code}
use Prim.Native.String.{String}
use cs_bsc_technion.Base.{
  ℕ, zero, suc, ◌+◌, ◌-◌, ◌/◌, ◌%◌, Bool, true, false, ◌&&◌, ◌||◌, not, Option, none, some, List,
  [], ◌∷◌, ◌++◌, if◌then◌else◌, ltb, leb, ◌==◌,
}

abbrev pub Text : Type 0
Text = List ℕ

-- The code points of a literal: its bytes, if it is ASCII.
abbrev pub codes : String → Text
codes String.[] = []
codes (String.◌∷◌ c s) = code c ∷ codes s

-- Whether a text begins with another one.
unfoldable pub begins : Text → Text → Bool
begins [] text = true
begins (c ∷ cs) [] = false
begins (c ∷ cs) (d ∷ text) = (c == d) && begins cs text

-- `strstr(text, part)` as a condition.
unfoldable pub strstr : Text → Text → Bool
unfolding begins
strstr [] part = begins part []
strstr (c ∷ text) part = begins part (c ∷ text) || strstr text part

-- What stands before the first of a character, and what behind it: `index`, and the cut at it.
unfoldable pub split_at : ℕ → Text → Text × Option Text
split_at c [] = ([], none)
split_at c (d ∷ text) =
    let rest = split_at c text in if d == c then ([], some text) else (d ∷ rest.0, rest.1)

-- The last character.
unfoldable pub last : Text → Option ℕ
last [] = none
last (c ∷ []) = some c
last (c ∷ d ∷ text) = last (d ∷ text)

unfoldable pub to_lower : ℕ → ℕ
to_lower c = if leb b'A' c && leb c b'Z' then c + 32 else c

-- `strcasecmp(a, b) == 0`
unfoldable pub strcaseeq : Text → Text → Bool
unfolding to_lower
strcaseeq [] [] = true
strcaseeq [] (d ∷ b) = false
strcaseeq (c ∷ a) [] = false
strcaseeq (c ∷ a) (d ∷ b) = (to_lower c == to_lower d) && strcaseeq a b

-- What `isspace` says.
unfoldable pub is_space : ℕ → Bool
is_space c = (c == 32) || (leb 9 c && leb c 13)

-- The words that `%s %s …` reads; the second argument is the part of a word before the text.
unfoldable pub words_from : Text → Text → List Text
unfolding is_space
words_from [] [] = []
words_from [] (d ∷ word) = (d ∷ word) ∷ []
words_from (c ∷ text) [] = if is_space c then words_from text [] else words_from text (c ∷ [])
words_from (c ∷ text) (d ∷ word) = elim (is_space c) [
  | true ↦ (d ∷ word) ∷ words_from text []
  | false ↦ words_from text ((d ∷ word) ++ c ∷ [])
]

-- The digits of a number before those that are there, with fuel.
unfoldable pub digits : ℕ → ℕ → Text → Text
digits zero n after = after
digits (suc fuel) n after = elim (ltb n 10) [
  | true ↦ (48 + n) ∷ after
  | false ↦ digits fuel (n / 10) ((48 + n % 10) ∷ after)
]

-- `%d` and `%lu`
unfoldable pub decimal : ℕ → Text
unfolding digits
decimal n = digits (n + 1) n []

-- `%06lu`, of a number below a million
unfoldable pub six_digits : ℕ → Text
six_digits n =
    (48 + n / 100000 % 10)
    ∷ (48 + n / 10000 % 10)
    ∷ (48 + n / 1000 % 10)
    ∷ (48 + n / 100 % 10)
    ∷ (48 + n / 10 % 10)
    ∷ (48 + n % 10)
    ∷ []
