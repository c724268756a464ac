-- ===== src/Base/Text.antt =====
-- C strings as lists of bytes without the terminating zero, and what the C library does to them:
-- strcmp, strstr, strtok, the `%s` of sscanf, the `%d` of sprintf.
pub mod Laws
use Prim.Native.Char.{code}
use Prim.Native.String.{String}
use Prim.Native.Nat.{ℕ, zero, suc, ◌+◌, ◌-◌, ◌*◌, ◌/◌, ◌%◌}
use mathlib.Core.Bool.{Bool, true, false, ◌&&◌, ◌||◌}
use mathlib.Core.List.{List, [], ◌∷◌, ◌++◌}
use mathlib.Core.Option.{Option, none, some}
use cs_360_internet_programm.Base.Tests.{ltb, leb, ◌==◌, if◌then◌else◌}

-- The bytes of a text literal.
abbrev pub codes : String → List ℕ
codes String.[] = []
codes (String.◌∷◌ c s) = code c ∷ codes s

-- `strcmp(a, b) == 0`
unfoldable pub string_eq : List ℕ → List ℕ → Bool
string_eq [] [] = true
string_eq [] (b ∷ bs) = false
string_eq (a ∷ as') [] = false
string_eq (a ∷ as') (b ∷ bs) = (a == b) && string_eq as' bs

-- What follows a prefix, if the text has it.
unfoldable pub after : List ℕ → List ℕ → Option (List ℕ)
after [] s = some s
after (p ∷ ps) [] = none
after (p ∷ ps) (c ∷ cs) = if c == p then after ps cs else none

-- `strstr`: what stands before the first occurrence, and behind it.
unfoldable pub split_at : List ℕ → List ℕ → Option (List ℕ × List ℕ)
unfolding after
split_at pat [] = elim (after pat []) [ none ↦ none | some rest ↦ some ([], rest) ]
split_at pat (c ∷ cs) = elim (after pat (c ∷ cs)) [
  | some rest ↦ some ([], rest)
  | none ↦ elim (split_at pat cs) [ none ↦ none | some (front, rest) ↦ some (c ∷ front, rest) ]
]

-- A token of strtok, unless it is empty.
abbrev pub token : List ℕ → List (List ℕ)
token [] = []
token (c ∷ cs) = (c ∷ cs) ∷ []

-- The tokens of strtok, behind the characters of the one that is being read.
unfoldable pub split_tokens : (ℕ → Bool) → List ℕ → List ℕ → List (List ℕ)
split_tokens sep seen [] = token seen
split_tokens sep seen (c ∷ cs) = elim (sep c) [
  | true ↦ token seen ++ split_tokens sep [] cs
  | false ↦ split_tokens sep (seen ++ (c ∷ [])) cs
]

-- The white space of the C locale.
abbrev pub is_space : ℕ → Bool
is_space c = (c == 32) || (leb 9 c && leb c 13)

unfoldable pub skip_spaces : List ℕ → List ℕ
skip_spaces [] = []
skip_spaces (c ∷ cs) = if is_space c then skip_spaces cs else c ∷ cs

unfoldable pub take_word : List ℕ → List ℕ
take_word [] = []
take_word (c ∷ cs) = if is_space c then [] else c ∷ take_word cs

unfoldable pub drop_word : List ℕ → List ℕ
drop_word [] = []
drop_word (c ∷ cs) = if is_space c then c ∷ cs else drop_word cs

-- A `%s`: the word that is read, empty if there is none, and the rest of the input.
unfoldable pub scan_word : List ℕ → List ℕ × List ℕ
unfolding skip_spaces take_word drop_word
scan_word s = (take_word (skip_spaces s), drop_word (skip_spaces s))

-- `%d` of a number with at most `f` digits.
unfoldable pub decimal_fuel : ℕ → ℕ → List ℕ → List ℕ
decimal_fuel zero n acc = acc
decimal_fuel (suc f) n acc =
    let acc' = (48 + n % 10) ∷ acc in
    let rest = decimal_fuel f (n / 10) acc' in if ltb n 10 then acc' else rest

-- An `int` has at most ten digits.
unfoldable pub decimal : ℕ → List ℕ
unfolding decimal_fuel
decimal n = decimal_fuel 10 n []

-- The number that decimal digits stand for.
abbrev pub number : ℕ → List ℕ → ℕ
number acc [] = acc
number acc (c ∷ cs) = number (acc * 10 + (c - 48)) cs
