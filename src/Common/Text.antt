-- ===== src/Common/Text.antt =====
-- Texts as the program takes them apart: `split` at one character, `trim`, `startsWith`, `slice`.
pub mod Spaces
use Prim.Native.Char.{Char, code}
use Prim.Native.Nat.{ℕ, zero, suc}
use Prim.Native.String.{String, [], ◌∷◌}
use mathlib.Core.Bool.{Bool, true, false, not, ◌&&◌, ◌||◌}
use mathlib.Core.List.{List}
use text.Mathlib.Text.{◌==◌}
use nestjs_fastify_nx.Common.Tests.{eqb, leb, if◌then◌else◌}

abbrev pub cons_head : Char → List String → List String
cons_head c List.[] = List.◌∷◌ (c ∷ []) List.[]
cons_head c (List.◌∷◌ s rest) = List.◌∷◌ (c ∷ s) rest

-- `s.split(sep)` for a separator of one character, given by its code
unfoldable pub split : ℕ → String → List String
split sep [] = List.◌∷◌ "" List.[]
split sep (c ∷ s) =
    let rest = split sep s in if eqb (code c) sep then List.◌∷◌ "" rest else cons_head c rest

-- the white space and line terminators that `trim` removes
abbrev pub is_space : ℕ → Bool
is_space c =
    (leb 9 c && leb c 13)
    || eqb c 32
    || eqb c 0xa0
    || eqb c 0x1680
    || (leb 0x2000 c && leb c 0x200a)
    || eqb c 0x2028
    || eqb c 0x2029
    || eqb c 0x202f
    || eqb c 0x205f
    || eqb c 0x3000
    || eqb c 0xfeff

trim_start : String → String
trim_start [] = ""
trim_start (c ∷ s) = let rest = trim_start s in if is_space (code c) then rest else c ∷ s

trim_end : String → String
trim_end [] = ""
trim_end (c ∷ s) = let rest = trim_end s in if rest == "" && is_space (code c) then "" else c ∷ rest

unfoldable pub trim : String → String
unfolding trim_start trim_end
trim s = trim_end (trim_start s)

-- `s.length` where every character is in the basic plane
unfoldable pub count : String → ℕ
count [] = 0
count (c ∷ s) = suc (count s)

-- `s.includes(c)` for one character
unfoldable pub contains_char : ℕ → String → Bool
contains_char sep [] = false
contains_char sep (c ∷ s) = eqb (code c) sep || contains_char sep s

-- `s.slice(s.lastIndexOf(c))`, empty where the character does not occur
unfoldable pub from_last : ℕ → String → String
from_last sep [] = ""
from_last sep (c ∷ s) =
    let rest = from_last sep s in
    if rest == "" then (if eqb (code c) sep then c ∷ s else "") else rest

-- `s.slice(0, n)`
unfoldable pub first_chars : ℕ → String → String
first_chars zero s = ""
first_chars (suc n) [] = ""
first_chars (suc n) (c ∷ s) = c ∷ first_chars n s

-- `s.replace(…, '')`, of every character in a class
unfoldable pub without : (ℕ → Bool) → String → String
without class [] = ""
without class (c ∷ s) = let rest = without class s in if class (code c) then rest else c ∷ rest

-- whether the class has all white space of the text
unfoldable pub has_spaces_of : (ℕ → Bool) → String → Bool
has_spaces_of class [] = true
has_spaces_of class (c ∷ s) = (not (is_space (code c)) || class (code c)) && has_spaces_of class s

-- the class and all white space
abbrev pub with_spaces : (ℕ → Bool) → ℕ → Bool
with_spaces class c = class c || is_space c
