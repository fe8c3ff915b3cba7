-- ===== src/Prelude/Text.antt =====
-- Text as the list of its characters' codes.
use Prim.Native.Nat.{ℕ}
use Prim.Native.Char.{code}
use Prim.Native.String.{String}
use mathlib.Core.List.{List, [], ◌∷◌, ◌++◌}
use mathlib.Core.Path.{◌≡◌, refl}
use mathlib.Core.Bool.{false}
use mathlib.Core.Option.{Option, none, some}
use shawncoin.Prelude.Tests.{◌==◌, if◌then◌else◌}
use shawncoin.Prelude.Lists.{All}

abbrev pub codes : String → List ℕ
codes String.[] = []
codes (String.◌∷◌ letter rest) = code letter ∷ codes rest

-- std::getline on a file: the characters up to each line break, which ends a line. The end of the file
-- ends a line that has characters.
unfoldable pub in_line : ℕ → List (List ℕ) → List (List ℕ)
in_line c [] = (c ∷ []) ∷ []
in_line c (line ∷ rest) = (c ∷ line) ∷ rest

unfoldable pub lines : List ℕ → List (List ℕ)
unfolding in_line
lines [] = []
lines (c ∷ text) = let rest = lines text in if c == b'\n' then [] ∷ rest else in_line c rest

-- A line break ends the line before it.
pub lines-append :
    (line rest : List ℕ)
    → All (λ c. (c == b'\n') ≡ false) line
    → lines (line ++ (b'\n' ∷ rest)) ≡ line ∷ lines rest
unfolding lines in_line
lines-append [] rest h = refl
lines-append (c ∷ line) rest (e, h) = rw (e, lines-append line rest h) refl

-- The text begins with the prefix, and what follows it.
unfoldable pub after_prefix : List ℕ → List ℕ → Option (List ℕ)
after_prefix [] text = some text
after_prefix (p ∷ ps) [] = none
after_prefix (p ∷ ps) (c ∷ text) = let rest = after_prefix ps text in if c == p then rest else none

-- std::string::find: the text from the first place on where the pattern stands.
unfoldable pub find_text : List ℕ → List ℕ → Option (List ℕ)
unfolding after_prefix
find_text pattern [] = elim (after_prefix pattern []) [ none ↦ none | some rest ↦ some [] ]
find_text pattern (c ∷ text) = elim (after_prefix pattern (c ∷ text)) [
  | some rest ↦ some (c ∷ text)
  | none ↦ find_text pattern text
]

-- The text before the first place of a character, and the text behind it.
unfoldable pub split_at : ℕ → List ℕ → Option (List ℕ × List ℕ)
split_at d [] = none
split_at d (c ∷ text) =
    let rest = split_at d text in
    if c == d
    then some ([], text)
    else elim rest [ none ↦ none | some (before, behind) ↦ some (c ∷ before, behind) ]
