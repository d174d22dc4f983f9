-- ===== src/Mail/Decode.antt =====
-- What a base64 text stands for, after RFC 4648: padding ends the text.
use study_notes.Base.{
  ℕ, ◌+◌, ◌*◌, ◌/◌, ◌%◌, ◌-◌, ◌&&◌, leb, Option, none, some, List, [], ◌∷◌, ◌++◌, ◌==◌,
  if◌then◌else◌,
}

-- The value of a character: A to Z, a to z, 0 to 9, + and / stand for 0 to 63.
unfoldable pub six : ℕ → Option ℕ
six c =
    if leb 65 c && leb c 90
    then some (c - 65)
    else if leb 97 c && leb c 122
    then some (c - 71)
    else if leb 48 c && leb c 57
    then some (c + 4)
    else if c == 43
    then some 62
    else if c == 47
    then some 63
    else none

abbrev pub three : Option ℕ → Option ℕ → Option ℕ → Option ℕ → Option (List ℕ)
three (some a) (some b) (some c) (some d) =
    some ((a * 4 + b / 16) ∷ (b % 16 * 16 + c / 4) ∷ (c % 4 * 64 + d) ∷ [])
three _ _ _ _ = none

abbrev pub two : Option ℕ → Option ℕ → Option ℕ → Option (List ℕ)
two (some a) (some b) (some c) = some ((a * 4 + b / 16) ∷ (b % 16 * 16 + c / 4) ∷ [])
two _ _ _ = none

abbrev pub one : Option ℕ → Option ℕ → Option (List ℕ)
one (some a) (some b) = some ((a * 4 + b / 16) ∷ [])
one _ _ = none

abbrev pub joined : Option (List ℕ) → Option (List ℕ) → Option (List ℕ)
joined (some xs) (some ys) = some (xs ++ ys)
joined _ _ = none

abbrev pub at_end : List ℕ → Option (List ℕ) → Option (List ℕ)
at_end [] o = o
at_end (c ∷ rest) o = none

unfoldable pub decode : List ℕ → Option (List ℕ)
decode [] = some []
decode (p ∷ q ∷ r ∷ s ∷ rest) =
    let later = decode rest in
    if s == 61
    then at_end rest (if r == 61 then one (six p) (six q) else two (six p) (six q) (six r))
    else joined (three (six p) (six q) (six r) (six s)) later
decode _ = none
