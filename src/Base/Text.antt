-- ===== src/Base/Text.antt =====
-- Text as a list of character codes.
use Prim.Native.Nat.{ℕ}
use Prim.Native.Char.{code}
use Prim.Native.String.{String}
use mathlib.Core.Path.{◌≡◌}
use mathlib.Core.Bool.{Bool, true, false, not, ◌&&◌}
use native.Mathlib.Omega.{arith}
use mathlib.Core.List.{List, [], ◌∷◌, ◌++◌}
use study_notes.Base.Tests.{◌==◌}

-- The codes of a literal; `String` has its own `[]` and `∷`.
abbrev pub codes : String → List ℕ
codes String.[] = []
codes (String.◌∷◌ c s) = code c ∷ codes s

abbrev pub crlf : List ℕ
crlf = 13 ∷ 10 ∷ []

-- No byte of the list is `c`.
abbrev pub Without : ℕ → List ℕ → Type 0
Without c [] = Unit
Without c (x ∷ xs) = (x == c ≡ false) × Without c xs

pub Without-append : (c : ℕ) (xs ys : List ℕ) → Without c xs → Without c ys → Without c (xs ++ ys)
Without-append c [] ys v w = w
Without-append c (x ∷ xs) ys (d, v) w = (d, Without-append c xs ys v w)

abbrev pub is_without : ℕ → List ℕ → Bool
is_without c [] = true
is_without c (x ∷ xs) = not (x == c) && is_without c xs

pub is_without→Without : (c : ℕ) (xs : List ℕ) → is_without c xs ≡ true → Without c xs
is_without→Without c [] e = tt
is_without→Without c (x ∷ xs) e = (ground (arith, e), is_without→Without c xs (ground (arith, e)))
