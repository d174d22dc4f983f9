-- ===== src/Exchange/Szse.antt =====
-- Languages/cpp/19_quantlib_demo/dict_def.hpp, `SZSE`: the pledged bond repos of the Shenzhen exchange.
use Prim.Native.String.{String}
use study_notes.Base.{ℕ, Option, List, [], ◌∷◌}
use study_notes.Exchange.Dict.{named, switch}

pub data PledgeBondRepo : Type 0 where
  unknown_repo r_001 r_002 r_003 r_004 r_007 r_014 r_028 r_091 r_182 : PledgeBondRepo

-- The numbers of the enumeration.
abbrev pub value : PledgeBondRepo → ℕ
value unknown_repo = 0
value r_001 = 1
value r_002 = 2
value r_003 = 3
value r_004 = 4
value r_007 = 5
value r_014 = 6
value r_028 = 7
value r_091 = 8
value r_182 = 9

abbrev pub dict : List String
dict =
    "UNKNOWN" ∷ "R-001" ∷ "R-002" ∷ "R-003" ∷ "R-004" ∷ "R-007" ∷ "R-014" ∷ "R-028" ∷ "R-091"
    ∷ "R-182" ∷ []

unfoldable pub pledge_bond_repo_to_string : PledgeBondRepo → Option String
pledge_bond_repo_to_string type = named dict (value type)

abbrev pub days_cases : List (ℕ × PledgeBondRepo)
days_cases =
    (1, r_001)
    ∷ (2, r_002)
    ∷ (3, r_003)
    ∷ (4, r_004)
    ∷ (7, r_007)
    ∷ (14, r_014)
    ∷ (28, r_028)
    ∷ (91, r_091)
    ∷ (182, r_182)
    ∷ []

unfoldable pub convert_days_to_enum : ℕ → PledgeBondRepo
convert_days_to_enum days = switch days_cases unknown_repo days
