-- ===== src/Exchange/Sse.antt =====
-- Languages/cpp/19_quantlib_demo/dict_def.hpp, `SSE`: the pledged bond repos of the Shanghai exchange.
use Prim.Native.String.{String}
use study_notes.Base.{ℕ, Option, List, [], ◌∷◌}
use study_notes.Exchange.Dict.{named, switch}

pub data PledgeBondRepo : Type 0 where
  unknown_repo gc001 gc002 gc003 gc004 gc007 gc014 gc028 gc091 gc182 : PledgeBondRepo

-- The numbers of the enumeration.
abbrev pub value : PledgeBondRepo → ℕ
value unknown_repo = 0
value gc001 = 1
value gc002 = 2
value gc003 = 3
value gc004 = 4
value gc007 = 5
value gc014 = 6
value gc028 = 7
value gc091 = 8
value gc182 = 9

abbrev pub dict : List String
dict =
    "UNKNOWN" ∷ "GC001" ∷ "GC002" ∷ "GC003" ∷ "GC004" ∷ "GC007" ∷ "GC014" ∷ "GC028" ∷ "GC091"
    ∷ "GC182" ∷ []

unfoldable pub pledge_bond_repo_to_string : PledgeBondRepo → Option String
pledge_bond_repo_to_string type = named dict (value type)

abbrev pub days_cases : List (ℕ × PledgeBondRepo)
days_cases =
    (1, gc001)
    ∷ (2, gc002)
    ∷ (3, gc003)
    ∷ (4, gc004)
    ∷ (7, gc007)
    ∷ (14, gc014)
    ∷ (28, gc028)
    ∷ (91, gc091)
    ∷ (182, gc182)
    ∷ []

unfoldable pub convert_days_to_enum : ℕ → PledgeBondRepo
convert_days_to_enum days = switch days_cases unknown_repo days
