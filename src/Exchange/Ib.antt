-- ===== src/Exchange/Ib.antt =====
-- Languages/cpp/19_quantlib_demo/dict_def.hpp, `IB`: the outright repos of the interbank market.
use Prim.Native.String.{String}
use study_notes.Base.{ℕ, Option, List, [], ◌∷◌, ◌&&◌, ltb, leb, ◌==◌, if◌then◌else◌}
use study_notes.Exchange.Dict.{named}

pub data OutrightRepo : Type 0 where
  unknown_kind r001 r007 r014 r021 r1m r2m r3m r4m r6m r9m r1y : OutrightRepo

-- The numbers of the enumeration.
abbrev pub value : OutrightRepo → ℕ
value unknown_kind = 0
value r001 = 1
value r007 = 2
value r014 = 3
value r021 = 4
value r1m = 5
value r2m = 6
value r3m = 7
value r4m = 8
value r6m = 9
value r9m = 10
value r1y = 11

abbrev pub dict : List String
dict =
    "UNKNOWN" ∷ "R001" ∷ "R007" ∷ "R014" ∷ "R004" ∷ "R021" ∷ "R1M" ∷ "R2M" ∷ "R3M" ∷ "R4M" ∷ "R6M"
    ∷ "R9M" ∷ "R1Y" ∷ []

unfoldable pub outright_repo_to_string : OutrightRepo → Option String
outright_repo_to_string type = named dict (value type)

unfoldable pub convert_days_to_enum : ℕ → OutrightRepo
convert_days_to_enum days =
    if days == 1
    then r001
    else if ltb 1 days && leb days 7
    then r007
    else if ltb 7 days && leb days 14
    then r014
    else if ltb 14 days && leb days 21
    then r021
    else if ltb 21 days && leb days 30
    then r1m
    else if ltb 30 days && leb days 60
    then r2m
    else if ltb 60 days && leb days 90
    then r3m
    else if ltb 90 days && leb days 120
    then r4m
    else if ltb 120 days && leb days 180
    then r6m
    else if ltb 180 days && leb days 270
    then r9m
    else if ltb 270 days && leb days 365
    then r1y
    else unknown_kind
