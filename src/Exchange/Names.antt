-- ===== src/Exchange/Names.antt =====
-- Languages/cpp/19_quantlib_demo/dict_def.hpp: the name of the kind of repo that the days choose.
use Prim.Native.String.{String, ◌++◌ as ◌<>◌}
use text.Mathlib.Text.{◌==◌ as ◌===◌}
use study_notes.Base.{
  ℕ, ◌/◌, ◌%◌, ◌≤◌, ◌≡◌, refl, ◌∙◌, inl, inr, Bool, false, ◌||◌, Option, none, some, List, [], ◌∷◌,
  arith, ◌==◌, leb, if◌then◌else◌, get_elem?, Bool-cases,
}
use study_notes.Exchange.Dict.{switch}
use study_notes.Exchange.Sse
use study_notes.Exchange.Szse
use study_notes.Exchange.Ib.{
  OutrightRepo, unknown_kind, r001, r007, r014, r021, r1m, r2m, r3m, r4m, r6m, r9m, r1y, value,
  outright_repo_to_string, convert_days_to_enum,
}

abbrev pub is_in : ℕ → List ℕ → Bool
is_in d [] = false
is_in d (e ∷ es) = d == e || is_in d es

abbrev digits : List String
digits = "0" ∷ "1" ∷ "2" ∷ "3" ∷ "4" ∷ "5" ∷ "6" ∷ "7" ∷ "8" ∷ "9" ∷ []

abbrev or_blank : Option String → String
or_blank none = " "
or_blank (some s) = s

abbrev pub digit : ℕ → String
digit n = or_blank (get_elem? digits n)

-- A number of up to three digits, with leading zeros.
abbrev pub three_digits : ℕ → String
three_digits n = digit (n / 100) <> (digit (n / 10 % 10) <> digit (n % 10))

-- The days that the exchanges have a pledged repo for.
abbrev pub pledge_days : List ℕ
pledge_days = 1 ∷ 2 ∷ 3 ∷ 4 ∷ 7 ∷ 14 ∷ 28 ∷ 91 ∷ 182 ∷ []

module _ {A : Type 0} (name : A → Option String) (wanted : ℕ → Option String) where
  abbrev Agree : List (ℕ × A) → Type 0
  Agree [] = Unit
  Agree ((case, kind) ∷ cases) = (name kind ≡ wanted case) × Agree cases

  abbrev case_days : List (ℕ × A) → List ℕ
  case_days [] = []
  case_days ((case, kind) ∷ cases) = case ∷ case_days cases

  name-switch :
      (cases : List (ℕ × A)) (otherwise : A) (days : ℕ)
      → Agree cases
      → name (switch cases otherwise days)
        ≡ (if is_in days (case_days cases) then wanted days else name otherwise)
  name-switch [] otherwise days e = refl
  name-switch ((case, kind) ∷ cases) otherwise days (e, es) = elim (Bool-cases (days == case)) [
    | inl hit ↦ let same : days ≡ case = ground arith in rw (hit, same) e
    | inr miss ↦ rw miss (name-switch cases otherwise days es)
  ]

-- A repo's kind is named by its market's prefix and its days in three digits, for the nine lengths
-- that the exchanges have; any other number of days gives the name of the unknown kind.
pledge_names :
    (days : ℕ)
    → (Sse.pledge_bond_repo_to_string (Sse.convert_days_to_enum days)
        ≡ (if is_in days pledge_days then some ("GC" <> three_digits days) else some "UNKNOWN"))
      × (Szse.pledge_bond_repo_to_string (Szse.convert_days_to_enum days)
          ≡ (if is_in days pledge_days then some ("R-" <> three_digits days) else some "UNKNOWN"))
unfolding Sse.pledge_bond_repo_to_string Sse.convert_days_to_enum Szse.pledge_bond_repo_to_string
    Szse.convert_days_to_enum
pledge_names days = (
  name-switch Sse.pledge_bond_repo_to_string (λ d. some ("GC" <> three_digits d)) Sse.days_cases
      Sse.unknown_repo days
      (refl, (refl, (refl, (refl, (refl, (refl, (refl, (refl, (refl, tt))))))))),
  name-switch Szse.pledge_bond_repo_to_string (λ d. some ("R-" <> three_digits d)) Szse.days_cases
      Szse.unknown_repo days
      (refl, (refl, (refl, (refl, (refl, (refl, (refl, (refl, (refl, tt))))))))),
)

-- The names of the enumeration.
abbrev pub enumerator : OutrightRepo → String
enumerator unknown_kind = "UNKNOWN"
enumerator r001 = "R001"
enumerator r007 = "R007"
enumerator r014 = "R014"
enumerator r021 = "R021"
enumerator r1m = "R1M"
enumerator r2m = "R2M"
enumerator r3m = "R3M"
enumerator r4m = "R4M"
enumerator r6m = "R6M"
enumerator r9m = "R9M"
enumerator r1y = "R1Y"

abbrev pub is_name : Option String → String → Bool
is_name none t = false
is_name (some s) t = s === t

kind_name :
    (k : OutrightRepo) → is_name (outright_repo_to_string k) (enumerator k) ≡ leb (value k) 3
unfolding outright_repo_to_string
kind_name unknown_kind = refl
kind_name r001 = refl
kind_name r007 = refl
kind_name r014 = refl
kind_name r021 = refl
kind_name r1m = refl
kind_name r2m = refl
kind_name r3m = refl
kind_name r4m = refl
kind_name r6m = refl
kind_name r9m = refl
kind_name r1y = refl

kind_days : (days : ℕ) → days ≤ 365 → leb (value (convert_days_to_enum days)) 3 ≡ leb days 14
unfolding convert_days_to_enum
kind_days days h = ground arith

-- For up to a year, the name that is printed for an outright repo is that of its kind up to 14
-- days, and another one from 15 days on.
outright_names :
    (days : ℕ)
    → days ≤ 365
    → is_name
        (outright_repo_to_string (convert_days_to_enum days))
        (enumerator (convert_days_to_enum days))
      ≡ leb days 14
outright_names days h = kind_name (convert_days_to_enum days) ∙ kind_days days h
