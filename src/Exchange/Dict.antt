-- ===== src/Exchange/Dict.antt =====
-- Languages/cpp/19_quantlib_demo/dict_def.hpp: what the tables of its three markets share.
use Prim.Native.String.{String}
use study_notes.Base.{
  ℕ, ◌≡◌, refl, ◌⊎◌, inl, inr, Bool, true, ◌&&◌, Option, none, some, List, [], ◌∷◌, arith, ◌==◌,
  if◌then◌else◌, get_elem?, Bool-cases,
}

abbrev pub or_first : Option String → Option String → Option String
or_first none first = first
or_first (some x) first = some x

-- `type < len ? dict[type] : dict[0]`.
abbrev pub named : List String → ℕ → Option String
named dict type = or_first (get_elem? dict type) (get_elem? dict 0)

module _ {ℓ} {A : Type ℓ} where
  -- A `switch` whose cases return.
  abbrev pub switch : List (ℕ × A) → A → ℕ → A
  switch [] otherwise days = otherwise
  switch ((case, kind) ∷ cases) otherwise days =
      if days == case then kind else switch cases otherwise days

  abbrev pub each : (ℕ → A → Bool) → List (ℕ × A) → Bool
  each test [] = true
  each test ((case, kind) ∷ cases) = test case kind && each test cases

  -- What holds of each case and its result holds of the result for any days that have a case.
  pub switch-each :
      (test : ℕ → A → Bool) (cases : List (ℕ × A)) (otherwise : A) (days : ℕ)
      → each test cases ≡ true
      → (switch cases otherwise days ≡ otherwise) ⊎ (test days (switch cases otherwise days) ≡ true)
  switch-each test [] otherwise days e = inl refl
  switch-each test ((case, kind) ∷ cases) otherwise days e = elim (Bool-cases (days == case)) [
    | inl hit ↦ let same : days ≡ case = ground arith in rw (hit, same) (inr (ground (arith, e)))
    | inr miss ↦ rw miss (switch-each test cases otherwise days (ground (arith, e)))
  ]
