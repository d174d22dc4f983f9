-- ===== src/Cluster/Split.antt =====
-- Languages/cpp/15_zookeeper_multi_thread_demo/str_utils.h: `StrUtils::Split`, on the characters
-- of a string from `start` on.
use study_notes.Base.{
  ℕ, zero, suc, ◌+◌, Bool, true, false, ◌||◌, Option, none, some, List, [], ◌∷◌, length, ◌==◌,
  if◌then◌else◌,
}

-- What stands before a place that is found, and what stands behind it.
abbrev pub Place : Type 0
Place = Option (List ℕ × List ℕ)

abbrev pub further : ℕ → Place → Place
further c none = none
further c (some (part, rest)) = some (c ∷ part, rest)

-- `s.find(ch, start)`.
unfoldable pub find_char : ℕ → List ℕ → Place
find_char ch [] = none
find_char ch (c ∷ s) =
    let later = find_char ch s in if c == ch then some ([], s) else further c later

-- What follows the delimiter, where the string starts with it.
unfoldable pub strip : List ℕ → List ℕ → Option (List ℕ)
strip [] s = some s
strip (d ∷ delimiter) [] = none
strip (d ∷ delimiter) (c ∷ s) = let later = strip delimiter s in if c == d then later else none

abbrev pub found_or : Option (List ℕ) → Place → Place
found_or (some rest) later = some ([], rest)
found_or none later = later

-- `s.find(delimiter, start)`, for a delimiter that is not empty.
unfoldable pub find_string : List ℕ → List ℕ → Place
find_string delimiter [] = none
find_string delimiter (c ∷ s) =
    let later = find_string delimiter s in found_or (strip delimiter (c ∷ s)) (further c later)

abbrev pub nonempty : List ℕ → Bool
nonempty [] = false
nonempty (c ∷ s) = true

-- A part goes to the list if it is not empty or empty parts are kept.
abbrev pub insert_part : Bool → List ℕ → List (List ℕ) → List (List ℕ)
insert_part keep part parts = if nonempty part || keep then part ∷ parts else parts

abbrev pub after_part : Bool → List ℕ → Option (List (List ℕ)) → Option (List (List ℕ))
after_part keep part none = none
after_part keep part (some parts) = some (insert_part keep part parts)

-- The loop and what follows it; `none` means that fuel ran out.
unfoldable pub split_loop : ℕ → (List ℕ → Place) → Bool → List ℕ → Option (List (List ℕ))
split_loop zero find keep s = none
split_loop (suc fuel) find keep s = elim (find s) [
  | none ↦ some (insert_part keep s [])
  | some (part, rest) ↦ after_part keep part (split_loop fuel find keep rest)
]

-- Each round takes the delimiter away at least.
unfoldable pub split : List ℕ → Bool → List ℕ → Option (List (List ℕ))
split [] keep s = some (insert_part keep s [])
split (ch ∷ []) keep s = split_loop (length s + 1) (find_char ch) keep s
split (ch ∷ dh ∷ delimiter) keep s =
    split_loop (length s + 1) (find_string (ch ∷ dh ∷ delimiter)) keep s
