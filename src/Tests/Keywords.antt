-- ===== src/Tests/Keywords.antt =====
-- Small trees of words.
use study_notes.Base.{
  ℕ, ◌+◌, ◌≡◌, refl, Bool, false, ◌||◌, none, some, List, [], ◌∷◌, arith, if◌then◌else◌,
}
use study_notes.Keywords.{Trie, equal, new_trie, build_fail_ptr, search_text}
use study_notes.Keywords.Levels.{nodes_of}
use study_notes.Keywords.Grow.{insert_words, Words, PointsRight, insert_words-PointsRight}
use study_notes.Keywords.Insert.{Sound}
use study_notes.Keywords.Misses.{search_text-misses}

-- The words `she` and `he`.
abbrev words : List (List ℕ)
words = (115 ∷ 104 ∷ 101 ∷ []) ∷ (104 ∷ 101 ∷ []) ∷ []

words-Words : Words 3 words
words-Words = (
  ((omega arith, (omega arith, (omega arith, tt))), omega arith),
  (((omega arith, (omega arith, tt)), omega arith), tt),
)

insert_words-PointsRight_example :
    (t : Trie) × (u : Trie) × (insert_words new_trie words ≡ some t)
    × (build_fail_ptr (nodes_of t.has 4 0 + 0) t ≡ some u)
    × (u.has ≡ t.has)
    × (u.fail_ptr [] ≡ none)
    × PointsRight u (115 ∷ 104 ∷ 101 ∷ [])
insert_words-PointsRight_example =
    insert_words-PointsRight words 3 0 (115 ∷ 104 ∷ 101 ∷ []) words-Words

new_trie-Sound : Sound new_trie
new_trie-Sound = record { only_nodes = λ p e. ground (arith) }

-- The word `he`, with its failure pointers.
abbrev has_one : List ℕ → Bool
has_one p = equal p [] || (equal p (104 ∷ []) || equal p (104 ∷ 101 ∷ []))

abbrev one : Trie
one = record {
  has = has_one;
  is_word = λ p. equal p (104 ∷ 101 ∷ []);
  is_marked = λ p. false;
  fail_ptr = λ p. if equal p [] then none else some [];
}

search_text-misses_example :
    (search_text one (104 ∷ 101 ∷ []) ≡ some 1) × (search_text one (104 ∷ 104 ∷ 101 ∷ []) ≡ some 0)
search_text-misses_example = search_text-misses one 104 101 (omega arith) (omega arith) record {
  first = refl;
  second = refl;
  not_doubled = refl;
  not_alone = refl;
  word = refl;
  fresh = refl;
  first_no_word = refl;
  root_no_word = refl;
  back = refl;
}
