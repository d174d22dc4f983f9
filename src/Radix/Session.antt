-- ===== src/Radix/Session.antt =====
-- Calls of `insert`, `erase` and `contains` one after the other, on strings that end with a 0, and
-- the multiset of strings that they stand for.
use study_notes.Base.{
  ℕ, zero, suc, ◌+◌, ◌-◌, ◌<◌, ◌^◌, Bool, Option, none, some, List, [], ◌∷◌, length, ◌==◌, ltb,
}
use study_notes.Radix.{RadixTree}
use study_notes.Radix.Match.{contains}
use study_notes.Radix.Insert.{insert}
use study_notes.Radix.Erase.{erase}
use study_notes.Radix.Count.{once}
use study_notes.Radix.Shape.{AvoidsBytes}

pub data Call : Type 0 where
  insert_key erase_key contains_key : List ℕ → Call

-- The memory of a string: its bytes and zeros behind them.
abbrev pub memory : List ℕ → ℕ → ℕ
memory [] i = 0
memory (b ∷ bs) zero = b
memory (b ∷ bs) (suc i) = memory bs i

unfoldable pub call : RadixTree → Call → Option (RadixTree × Bool)
call tree (insert_key k) = insert tree (memory k) (length k)
call tree (erase_key k) = erase tree (memory k) (length k)
call tree (contains_key k) = elim (contains tree (memory k) (length k)) [
  | none ↦ none
  | some held ↦ some (tree, held)
]

-- The tree after the calls, and their answers.
unfoldable pub run : RadixTree → List Call → Option (RadixTree × List Bool)
unfolding call
run tree [] = some (tree, [])
run tree (c ∷ cs) = elim (call tree c) [
  | none ↦ none
  | some (tree', answer) ↦ elim (run tree' cs) [
    | none ↦ none
    | some (last, answers) ↦ some (last, answer ∷ answers)
  ]
]

-- A multiset of strings, by how often it holds each.
abbrev pub Bag : Type 0
Bag = List ℕ → ℕ

abbrev pub bag_after : Bag → Call → Bag
bag_after bag (insert_key k) x = bag x + once k x
bag_after bag (erase_key k) x = bag x - once k x
bag_after bag (contains_key k) x = bag x

abbrev pub answer_of : Bag → Call → Bool
answer_of bag (insert_key k) = bag k == 0
answer_of bag (erase_key k) = ltb 0 (bag k)
answer_of bag (contains_key k) = ltb 0 (bag k)

abbrev pub last_bag : Bag → List Call → Bag
last_bag bag [] = bag
last_bag bag (c ∷ cs) = last_bag (bag_after bag c) cs

abbrev pub answers_of : Bag → List Call → List Bool
answers_of bag [] = []
answers_of bag (c ∷ cs) = answer_of bag c ∷ answers_of (bag_after bag c) cs

-- A string of bytes other than 0, not an empty one, and shorter than 2 ^ 32.
abbrev pub IsKey : List ℕ → Type 0
IsKey k = (0 < length k) × AvoidsBytes 0 k × (length k < 2 ^ 32)

abbrev pub IsCall : Call → Type 0
IsCall (insert_key k) = IsKey k
IsCall (erase_key k) = IsKey k
IsCall (contains_key k) = IsKey k

abbrev pub AreCalls : List Call → Type 0
AreCalls [] = Unit
AreCalls (c ∷ cs) = IsCall c × AreCalls cs
