-- ===== src/Keywords/Misses.antt =====
-- A word that the search does not find.
use study_notes.Base.{
  ℕ, ◌+◌, ◌<◌, ◌≡◌, refl, ap, ◌∙◌, Bool, true, false, ◌&&◌, not, lt→ltb, Option, none, some, List,
  [], ◌∷◌, ◌++◌, length, if◌then◌else◌,
}
use study_notes.Keywords.{
  Trie, Searching, set, do_check_and_return_cnt, count_back, unwind, at_root, search_round,
  next_round, search_loop, search_text,
}

-- The automaton of the one word of the bytes `a` and `b`, at the nodes that the search meets.
pub record OneWord (t : Trie) (a b : ℕ) : Type 0 where
  pub first : t.has (a ∷ []) ≡ true
  pub second : t.has (a ∷ b ∷ []) ≡ true
  pub not_doubled : t.has (a ∷ a ∷ []) ≡ false
  pub not_alone : t.has (b ∷ []) ≡ false
  pub word : t.is_word (a ∷ b ∷ []) ≡ true
  pub fresh : t.is_marked (a ∷ b ∷ []) ≡ false
  pub first_no_word : t.is_word (a ∷ []) ≡ false
  pub root_no_word : t.is_word [] ≡ false
  pub back : t.fail_ptr (a ∷ []) ≡ some []

check-no_word : (t : Trie) (p : List ℕ) → t.is_word p ≡ false → do_check_and_return_cnt t p ≡ (t, 0)
unfolding do_check_and_return_cnt
check-no_word t p e =
    ap
      (λ b.
        if b && not (t.is_marked p)
        then (record t { is_marked = set t.is_marked p true }, 1)
        else (t, 0))
      e

abbrev marked : Trie → List ℕ → Trie
marked t p = record t { is_marked = set t.is_marked p true }

check-word :
    (t : Trie) (p : List ℕ)
    → t.is_word p ≡ true
    → t.is_marked p ≡ false
    → do_check_and_return_cnt t p ≡ (marked t p, 1)
unfolding do_check_and_return_cnt
check-word t p e f =
    ap (λ b. if b && not (t.is_marked p) then (marked t p, 1) else (t, 0)) e
    ∙ ap (λ b. if not b then (marked t p, 1) else (t, 0)) f

search_loop-end : (s : Searching) → search_loop s [] ≡ some s.1.1
unfolding search_loop
search_loop-end s = refl

unwind-root : (t : Trie) (count : ℕ) → unwind 0 t (some []) count ≡ some (t, count)
unfolding unwind
unwind-root t count = refl

-- Where the byte is an index in bounds, by whether the node has the child.
abbrev matched : Trie × ℕ → List ℕ → ℕ → Option Searching
matched (t, n) p count = some (t, (p, count + n))

abbrev round_by : Trie → List ℕ → ℕ → ℕ → Bool → Bool → Option Searching
round_by t cur count ch in_bounds child =
    if in_bounds
    then (if child
        then matched (do_check_and_return_cnt t (cur ++ ch ∷ [])) (cur ++ ch ∷ []) count
        else at_root (unwind (length cur) t (some cur) count))
    else none

search_round-by :
    (t : Trie) (cur : List ℕ) (count ch : ℕ) (child : Bool)
    → ch < 127
    → t.has (cur ++ ch ∷ []) ≡ child
    → search_round (t, (cur, count)) ch ≡ round_by t cur count ch true child
unfolding search_round
search_round-by t cur count ch child small there =
    ap (λ b. round_by t cur count ch b (t.has (cur ++ ch ∷ []))) (lt→ltb ch 127 small)
    ∙ ap (round_by t cur count ch true) there

search_loop-round :
    (s r : Searching) (ch : ℕ) (matchs : List ℕ)
    → search_round s ch ≡ some r
    → search_loop s (ch ∷ matchs) ≡ search_loop r matchs
unfolding search_loop
search_loop-round s r ch matchs e = ap (next_round (λ s'. search_loop s' matchs)) e

search_round-no_word :
    (t : Trie) (cur : List ℕ) (count ch : ℕ)
    → ch < 127
    → t.has (cur ++ ch ∷ []) ≡ true
    → t.is_word (cur ++ ch ∷ []) ≡ false
    → search_round (t, (cur, count)) ch ≡ some (t, (cur ++ ch ∷ [], count + 0))
search_round-no_word t cur count ch small there no_word =
    search_round-by t cur count ch true small there
    ∙ ap (λ q. matched q (cur ++ ch ∷ []) count) (check-no_word t (cur ++ ch ∷ []) no_word)

-- From a node below the root whose failure pointer is the root.
unwind-child :
    (t : Trie) (a count : ℕ)
    → t.fail_ptr (a ∷ []) ≡ some []
    → t.is_word [] ≡ false
    → unwind 1 t (some (a ∷ [])) count ≡ some (t, count + 0)
unfolding unwind
unwind-child t a count back no_word =
    ap (λ o. count_back (λ t' n. unwind 0 t' o n) t count o) back
    ∙ ap (λ (q : Trie × ℕ). unwind 0 q.0 (some []) (count + q.1)) (check-no_word t [] no_word)

-- For an automaton of one word of two different bytes: search finds the word in the text that is the
-- word, and not in the text that has the first byte twice, though the word is its end.
pub search_text-misses :
    (t : Trie) (a b : ℕ)
    → a < 127
    → b < 127
    → OneWord t a b
    → (search_text t (a ∷ b ∷ []) ≡ some 1) × (search_text t (a ∷ a ∷ b ∷ []) ≡ some 0)
unfolding search_text
search_text-misses t a b small_a small_b w =
    let first = search_round-no_word t [] 0 a small_a w.first w.first_no_word in
    (
      search_loop-round (t, ([], 0)) (t, (a ∷ [], 0 + 0)) a (b ∷ []) first
          ∙ search_loop-round (t, (a ∷ [], 0 + 0)) (marked t (a ∷ b ∷ []), (a ∷ b ∷ [], 1)) b []
              (search_round-by t (a ∷ []) (0 + 0) b true small_b w.second
                ∙ ap (λ q. matched q (a ∷ b ∷ []) (0 + 0))
                    (check-word t (a ∷ b ∷ []) w.word w.fresh))
          ∙ search_loop-end (marked t (a ∷ b ∷ []), (a ∷ b ∷ [], 1)),
      search_loop-round (t, ([], 0)) (t, (a ∷ [], 0 + 0)) a (a ∷ b ∷ []) first
          ∙ search_loop-round (t, (a ∷ [], 0 + 0)) (t, ([], 0 + 0 + 0)) a (b ∷ [])
              (search_round-by t (a ∷ []) (0 + 0) a false small_a w.not_doubled
                ∙ ap at_root (unwind-child t a (0 + 0) w.back w.root_no_word))
          ∙ search_loop-round (t, ([], 0 + 0 + 0)) (t, ([], 0 + 0 + 0)) b []
              (search_round-by t [] (0 + 0 + 0) b false small_b w.not_alone
                ∙ ap at_root (unwind-root t (0 + 0 + 0)))
          ∙ search_loop-end (t, ([], 0 + 0 + 0)),
    )
