-- ===== src/Keywords/Insert.antt =====
-- The words of a tree.
use study_notes.Base.{
  ℕ, ◌≡◌, ◌<◌, refl, sym, ap, ◌∙◌, Bool, true, false, ◌||◌, lt→ltb, Option, none, some, List, [],
  ◌∷◌, ◌++◌, append-nil, append_assoc, arith, inl, inr, Bool-cases, if◌then◌else◌,
}
use study_notes.Keywords.{Trie, equal, set, create_node, made_child, insert_loop, insert_tree}
use study_notes.Keywords.Child.{equal_eq, equal_refl}

-- The bytes of a word are indexes of the edges.
abbrev pub InBounds : List ℕ → Type 0
InBounds [] = Unit
InBounds (c ∷ cs) = (c < 127) × InBounds cs

-- Only nodes are words.
pub record Sound (t : Trie) : Type 0 where
  pub only_nodes : (p : List ℕ) → t.has p ≡ false → t.is_word p ≡ false

-- The child, by whether it is there.
abbrev pub made : Trie → List ℕ → Bool → Trie
made t child there = if there then t else create_node t child

made-is_word :
    (t : Trie) (child p : List ℕ) (there : Bool)
    → t.has child ≡ there
    → Sound t
    → (made t child there).is_word p ≡ t.is_word p
made-is_word t child p true e s = refl
made-is_word t child p false e s = elim (Bool-cases (equal p child)) [
  | inl same ↦
      ap (λ b. if b then false else t.is_word p) same
      ∙ sym (ap t.is_word (equal_eq p child same) ∙ s.only_nodes child e)
  | inr other ↦ ap (λ b. if b then false else t.is_word p) other
]

pub made-has :
    (t : Trie) (child : List ℕ) (there : Bool)
    → t.has child ≡ there
    → (made t child there).has child ≡ true
made-has t child true e = e
made-has t child false e = ap (λ b. if b then true else t.has child) (equal_refl child)

pub made-keeps :
    (t : Trie) (child p : List ℕ) (there : Bool)
    → t.has p ≡ true
    → (made t child there).has p ≡ true
made-keeps t child p true e = e
made-keeps t child p false e = ground (arith, e)

made-Sound :
    (t : Trie) (child : List ℕ) (there : Bool)
    → t.has child ≡ there
    → Sound t
    → Sound (made t child there)
made-Sound t child there e s = record {
  only_nodes = λ p missing. made-is_word t child p there e s ∙ elim (Bool-cases (t.has p)) [
    | inl node ↦ ground (arith, missing, made-keeps t child p there node)
    | inr no_node ↦ s.only_nodes p no_node
  ];
}

-- What the insertion of a word from a node on leaves.
abbrev pub Inserted : Trie → List ℕ → Option Trie → List ℕ → Type 0
Inserted t word result p =
    (u : Trie) × (result ≡ some u)
    × (u.is_word p ≡ (equal p word || t.is_word p))
    × (u.has word ≡ true)
    × Sound u

ended-Sound :
    (t : Trie) (cur : List ℕ)
    → Sound t
    → t.has cur ≡ true
    → Sound (record t { is_word = set t.is_word cur true })
ended-Sound t cur s node = record {
  only_nodes = λ p missing. elim (Bool-cases (equal p cur)) [
    | inl same ↦ ground (arith, missing, node, ap t.has (equal_eq p cur same))
    | inr other ↦ ap (λ b. if b then true else t.is_word p) other ∙ s.only_nodes p missing
  ];
}

if_true : (b c : Bool) → (if b then true else c) ≡ (b || c)
if_true true c = refl
if_true false c = refl

insert_loop-Inserted :
    (word : List ℕ) (t : Trie) (cur p : List ℕ)
    → Sound t
    → t.has cur ≡ true
    → InBounds word
    → Inserted t (cur ++ word) (insert_loop t cur word) p
unfolding insert_loop made_child
insert_loop-Inserted [] t cur p s node ok = (
  record t { is_word = set t.is_word cur true },
  refl,
  if_true (equal p cur) (t.is_word p) ∙ ap (λ l. equal p l || t.is_word p) (sym (append-nil cur)),
  ap t.has (append-nil cur) ∙ node,
  ended-Sound t cur s node,
)
insert_loop-Inserted (c ∷ word) t cur p s node (small, ok) =
    let child = cur ++ c ∷ [] in
    let t' = made t child (t.has child) in
    let (u, e, words, node', sound) =
      insert_loop-Inserted word t' child p (made-Sound t child (t.has child) refl s)
        (made-has t child (t.has child) refl) ok in
    let whole = append_assoc cur (c ∷ []) word in
    (
      u,
      ap (λ b. if b then insert_loop t' child word else none) (lt→ltb c 127 small) ∙ e,
      words
          ∙ ap (λ l. equal p l || t'.is_word p) whole
          ∙ ap (λ b. equal p (cur ++ c ∷ word) || b) (made-is_word t child p (t.has child) refl s),
      ap u.has (sym whole) ∙ node',
      sound,
    )

-- On a tree with a root whose words are nodes, for a word of bytes that are in bounds: insert_tree
-- returns; then the word is a word of the tree and a node, every other word is one exactly if it
-- was, and the words are nodes.
insert_tree-Inserted :
    (t : Trie) (word p : List ℕ)
    → Sound t
    → t.has [] ≡ true
    → InBounds word
    → Inserted t word (insert_tree t word) p
unfolding insert_tree
insert_tree-Inserted t word p s root ok = insert_loop-Inserted word t [] p s root ok
