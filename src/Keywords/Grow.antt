-- ===== src/Keywords/Grow.antt =====
-- A tree that words are inserted in, and its failure pointers.
use study_notes.Base.{
  ℕ, ◌+◌, ◌<◌, ◌≤◌, ◌≡◌, refl, sym, ap, ◌∙◌, Bool, true, false, ltb, ltb→lt, ◌⊎◌, lt→ltb, Option,
  none, some, List, [], ◌∷◌, ◌++◌, arith, inl, inr, Bool-cases, length, length-append,
  if◌then◌else◌,
}
use study_notes.Keywords.{
  Trie, equal, set, new_trie, made_child, insert_loop, insert_tree, build_fail_ptr,
}
use study_notes.Keywords.Child.{equal_eq}
use study_notes.Keywords.Fail.{Fails, Built}
use study_notes.Keywords.Levels.{Grown, nodes_of}
use study_notes.Keywords.Build.{build_fail_ptr-Built}
use study_notes.Keywords.Insert.{InBounds, made, made-has, made-keeps}

abbrev front : List ℕ → List ℕ
front [] = []
front (x ∷ []) = []
front (x ∷ y ∷ p) = x ∷ front (y ∷ p)

abbrev final : List ℕ → ℕ
final [] = 0
final (x ∷ []) = x
final (x ∷ y ∷ p) = final (y ∷ p)

front-snoc : (p : List ℕ) (c : ℕ) → front (p ++ c ∷ []) ≡ p
front-snoc [] c = refl
front-snoc (x ∷ []) c = refl
front-snoc (x ∷ y ∷ p) c = ap (λ l. x ∷ l) (front-snoc (y ∷ p) c)

final-snoc : (p : List ℕ) (c : ℕ) → final (p ++ c ∷ []) ≡ c
final-snoc [] c = refl
final-snoc (x ∷ []) c = refl
final-snoc (x ∷ y ∷ p) c = final-snoc (y ∷ p) c

made-Grown :
    (t : Trie) (cur : List ℕ) (c depth : ℕ) (there : Bool)
    → Grown t depth
    → t.has cur ≡ true
    → c < 127
    → length cur + 1 ≤ depth
    → Grown (made t (cur ++ c ∷ []) there) depth
made-Grown t cur c depth true g node small room = g
made-Grown t cur c depth false g node small room =
    let child = cur ++ c ∷ [] in
    record {
      root_node = made-keeps t child [] false g.root_node;
      parents = λ p x e. made-keeps t child p false (elim (Bool-cases (equal (p ++ x ∷ []) child)) [
        | inl same ↦
            let q = equal_eq (p ++ x ∷ []) child same in
            ap t.has (sym (front-snoc p x) ∙ ap front q ∙ front-snoc cur c) ∙ node
        | inr other ↦ g.parents p x (ground (arith, e, other))
      ]);
      bounded = λ p x e. elim (Bool-cases (equal (p ++ x ∷ []) child)) [
        | inl same ↦
            let q = equal_eq (p ++ x ∷ []) child same in
            let last : x ≡ c = sym (final-snoc p x) ∙ ap final q ∙ final-snoc cur c in
            omega (arith, last, small)
        | inr other ↦ g.bounded p x (ground (arith, e, other))
      ];
      shallow = λ p e. elim (Bool-cases (equal p child)) [
        | inl same ↦
            let q : length p ≡ length cur + 1 =
              ap length (equal_eq p child same) ∙ length-append cur (c ∷ []) in
            omega (arith, q, room)
        | inr other ↦ g.shallow p (ground (arith, e, other))
      ];
    }

insert_loop-Grown :
    (word : List ℕ) (t : Trie) (cur : List ℕ) (depth : ℕ)
    → Grown t depth
    → t.has cur ≡ true
    → InBounds word
    → length cur + length word ≤ depth
    → (u : Trie) × (insert_loop t cur word ≡ some u) × Grown u depth
unfolding insert_loop made_child
insert_loop-Grown [] t cur depth g node ok room = (
  record t { is_word = set t.is_word cur true },
  refl,
  record { root_node = g.root_node; parents = g.parents; bounded = g.bounded; shallow = g.shallow },
)
insert_loop-Grown (c ∷ word) t cur depth g node (small, ok) room =
    let child = cur ++ c ∷ [] in
    let t' = made t child (t.has child) in
    let (u, e, grown) =
      insert_loop-Grown word t' child depth
        (made-Grown t cur c depth (t.has child) g node small (omega (arith, room)))
        (made-has t child (t.has child) refl) ok
        (omega (arith, room, length-append cur (c ∷ []))) in
    (u, ap (λ b. if b then insert_loop t' child word else none) (lt→ltb c 127 small) ∙ e, grown)

-- The words are inserted one after the other.
abbrev pub then_insert : (Trie → Option Trie) → Option Trie → Option Trie
then_insert go none = none
then_insert go (some t) = go t

unfoldable pub insert_words : Trie → List (List ℕ) → Option Trie
insert_words t [] = some t
insert_words t (word ∷ words) = then_insert (λ u. insert_words u words) (insert_tree t word)

-- The bytes of the words are in bounds, and their lengths are at most the depth.
abbrev pub Words : ℕ → List (List ℕ) → Type 0
Words depth [] = Unit
Words depth (word ∷ words) = (InBounds word × (length word ≤ depth)) × Words depth words

insert_words-Grown :
    (words : List (List ℕ)) (t : Trie) (depth : ℕ)
    → Grown t depth
    → Words depth words
    → (u : Trie) × (insert_words t words ≡ some u) × Grown u depth
unfolding insert_words insert_tree
insert_words-Grown [] t depth g ok = (t, refl, g)
insert_words-Grown (word ∷ words) t depth g ((bounds, short), ok) =
    let (u, e, grown) =
      insert_loop-Grown word t [] depth g g.root_node bounds (omega (arith, short)) in
    let (v, f, grown') = insert_words-Grown words u depth grown ok in
    (v, ap (then_insert (λ x. insert_words x words)) e ∙ f, grown')

not_root : (p : List ℕ) (c : ℕ) → new_trie.has (p ++ c ∷ []) ≡ true → ⊥
not_root [] c e = ground (arith, e)
not_root (x ∷ p) c e = ground (arith, e)

root_length : (p : List ℕ) (depth : ℕ) → new_trie.has p ≡ true → length p ≤ depth
root_length [] depth e = omega arith
root_length (x ∷ p) depth e = ground (arith, e)

new_trie-Grown : (depth : ℕ) → Grown new_trie depth
new_trie-Grown depth = record {
  root_node = refl;
  parents = λ p c e. elim (not_root p c e) [ ];
  bounded = λ p c e. elim (not_root p c e) [ ];
  shallow = λ p e. root_length p depth e;
}

Grown-same : (t u : Trie) (depth : ℕ) → u.has ≡ t.has → Grown t depth → Grown u depth
Grown-same t u depth same g =
    let at = λ (p : List ℕ). ap (λ (f : List ℕ → Bool). f p) same in
    record {
      root_node = at [] ∙ g.root_node;
      parents = λ p c e. at p ∙ g.parents p c (sym (at (p ++ c ∷ [])) ∙ e);
      bounded = λ p c e. g.bounded p c (sym (at (p ++ c ∷ [])) ∙ e);
      shallow = λ p e. g.shallow p (sym (at p) ∙ e);
    }

-- Where it is not a node, there is nothing to say of a path.
abbrev pub PointsRight : Trie → List ℕ → Type 0
PointsRight u p = (u.has p ≡ false) ⊎ ((length p ≡ 0) ⊎ Fails u p)

Built-PointsRight :
    (u : Trie) (depth : ℕ) (p : List ℕ)
    → Built u (0 + (depth + 1))
    → Grown u depth
    → PointsRight u p
Built-PointsRight u depth p built grown = elim (Bool-cases (u.has p)) [
  | inr no_node ↦ inl no_node
  | inl node ↦ elim (Bool-cases (ltb 0 (length p))) [
    | inr at_root ↦ inr (inl (ground (arith, at_root)))
    | inl below ↦
        inr (
          inr
            (built.fails p node (ltb→lt 0 (length p) below) (omega (arith, grown.shallow p node))))
  ]
]

-- For any words of bytes that are in bounds: inserting them in a new tree returns, and so does
-- build_fail_ptr with at least as much fuel as the tree has nodes; it keeps the nodes, the root has
-- no failure pointer, and that of any other node points to its longest proper suffix that is a node.
pub insert_words-PointsRight :
    (words : List (List ℕ)) (depth fuel : ℕ) (p : List ℕ)
    → Words depth words
    → (t : Trie) × (u : Trie) × (insert_words new_trie words ≡ some t)
      × (build_fail_ptr (nodes_of t.has (depth + 1) 0 + fuel) t ≡ some u)
      × (u.has ≡ t.has)
      × (u.fail_ptr [] ≡ none)
      × PointsRight u p
insert_words-PointsRight words depth fuel p ok =
    let (t, inserts, grown) = insert_words-Grown words new_trie depth (new_trie-Grown depth) ok in
    let (u, builds, same, built) = build_fail_ptr-Built t depth fuel grown in
    (
      t,
      u,
      inserts,
      builds,
      same,
      built.root_fail,
      Built-PointsRight u depth p built (Grown-same t u depth same grown),
    )
