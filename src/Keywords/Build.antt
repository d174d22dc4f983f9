-- ===== src/Keywords/Build.antt =====
-- The failure pointers of the whole tree, level by level.
use mathlib.Core.Path.{subst}
use study_notes.Base.{
  ℕ, zero, suc, ◌+◌, ◌<◌, ◌≤◌, ◌≡◌, ◌==◌, refl, sym, ap, ◌∙◌, Bool, true, none, some, List, [], ◌∷◌,
  ◌++◌, append-nil, append_assoc, arith, inl, inr, Bool-cases, length, length-append,
}
use study_notes.Keywords.{Trie, Queue, set, go_on, visit_children, build_loop, build_fail_ptr}
use study_notes.Keywords.Fail.{Fails, Built}
use study_notes.Keywords.Child.{
  Keeps, Keeps-refl, Keeps-trans, Built-Keeps, children, visit_children-AllVisited, has_same,
}
use study_notes.Keywords.Levels.{
  Grown, all_children, level, nodes_of, In, AllNodes, level-AllNodes, level-nil, level-In, last_of,
}

-- The nodes of the list have children with failure pointers.
abbrev Pointed : Trie → Queue → Trie → Type 0
Pointed t l u =
    (p : List ℕ) (c : ℕ) → In p l → c < 127 → t.has (p ++ c ∷ []) ≡ true → Fails u (p ++ c ∷ [])

-- The loop over a list that stands before others in the queue.
abbrev Passed : ℕ → Trie → Queue → Queue → Type 0
Passed fuel t l m =
    (u : Trie) × (build_loop (length l + fuel) t (l ++ m)
      ≡ build_loop fuel u (m ++ all_children t.has l))
    × Keeps t u
    × Pointed t l u

build_loop-step :
    (fuel : ℕ) (t : Trie) (cur : List ℕ) (q : Queue)
    → build_loop (suc fuel) t (cur ∷ q)
      ≡ go_on (λ t' q'. build_loop fuel t' q') (visit_children 127 0 t cur q)
unfolding build_loop
build_loop-step fuel t cur q = refl

next_fuel : (m n : ℕ) → suc m + n ≡ suc (m + n)
next_fuel m n = omega arith

build_loop-Passed :
    (fuel n : ℕ) (t : Trie) (l m : Queue) → Built t n → AllNodes t.has n l → Passed fuel t l m
build_loop-Passed fuel n t [] m built a = (
  t,
  ap (λ k. build_loop k t m) (omega arith) ∙ ap (build_loop fuel t) (sym (append-nil m)),
  Keeps-refl t,
  λ p c i small there. elim i [ ],
)
build_loop-Passed fuel n t (cur ∷ l) m built ((e, node), rest) =
    let (u, visited, k, set_there) =
      visit_children-AllVisited 127 0 t cur (l ++ m) (subst (Built t) (sym e) built) node in
    let m' = m ++ children t.has 127 0 cur in
    let (v, passed, k', set_later) =
      build_loop-Passed fuel n u l m' (Built-Keeps t u n k built)
        (subst (λ h. AllNodes h n l) (sym k.same_nodes) rest) in
    (
      v,
      ap (λ j. build_loop j t (cur ∷ (l ++ m))) (next_fuel (length l) fuel)
          ∙ build_loop-step (length l + fuel) t cur (l ++ m)
          ∙ ap (go_on (λ t' q'. build_loop (length l + fuel) t' q')) visited
          ∙ ap (build_loop (length l + fuel) u) (append_assoc l m (children t.has 127 0 cur))
          ∙ passed
          ∙ ap (λ (h : List ℕ → Bool). build_loop fuel v (m' ++ all_children h l)) k.same_nodes
          ∙ ap (build_loop fuel v)
              (append_assoc m (children t.has 127 0 cur) (all_children t.has l)),
      Keeps-trans t u v k k',
      λ p c i small there. elim i [
        | inl here ↦ k'.still (p ++ c ∷ []) (
            subst (λ x. Fails u (x ++ c ∷ [])) (sym here)
              (set_there c (omega arith) (omega (arith, small))
                (subst (λ x. t.has (x ++ c ∷ []) ≡ true) here there)))
        | inr later ↦ set_later p c later small (has_same t u (p ++ c ∷ []) k ∙ there)
      ],
    )

Grown-Keeps : (t u : Trie) (depth : ℕ) → Keeps t u → Grown t depth → Grown u depth
Grown-Keeps t u depth k tree = record {
  root_node = has_same t u [] k ∙ tree.root_node;
  parents = λ p c e. has_same t u p k ∙ tree.parents p c (sym (has_same t u (p ++ c ∷ []) k) ∙ e);
  bounded = λ p c e. tree.bounded p c (sym (has_same t u (p ++ c ∷ []) k) ∙ e);
  shallow = λ p e. tree.shallow p (sym (has_same t u p k) ∙ e);
}

no_length : 0 < zero → ⊥
no_length e = omega (arith, e)

-- A level more.
Built-next :
    (t u : Trie) (depth n : ℕ)
    → Grown t depth
    → Built t n
    → Keeps t u
    → Pointed t (level t.has n) u
    → Built u (suc n)
Built-next t u depth n tree built k pointed =
    let b = Built-Keeps t u n k built in
    record {
      root_node = b.root_node;
      root_fail = b.root_fail;
      parents = b.parents;
      fails = λ p e low high. deeper p (sym (has_same t u p k) ∙ e) low high;
    }
  where
    deeper : (p : List ℕ) → t.has p ≡ true → 0 < length p → length p ≤ suc n → Fails u p
    deeper [] node low high = elim (no_length low) [ ]
    deeper (x ∷ xs) node low high =
        let (q, c, split) = last_of x xs in
        let there : t.has (q ++ c ∷ []) ≡ true = ap t.has (sym split) ∙ node in
        let long : length (x ∷ xs) ≡ length q + 1 = ap length split ∙ length-append q (c ∷ []) in
        elim (Bool-cases (length q == n)) [
          | inl at ↦ subst (Fails u) (sym split) (
              pointed q c (level-In t depth n q tree (tree.parents q c there) (ground (arith, at)))
                (tree.bounded q c there) there)
          | inr above ↦
              k.still (x ∷ xs) (built.fails (x ∷ xs) node low (ground (arith, above, long, high)))
        ]

plus_zero : (n : ℕ) → n ≡ n + zero
plus_zero n = omega arith

zero_plus : (n : ℕ) → zero + n ≡ n
zero_plus n = omega arith

plus_suc : (n k : ℕ) → suc n + k ≡ n + suc k
plus_suc n k = omega arith

sum_assoc : (a b c : ℕ) → a + b + c ≡ a + (b + c)
sum_assoc a b c = omega arith

-- The loop from a level on.
abbrev Finished : ℕ → ℕ → ℕ → Trie → Type 0
Finished fuel k n t =
    (u : Trie) × (build_loop (nodes_of t.has k n + fuel) t (level t.has n) ≡ some u)
    × Keeps t u
    × Built u (n + k)

build_loop-Finished :
    (fuel depth k n : ℕ) (t : Trie)
    → Grown t depth
    → Built t n
    → level t.has (n + k) ≡ []
    → Finished fuel k n t
unfolding nodes_of level build_loop
build_loop-Finished fuel depth zero n t tree built ends = (
  t,
  ap (build_loop (0 + fuel) t) (ap (level t.has) (plus_zero n) ∙ ends),
  Keeps-refl t,
  subst (Built t) (plus_zero n) built,
)
build_loop-Finished fuel depth (suc k) n t tree built ends =
    let (u, passed, keeps, pointed) =
      build_loop-Passed (nodes_of t.has k (suc n) + fuel) n t (level t.has n) [] built
        (level-AllNodes t depth n tree) in
    let (v, finished, keeps', built') =
      build_loop-Finished fuel depth k (suc n) u (Grown-Keeps t u depth keeps tree)
        (Built-next t u depth n tree built keeps pointed)
        (ap (λ (h : List ℕ → Bool). level h (suc n + k)) keeps.same_nodes
          ∙ ap (level t.has) (plus_suc n k)
          ∙ ends) in
    (
      v,
      ap (λ j. build_loop j t (level t.has n))
            (sum_assoc (length (level t.has n)) (nodes_of t.has k (suc n)) fuel)
          ∙ ap (build_loop (length (level t.has n) + (nodes_of t.has k (suc n) + fuel)) t)
              (sym (append-nil (level t.has n)))
          ∙ passed
          ∙ ap
              (λ (h : List ℕ → Bool).
                build_loop (nodes_of h k (suc n) + fuel) u (all_children t.has (level t.has n)))
              (sym keeps.same_nodes)
          ∙ ap
              (λ (h : List ℕ → Bool).
                build_loop (nodes_of u.has k (suc n) + fuel) u (all_children h (level h n)))
              (sym keeps.same_nodes)
          ∙ finished,
      Keeps-trans t u v keeps keeps',
      subst (Built v) (plus_suc n k) built',
    )

-- The root's failure pointer is reset first.
abbrev reset : Trie → Trie
reset t = record t { fail_ptr = set t.fail_ptr [] none }

reset-Built : (t : Trie) (depth : ℕ) → Grown t depth → Built (reset t) 0
reset-Built t depth tree = record {
  root_node = tree.root_node;
  root_fail = refl;
  parents = tree.parents;
  fails = λ p node low high. elim (no_length (omega (arith, low, high))) [ ];
}

-- With at least as much fuel as the tree has nodes, build_fail_ptr returns, and sets every pointer.
pub build_fail_ptr-Built :
    (t : Trie) (depth fuel : ℕ)
    → Grown t depth
    → (u : Trie) × (build_fail_ptr (nodes_of t.has (depth + 1) 0 + fuel) t ≡ some u)
      × (u.has ≡ t.has)
      × Built u (0 + (depth + 1))
unfolding build_fail_ptr level
build_fail_ptr-Built t depth fuel tree =
    let start : Grown (reset t) depth = record {
      root_node = tree.root_node;
      parents = tree.parents;
      bounded = tree.bounded;
      shallow = tree.shallow;
    } in
    let (u, returns, keeps, built) =
      build_loop-Finished fuel depth (depth + 1) 0 (reset t) start (reset-Built t depth tree)
        (ap (level t.has) (zero_plus (depth + 1)) ∙ level-nil t depth tree) in
    (u, returns, keeps.same_nodes, built)
