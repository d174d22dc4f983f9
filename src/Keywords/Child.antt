-- ===== src/Keywords/Child.antt =====
-- The failure pointers of the children of a node.
use mathlib.Core.Path.{subst}
use study_notes.Base.{
  ℕ, zero, suc, ◌+◌, ◌<◌, ◌≤◌, ◌≡◌, ◌==◌, ==_iff, refl, sym, ap, ◌∙◌, Bool, true, false, Option,
  some, List, [], ◌∷◌, ◌++◌, append-nil, append_assoc, arith, inl, inr, ◌⊎◌, Bool-cases, drop,
  length, if◌then◌else◌,
}
use study_notes.Keywords.{
  Trie, Queue, equal, set, do_find_fail_ptr, point_child, visit_child, go_on, visit_children,
}
use study_notes.Keywords.Fail.{Longest, Fails, Built, do_find_fail_ptr-Found}

pub equal_eq : (xs ys : List ℕ) → equal xs ys ≡ true → xs ≡ ys
equal_eq [] [] e = refl
equal_eq [] (y ∷ ys) e = ground (arith, e)
equal_eq (x ∷ xs) [] e = ground (arith, e)
equal_eq (x ∷ xs) (y ∷ ys) e =
    let same : x ≡ y = ground (arith, e, ==_iff x y) in
    let rest : equal xs ys ≡ true = ground (arith, e, ==_iff x y) in
    ap (λ z. z ∷ xs) same ∙ ap (λ l. y ∷ l) (equal_eq xs ys rest)

pub equal_refl : (xs : List ℕ) → equal xs xs ≡ true
equal_refl [] = refl
equal_refl (x ∷ xs) = ground (arith, equal_refl xs, ==_iff x x)

-- The nodes are the same, and what is right stays right.
pub record Keeps (t u : Trie) : Type 0 where
  pub same_nodes : u.has ≡ t.has
  pub still : (p : List ℕ) → Fails t p → Fails u p
  pub root_still : u.fail_ptr [] ≡ t.fail_ptr []

pub Keeps-refl : (t : Trie) → Keeps t t
Keeps-refl t = record { same_nodes = refl; still = λ p f. f; root_still = refl }

pub Keeps-trans : (t u v : Trie) → Keeps t u → Keeps u v → Keeps t v
Keeps-trans t u v a b = record {
  same_nodes = b.same_nodes ∙ a.same_nodes;
  still = λ p f. b.still p (a.still p f);
  root_still = b.root_still ∙ a.root_still;
}

pub Built-Keeps : (t u : Trie) (n : ℕ) → Keeps t u → Built t n → Built u n
Built-Keeps t u n k b = record {
  root_node = ap (λ (f : List ℕ → Bool). f []) k.same_nodes ∙ b.root_node;
  root_fail = k.root_still ∙ b.root_fail;
  parents = λ p c e.
      ap (λ (f : List ℕ → Bool). f p) k.same_nodes
      ∙ b.parents p c (sym (ap (λ (f : List ℕ → Bool). f (p ++ c ∷ [])) k.same_nodes) ∙ e);
  fails = λ p e low high.
      k.still p (b.fails p (sym (ap (λ (f : List ℕ → Bool). f p) k.same_nodes) ∙ e) low high);
}

-- The tree in which a node is given its failure pointer.
abbrev pointed : Trie → List ℕ → List ℕ → Trie
pointed t child q = record t { fail_ptr = set t.fail_ptr child (some q) }

pointed-Fails :
    (t : Trie) (child : List ℕ) (m : ℕ)
    → Longest t child m
    → Fails (pointed t child (drop m child)) child
pointed-Fails t child m l = (
  m,
  ap (λ b. if b then some (drop m child) else t.fail_ptr child) (equal_refl child),
  record { proper = l.proper; within = l.within; is_node = l.is_node; longest = l.longest },
)

root_other : (cur : List ℕ) (c : ℕ) → equal [] (cur ++ c ∷ []) ≡ false
root_other [] c = refl
root_other (x ∷ cur) c = refl

pointed-still :
    (t : Trie) (child : List ℕ) (m : ℕ) (p : List ℕ)
    → Longest t child m
    → Fails t p
    → Fails (pointed t child (drop m child)) p
pointed-still t child m p l (k, points, f) = elim (Bool-cases (equal p child)) [
  | inl same ↦
      subst (Fails (pointed t child (drop m child))) (sym (equal_eq p child same))
        (pointed-Fails t child m l)
  | inr other ↦ (
    k,
    ap (λ b. if b then some (drop m child) else t.fail_ptr p) other ∙ points,
    record { proper = f.proper; within = f.within; is_node = f.is_node; longest = f.longest },
  )
]

pointed-Keeps :
    (t : Trie) (cur : List ℕ) (c m : ℕ)
    → Longest t (cur ++ c ∷ []) m
    → Keeps t (pointed t (cur ++ c ∷ []) (drop m (cur ++ c ∷ [])))
pointed-Keeps t cur c m l = record {
  same_nodes = refl;
  still = λ p f. pointed-still t (cur ++ c ∷ []) m p l f;
  root_still =
      ap (λ b. if b then some (drop m (cur ++ c ∷ [])) else t.fail_ptr []) (root_other cur c);
}

-- The children that are nodes, for `n` indexes from `i` on.
abbrev pub child_at : (List ℕ → Bool) → List ℕ → ℕ → Queue
child_at has cur i = if has (cur ++ i ∷ []) then (cur ++ i ∷ []) ∷ [] else []

abbrev pub children : (List ℕ → Bool) → ℕ → ℕ → List ℕ → Queue
children has zero i cur = []
children has (suc n) i cur = child_at has cur i ++ children has n (suc i) cur

-- The child at an index has been visited.
abbrev Visited : Trie → List ℕ → ℕ → Queue → Option (Trie × Queue) → Type 0
Visited t cur i q result =
    (u : Trie) × (result ≡ some (u, q ++ child_at t.has cur i))
    × Keeps t u
    × (t.has (cur ++ i ∷ []) ≡ true → Fails u (cur ++ i ∷ []))

visit_child-Visited :
    (t : Trie) (cur : List ℕ) (i : ℕ) (q : Queue)
    → Built t (length cur)
    → t.has cur ≡ true
    → Visited t cur i q (visit_child t cur i q)
unfolding visit_child
visit_child-Visited t cur i q built node =
    let child = cur ++ i ∷ [] in
    let found = do_find_fail_ptr t cur i [] in
    elim (Bool-cases (t.has child)) [
      | inl there ↦
          let (m, e, l) = do_find_fail_ptr-Found t (length cur) built cur i node (omega arith) in
          (
            pointed t child (drop m child),
            ap (λ b. if b then point_child t child q found else some (t, q)) there
                ∙ ap (point_child t child q) e
                ∙ ap
                    (λ (b : Bool).
                      some (pointed t child (drop m child), q ++ (if b then child ∷ [] else [])))
                    (sym there),
            pointed-Keeps t cur i m l,
            λ yes_there. pointed-Fails t child m l,
          )
      | inr missing ↦ (
        t,
        ap (λ b. if b then point_child t child q found else some (t, q)) missing
            ∙ ap (λ (l : Queue). some (t, l)) (sym (append-nil q))
            ∙ ap (λ (b : Bool). some (t, q ++ (if b then child ∷ [] else []))) (sym missing),
        Keeps-refl t,
        λ there. ground (arith, there, missing),
      )
    ]

-- The children at `n` indexes from `i` on have been visited.
abbrev pub AllVisited : ℕ → ℕ → Trie → List ℕ → Queue → Option (Trie × Queue) → Type 0
AllVisited n i t cur q result =
    (u : Trie) × (result ≡ some (u, q ++ children t.has n i cur))
    × Keeps t u
    × ((c : ℕ) → i ≤ c → c < i + n → t.has (cur ++ c ∷ []) ≡ true → Fails u (cur ++ c ∷ []))

pub has_same : (t u : Trie) (p : List ℕ) → Keeps t u → u.has p ≡ t.has p
has_same t u p k = ap (λ (f : List ℕ → Bool). f p) k.same_nodes

pub none_between : (i c : ℕ) → i ≤ c → c < i + zero → ⊥
none_between i c e f = omega (arith, e, f)

pub here_or_later : (i c : ℕ) → i ≤ c → (i ≡ c) ⊎ (suc i ≤ c)
here_or_later i c e = elim (Bool-cases (i == c)) [
  | inl same ↦ inl (ground (arith, same))
  | inr other ↦ inr (ground (arith, other, e))
]

pub visit_children-AllVisited :
    (n i : ℕ) (t : Trie) (cur : List ℕ) (q : Queue)
    → Built t (length cur)
    → t.has cur ≡ true
    → AllVisited n i t cur q (visit_children n i t cur q)
unfolding visit_children
visit_children-AllVisited zero i t cur q built node = (
  t,
  ap (λ (l : Queue). some (t, l)) (sym (append-nil q)),
  Keeps-refl t,
  λ c from below there. elim (none_between i c from below) [ ],
)
visit_children-AllVisited (suc n) i t cur q built node =
    let (u, e, k, at_i) = visit_child-Visited t cur i q built node in
    let q' = q ++ child_at t.has cur i in
    let (v, f, k', later) =
      visit_children-AllVisited n (suc i) u cur q' (Built-Keeps t u (length cur) k built)
        (has_same t u cur k ∙ node) in
    (
      v,
      ap (go_on (λ t' l. visit_children n (suc i) t' cur l)) e
          ∙ f
          ∙ ap (λ (h : List ℕ → Bool). some (v, q' ++ children h n (suc i) cur)) k.same_nodes
          ∙ ap (λ (l : Queue). some (v, l))
              (append_assoc q (child_at t.has cur i) (children t.has n (suc i) cur)),
      Keeps-trans t u v k k',
      λ c from below there. elim (here_or_later i c from) [
        | inl here ↦ k'.still (cur ++ c ∷ []) (
            subst (λ x. Fails u (cur ++ x ∷ [])) here
              (at_i (ap (λ x. t.has (cur ++ x ∷ [])) here ∙ there)))
        | inr after ↦ later c after (omega (arith, below)) (has_same t u (cur ++ c ∷ []) k ∙ there)
      ],
    )
