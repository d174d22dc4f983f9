-- ===== src/Keywords/Levels.antt =====
-- The nodes of a tree by their levels.
use mathlib.Core.Path.{subst}
use study_notes.Base.{
  ℕ, zero, suc, ◌+◌, ◌<◌, ◌≤◌, ◌≡◌, refl, sym, ap, ◌∙◌, Bool, true, List, [], ◌∷◌, ◌++◌, arith, inl,
  inr, ◌⊎◌, Bool-cases, length, length-append, if◌then◌else◌,
}
use study_notes.Keywords.{Trie, Queue}
use study_notes.Keywords.Child.{child_at, children, none_between, here_or_later}

-- The tree has a root, a node's parent is a node, the indexes of the children are in bounds, and no
-- node is deeper than `depth`.
pub record Grown (t : Trie) (depth : ℕ) : Type 0 where
  pub root_node : t.has [] ≡ true
  pub parents : (p : List ℕ) (c : ℕ) → t.has (p ++ c ∷ []) ≡ true → t.has p ≡ true
  pub bounded : (p : List ℕ) (c : ℕ) → t.has (p ++ c ∷ []) ≡ true → c < 127
  pub shallow : (p : List ℕ) → t.has p ≡ true → length p ≤ depth

one_more : (n m : ℕ) → m ≡ n → m + 1 ≡ suc n
one_more n m e = omega (arith, e)

too_deep : (l d : ℕ) → l ≡ d + 1 → l ≤ d → ⊥
too_deep l d e f = omega (arith, e, f)

not_zero : (n : ℕ) → suc n ≡ 0 → ⊥
not_zero n e = omega (arith, e)

pred_eq : (m n : ℕ) → m + 1 ≡ suc n → m ≡ n
pred_eq m n e = omega (arith, e)

abbrev pub all_children : (List ℕ → Bool) → Queue → Queue
all_children has [] = []
all_children has (cur ∷ l) = children has 127 0 cur ++ all_children has l

-- The nodes of a level, in the order in which they are found.
unfoldable pub level : (List ℕ → Bool) → ℕ → Queue
level has zero = [] ∷ []
level has (suc n) = all_children has (level has n)

-- How many nodes `k` levels from level `n` on have.
unfoldable pub nodes_of : (List ℕ → Bool) → ℕ → ℕ → ℕ
nodes_of has zero n = 0
nodes_of has (suc k) n = length (level has n) + nodes_of has k (suc n)

abbrev pub In : List ℕ → Queue → Type 0
In p [] = ⊥
In p (q ∷ l) = (p ≡ q) ⊎ In p l

In-left : (p : List ℕ) (l m : Queue) → In p l → In p (l ++ m)
In-left p [] m i = elim i [ ]
In-left p (q ∷ l) m (inl e) = inl e
In-left p (q ∷ l) m (inr i) = inr (In-left p l m i)

In-right : (p : List ℕ) (l m : Queue) → In p m → In p (l ++ m)
In-right p [] m i = i
In-right p (q ∷ l) m i = inr (In-right p l m i)

-- Every node of the list is one, at the level.
abbrev pub AllNodes : (List ℕ → Bool) → ℕ → Queue → Type 0
AllNodes has n [] = Unit
AllNodes has n (p ∷ l) = ((length p ≡ n) × (has p ≡ true)) × AllNodes has n l

AllNodes-append :
    (has : List ℕ → Bool) (n : ℕ) (l m : Queue)
    → AllNodes has n l
    → AllNodes has n m
    → AllNodes has n (l ++ m)
AllNodes-append has n [] m a b = b
AllNodes-append has n (p ∷ l) m (a, rest) b = (a, AllNodes-append has n l m rest b)

child_at-AllNodes :
    (has : List ℕ → Bool) (cur : List ℕ) (i : ℕ)
    → AllNodes has (length cur + 1) (child_at has cur i)
child_at-AllNodes has cur i = elim (Bool-cases (has (cur ++ i ∷ []))) [
  | inl there ↦
      subst (λ b. AllNodes has (length cur + 1) (if b then (cur ++ i ∷ []) ∷ [] else []))
        (sym there) ((length-append cur (i ∷ []), there), tt)
  | inr missing ↦
      subst (λ b. AllNodes has (length cur + 1) (if b then (cur ++ i ∷ []) ∷ [] else []))
        (sym missing) tt
]

children-AllNodes :
    (has : List ℕ → Bool) (n i : ℕ) (cur : List ℕ)
    → AllNodes has (length cur + 1) (children has n i cur)
children-AllNodes has zero i cur = tt
children-AllNodes has (suc n) i cur =
    AllNodes-append has (length cur + 1) (child_at has cur i) (children has n (suc i) cur)
      (child_at-AllNodes has cur i) (children-AllNodes has n (suc i) cur)

pub all_children-AllNodes :
    (has : List ℕ → Bool) (n : ℕ) (l : Queue)
    → AllNodes has n l
    → AllNodes has (suc n) (all_children has l)
all_children-AllNodes has n [] a = tt
all_children-AllNodes has n (cur ∷ l) ((e, node), rest) =
    AllNodes-append has (suc n) (children has 127 0 cur) (all_children has l)
      (subst (λ m. AllNodes has m (children has 127 0 cur)) (one_more n (length cur) e)
        (children-AllNodes has 127 0 cur))
      (all_children-AllNodes has n l rest)

pub level-AllNodes : (t : Trie) (depth n : ℕ) → Grown t depth → AllNodes t.has n (level t.has n)
unfolding level
level-AllNodes t depth zero tree = ((refl, tree.root_node), tt)
level-AllNodes t depth (suc n) tree =
    all_children-AllNodes t.has n (level t.has n) (level-AllNodes t depth n tree)

pub level-nil : (t : Trie) (depth : ℕ) → Grown t depth → level t.has (depth + 1) ≡ []
level-nil t depth tree =
    none_there (level t.has (depth + 1)) (level-AllNodes t depth (depth + 1) tree)
  where
    none_there : (l : Queue) → AllNodes t.has (depth + 1) l → l ≡ []
    none_there [] a = refl
    none_there (p ∷ l) ((e, node), rest) =
        elim (too_deep (length p) depth e (tree.shallow p node)) [ ]

child_at-In :
    (has : List ℕ → Bool) (cur : List ℕ) (c : ℕ)
    → has (cur ++ c ∷ []) ≡ true
    → In (cur ++ c ∷ []) (child_at has cur c)
child_at-In has cur c there =
    subst (λ b. In (cur ++ c ∷ []) (if b then (cur ++ c ∷ []) ∷ [] else [])) (sym there) (inl refl)

children-In :
    (has : List ℕ → Bool) (n i c : ℕ) (cur : List ℕ)
    → i ≤ c
    → c < i + n
    → has (cur ++ c ∷ []) ≡ true
    → In (cur ++ c ∷ []) (children has n i cur)
children-In has zero i c cur from below there = elim (none_between i c from below) [ ]
children-In has (suc n) i c cur from below there = elim (here_or_later i c from) [
  | inl here ↦ In-left (cur ++ c ∷ []) (child_at has cur i) (children has n (suc i) cur) (
      subst (λ x. In (cur ++ c ∷ []) (child_at has cur x)) (sym here) (child_at-In has cur c there))
  | inr after ↦
      In-right (cur ++ c ∷ []) (child_at has cur i) (children has n (suc i) cur)
        (children-In has n (suc i) c cur after (omega (arith, below)) there)
]

all_children-In :
    (has : List ℕ → Bool) (l : Queue) (p : List ℕ) (c : ℕ)
    → In p l
    → c < 127
    → has (p ++ c ∷ []) ≡ true
    → In (p ++ c ∷ []) (all_children has l)
all_children-In has [] p c i small there = elim i [ ]
all_children-In has (cur ∷ l) p c (inl e) small there =
    In-left (p ++ c ∷ []) (children has 127 0 cur) (all_children has l) (
      subst (λ x. In (p ++ c ∷ []) (children has 127 0 x)) e
        (children-In has 127 0 c p (omega arith) (omega (arith, small)) there))
all_children-In has (cur ∷ l) p c (inr i) small there =
    In-right (p ++ c ∷ []) (children has 127 0 cur) (all_children has l)
      (all_children-In has l p c i small there)

-- A path that is not empty, by its last byte.
pub last_of : (x : ℕ) (xs : List ℕ) → (ys : List ℕ) × (c : ℕ) × (x ∷ xs ≡ ys ++ c ∷ [])
last_of x [] = ([], x, refl)
last_of x (y ∷ xs) = let (ys, c, e) = last_of y xs in (x ∷ ys, c, ap (λ l. x ∷ l) e)

pub level-In :
    (t : Trie) (depth n : ℕ) (p : List ℕ)
    → Grown t depth
    → t.has p ≡ true
    → length p ≡ n
    → In p (level t.has n)
unfolding level
level-In t depth zero [] tree node e = inl refl
level-In t depth zero (x ∷ p) tree node e = elim (not_zero (length p) e) [ ]
level-In t depth (suc n) [] tree node e = elim (not_zero n (sym e)) [ ]
level-In t depth (suc n) (x ∷ p) tree node e =
    let (q, c, split) = last_of x p in
    let there : t.has (q ++ c ∷ []) ≡ true = ap t.has (sym split) ∙ node in
    let short : length q ≡ n =
      pred_eq (length q) n (sym (length-append q (c ∷ [])) ∙ ap length (sym split) ∙ e) in
    subst (λ l. In l (all_children t.has (level t.has n))) (sym split)
      (all_children-In t.has (level t.has n) q c
        (level-In t depth n q tree (tree.parents q c there) short) (tree.bounded q c there) there)
