-- ===== src/Radix/Reported.antt =====
-- `apply` reports each key that the tree holds, once.
use study_notes.Base.{
  ℕ, ◌+◌, ◌≡◌, refl, sym, ap, ◌∙◌, inl, inr, Bool-cases, List, [], ◌∷◌, ◌++◌, arith, ltb, ◌==◌,
  if◌then◌else◌, append_assoc, append-nil,
}
use study_notes.Radix.{Tree, Edges, node, nil, cons, RadixTree}
use study_notes.Radix.Visit.{pop_back, pop_each, push_each, Visited, visit_keys, visit_edges, apply}
use study_notes.Radix.Count.{under, held_here, count, count_below, once, under-append, under-plus}
use study_notes.Radix.Shape.{
  Formed, FormedEdges, IsFormed, count_other, count_empty, count_below-Fresh, count_below-nil,
}
use study_notes.Radix.Adds.{under_key, under_zero}
use study_notes.Radix.Removal.{under-same}

-- How often a key stands in a list of keys.
abbrev pub times : List ℕ → List (List ℕ) → ℕ
times k [] = 0
times k (x ∷ xs) = once x k + times k xs

times-append : (k : List ℕ) (xs ys : List (List ℕ)) → times k (xs ++ ys) ≡ times k xs + times k ys
times-append k [] ys = omega arith
times-append k (x ∷ xs) ys = omega (arith, times-append k xs ys)

abbrev pub sign : ℕ → ℕ
sign n = if ltb 0 n then 1 else 0

push_each-append : (p b : List ℕ) → push_each p b ≡ b ++ p
push_each-append [] b = sym (append-nil b)
push_each-append (x ∷ p) b = push_each-append p (b ++ x ∷ []) ∙ append_assoc b (x ∷ []) p

pop_back-append : (b : List ℕ) (x : ℕ) → pop_back (b ++ x ∷ []) ≡ b
pop_back-append [] x = refl
pop_back-append (c ∷ []) x = refl
pop_back-append (c ∷ d ∷ b) x = ap (◌∷◌ c) (pop_back-append (d ∷ b) x)

pop_each-pop_back : (p b : List ℕ) → pop_each p (pop_back b) ≡ pop_back (pop_each p b)
pop_each-pop_back [] b = refl
pop_each-pop_back (x ∷ p) b = pop_each-pop_back p (pop_back b)

-- What is pushed for a prefix is popped again.
pop_push : (p b : List ℕ) → pop_each p (push_each p b) ≡ b
pop_push [] b = refl
pop_push (x ∷ p) b =
    pop_each-pop_back p (push_each p (b ++ x ∷ []))
    ∙ ap pop_back (pop_push p (b ++ x ∷ []))
    ∙ pop_back-append b x

sign-under :
    (p : List ℕ) (f : List ℕ → ℕ) (k : List ℕ) → sign (under p f k) ≡ under p (λ x. sign (f x)) k
sign-under [] f k = refl
sign-under (c ∷ p) f [] = refl
sign-under (c ∷ p) f (x ∷ k) = ground (arith, sign-under p f k)

-- At most one child counts a key.
sign-below :
    (b : ℕ) (n : Tree) (es : Edges) (k : List ℕ)
    → FormedEdges (cons b n es)
    → sign (count n k + count_below es k) ≡ sign (count n k) + sign (count_below es k)
sign-below b n es [] f = ground (arith, count_empty b n f.0, count_below-nil es f.3)
sign-below b n es (x ∷ k) f = elim (Bool-cases (b == x)) [
  | inl hit ↦
      let same : x ≡ b = ground arith in rw same (ground (arith, count_below-Fresh b es k f.3 f.1))
  | inr miss ↦ ground (arith, count_other b x n k f.0)
]

sign-here :
    (r : ℕ) (es : Edges) (k : List ℕ)
    → FormedEdges es
    → sign (held_here r k + count_below es k)
      ≡ (if ltb 0 r then once [] k else 0) + sign (count_below es k)
sign-here r es [] f = ground (arith, count_below-nil es f)
sign-here r es (x ∷ k) f = ground arith

under-held :
    (r : ℕ) (p k : List ℕ)
    → under p (λ x. if ltb 0 r then once [] x else 0) k ≡ (if ltb 0 r then once p k else 0)
under-held r p k = elim (Bool-cases (ltb 0 r)) [
  | inl some_key ↦ rw (some_key, under_key p k) refl
  | inr no_key ↦ rw (no_key, under_zero p k) refl
]

mutual
  unfolding visit_keys visit_edges

  visit_keys-restores : (n : Tree) (v : Visited) → (visit_keys n v).0 ≡ v.0
  visit_keys-restores (node r p es) (b, c) =
      rw (visit_edges-restores es (push_each p b, if ltb 0 r then c ++ push_each p b ∷ [] else c))
        (pop_push p b)

  visit_edges-restores : (es : Edges) (v : Visited) → (visit_edges es v).0 ≡ v.0
  visit_edges-restores nil v = refl
  visit_edges-restores (cons b n es) v =
      visit_edges-restores es (visit_keys n v) ∙ visit_keys-restores n v

-- The keys at a node itself, and those of its edges.
sign-node :
    (r : ℕ) (p b : List ℕ) (es : Edges) (k : List ℕ)
    → FormedEdges es
    → under b (λ x. sign (under p (λ rest. held_here r rest + count_below es rest) x)) k
      ≡ (if ltb 0 r then once (b ++ p) k else 0) + under (b ++ p) (λ x. sign (count_below es x)) k
sign-node r p b es k f =
    under-same b _ _ (sign-under p (λ rest. held_here r rest + count_below es rest)) k
    ∙ sym (under-append b p (λ x. sign (held_here r x + count_below es x)) k)
    ∙ under-plus (b ++ p) (λ x. sign (held_here r x + count_below es x))
        (λ x. if ltb 0 r then once [] x else 0) (λ x. sign (count_below es x))
        (λ x. sign-here r es x f) k
    ∙ ap (λ z. z + under (b ++ p) (λ x. sign (count_below es x)) k) (under-held r (b ++ p) k)

sign-filled :
    (r : ℕ) (p b filled : List ℕ) (es : Edges) (k : List ℕ)
    → FormedEdges es
    → filled ≡ b ++ p
    → under b (λ x. sign (under p (λ rest. held_here r rest + count_below es rest) x)) k
      ≡ (if ltb 0 r then once filled k else 0) + under filled (λ x. sign (count_below es x)) k
sign-filled r p b filled es k f e =
    sign-node r p b es k f
    ∙ ap (λ z. (if ltb 0 r then once z k else 0) + under z (λ x. sign (count_below es x)) k) (sym e)

times-called :
    (r : ℕ) (k x : List ℕ) (c : List (List ℕ))
    → times k (if ltb 0 r then c ++ x ∷ [] else c) ≡ times k c + (if ltb 0 r then once x k else 0)
times-called r k x c = ground (arith, times-append k c (x ∷ []))

mutual
  unfolding visit_keys visit_edges count count_below

  visit_keys-times :
      (n : Tree) (v : Visited) (k : List ℕ)
      → Formed n
      → times k (visit_keys n v).1 ≡ times k v.1 + under v.0 (λ x. sign (count n x)) k
  visit_keys-times (node r p es) (b, c) k f =
      let filled = push_each p b in
      let c' = if ltb 0 r then c ++ filled ∷ [] else c in
      let below = visit_edges-times es (filled, c') k f in
      let here = sign-filled r p b filled es k f (push_each-append p b) in
      omega (arith, below, times-called r k filled c, here)

  visit_edges-times :
      (es : Edges) (v : Visited) (k : List ℕ)
      → FormedEdges es
      → times k (visit_edges es v).1 ≡ times k v.1 + under v.0 (λ x. sign (count_below es x)) k
  visit_edges-times nil v k f = omega (arith, under_zero v.0 k)
  visit_edges-times (cons b n es) v k f =
      let here = visit_keys-times n v k f.2 in
      let rest = visit_edges-times es (visit_keys n v) k f.3 in
      let all = rw (visit_keys-restores n v) at rest in
      let both =
        under-plus v.0 (λ x. sign (count n x + count_below es x)) (λ x. sign (count n x))
          (λ x. sign (count_below es x)) (λ x. sign-below b n es x f) k in
      omega (arith, here, all, both)

-- On a formed tree, `apply` calls its function with each key that the tree holds exactly once, and
-- with no other key.
pub apply-times :
    (tree : RadixTree) (k : List ℕ)
    → IsFormed tree.root
    → times k (apply tree) ≡ (if ltb 0 (count tree.root k) then 1 else 0)
unfolding apply
apply-times tree k formed = omega (arith, visit_keys-times tree.root ([], []) k formed.formed)
