-- ===== src/Radix/Same.antt =====
-- Rebuilding a tree without changing what it counts.
use study_notes.Base.{
  ℕ, zero, suc, ◌+◌, ◌≡◌, refl, ap, ◌∙◌, Option, some, List, [], ◌∷◌, length, arith, ◌==◌,
  if◌then◌else◌,
}
use study_notes.Radix.{
  Tree, Edges, node, nil, cons, Handle, count_edges, prefix, prefix_length, edge_at, set_node, put,
}
use study_notes.Radix.Erase.{is_root}
use study_notes.Radix.Count.{count, count_below}
use study_notes.Radix.Focus.{Locate, here, below, at-Locate, put-count}
use study_notes.Radix.Short.{Short, ShortEdges, Short-at, Short-put}
use study_notes.Radix.Shape.{Formed, FormedEdges, IsFormed, Avoids, AvoidsEdges}
use study_notes.Radix.Rebuild.{
  Fits, Formed-edge, Formed-at, Formed-put, prefix-put, Avoids-at, Avoids-put,
}
use study_notes.Radix.Removal.{under-same}

edge_at-set_node :
    (es : Edges) (i b : ℕ) (n n' : Tree)
    → edge_at es i ≡ some (b, n)
    → edge_at (set_node es i n') i ≡ some (b, n')
edge_at-set_node nil i b n n' e = absurd (ground (arith, e))
edge_at-set_node (cons c m es) zero b n n' e = let same : c ≡ b = cc in rw same
edge_at-set_node (cons c m es) (suc i) b n n' e = edge_at-set_node es i b n n' e

-- The handle still leads to the node that was put there.
pub Locate-put :
    {t : Tree} {h : Handle} {n : Tree} {w : List ℕ}
    → Locate t h n w
    → (n' : Tree) → Locate (put t h n') h n' w
Locate-put here n' = here
Locate-put (below {p = p} {i = i} {b = b} {r = r} {q = q} {es = es} {n = n} l e) n' =
    rw (at-Locate l)
      (below (Locate-put l (node r q (set_node es i n'))) (edge_at-set_node es i b n n' e))

-- A tree with the same counts that is formed, has no new bytes, and no longer paths than fit.
pub record Same (t t' : Tree) : Type 0 where
  pub counts : (k : List ℕ) → count t' k ≡ count t k
  pub is_formed : IsFormed t → IsFormed t'
  pub avoids : (z : ℕ) → Avoids z t → Avoids z t'
  pub short : Short 0 t → Short 0 t'

pub Same-put :
    {t : Tree} {h : Handle} {n : Tree} {w : List ℕ}
    → Locate t h n w
    → (n' : Tree) → ((k : List ℕ) → count n' k ≡ count n k)
    → (Formed n → Formed n')
    → Fits n n'
    → (h ≡ [] → prefix n' ≡ prefix n)
    → ((z : ℕ) → Avoids z n → Avoids z n')
    → (Short (length w) n → Short (length w) n')
    → Same t (put t h n')
Same-put {n} {w} l n' c f g h a u = record {
  counts = λ k. omega (arith, put-count l n' k, under-same w (count n') (count n) c k);
  is_formed = λ i. record {
    root_prefix = prefix-put l n' h ∙ i.root_prefix;
    formed = Formed-put l n' i.formed (f (Formed-at l i.formed)) g;
  };
  avoids = λ z b. Avoids-put z l n' b (a z (Avoids-at z l b));
  short = λ b. Short-put l n' b (u (Short-at l b));
}

abbrev pub Rebuilds : Tree → Option Tree → Type 0
Rebuilds t o = (t' : Tree) × (o ≡ some t') × Same t t'

pub record ParentOf (t : Tree) (i : ℕ) (h : Handle) (n : Tree) : Type 0 where
  pub r : ℕ
  pub q : List ℕ
  pub es : Edges
  pub w : List ℕ
  pub b : ℕ
  pub located : Locate t h (node r q es) w
  pub edge : edge_at es i ≡ some (b, n)

pub parent_of :
    {t : Tree} {i : ℕ} {h : Handle} {n : Tree} {w : List ℕ}
    → Locate t (i ∷ h) n w
    → ParentOf t i h n
parent_of (below {b = b} {r = r} {q = q} {w = w} {es = es} l e) = record {
  r = r;
  q = q;
  es = es;
  w = w;
  b = b;
  located = l;
  edge = e;
}

-- A node is below an edge exactly when its prefix is not empty.
pub prefix_below :
    {t : Tree} {h : Handle} {n : Tree} {w : List ℕ}
    → Locate t h n w
    → IsFormed t
    → (prefix_length n == 0) ≡ is_root h
prefix_below here f = ground (arith, ap length f.root_prefix)
prefix_below (below {i = i} {b = b} {es = es} {n = n} l e) f =
    ground (arith, (Formed-edge es i b n (Formed-at l f.formed) e).0.0)

pub count_hollow : (p k : List ℕ) → count (node 0 p nil) k ≡ 0
unfolding count
count_hollow [] [] = refl
count_hollow [] (x ∷ k) = refl
count_hollow (c ∷ p) [] = refl
count_hollow (c ∷ p) (x ∷ k) = ground (arith, count_hollow p k)

-- The other child of a node with two edges.
pub other_edge :
    (es : Edges) (i b : ℕ) (n : Tree)
    → count_edges es ≡ 2
    → edge_at es i ≡ some (b, n)
    → (c : ℕ) × (m : Tree) × (edge_at es (if i == 0 then 1 else 0) ≡ some (c, m))
      × ((k : List ℕ) → count_below es k ≡ count m k + count n k)
      × (FormedEdges es → Formed m)
      × ((z : ℕ) → AvoidsEdges z es → Avoids z m)
      × ((d : ℕ) → ShortEdges d es → Short d m)
unfolding count_below
other_edge nil i b n h e = absurd (omega arith)
other_edge (cons b1 n1 nil) i b n h e = absurd (omega arith)
other_edge (cons b1 n1 (cons b2 n2 (cons b3 n3 es))) i b n h e = absurd (omega arith)
other_edge (cons b1 n1 (cons b2 n2 nil)) zero b n h e =
    let same : n ≡ n1 = cc in
    (b2, n2, refl, (λ k. rw same (omega arith)), (λ f. f.3.2), (λ z a. a.1.0), λ d s. s.1.0)
other_edge (cons b1 n1 (cons b2 n2 nil)) (suc zero) b n h e =
    let same : n ≡ n2 = cc in
    (b1, n1, refl, (λ k. rw same (omega arith)), (λ f. f.2), (λ z a. a.0), λ d s. s.0)
other_edge (cons b1 n1 (cons b2 n2 nil)) (suc (suc i)) b n h e = absurd (ground (arith, e))
