-- ===== src/Radix/Removal.antt =====
-- Taking an edge away: the last edge is moved over it. And the two merges.
use study_notes.Base.{
  ℕ, zero, suc, ◌+◌, ◌-◌, ◌<◌, ◌≡◌, ◌≢◌, refl, sym, some, List, [], ◌∷◌, ◌++◌, length,
  length-append, arith,
}
use study_notes.Radix.{
  Tree, Edges, node, nil, cons, count_edges, edge_at, set_edge, prefix, first_byte, prefix_length,
}
use study_notes.Radix.Erase.{drop_last, remove_edge, merge}
use study_notes.Radix.Count.{under, held_here, count, count_below, under-append}
use study_notes.Radix.Short.{Short, ShortEdges}
use study_notes.Radix.Shape.{Starts, Fresh, Formed, FormedEdges, Avoids, AvoidsEdges, AvoidsBytes}

last : ℕ → Tree → Edges → ℕ × Tree
last b n nil = (b, n)
last b n (cons c m es) = last c m es

edge_at-last :
    (b : ℕ) (n : Tree) (es : Edges)
    → edge_at (cons b n es) (count_edges (cons b n es) - 1) ≡ some (last b n es)
unfolding last
edge_at-last b n nil = let e : 1 - 1 ≡ zero = omega arith in refl
edge_at-last b n (cons c m es) =
    let e : suc (suc (count_edges es)) - 1 ≡ suc (suc (count_edges es) - 1) = omega arith in
    rw e (edge_at-last c m es)

-- What `drop_last` leaves, and the edge that it takes.
record Dropped (b : ℕ) (n : Tree) (es : Edges) : Type 0 where
  counts :
      (k : List ℕ)
      → count_below (drop_last (cons b n es)) k + count (last b n es).1 k
        ≡ count n k + count_below es k
  formed : FormedEdges (drop_last (cons b n es))
  starts : Starts (last b n es).0 (last b n es).1
  formed_last : Formed (last b n es).1
  fresh : Fresh (last b n es).0 (drop_last (cons b n es))
  fresh_all :
      (c : ℕ) → Fresh c (cons b n es) → Fresh c (drop_last (cons b n es)) × ((last b n es).0 ≢ c)

Dropped-edges : (b : ℕ) (n : Tree) (es : Edges) → FormedEdges (cons b n es) → Dropped b n es
unfolding last count_below
Dropped-edges b n nil f = record {
  counts = λ k. omega arith;
  formed = tt;
  starts = f.0;
  formed_last = f.2;
  fresh = tt;
  fresh_all = λ c g. (tt, g.0);
}
Dropped-edges b n (cons c m es) f =
    let d = Dropped-edges c m es f.3 in
    record {
      counts = λ k. omega (arith, d.counts k);
      formed = (f.0, (d.fresh_all b f.1).0, f.2, d.formed);
      starts = d.starts;
      formed_last = d.formed_last;
      fresh = ((λ e. (d.fresh_all b f.1).1 (sym e)), d.fresh);
      fresh_all = λ x g. ((g.0, (d.fresh_all x g.1).0), (d.fresh_all x g.1).1);
    }

Avoids-last :
    (z b : ℕ) (n : Tree) (es : Edges)
    → Avoids z n
    → AvoidsEdges z es
    → AvoidsEdges z (drop_last (cons b n es)) × Avoids z (last b n es).1
unfolding last
Avoids-last z b n nil a e = (tt, a)
Avoids-last z b n (cons c m es) a e =
    let rest = Avoids-last z c m es e.0 e.1 in ((a, rest.0), rest.1)

Short-last :
    (d b : ℕ) (n : Tree) (es : Edges)
    → Short d n
    → ShortEdges d es
    → ShortEdges d (drop_last (cons b n es)) × Short d (last b n es).1
unfolding last
Short-last d b n nil s e = (tt, s)
Short-last d b n (cons c m es) s e = let rest = Short-last d c m es e.0 e.1 in ((s, rest.0), rest.1)

-- The edges without edge `i`, which leads to `n`.
pub record Removed (es : Edges) (n : Tree) (es' : Edges) : Type 0 where
  pub counts : (k : List ℕ) → count_below es' k + count n k ≡ count_below es k
  pub formed : FormedEdges es'
  pub fresh : (c : ℕ) → Fresh c es → Fresh c es'
  pub avoids : (z : ℕ) → AvoidsEdges z es → AvoidsEdges z es'
  pub short : (d : ℕ) → ShortEdges d es → ShortEdges d es'

Removed-cons :
    (b : ℕ) (m n : Tree) (es es' : Edges)
    → FormedEdges (cons b m es)
    → Removed es n es'
    → Removed (cons b m es) n (cons b m es')
unfolding count_below
Removed-cons b m n es es' f r = record {
  counts = λ k. omega (arith, r.counts k);
  formed = (f.0, r.fresh b f.1, f.2, r.formed);
  fresh = λ c g. (g.0, r.fresh c g.1);
  avoids = λ z a. (a.0, r.avoids z a.1);
  short = λ d a. (a.0, r.short d a.1);
}

removed :
    (b : ℕ) (m : Tree) (es : Edges) (i c : ℕ) (n : Tree)
    → FormedEdges (cons b m es)
    → edge_at (cons b m es) i ≡ some (c, n)
    → Removed (cons b m es) n (drop_last (set_edge (cons b m es) i (last b m es).0 (last b m es).1))
unfolding last count_below
removed b m nil zero c n f e =
    let same : m ≡ n = cc in
    record {
      counts = λ k. rw same (omega arith);
      formed = tt;
      fresh = λ a g. tt;
      avoids = λ z a. tt;
      short = λ d a. tt;
    }
removed b m nil (suc i) c n f e = absurd (ground (arith, e))
removed b m (cons b' m' es) zero c n f e =
    let same : n ≡ m = cc in
    let d = Dropped-edges b' m' es f.3 in
    record {
      counts = λ k. rw same (omega (arith, d.counts k));
      formed = (d.starts, d.fresh, d.formed_last, d.formed);
      fresh = λ a g. let rest = d.fresh_all a g.1 in (rest.1, rest.0);
      avoids = λ z a. let rest = Avoids-last z b' m' es a.1.0 a.1.1 in (rest.1, rest.0);
      short = λ k a. let rest = Short-last k b' m' es a.1.0 a.1.1 in (rest.1, rest.0);
    }
removed b m (cons b' m' es) (suc zero) c n f e =
    Removed-cons b m n (cons b' m' es) _ f (removed b' m' es 0 c n f.3 e)
removed b m (cons b' m' es) (suc (suc i)) c n f e =
    Removed-cons b m n (cons b' m' es) _ f (removed b' m' es (suc i) c n f.3 e)

pub remove_edge-Removed :
    (es : Edges) (i c : ℕ) (n : Tree)
    → FormedEdges es
    → edge_at es i ≡ some (c, n)
    → (es' : Edges) × (remove_edge es i ≡ some es') × Removed es n es'
unfolding remove_edge
remove_edge-Removed nil i c n f e = absurd (ground (arith, e))
remove_edge-Removed (cons b m es) i c n f e = (
  drop_last (set_edge (cons b m es) i (last b m es).0 (last b m es).1),
  ground (arith, edge_at-last b m es),
  removed b m es i c n f e,
)

pub under-same :
    (p : List ℕ) (f g : List ℕ → ℕ)
    → ((k : List ℕ) → f k ≡ g k)
    → (k : List ℕ) → under p f k ≡ under p g k
under-same [] f g e k = e k
under-same (c ∷ p) f g e [] = refl
under-same (c ∷ p) f g e (x ∷ k) = ground (arith, under-same p f g e k)

none_here : (k : List ℕ) → held_here 0 k ≡ 0
none_here [] = refl
none_here (x ∷ k) = refl

-- A node that holds nothing and whose edges count as one child is that child, moved down.
pub merge-count :
    (p : List ℕ) (es : Edges) (m : Tree)
    → ((k : List ℕ) → count_below es k ≡ count m k)
    → (k : List ℕ) → count (merge (node 0 p es) m) k ≡ count (node 0 p es) k
unfolding count
merge-count p es (node r q fs) h k =
    rw under-append (under-same p _ _ (λ x. omega (arith, h x, none_here x)) k)

AvoidsBytes-append :
    (z : ℕ) (p q : List ℕ) → AvoidsBytes z p → AvoidsBytes z q → AvoidsBytes z (p ++ q)
AvoidsBytes-append z [] q a b = b
AvoidsBytes-append z (c ∷ p) q a b = (a.0, AvoidsBytes-append z p q a.1 b)

pub Avoids-merge :
    (z : ℕ) (n m : Tree) → AvoidsBytes z (prefix n) → Avoids z m → Avoids z (merge n m)
Avoids-merge z n (node r q fs) a b = (AvoidsBytes-append z (prefix n) q a b.0, b.1)

pub Short-merge : (d : ℕ) (n m : Tree) → Short (d + prefix_length n) m → Short d (merge n m)
Short-merge d n (node r q fs) s =
    let e : d + length (prefix n ++ q) ≡ d + length (prefix n) + length q =
      omega (arith, length-append (prefix n) q) in
    rw e s

pub Formed-merge : (n m : Tree) → Formed m → Formed (merge n m)
Formed-merge n (node r q fs) f = f

pub Starts-merge :
    (n m : Tree)
    → 0 < prefix_length n
    → (0 < prefix_length (merge n m)) × (first_byte (prefix (merge n m)) ≡ first_byte (prefix n))
Starts-merge (node r [] es) m h = absurd (omega arith)
Starts-merge (node r (c ∷ p) es) m h = (omega arith, refl)
