-- ===== src/Radix/Focus.antt =====
-- A handle leads to one subtree: replacing it changes the counts below its path alone.
use study_notes.Base.{ℕ, zero, suc, ◌+◌, ◌≡◌, refl, some, List, [], ◌∷◌, ◌++◌, arith}
use study_notes.Radix.{Tree, Edges, node, nil, cons, Handle, edge_at, set_node, child, at, put}
use study_notes.Radix.Count.{under, count, count_below, under-append, under-add}

-- The handle leads from the root of `t` to a subtree, over the bytes above that subtree.
pub data Locate (t : Tree) : Handle → Tree → List ℕ → Type 0 where
  here : Locate t [] t []
  below :
      {p : Handle} {i b r : ℕ} {q w : List ℕ} {es : Edges} {n : Tree}
      → Locate t p (node r q es) w
      → edge_at es i ≡ some (b, n)
      → Locate t (i ∷ p) n (w ++ q)

pub at-Locate : {t : Tree} {p : Handle} {n : Tree} {w : List ℕ} → Locate t p n w → at t p ≡ some n
at-Locate here = refl
at-Locate (below l e) = rw (at-Locate l, child, e)

count-set_node :
    (es : Edges) (i b : ℕ) (n m : Tree) (k : List ℕ)
    → edge_at es i ≡ some (b, n)
    → count_below (set_node es i m) k + count n k ≡ count_below es k + count m k
unfolding count count_below
count-set_node nil i b n m k e = ground arith
count-set_node (cons c a es) zero b n m k e = ground arith
count-set_node (cons c a es) (suc i) b n m k e = omega (arith, count-set_node es i b n m k e)

-- One level: a node with its child replaced.
count-child :
    (r : ℕ) (q : List ℕ) (es : Edges) (i b : ℕ) (n m : Tree)
    → edge_at es i ≡ some (b, n)
    → (k : List ℕ)
    → count (node r q (set_node es i m)) k + under q (count n) k
      ≡ count (node r q es) k + under q (count m) k
unfolding count
count-child r q es i b n m e =
    under-add q _ _ _ _ (λ k. omega (arith, count-set_node es i b n m k e))

pub put-count :
    {t : Tree} {p : Handle} {n : Tree} {w : List ℕ}
    → Locate t p n w
    → (m : Tree) (k : List ℕ)
    → count (put t p m) k + under w (count n) k ≡ count t k + under w (count m) k
put-count here m k = omega arith
put-count {t} {w = v} (below {p = p} {i = i} {b = b} {r = r} {q = q} {w = w} {es = es} {n = n} l e)
      m k =
    let m' : Tree = node r q (set_node es i m) in
    let step = under-add w _ _ _ _ (count-child r q es i b n m e) k in
    rw (at-Locate l, under-append, under-append) (omega (arith, put-count l m' k, step))
