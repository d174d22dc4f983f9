-- ===== src/Radix/Shape.antt =====
-- The shape of a radix tree: each edge carries the first byte of its child's prefix, and the edges
-- of a node carry different bytes. Then one edge at most leads on with a given byte.
use study_notes.Base.{
  ℕ, zero, suc, ◌+◌, ◌<◌, ◌≡◌, ◌≢◌, refl, none, some, inl, inr, Bool-cases, List, [], ◌∷◌, arith,
  ◌==◌,
}
use study_notes.Radix.{Tree, Edges, node, nil, cons, prefix, prefix_length, first_byte, edge_at}
use study_notes.Radix.Match.{find_edge}
use study_notes.Radix.Count.{count, count_below}

abbrev pub Starts : ℕ → Tree → Type 0
Starts b n = (0 < prefix_length n) × (first_byte (prefix n) ≡ b)

abbrev pub Fresh : ℕ → Edges → Type 0
Fresh b nil = Unit
Fresh b (cons c n es) = (c ≢ b) × Fresh b es

abbrev mutual
  pub Formed : Tree → Type 0
  Formed (node r p es) = FormedEdges es

  pub FormedEdges : Edges → Type 0
  FormedEdges nil = Unit
  FormedEdges (cons b n es) = Starts b n × Fresh b es × Formed n × FormedEdges es

-- The root's prefix is empty.
pub record IsFormed (t : Tree) : Type 0 where
  pub root_prefix : prefix t ≡ []
  pub formed : Formed t

-- No byte of the tree is `z`.
abbrev pub AvoidsBytes : ℕ → List ℕ → Type 0
AvoidsBytes z [] = Unit
AvoidsBytes z (c ∷ p) = (c ≢ z) × AvoidsBytes z p

abbrev mutual
  pub Avoids : ℕ → Tree → Type 0
  Avoids z (node r p es) = AvoidsBytes z p × AvoidsEdges z es

  pub AvoidsEdges : ℕ → Edges → Type 0
  AvoidsEdges z nil = Unit
  AvoidsEdges z (cons b n es) = Avoids z n × AvoidsEdges z es

-- A subtree counts no key that starts with another byte, nor the empty one.
pub count_other : (b c : ℕ) (n : Tree) (k : List ℕ) → Starts b n → b ≢ c → count n (c ∷ k) ≡ 0
unfolding count
count_other b c (node r [] es) k s d = absurd (omega (arith, s.0))
count_other b c (node r (x ∷ p) es) k s d = ground arith

pub count_empty : (b : ℕ) (n : Tree) → Starts b n → count n [] ≡ 0
unfolding count
count_empty b (node r [] es) s = absurd (omega (arith, s.0))
count_empty b (node r (x ∷ p) es) s = refl

pub count_below-Fresh :
    (b : ℕ) (es : Edges) (k : List ℕ) → FormedEdges es → Fresh b es → count_below es (b ∷ k) ≡ 0
unfolding count_below
count_below-Fresh b nil k f d = refl
count_below-Fresh b (cons c n es) k f d =
    omega (arith, count_other c b n k f.0 d.0, count_below-Fresh b es k f.3 d.1)

pub count_below-nil : (es : Edges) → FormedEdges es → count_below es [] ≡ 0
unfolding count_below
count_below-nil nil f = refl
count_below-nil (cons c n es) f = omega (arith, count_empty c n f.0, count_below-nil es f.3)

pub find_edge-none : (es : Edges) (b j : ℕ) → find_edge es b j ≡ none → Fresh b es
unfolding find_edge
find_edge-none nil b j e = tt
find_edge-none (cons c n es) b j e = (ground arith, find_edge-none es b (j + 1) (ground arith))

-- The edge that is found, and the child that it leads to.
pub record Found (es : Edges) (b i : ℕ) (n : Tree) : Type 0 where
  pub there : edge_at es i ≡ some (b, n)
  pub starts : Starts b n
  pub formed : Formed n
  pub only : (k : List ℕ) → count_below es (b ∷ k) ≡ count n (b ∷ k)

Found-cons :
    (b i : ℕ) (c : ℕ) (m n : Tree) (es : Edges)
    → c ≢ b
    → Starts c m
    → Found es b i n
    → Found (cons c m es) b (suc i) n
unfolding count_below
Found-cons b i c m n es d s f = record {
  there = f.there;
  starts = f.starts;
  formed = f.formed;
  only = λ k. omega (arith, count_other c b m k s d, f.only k);
}

pub find_edge-Found :
    (es : Edges) (b j k : ℕ)
    → FormedEdges es
    → find_edge es b j ≡ some k
    → (i : ℕ) × (n : Tree) × (k ≡ j + i) × Found es b i n
unfolding find_edge count_below
find_edge-Found nil b j k f e = absurd (ground (arith, e))
find_edge-Found (cons c n es) b j k f e = elim (Bool-cases (c == b)) [
  | inl hit ↦
      let same : c ≡ b = ground arith in
      let fresh : Fresh b es = rw same at f.1 in
      (
        0,
        n,
        ground arith,
        record {
          there = rw same;
          starts = (f.0.0, omega arith);
          formed = f.2;
          only = λ x. omega (arith, count_below-Fresh b es x f.3 fresh);
        },
      )
  | inr miss ↦
      let (i, m, e', found) = find_edge-Found es b (j + 1) k f.3 (ground arith) in
      (suc i, m, omega arith, Found-cons b i c n m es (ground arith) f.0 found)
]

pub find_edge_first :
    (es : Edges) (b k : ℕ)
    → FormedEdges es
    → find_edge es b 0 ≡ some k
    → (n : Tree) × Found es b k n
find_edge_first es b k f e =
    let (i, n, at_i, found) = find_edge-Found es b 0 k f e in
    let same : k ≡ i = omega arith in (n, rw same found)

pub Avoids-edge :
    (z : ℕ) (es : Edges) (i b : ℕ) (n : Tree)
    → AvoidsEdges z es
    → edge_at es i ≡ some (b, n)
    → Avoids z n
Avoids-edge z nil i b n a e = absurd (ground (arith, e))
Avoids-edge z (cons c m es) zero b n a e = let same : m ≡ n = cc in rw (← same) a.0
Avoids-edge z (cons c m es) (suc i) b n a e = Avoids-edge z es i b n a.1 e
