-- ===== src/Radix/Short.antt =====
-- The bound on the prefixes of a radix tree: the bytes on the way to a node, its own prefix
-- included, are fewer than 2 ^ 32. Then every prefix length fits its 32 bits, also where two
-- prefixes of one path are joined.
use study_notes.Base.{ℕ, zero, suc, ◌+◌, ◌^◌, ◌<◌, ◌≡◌, some, List, length, length-append, arith}
use study_notes.Radix.{Tree, Edges, node, nil, cons, Handle, prefix_length, edge_at, set_node, put}
use study_notes.Radix.Insert.{append_edge}
use study_notes.Radix.Focus.{Locate, here, below, at-Locate}

-- A tree below a path of `d` bytes.
abbrev mutual
  pub Short : ℕ → Tree → Type 0
  Short d (node r p es) = (d + length p < 2 ^ 32) × ShortEdges (d + length p) es

  pub ShortEdges : ℕ → Edges → Type 0
  ShortEdges d nil = Unit
  ShortEdges d (cons b n es) = Short d n × ShortEdges d es

pub Short-prefix_length : (d : ℕ) (n : Tree) → Short d n → d + prefix_length n < 2 ^ 32
Short-prefix_length d (node r p es) s = s.0

Short-edge :
    (d : ℕ) (es : Edges) (i b : ℕ) (n : Tree)
    → ShortEdges d es
    → edge_at es i ≡ some (b, n)
    → Short d n
Short-edge d nil i b n s e = absurd (ground (arith, e))
Short-edge d (cons c m es) zero b n s e = let same : m ≡ n = cc in rw (← same) s.0
Short-edge d (cons c m es) (suc i) b n s e = Short-edge d es i b n s.1 e

Short-set_node :
    (d : ℕ) (es : Edges) (i : ℕ) (n : Tree)
    → ShortEdges d es
    → Short d n
    → ShortEdges d (set_node es i n)
Short-set_node d nil i n s t = tt
Short-set_node d (cons c m es) zero n s t = (t, s.1)
Short-set_node d (cons c m es) (suc i) n s t = (s.0, Short-set_node d es i n s.1 t)

pub Short-append_edge :
    (d : ℕ) (es : Edges) (b : ℕ) (n : Tree)
    → ShortEdges d es
    → Short d n
    → ShortEdges d (append_edge es b n)
Short-append_edge d nil b n s t = (t, tt)
Short-append_edge d (cons c m es) b n s t = (s.0, Short-append_edge d es b n s.1 t)

pub Short-at :
    {t : Tree} {h : Handle} {n : Tree} {w : List ℕ}
    → Locate t h n w
    → Short 0 t
    → Short (length w) n
Short-at here s = s
Short-at (below {i = i} {b = b} {q = q} {w = w} {es = es} {n = n} l e) s =
    rw (length-append w q) (Short-edge (length w + length q) es i b n (Short-at l s).1 e)

pub Short-put :
    {t : Tree} {h : Handle} {n : Tree} {w : List ℕ}
    → Locate t h n w
    → (n' : Tree) → Short 0 t
    → Short (length w) n'
    → Short 0 (put t h n')
Short-put here n' s u = u
Short-put (below {p = p} {i = i} {b = b} {r = r} {q = q} {w = w} {es = es} {n = n} l e) n' s u =
    let up = Short-at l s in
    rw (at-Locate l) (
      Short-put l (node r q (set_node es i n')) s
        (up.0, Short-set_node (length w + length q) es i n' up.1 (rw (length-append w q) at u)))
