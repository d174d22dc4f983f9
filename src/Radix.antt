-- ===== src/Radix.antt =====
-- Algorithm/radix-tree/radix_tree.hpp and radix_tree.cpp: a radix tree over byte strings.
-- A tree owns its nodes, each with one parent, so a `node` handle is the path of edge indexes that
-- leads to it from the root, the last edge first; the root's is empty. `node_at i` of the handle
-- `p` is `i ∷ p`, and a write through a handle rebuilds the tree along its path.
pub mod Match
pub mod Insert
pub mod Erase
pub mod Visit
pub mod Count
pub mod Focus
pub mod Shape
pub mod Short
pub mod Scan
pub mod Matched
pub mod Rounds
pub mod Search
pub mod Rebuild
pub mod Contains
pub mod Adds
pub mod Inserted
pub mod Insertion
pub mod Removal
pub mod Same
pub mod Erased
pub mod Erasure
pub mod Reported
pub mod Session
pub mod Answers
pub mod Block
pub mod Layout
pub mod Cells
pub mod Stored
pub mod Parted
pub mod Halves
pub mod Upper
pub mod Merged
pub mod Removed
pub mod Compact
pub mod Refine
use study_notes.Base.{ℕ, zero, suc, ◌+◌, Option, none, some, List, [], ◌∷◌, ◌++◌, length}

-- A node's refcount, its prefix, and its edges: the first byte of each child and the child. The
-- length of a prefix is kept in 32 bits; `insert` and `erase` are `none` where one would not fit.
mutual
  pub data Tree : Type 0 where
    node : ℕ → List ℕ → Edges → Tree

  pub data Edges : Type 0 where
    nil : Edges
    cons : ℕ → Tree → Edges → Edges

abbrev pub refcount : Tree → ℕ
refcount (node r p es) = r

abbrev pub prefix : Tree → List ℕ
prefix (node r p es) = p

abbrev pub edges : Tree → Edges
edges (node r p es) = es

abbrev pub prefix_length : Tree → ℕ
prefix_length t = length (prefix t)

abbrev pub count_edges : Edges → ℕ
count_edges nil = 0
count_edges (cons b n es) = suc (count_edges es)

abbrev pub edgecount : Tree → ℕ
edgecount t = count_edges (edges t)

-- The first byte and the child of edge `i`; out of range is the failed assertion.
abbrev pub edge_at : Edges → ℕ → Option (ℕ × Tree)
edge_at nil i = none
edge_at (cons b n es) zero = some (b, n)
edge_at (cons b n es) (suc i) = edge_at es i

abbrev pub set_edge : Edges → ℕ → ℕ → Tree → Edges
set_edge nil i byte m = nil
set_edge (cons b n es) zero byte m = cons byte m es
set_edge (cons b n es) (suc i) byte m = cons b n (set_edge es i byte m)

abbrev pub set_node : Edges → ℕ → Tree → Edges
set_node nil i m = nil
set_node (cons b n es) zero m = cons b m es
set_node (cons b n es) (suc i) m = cons b n (set_node es i m)

abbrev pub set_refcount : ℕ → Tree → Tree
set_refcount r (node _ p es) = node r p es

abbrev pub Handle : Type 0
Handle = List ℕ

abbrev child : ℕ → Option Tree → Option Tree
child i none = none
child i (some (node r p es)) = elim (edge_at es i) [ none ↦ none | some (b, n) ↦ some n ]

-- The node behind a handle.
abbrev pub at : Tree → Handle → Option Tree
at t [] = some t
at t (i ∷ p) = child i (at t p)

abbrev with_child : Option Tree → ℕ → Tree → Option Tree
with_child none i m = none
with_child (some (node r p es)) i m = some (node r p (set_node es i m))

abbrev or_same : Tree → Option Tree → (Tree → Tree) → Tree
or_same t none f = t
or_same t (some n) f = f n

-- The tree with the node behind a handle replaced.
abbrev pub put : Tree → Handle → Tree → Tree
put t [] m = m
put t (i ∷ p) m = or_same t (with_child (at t p) i m) (put t p)

-- `key` is the memory from the key's address on; its first `n` bytes from `i`.
abbrev pub bytes : (ℕ → ℕ) → ℕ → ℕ → List ℕ
bytes key i zero = []
bytes key i (suc n) = key i ∷ bytes key (i + 1) n

abbrev pub first_byte : List ℕ → ℕ
first_byte [] = 0
first_byte (b ∷ bs) = b

-- `radix_tree`: the root and the number of insertions that are not erased.
pub record RadixTree : Type 0 where
  pub root : Tree
  pub size : ℕ

abbrev pub empty : RadixTree
empty = record { root = node 0 [] nil; size = 0 }
