-- ===== src/Radix/Refine.antt =====
-- The blocks of the nodes that `insert` and `erase` make: the trees say what the bytes are.
use study_notes.Base.{
  ℕ, suc, ◌+◌, ◌*◌, ◌≤◌, ◌<◌, ◌≡◌, refl, sym, ap, ◌∙◌, some, List, [], ◌∷◌, ◌++◌, arith, length,
  take,
}
use study_notes.Radix.{
  Tree, Edges, node, nil, cons, refcount, prefix, prefix_length, edgecount, count_edges,
}
use study_notes.Radix.Insert.{append_edge, split_node}
use study_notes.Radix.Erase.{merge}
use study_notes.Radix.Block.{Block, add_edge, split_off, fork, raise, absorb}
use study_notes.Radix.Layout.{two_32}
use study_notes.Radix.Stored.{stored, Gives, add_edge-stored}
use study_notes.Radix.Halves.{split_off-stored}
use study_notes.Radix.Upper.{fork-stored, raise-stored}
use study_notes.Radix.Merged.{absorb-stored}

-- The first bytes of the edges.
abbrev pub firsts : Edges → List ℕ
firsts nil = []
firsts (cons b n es) = b ∷ firsts es

-- The block of a node, with the bytes of the pointers to its children.
abbrev pub block : Tree → List ℕ → Block
block (node r p es) ptrs = stored r p (firsts es) ptrs

-- The numbers fit their fields, and there are eight bytes of pointers for each edge.
pub record Fits (t : Tree) (ptrs : List ℕ) : Type 0 where
  pub keys : refcount t < two_32
  pub prefix_size : prefix_length t < two_32
  pub edge_count : edgecount t < two_32
  pub pointers : length ptrs ≡ edgecount t * 8

length-firsts : (es : Edges) → length (firsts es) ≡ count_edges es
length-firsts nil = refl
length-firsts (cons b n es) = ap suc (length-firsts es)

firsts-append_edge :
    (es : Edges) (b : ℕ) (m : Tree) → firsts (append_edge es b m) ≡ firsts es ++ b ∷ []
firsts-append_edge nil b m = refl
firsts-append_edge (cons c n es) b m = ap (λ l. c ∷ l) (firsts-append_edge es b m)

-- Where memory is given, the numbers of a node fit their fields with one more edge, and pointers
-- have eight bytes: insert makes, from the block of the node, that of the node with the new edge.
pub add_edge-append_edge :
    (fresh : ℕ → List ℕ) (r : ℕ) (p : List ℕ) (es : Edges) (ptrs : List ℕ) (b : ℕ) (m : Tree)
    (n : List ℕ)
    → Gives fresh
    → Fits (node r p es) ptrs
    → count_edges es + 1 < two_32
    → length n ≡ 8
    → add_edge fresh (block (node r p es) ptrs) b n
      ≡ some (block (node r p (append_edge es b m)) (ptrs ++ n))
add_edge-append_edge fresh r p es ptrs b m n g fits more hn =
    let e = length-firsts es in
    add_edge-stored fresh r p (firsts es) ptrs b n g fits.prefix_size (omega (arith, e, more))
      (omega (arith, e, fits.pointers)) hn
    ∙ ap (λ l. some (stored r p l (ptrs ++ n))) (sym (firsts-append_edge es b m))

-- Where memory is given, the numbers of a node fit their fields, and pointers have eight bytes, for
-- a place in its prefix: the block that insert splits off is that of the lower half of the node,
-- and what it leaves in place is the block of the upper half, with the two halves as its edges
-- and no key, or, where the key ends there, with the lower half as its edge and one key.
pub split_off-split_node :
    (fresh : ℕ → List ℕ) (t : Tree) (ptrs : List ℕ) (j : ℕ) (a b : ℕ) (k l : Tree) (m n : List ℕ)
    → Gives fresh
    → Fits t ptrs
    → j ≤ prefix_length t
    → length m ≡ 8
    → length n ≡ 8
    → (split_off fresh (block t ptrs) j ≡ some (block (split_node t j) ptrs))
      × (fork fresh (block t ptrs) j a m b n
          ≡ some (block (node 0 (take j (prefix t)) (cons a k (cons b l nil))) (m ++ n)))
      × (raise fresh (block t ptrs) j a m
          ≡ some (block (node 1 (take j (prefix t)) (cons a k nil)) m))
split_off-split_node fresh (node r p es) ptrs j a b k l m n g fits hj hm hn =
    let e = length-firsts es in
    (
      split_off-stored fresh r j p (firsts es) ptrs g fits.keys fits.prefix_size
          (omega (arith, e, fits.edge_count)) (omega (arith, e, fits.pointers)) hj,
      fork-stored fresh r j p (firsts es) ptrs m n a b g fits.prefix_size hj hm hn,
      raise-stored fresh r j p (firsts es) ptrs m a g fits.prefix_size hj hm,
    )

-- Where memory is given, the numbers of the child fit their fields, and both prefixes together are
-- shorter than 2 ^ 32: what erase makes of the block of a node with one child is the block of the
-- two nodes merged.
pub absorb-merge :
    (fresh : ℕ → List ℕ) (t c : Tree) (ptrs others : List ℕ)
    → Gives fresh
    → Fits c others
    → prefix_length t + prefix_length c < two_32
    → absorb fresh (block t ptrs) (block c others) ≡ some (block (merge t c) others)
absorb-merge fresh (node r p es) (node s xs fs) ptrs others g fits h =
    let e = length-firsts fs in
    absorb-stored fresh r s p (firsts es) ptrs xs (firsts fs) others g fits.keys h
      (omega (arith, e, fits.edge_count)) (omega (arith, e, fits.pointers))
