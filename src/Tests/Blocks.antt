-- ===== src/Tests/Blocks.antt =====
-- Runs on the blocks of the radix tree's nodes.
use study_notes.Base.{ℕ, zero, suc, ◌≡◌, refl, some, List, [], ◌∷◌, ◌++◌, arith}
use study_notes.Radix.{Tree, nil, cons, node}
use study_notes.Radix.Insert.{append_edge, split_node}
use study_notes.Radix.Erase.{merge}
use study_notes.Radix.Block.{
  make_node, put_refcount, put_prefix_length, put_edgecount, put_bytes, add_edge, split_off, fork,
  raise, absorb, remove_at,
}
use study_notes.Radix.Stored.{stored, Gives}
use study_notes.Radix.Compact.{remove_at-middle}
use study_notes.Radix.Refine.{Fits, block, add_edge-append_edge, split_off-split_node, absorb-merge}

-- Memory that holds nothing but ones.
abbrev ones : ℕ → List ℕ
ones zero = []
ones (suc n) = 1 ∷ ones n

ones-Gives : Gives ones
ones-Gives zero = refl
ones-Gives (suc n) = omega (arith, ones-Gives n)

runs_make_node :
    make_node ones 300 1 0 ≡ some (44 ∷ 1 ∷ 0 ∷ 0 ∷ 1 ∷ 0 ∷ 0 ∷ 0 ∷ 0 ∷ 0 ∷ 0 ∷ 0 ∷ 1 ∷ [])
unfolding make_node put_refcount put_prefix_length put_edgecount put_bytes
runs_make_node = refl

-- A leaf, and a node with the prefix "ab" and one edge "c" to it.
abbrev leaf : Tree
leaf = node 1 (99 ∷ []) nil

abbrev stem : Tree
stem = node 2 (97 ∷ 98 ∷ []) (cons 99 leaf nil)

abbrev pointer : ℕ → List ℕ
pointer a = a ∷ 0 ∷ 0 ∷ 0 ∷ 0 ∷ 0 ∷ 0 ∷ 0 ∷ []

stem-Fits : (a : ℕ) → Fits stem (pointer a)
stem-Fits a = record {
  keys = omega arith;
  prefix_size = omega arith;
  edge_count = omega arith;
  pointers = refl;
}

add_edge-append_edge_example :
    add_edge ones (block stem (pointer 8)) 100 (pointer 16)
    ≡ some (
        block
          (node 2 (97 ∷ 98 ∷ []) (append_edge (cons 99 leaf nil) 100 leaf))
          (pointer 8 ++ pointer 16))
add_edge-append_edge_example =
    add_edge-append_edge ones 2 (97 ∷ 98 ∷ []) (cons 99 leaf nil) (pointer 8) 100 leaf (pointer 16)
      ones-Gives (stem-Fits 8) (omega arith) refl

split_off-split_node_example :
    (split_off ones (block stem (pointer 8)) 1 ≡ some (block (split_node stem 1) (pointer 8)))
    × (fork ones (block stem (pointer 8)) 1 100 (pointer 16) 98 (pointer 24)
        ≡ some (
            block (node 0 (97 ∷ []) (cons 100 leaf (cons 98 leaf nil))) (pointer 16 ++ pointer 24)))
    × (raise ones (block stem (pointer 8)) 1 100 (pointer 16)
        ≡ some (block (node 1 (97 ∷ []) (cons 100 leaf nil)) (pointer 16)))
split_off-split_node_example =
    split_off-split_node ones stem (pointer 8) 1 100 98 leaf leaf (pointer 16) (pointer 24)
      ones-Gives (stem-Fits 8) (omega arith) refl refl

absorb-merge_example :
    absorb ones (block stem (pointer 8)) (block stem (pointer 16))
    ≡ some (block (merge stem stem) (pointer 16))
absorb-merge_example =
    absorb-merge ones stem stem (pointer 8) (pointer 16) ones-Gives (stem-Fits 16) (omega arith)

-- Of three edges, the first one goes.
remove_at-middle_example :
    remove_at ones (stored 1 [] (97 ∷ 98 ∷ 99 ∷ []) ((pointer 8 ++ pointer 16) ++ pointer 24)) 0
    ≡ some (stored 1 [] (99 ∷ 98 ∷ []) (pointer 24 ++ pointer 16))
remove_at-middle_example =
    remove_at-middle ones 1 [] [] (98 ∷ []) [] (pointer 8) (pointer 16) (pointer 24) 97 99
      ones-Gives (omega arith) (omega arith) refl refl refl refl
