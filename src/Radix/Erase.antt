-- ===== src/Radix/Erase.antt =====
-- `radix_tree::erase`.
use study_notes.Base.{
  ℕ, ◌+◌, ◌-◌, ◌%◌, ◌^◌, Bool, true, false, not, ◌&&◌, ◌||◌, Option, none, some, [], ◌∷◌, ◌++◌, ltb,
  ◌==◌, if◌then◌else◌,
}
use study_notes.Radix.{
  count_edges, Tree, Edges, node, nil, cons, Handle, RadixTree, refcount, prefix, edges,
  prefix_length, edgecount, at, put, set_refcount, edge_at, set_edge,
}
use study_notes.Radix.Match.{MatchResult, match}

-- `n == root_`, and `parent_node == current_node` for the node of a match: at the root alone.
abbrev pub is_root : Handle → Bool
is_root [] = true
is_root (i ∷ p) = false

-- A node with the data of its only remaining child, behind both prefixes.
abbrev pub merge : Tree → Tree → Tree
merge n m = node (refcount m) (prefix n ++ prefix m) (edges m)

-- The `memmove` over the last first byte, and the `resize` that gives up the last pointer.
abbrev pub drop_last : Edges → Edges
drop_last nil = nil
drop_last (cons b n nil) = nil
drop_last (cons b n (cons c m es)) = cons b n (drop_last (cons c m es))

-- The last edge is written over edge `i`, and the last place is given up.
unfoldable pub remove_edge : Edges → ℕ → Option Edges
remove_edge es i = elim (edge_at es (count_edges es - 1)) [
  | none ↦ none
  | some (b, n) ↦ some (drop_last (set_edge es i b n))
]

-- `parent_node` becomes the root's data, or the child of the grandparent's edge.
abbrev pub relink_parent : Tree → MatchResult → Tree → Tree
relink_parent t r m =
    if prefix_length m == 0 then put t [] m else put t (r.gp_edge_index ∷ r.grandparent_node) m

-- No edges are left at the node, whose parent is `m`. `none` is a merge whose prefix length does not
-- fit its 32 bits: the sum wraps, and the prefixes are written outside the block.
unfoldable pub erase_leaf : Tree → MatchResult → Tree → Option Tree
erase_leaf t r m =
    if edgecount m == 2 && refcount m == 0 && not (is_root r.parent_node)
    then elim (edge_at (edges m) (if r.edge_index == 0 then 1 else 0)) [
      | none ↦ none
      | some (b, other) ↦
          if ltb (prefix_length m + prefix_length other) (2 ^ 32)
          then some (put t (r.gp_edge_index ∷ r.grandparent_node) (merge m other))
          else none
    ]
    else elim (remove_edge (edges m) r.edge_index) [
      | none ↦ none
      | some es ↦ some (relink_parent t r (node (refcount m) (prefix m) es))
    ]

-- The node's refcount has fallen to 0, and `n` is the node with it; `none` as for a leaf.
unfoldable pub erase_key : Tree → MatchResult → Tree → Option Tree
erase_key t r n =
    if ltb 1 (edgecount n)
    then some t
    else if edgecount n == 1
    then elim (edge_at (edges n) 0) [
      | none ↦ none
      | some (b, m) ↦
          if ltb (prefix_length n + prefix_length m) (2 ^ 32)
          then some (put t (r.edge_index ∷ r.parent_node) (merge n m))
          else none
    ]
    else elim (at t r.parent_node) [ none ↦ none | some m ↦ erase_leaf t r m ]

-- The key is held at the node `n`, which is not the root.
unfoldable pub erase_at : Tree → MatchResult → Tree → Option Tree
erase_at t r n =
    let n' = set_refcount (refcount n - 1) n in
    let t' = put t r.current_node n' in
    if is_root r.current_node
    then none
    else if ltb 0 (refcount n')
    then some t'
    else erase_key t' r n'

-- `none` is a failed assertion, or a merge whose prefix length does not fit its 32 bits.
unfoldable pub erase : RadixTree → (ℕ → ℕ) → ℕ → Option (RadixTree × Bool)
erase tree key size = elim (match tree.root key size) [
  | none ↦ none
  | some r ↦ elim (at tree.root r.current_node) [
    | none ↦ none
    | some n ↦
        if not (r.nkey == size) || not (r.nprefix == prefix_length n) || refcount n == 0
        then some (tree, false)
        else elim (erase_at tree.root r n) [
          | none ↦ none
          | some root ↦
              some (record { root = root; size = (tree.size + 2 ^ 64 - 1) % 2 ^ 64 }, true)
        ]
  ]
]
