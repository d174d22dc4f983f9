-- ===== src/Radix/Insert.antt =====
-- `radix_tree::insert`.
use study_notes.Base.{
  ℕ, ◌+◌, ◌-◌, ◌%◌, ◌^◌, Bool, true, not, ◌||◌, Option, none, some, [], ◌∷◌, ltb, ◌==◌,
  if◌then◌else◌, take, drop,
}
use study_notes.Radix.{
  Tree, Edges, node, nil, cons, Handle, RadixTree, refcount, prefix, edges, prefix_length, at, put,
  set_refcount, bytes, first_byte,
}
use study_notes.Radix.Match.{MatchResult, match}

-- `resize` by one edge, the `memmove` of the pointers and `set_edge_at` at the new index.
abbrev pub append_edge : Edges → ℕ → Tree → Edges
append_edge nil b m = cons b m nil
append_edge (cons c n es) b m = cons c n (append_edge es b m)

-- The node becomes the root's data, or the child of its parent's edge.
abbrev pub relink : Tree → Handle → ℕ → Tree → Tree
relink t parent edge_idx n =
    if prefix_length n == 0 then put t [] n else put t (edge_idx ∷ parent) n

-- A mismatch at the outgoing edges: a new leaf for the rest of the key.
unfoldable pub insert_leaf : Tree → (ℕ → ℕ) → ℕ → MatchResult → Tree → Tree
insert_leaf t key size r n =
    let key_node = node 1 (bytes key r.nkey (size - r.nkey)) nil in
    relink t r.parent_node r.edge_index
      (node (refcount n) (prefix n) (append_edge (edges n) (key r.nkey) key_node))

-- What is left of a node below its first `j` prefix bytes.
abbrev pub split_node : Tree → ℕ → Tree
split_node n j = node (refcount n) (drop j (prefix n)) (edges n)

-- A mismatch within the prefix: the node is split, and gets the two rests as children.
unfoldable pub insert_split : Tree → (ℕ → ℕ) → ℕ → MatchResult → Tree → Tree
insert_split t key size r n =
    let key_node = node 1 (bytes key r.nkey (size - r.nkey)) nil in
    let lower = split_node n r.nprefix in
    put t (r.edge_index ∷ r.parent_node) (
      node 0 (take r.nprefix (prefix n))
        (cons (first_byte (prefix key_node)) key_node (cons (first_byte (prefix lower)) lower nil)))

-- The key ends within the prefix: the upper part of the node holds it.
unfoldable pub insert_above : Tree → MatchResult → Tree → Tree
insert_above t r n =
    let lower = split_node n r.nprefix in
    put t (r.edge_index ∷ r.parent_node)
      (node 1 (take r.nprefix (prefix n)) (cons (first_byte (prefix lower)) lower nil))

-- `insert` once the match and its node are known: the new root, and the result.
unfoldable pub insert_at : Tree → (ℕ → ℕ) → ℕ → MatchResult → Tree → Tree × Bool
insert_at t key size r n =
    if not (r.nkey == size)
    then (if r.nkey == 0 || r.nprefix == prefix_length n
        then (insert_leaf t key size r n, true)
        else (insert_split t key size r n, true))
    else if not (r.nprefix == prefix_length n)
    then (insert_above t r n, true)
    else (let count = (refcount n + 1) % 2 ^ 32 in
        (put t r.current_node (set_refcount count n), count == 1))

-- `none` is a fault: a match that ran past the key's end makes `size - i` wrap, and `make_node` and
-- `set_prefix` then write outside the block that is allocated. So is a rest of 2 ^ 32 bytes or more,
-- whose length `make_node` cuts to 32 bits.
unfoldable pub insert : RadixTree → (ℕ → ℕ) → ℕ → Option (RadixTree × Bool)
insert tree key size = elim (match tree.root key size) [
  | none ↦ none
  | some r ↦ elim (at tree.root r.current_node) [
    | none ↦ none
    | some n ↦
        if ltb size r.nkey || not (ltb (size - r.nkey) (2 ^ 32))
        then none
        else (let (root, added) = insert_at tree.root key size r n in
            some (record { root = root; size = (tree.size + 1) % 2 ^ 64 }, added))
  ]
]
