-- ===== src/Radix/Match.antt =====
-- `radix_tree::match` and `contains`.
use study_notes.Base.{
  ℕ, zero, suc, ◌+◌, Bool, not, ◌&&◌, ◌||◌, Option, none, some, List, [], ◌∷◌, ltb, ◌==◌,
  if◌then◌else◌,
}
use study_notes.Radix.{
  Tree, Edges, nil, cons, Handle, RadixTree, refcount, prefix, edges, prefix_length, edgecount, at,
}

-- `match_result`: the matched bytes of the key and of the current node's prefix, the edges that
-- lead to the current node and to its parent, and the three nodes.
pub record MatchResult : Type 0 where
  pub nkey : ℕ
  pub nprefix : ℕ
  pub edge_index : ℕ
  pub gp_edge_index : ℕ
  pub current_node : Handle
  pub parent_node : Handle
  pub grandparent_node : Handle

-- The inner loop: `i` runs along the key as far as the prefix agrees, with no test against `size`.
unfoldable pub scan : List ℕ → (ℕ → ℕ) → ℕ → ℕ → ℕ × ℕ
scan [] key i j = (i, j)
scan (c ∷ cs) key i j =
    let rest = scan cs key (i + 1) (j + 1) in if c == key i then rest else (i, j)

-- The first edge from index `k` on with the first byte `b`.
unfoldable pub find_edge : Edges → ℕ → ℕ → Option ℕ
find_edge nil b k = none
find_edge (cons c n es) b k = if c == b then some k else find_edge es b (k + 1)

-- What one round of the outer loop does: it leaves the loop, or goes on at a child.
pub data Round : Type 0 where
  stop : MatchResult → Round
  go : MatchResult → Round

unfoldable pub follow : (k : Option ℕ) → MatchResult → Round
follow none s = stop s
follow (some k) s = go (record {
  nkey = s.nkey;
  nprefix = s.nprefix;
  edge_index = k;
  gp_edge_index = s.edge_index;
  current_node = k ∷ s.current_node;
  parent_node = s.current_node;
  grandparent_node = s.parent_node;
})

-- The body of the outer loop, at the current node.
unfoldable pub match_node : Tree → (ℕ → ℕ) → ℕ → MatchResult → Round
match_node n key size s =
    let (i, j) = scan (prefix n) key s.nkey 0 in
    let s' = record s { nkey = i; nprefix = j } in
    if not (j == prefix_length n)
    then stop s'
    else follow (if ltb i size then find_edge (edges n) (key i) 0 else none) s'

unfoldable pub match_round : Tree → (ℕ → ℕ) → ℕ → MatchResult → Round
match_round n key size s =
    if (ltb 0 (prefix_length n) || ltb 0 (edgecount n)) && ltb s.nkey size
    then match_node n key size s
    else stop s

-- The outer loop; `none` is a handle that leads nowhere, or no fuel.
unfoldable pub match_loop : ℕ → Tree → (ℕ → ℕ) → ℕ → MatchResult → Option MatchResult
match_loop zero t key size s = none
match_loop (suc fuel) t key size s = elim (at t s.current_node) [
  | none ↦ none
  | some n ↦ elim (match_round n key size s) [
    | stop r ↦ some r
    | go r ↦ match_loop fuel t key size r
  ]
]

abbrev pub start : MatchResult
start = record {
  nkey = 0;
  nprefix = 0;
  edge_index = 0;
  gp_edge_index = 0;
  current_node = [];
  parent_node = [];
  grandparent_node = [];
}

-- A round at the root may match nothing, and any later one matches a byte.
unfoldable pub match : Tree → (ℕ → ℕ) → ℕ → Option MatchResult
match t key size = match_loop (size + 2) t key size start

unfoldable pub contains : RadixTree → (ℕ → ℕ) → ℕ → Option Bool
contains tree key size = elim (match tree.root key size) [
  | none ↦ none
  | some r ↦ elim (at tree.root r.current_node) [
    | none ↦ none
    | some n ↦ some (r.nkey == size && r.nprefix == prefix_length n && ltb 0 (refcount n))
  ]
]
