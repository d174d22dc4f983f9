-- ===== src/Radix/Visit.antt =====
-- `visit_keys`, `apply` and `radix_tree::size`.
use study_notes.Base.{ℕ, List, [], ◌∷◌, ◌++◌, ltb, if◌then◌else◌}
use study_notes.Radix.{Tree, Edges, node, nil, cons, RadixTree}

-- `buffer.pop_back()`, once for each byte of a prefix.
abbrev pub pop_back : List ℕ → List ℕ
pop_back [] = []
pop_back (b ∷ []) = []
pop_back (b ∷ c ∷ bs) = b ∷ pop_back (c ∷ bs)

abbrev pub pop_each : List ℕ → List ℕ → List ℕ
pop_each [] buffer = buffer
pop_each (_ ∷ p) buffer = pop_each p (pop_back buffer)

abbrev pub push_each : List ℕ → List ℕ → List ℕ
push_each [] buffer = buffer
push_each (b ∷ p) buffer = push_each p (buffer ++ b ∷ [])

-- The buffer, and the keys that `func` has been called with.
abbrev pub Visited : Type 0
Visited = List ℕ × List (List ℕ)

unfoldable mutual
  pub visit_keys : Tree → Visited → Visited
  visit_keys (node r p es) (buffer, called) =
      let filled = push_each p buffer in
      let (after, all) =
        visit_edges es (filled, (if ltb 0 r then called ++ filled ∷ [] else called)) in
      (pop_each p after, all)

  pub visit_edges : Edges → Visited → Visited
  visit_edges nil v = v
  visit_edges (cons b n es) v = visit_edges es (visit_keys n v)

unfoldable pub apply : RadixTree → List (List ℕ)
unfolding visit_keys visit_edges
apply tree = (visit_keys tree.root ([], [])).1
