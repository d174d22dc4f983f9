-- ===== src/Radix/Erased.antt =====
-- What `erase` does once the node that holds the key is found.
use mathlib.Core.Path.{subst}
use study_notes.Base.{
  ℕ, ◌+◌, ◌^◌, true, ltb, ◌≡◌, refl, ap, ◌⊎◌, inl, inr, false, not, ◌&&◌, none, some, List, [], ◌∷◌,
  length, arith, ◌==◌, if◌then◌else◌, Bool-cases,
}
use study_notes.Radix.{Tree, Edges, node, nil, count_edges, prefix, prefix_length, edge_at, put}
use study_notes.Radix.Match.{MatchResult}
use study_notes.Radix.Erase.{is_root, merge, remove_edge, relink_parent, erase_leaf}
use study_notes.Radix.Count.{count, count_below}
use study_notes.Radix.Focus.{Locate}
use study_notes.Radix.Shape.{IsFormed}
use study_notes.Radix.Short.{Short, Short-at, Short-prefix_length}
use study_notes.Radix.Rebuild.{Formed-at}
use study_notes.Radix.Removal.{
  remove_edge-Removed, under-same, merge-count, Avoids-merge, Formed-merge, Starts-merge,
  Short-merge,
}
use study_notes.Radix.Same.{Same, Same-put, Rebuilds, prefix_below, count_hollow, other_edge}

count_kept :
    (r : ℕ) (q : List ℕ) (es es' : Edges)
    → ((k : List ℕ) → count_below es' k ≡ count_below es k)
    → (k : List ℕ) → count (node r q es') k ≡ count (node r q es) k
unfolding count
count_kept r q es es' h = under-same q _ _ (λ k. omega (arith, h k))

module _ {t : Tree} (s : MatchResult) (p : List ℕ)
    (parents : (s.parent_node ≡ []) ⊎ (s.parent_node ≡ s.gp_edge_index ∷ s.grandparent_node))
    (formed : IsFormed t) (short : Short 0 t) where
  -- The hollow leaf goes, and its parent takes the place of its other child.
  leaf_merge :
      (q : List ℕ) (es : Edges) (w : List ℕ) (b : ℕ)
      → Locate t s.parent_node (node 0 q es) w
      → edge_at es s.edge_index ≡ some (b, node 0 p nil)
      → count_edges es ≡ 2
      → is_root s.parent_node ≡ false
      → (s.parent_node ≡ []) ⊎ (s.parent_node ≡ s.gp_edge_index ∷ s.grandparent_node)
      → Rebuilds t (elim (edge_at es (if s.edge_index == 0 then 1 else 0)) [
        | none ↦ none
        | some (b, other) ↦
            if ltb (length q + prefix_length other) (2 ^ 32)
            then some (put t (s.gp_edge_index ∷ s.grandparent_node) (merge (node 0 q es) other))
            else none
      ])
  leaf_merge q es w b l e two below_root (inl at_root) = absurd (ground (arith, at_root))
  leaf_merge q es w b l e two below_root (inr linked) =
      let (c, m, at_other, counts, f, a, u) = other_edge es s.edge_index b (node 0 p nil) two e in
      let merged = merge (node 0 q es) m in
      let below_path = Short-prefix_length (length w + length q) m (u _ (Short-at l short).1) in
      let fits : ltb (length q + prefix_length m) (2 ^ 32) ≡ true = ground (arith, below_path) in
      (
        put t (s.gp_edge_index ∷ s.grandparent_node) merged,
        rw (at_other, fits),
        subst (λ h. Same t (put t h merged)) linked
            (Same-put l merged (merge-count q es m (λ k. omega (arith, counts k, count_hollow p k)))
              (λ g. Formed-merge (node 0 q es) m (f g)) (λ k. Starts-merge (node 0 q es) m k)
              (λ root. absurd (ground (arith, root)))
              (λ z g. Avoids-merge z (node 0 q es) m g.0 (a z g.1))
              (λ g. Short-merge (length w) (node 0 q es) m (u _ g.1))),
      )

  relink_parent-put :
      (n m : Tree) (w : List ℕ)
      → Locate t s.parent_node n w
      → prefix m ≡ prefix n
      → (s.parent_node ≡ []) ⊎ (s.parent_node ≡ s.gp_edge_index ∷ s.grandparent_node)
      → relink_parent t s m ≡ put t s.parent_node m
  relink_parent-put n m w l e (inl at_root) =
      ground (arith, at_root, ap length e, prefix_below l formed)
  relink_parent-put n m w l e (inr linked) =
      ground (arith, linked, ap length e, prefix_below l formed)

  -- The hollow leaf goes, and its parent loses the edge to it.
  leaf_removal :
      (r : ℕ) (q : List ℕ) (es : Edges) (w : List ℕ) (b : ℕ)
      → Locate t s.parent_node (node r q es) w
      → edge_at es s.edge_index ≡ some (b, node 0 p nil)
      → Rebuilds t (elim (remove_edge es s.edge_index) [
        | none ↦ none
        | some es' ↦ some (relink_parent t s (node r q es'))
      ])
  leaf_removal r q es w b l e =
      let (es', removed, rest) =
        remove_edge-Removed es s.edge_index b (node 0 p nil) (Formed-at l formed.formed) e in
      let kept = relink_parent-put (node r q es) (node r q es') w l refl parents in
      (
        relink_parent t s (node r q es'),
        rw removed,
        rw kept (
            Same-put l (node r q es')
              (count_kept r q es es' (λ k. omega (arith, rest.counts k, count_hollow p k)))
              (λ g. rest.formed) (λ k. (k, refl)) (λ root. refl) (λ z g. (g.0, rest.avoids z g.1))
              (λ g. (g.0, rest.short (length w + length q) g.1))),
      )

  pub erase_leaf-Rebuilds :
      (r : ℕ) (q : List ℕ) (es : Edges) (w : List ℕ) (b : ℕ)
      → Locate t s.parent_node (node r q es) w
      → edge_at es s.edge_index ≡ some (b, node 0 p nil)
      → Rebuilds t (erase_leaf t s (node r q es))
  unfolding erase_leaf
  erase_leaf-Rebuilds r q es w b l e =
      elim (Bool-cases (count_edges es == 2 && r == 0 && not (is_root s.parent_node))) [
        | inl joined ↦
            let zero_count : r ≡ 0 = ground arith in
            rw joined
              (leaf_merge q es w b (rw zero_count at l) e (ground arith) (ground arith) parents)
        | inr kept ↦ rw kept (leaf_removal r q es w b l e)
      ]
