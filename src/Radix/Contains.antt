-- ===== src/Radix/Contains.antt =====
-- `contains` answers by the count of the key.
use study_notes.Base.{ℕ, ◌<◌, ◌≡◌, some, List, arith, ltb}
use study_notes.Radix.{Tree, RadixTree, bytes}
use study_notes.Radix.Match.{MatchResult, match, contains}
use study_notes.Radix.Count.{count}
use study_notes.Radix.Focus.{at-Locate}
use study_notes.Radix.Shape.{IsFormed, Avoids}
use study_notes.Radix.Matched.{Matched}
use study_notes.Radix.Search.{match-Matched}

module _ (tree : RadixTree) (key : ℕ → ℕ) (size : ℕ) where
  found :
      (r : MatchResult) (n : Tree) (w : List ℕ)
      → match tree.root key size ≡ some r
      → Matched tree.root key size r n w
      → contains tree key size ≡ some (ltb 0 (count tree.root (bytes key 0 size)))
  unfolding contains
  found r n w e m = ground (arith, e, at-Locate m.located, m.held)

  -- On a formed tree, for a nonempty key whose byte behind its end is in no prefix, `contains`
  -- returns, and says whether the tree holds the key at least once.
  pub contains-count :
      IsFormed tree.root
      → Avoids (key size) tree.root
      → 0 < size
      → contains tree key size ≡ some (ltb 0 (count tree.root (bytes key 0 size)))
  contains-count formed avoids h =
      let (r, n, w, e, m) = match-Matched tree.root key size formed avoids h in found r n w e m
