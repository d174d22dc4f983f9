-- ===== src/Radix/Matched.antt =====
-- What the state of `match` and its result say of the tree and the key.
use native.Mathlib.Nat.{zero-add, add-zero}
use study_notes.Base.{
  ℕ, zero, suc, ◌+◌, ◌-◌, ◌≤◌, ◌<◌, ◌≡◌, ◌≢◌, refl, ap, ◌⊎◌, ◌&&◌, List, [], ◌∷◌, ◌++◌, length,
  length-drop, take, drop, arith, ◌==◌, if◌then◌else◌,
}
use study_notes.Radix.{Tree, Edges, node, refcount, prefix, edges, prefix_length, bytes, first_byte}
use study_notes.Radix.Match.{MatchResult}
use study_notes.Radix.Count.{under, held_here, count, count_below}
use study_notes.Radix.Focus.{Locate}
use study_notes.Radix.Shape.{Starts, Fresh, Formed, FormedEdges, Avoids, count_below-nil}
use study_notes.Radix.Scan.{bytes-append, Scanned}

-- The parent's edge leads to the current node, and the grandparent's to the parent.
abbrev pub Parents : MatchResult → Type 0
Parents s = (s.parent_node ≡ []) ⊎ (s.parent_node ≡ s.gp_edge_index ∷ s.grandparent_node)

abbrev pub AtRoot : MatchResult → Tree → Type 0
AtRoot s n = (s.current_node ≡ []) × (prefix n ≡ [])

-- The state at the head of the outer loop, where `n` is the current node, below the bytes `w`.
pub record Spot (t : Tree) (key : ℕ → ℕ) (size : ℕ) (s : MatchResult) (n : Tree) (w : List ℕ)
    : Type 0 where
  pub located : Locate t s.current_node n w
  pub agree : bytes key 0 s.nkey ≡ w
  pub before : s.nkey < size
  pub formed : Formed n
  pub avoids : Avoids (key size) n
  pub place :
      (AtRoot s n × (s.nprefix ≡ 0))
      ⊎ ((s.current_node ≡ s.edge_index ∷ s.parent_node) × Starts (key s.nkey) n)
  pub parents : Parents s
  pub held : count t (bytes key 0 size) ≡ count n (bytes key s.nkey (size - s.nkey))

-- What the result of `match` says of the node `n` that it stopped at, below the bytes `w`.
pub record Matched (t : Tree) (key : ℕ → ℕ) (size : ℕ) (r : MatchResult) (n : Tree) (w : List ℕ)
    : Type 0 where
  pub located : Locate t r.current_node n w
  pub agree : bytes key 0 r.nkey ≡ w ++ take r.nprefix (prefix n)
  pub fits : r.nkey ≤ size
  pub part : r.nprefix ≤ prefix_length n
  pub place : AtRoot r n ⊎ ((r.current_node ≡ r.edge_index ∷ r.parent_node) × (0 < r.nprefix))
  pub parents : Parents r
  pub differs : r.nprefix < prefix_length n → first_byte (drop r.nprefix (prefix n)) ≢ key r.nkey
  pub fresh : r.nprefix ≡ prefix_length n → r.nkey < size → Fresh (key r.nkey) (edges n)
  pub held :
      count t (bytes key 0 size)
      ≡ (if r.nkey == size && r.nprefix == prefix_length n then refcount n else 0)

under-take :
    (d : ℕ) (p : List ℕ) (f : List ℕ → ℕ) (k : List ℕ)
    → d ≤ length p
    → under p f (take d p ++ k) ≡ under (drop d p) f k
under-take zero p f k h = refl
under-take (suc d) [] f k h = absurd (omega arith)
under-take (suc d) (c ∷ p) f k h = ground (arith, under-take d p f k)

under-differs :
    (p : List ℕ) (f : List ℕ → ℕ) (key : ℕ → ℕ) (i m : ℕ)
    → 0 < length p
    → first_byte p ≢ key i
    → under p f (bytes key i m) ≡ 0
under-differs [] f key i m h d = absurd (omega arith)
under-differs (c ∷ p) f key i zero h d = refl
under-differs (c ∷ p) f key i (suc m) h d = ground arith

drop_all : (p : List ℕ) → drop (length p) p ≡ []
drop_all [] = refl
drop_all (c ∷ p) = drop_all p

pub take_all : (p : List ℕ) → take (length p) p ≡ p
take_all [] = refl
take_all (c ∷ p) = ap (◌∷◌ c) (take_all p)

module _ (key : ℕ → ℕ) (size : ℕ) (r : ℕ) (p : List ℕ) (es : Edges) (i d : ℕ) (fits : i + d ≤ size)
    (scanned : Scanned p key i d) where
  -- The count of the rest of the key, once `d` bytes of the prefix are matched.
  count_scanned :
      count (node r p es) (bytes key i (size - i))
      ≡ under
          (drop d p)
          (λ rest. held_here r rest + count_below es rest)
          (bytes key (i + d) (size - (i + d)))
  unfolding count
  count_scanned =
      let e : size - i ≡ d + (size - (i + d)) = omega arith in
      rw (e, bytes-append key i d, ← scanned.agrees) (under-take d p _ _ scanned.within)

  pub count_part : d < length p → count (node r p es) (bytes key i (size - i)) ≡ 0
  count_part h = rw count_scanned (
      under-differs (drop d p) _ key (i + d) _ (omega (arith, length-drop d p)) (scanned.differs h))

  count_whole :
      d ≡ length p
      → count (node r p es) (bytes key i (size - i)) ≡ (
          held_here r (bytes key (i + d) (size - (i + d)))
          + count_below es (bytes key (i + d) (size - (i + d))))
  count_whole h = let e : drop d p ≡ [] = rw h (drop_all p) in rw (count_scanned, e)

  pub count_end :
      FormedEdges es
      → d ≡ length p
      → i + d ≡ size
      → count (node r p es) (bytes key i (size - i)) ≡ r
  count_end f h l =
      let e : size - (i + d) ≡ 0 = omega arith in
      rw (count_whole h, e) (omega (arith, count_below-nil es f))

  pub count_next :
      (m : ℕ)
      → d ≡ length p
      → size - (i + d) ≡ suc m
      → count (node r p es) (bytes key i (size - i))
        ≡ count_below es (key (i + d) ∷ bytes key (i + d + 1) m)
  count_next m h e = rw (count_whole h, e) (zero-add _)

-- Where the node's prefix starts with the next byte of the key, that byte is matched.
pub matched_byte :
    (p : List ℕ) (key : ℕ → ℕ) (i d : ℕ)
    → Scanned p key i d
    → 0 < length p
    → first_byte p ≡ key i
    → 0 < d
matched_byte p key i zero s h e = absurd (s.differs h (rw add-zero e))
matched_byte p key i (suc d) s h e = omega arith

pub no_more : (r : ℕ) (key : ℕ → ℕ) (i m : ℕ) → 0 < m → held_here r (bytes key i m) ≡ 0
no_more r key i zero h = absurd (omega arith)
no_more r key i (suc m) h = refl
