-- ===== src/Radix/Rounds.antt =====
-- One round of `match`: the body of the outer loop.
use native.Mathlib.Nat.{zero-add}
use study_notes.Base.{
  sym, ℕ, suc, ◌+◌, ◌-◌, ◌≤◌, ◌<◌, ◌≡◌, refl, ap, ◌∙◌, ◌⊎◌, inl, inr, not, ◌&&◌, Option, none, some,
  List, [], ◌∷◌, ◌++◌, length, take, arith, ◌==◌, ltb, if◌then◌else◌, Bool-cases,
}
use study_notes.Radix.{Tree, Edges, node, bytes}
use study_notes.Radix.Match.{MatchResult, Round, stop, go, find_edge, follow}
use study_notes.Radix.Count.{count}
use study_notes.Radix.Focus.{below}
use study_notes.Radix.Shape.{
  Starts, Fresh, Found, find_edge_first, Avoids-edge, find_edge-none, count_below-Fresh,
}
use study_notes.Radix.Scan.{bytes-append, Scanned}
use study_notes.Radix.Matched.{
  AtRoot, Spot, Matched, take_all, count_part, count_end, count_next, matched_byte,
}

abbrev pub after : MatchResult → ℕ → MatchResult
after s d = record s { nkey = s.nkey + d; nprefix = d }

-- The state that a round leads to: the result, or the state of the next round, further on.
pub data Goes (t : Tree) (key : ℕ → ℕ) (size : ℕ) (s : MatchResult) : Round → Type 0 where
  stops :
      {r : MatchResult} {n : Tree} {w : List ℕ}
      → Matched t key size r n w
      → Goes t key size s (stop r)
  goes_on :
      {r : MatchResult} {n : Tree} {w : List ℕ}
      → Spot t key size r n w
      → s.nkey ≤ r.nkey
      → (s.current_node ≡ []) ⊎ (s.nkey < r.nkey)
      → (0 < length r.current_node)
      → Goes t key size s (go r)

module _ {t : Tree} {key : ℕ → ℕ} {size : ℕ} {s : MatchResult} {r : ℕ} {p : List ℕ} {es : Edges}
    {w : List ℕ} (spot : Spot t key size s (node r p es) w) {d : ℕ} (fits : s.nkey + d ≤ size)
    (scanned : Scanned p key s.nkey d) where
  agree_after : bytes key 0 (s.nkey + d) ≡ w ++ take d p
  agree_after = rw (bytes-append key 0 s.nkey d, zero-add, spot.agree, scanned.agrees)

  place_after :
      (AtRoot s (node r p es) × (s.nprefix ≡ 0))
        ⊎ ((s.current_node ≡ s.edge_index ∷ s.parent_node) × Starts (key s.nkey) (node r p es))
      → AtRoot s (node r p es) ⊎ ((s.current_node ≡ s.edge_index ∷ s.parent_node) × (0 < d))
  place_after (inl (a, b)) = inl a
  place_after (inr (a, b)) = inr (a, matched_byte p key s.nkey d scanned b.0 b.1)

  stopped :
      (d ≡ length p → s.nkey + d < size → Fresh (key (s.nkey + d)) es)
      → count (node r p es) (bytes key s.nkey (size - s.nkey))
        ≡ (if s.nkey + d == size && d == length p then r else 0)
      → Matched t key size (after s d) (node r p es) w
  stopped f h = record {
    located = spot.located;
    agree = agree_after;
    fits = fits;
    part = scanned.within;
    place = place_after spot.place;
    parents = spot.parents;
    differs = scanned.differs;
    fresh = f;
    held = spot.held ∙ h;
  }

  stop_part : d < length p → Matched t key size (after s d) (node r p es) w
  stop_part h =
      stopped (λ e l. absurd (omega arith))
        (ground (arith, count_part key size r p es s.nkey d fits scanned h))

  stop_end : d ≡ length p → s.nkey + d ≡ size → Matched t key size (after s d) (node r p es) w
  stop_end h e =
      stopped (λ f l. absurd (omega arith))
        (ground (arith, count_end key size r p es s.nkey d fits scanned spot.formed h e))

  stop_edge :
      d ≡ length p
      → s.nkey + d < size
      → find_edge es (key (s.nkey + d)) 0 ≡ none
      → Matched t key size (after s d) (node r p es) w
  stop_edge h l missing =
      let fresh = find_edge-none es (key (s.nkey + d)) 0 missing in
      let m : ℕ = size - (s.nkey + d) - 1 in
      stopped (λ f l'. fresh)
        (ground (
          arith,
          count_next key size r p es s.nkey d fits scanned m h (omega arith),
          count_below-Fresh (key (s.nkey + d)) es (bytes key (s.nkey + d + 1) m) spot.formed fresh,
        ))

  go_child :
      (k : ℕ) (n : Tree)
      → d ≡ length p
      → s.nkey + d < size
      → Found es (key (s.nkey + d)) k n
      → Goes t key size s (follow (some k) (after s d))
  unfolding follow
  go_child k n h l found =
      let m : ℕ = size - (s.nkey + d) - 1 in
      let e : size - (s.nkey + d) ≡ suc m = omega arith in
      let whole : take d p ≡ p = rw h (take_all p) in
      goes_on
        (record {
          located = below spot.located found.there;
          agree = rw whole at agree_after;
          before = l;
          formed = found.formed;
          avoids = Avoids-edge (key size) es k _ n spot.avoids.1 found.there;
          place = inr (refl, found.starts);
          parents = parents_after spot.place;
          held =
              spot.held
              ∙ count_next key size r p es s.nkey d fits scanned m h e
              ∙ found.only (bytes key (s.nkey + d + 1) m)
              ∙ sym (ap (λ z. count n (bytes key (s.nkey + d) z)) e);
        })
        (omega arith) (further spot.place) (omega arith)
    where
      parents_after :
          (AtRoot s (node r p es) × (s.nprefix ≡ 0))
            ⊎ ((s.current_node ≡ s.edge_index ∷ s.parent_node) × Starts (key s.nkey) (node r p es))
          → (s.current_node ≡ []) ⊎ (s.current_node ≡ s.edge_index ∷ s.parent_node)
      parents_after (inl (a, b)) = inl a.0
      parents_after (inr (a, b)) = inr a

      further :
          (AtRoot s (node r p es) × (s.nprefix ≡ 0))
            ⊎ ((s.current_node ≡ s.edge_index ∷ s.parent_node) × Starts (key s.nkey) (node r p es))
          → (s.current_node ≡ []) ⊎ (s.nkey < s.nkey + d)
      further (inl (a, b)) = inl a.0
      further (inr (a, b)) =
          let some_byte = matched_byte p key s.nkey d scanned b.0 b.1 in inr (omega arith)

  go_on :
      d ≡ length p
      → s.nkey + d < size
      → (o : Option ℕ) → find_edge es (key (s.nkey + d)) 0 ≡ o
      → Goes t key size s (follow o (after s d))
  unfolding follow
  go_on h l none e = stops (stop_edge h l e)
  go_on h l (some k) e =
      let (n, found) = find_edge_first es (key (s.nkey + d)) k spot.formed e in
      go_child k n h l found

  -- The rest of the body, once the inner loop has matched `d` bytes.
  pub body-Goes : Goes t key size s (
      if not (d == length p)
      then stop (after s d)
      else follow
          (if ltb (s.nkey + d) size then find_edge es (key (s.nkey + d)) 0 else none)
          (after s d))
  unfolding follow
  body-Goes = elim (Bool-cases (d == length p)) [
    | inr part ↦ rw part (stops (stop_part (ground (arith, scanned.within))))
    | inl whole ↦ elim (Bool-cases (ltb (s.nkey + d) size)) [
      | inl more ↦ rw (whole, more) (go_on (ground arith) (ground arith) _ refl)
      | inr end ↦ rw (whole, end) (stops (stop_end (ground arith) (ground arith)))
    ]
  ]
