-- ===== src/Radix/Search.antt =====
-- `match` from its state at the head of the outer loop to its result.
use study_notes.Base.{
  sym, ℕ, zero, suc, ◌+◌, ◌-◌, ◌≤◌, ◌<◌, ◌≡◌, refl, ap, ◌∙◌, ◌⊎◌, inl, inr, Option, some, List, [],
  ◌∷◌, length, arith, append-nil,
}
use study_notes.Radix.{Tree, Edges, node, nil, cons, bytes}
use study_notes.Radix.Match.{
  MatchResult, Round, stop, go, scan, match_node, match_round, match_loop, match,
}
use study_notes.Radix.Count.{count}
use study_notes.Radix.Focus.{here, at-Locate}
use study_notes.Radix.Shape.{Starts, IsFormed, Avoids}
use study_notes.Radix.Scan.{Scan, Scan-Scanned}
use study_notes.Radix.Matched.{AtRoot, Spot, Matched, no_more}
use study_notes.Radix.Rounds.{Goes, stops, goes_on, body-Goes}

abbrev Finds : Tree → (ℕ → ℕ) → ℕ → Option MatchResult → Type 0
Finds t key size o =
    (r : MatchResult) × (n : Tree) × (w : List ℕ) × (o ≡ some r) × Matched t key size r n w

-- Fuel that is enough from a state on: below the root each round matches a byte.
abbrev Fuel : ℕ → ℕ → MatchResult → Type 0
Fuel size fuel s =
    (size + 2 ≤ fuel + s.nkey) ⊎ ((0 < length s.current_node) × (size + 1 ≤ fuel + s.nkey))

Fuel-left :
    (s r : MatchResult) (size fuel : ℕ)
    → Fuel size (suc fuel) s
    → s.nkey ≤ r.nkey
    → (s.current_node ≡ []) ⊎ (s.nkey < r.nkey)
    → 0 < length r.current_node
    → Fuel size fuel r
Fuel-left s r size fuel (inl f) h k l = inr (l, omega arith)
Fuel-left s r size fuel (inr (a, f)) h (inl e) l = absurd (omega (arith, ap length e))
Fuel-left s r size fuel (inr (a, f)) h (inr lt) l = inr (l, omega arith)

module _ {t : Tree} {key : ℕ → ℕ} {size : ℕ} where
  match_node-Goes :
      {s : MatchResult} {w : List ℕ} (r : ℕ) (p : List ℕ) (es : Edges)
      → Spot t key size s (node r p es) w
      → Scan p key s.nkey 0 size
      → Goes t key size s (match_node (node r p es) key size s)
  unfolding match_node
  match_node-Goes {s} r p es spot (d, e, fits, scanned) =
      let e' : scan p key s.nkey 0 ≡ (s.nkey + d, d) = ground (arith, e) in
      rw e' (body-Goes spot fits scanned)

  at_empty_root :
      {s : MatchResult} {w : List ℕ} (r : ℕ)
      → Spot t key size s (node r [] nil) w
      → (AtRoot s (node r [] nil) × (s.nprefix ≡ 0))
        ⊎ ((s.current_node ≡ s.edge_index ∷ s.parent_node) × Starts (key s.nkey) (node r [] nil))
      → Matched t key size s (node r [] nil) w
  unfolding count
  at_empty_root r spot (inr (a, b)) = absurd (omega (arith, b.0))
  at_empty_root {s} {w} r spot (inl (a, b)) = record {
    located = spot.located;
    agree = spot.agree ∙ rw b (sym (append-nil w));
    fits = omega (arith, spot.before);
    part = omega arith;
    place = inl a;
    parents = spot.parents;
    differs = λ l. absurd (omega arith);
    fresh = λ e l. tt;
    held = ground (
      arith,
      spot.held,
      spot.before,
      no_more r key s.nkey (size - s.nkey) (omega (arith, spot.before)),
    );
  }

  match_round-Goes :
      {s : MatchResult} {w : List ℕ} (n : Tree)
      → Spot t key size s n w
      → Goes t key size s (match_round n key size s)
  unfolding match_round
  match_round-Goes {s} (node r [] nil) spot = stops (at_empty_root r spot spot.place)
  match_round-Goes {s} (node r [] (cons b n es)) spot =
      let e : match_round (node r [] (cons b n es)) key size s
          ≡ match_node (node r [] (cons b n es)) key size s =
        ground (arith, spot.before) in
      let scanned = Scan-Scanned [] key s.nkey 0 size tt (omega (arith, spot.before)) in
      rw e (match_node-Goes r [] (cons b n es) spot scanned)
  match_round-Goes {s} (node r (c ∷ p) es) spot =
      let e : match_round (node r (c ∷ p) es) key size s
          ≡ match_node (node r (c ∷ p) es) key size s =
        ground (arith, spot.before) in
      let scanned =
        Scan-Scanned (c ∷ p) key s.nkey 0 size spot.avoids.0 (omega (arith, spot.before)) in
      rw e (match_node-Goes r (c ∷ p) es spot scanned)

  match_loop-Finds :
      {s : MatchResult} {n : Tree} {w : List ℕ} (fuel : ℕ)
      → Spot t key size s n w
      → Fuel size fuel s
      → Finds t key size (match_loop fuel t key size s)
  unfolding match_loop
  match_loop-Finds zero spot (inl f) = absurd (omega (arith, spot.before))
  match_loop-Finds zero spot (inr f) = absurd (omega (arith, spot.before))
  match_loop-Finds {s} {n} (suc fuel) spot f =
      rw (at-Locate spot.located, match_loop)
        (next (match_round n key size s) (match_round-Goes n spot)
          (λ r n' w' spot' f'. match_loop-Finds {s = r} {n = n'} {w = w'} fuel spot' f'))
    where
      next :
          (x : Round)
          → Goes t key size s x
          → ((r : MatchResult) (n' : Tree) (w' : List ℕ)
              → Spot t key size r n' w'
              → Fuel size fuel r
              → Finds t key size (match_loop fuel t key size r))
          → Finds t key size (elim x [ stop r ↦ some r | go r ↦ match_loop fuel t key size r ])
      next (stop r) (stops m) more = (r, _, _, refl, m)
      next (go r) (goes_on spot' h k l) more = more r _ _ spot' (Fuel-left s r size fuel f h k l)

-- On a formed tree, `match` returns, for any nonempty key whose byte behind its end is in no prefix: its
-- result is the node where the key leaves the tree.
pub match-Matched :
    (t : Tree) (key : ℕ → ℕ) (size : ℕ)
    → IsFormed t
    → Avoids (key size) t
    → 0 < size
    → (r : MatchResult) × (n : Tree) × (w : List ℕ) × (match t key size ≡ some r)
      × Matched t key size r n w
unfolding match
match-Matched t key size formed avoids h =
    match_loop-Finds (size + 2)
      (record {
        located = here;
        agree = refl;
        before = h;
        formed = formed.formed;
        avoids = avoids;
        place = inl ((refl, formed.root_prefix), refl);
        parents = inl refl;
        held = ap (λ m. count t (bytes key 0 m)) (omega arith);
      })
      (inl (omega arith))
