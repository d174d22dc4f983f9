-- ===== src/Radix/Erasure.antt =====
-- `erase` as a whole: it returns, takes one off the count of the key, and keeps the tree formed.
use mathlib.Core.Path.{subst}
use study_notes.Base.{
  ℕ, ◌+◌, ◌-◌, ◌%◌, ◌^◌, ◌<◌, ◌≡◌, refl, sym, ap, ◌∙◌, ◌⊎◌, inl, inr, true, false, some, List, [],
  ◌∷◌, ◌++◌, length, arith, ltb, Bool-cases,
}
use study_notes.Radix.{Tree, Edges, node, nil, cons, RadixTree, Handle, prefix_length, bytes, put}
use study_notes.Radix.Match.{MatchResult, match}
use study_notes.Radix.Erase.{is_root, merge, erase_key, erase_at, erase}
use study_notes.Radix.Count.{count, count_below, once, under-once, under-plus}
use study_notes.Radix.Focus.{Locate, here, below, at-Locate, put-count}
use study_notes.Radix.Shape.{IsFormed, Avoids}
use study_notes.Radix.Short.{Short, Short-at, Short-put, Short-prefix_length}
use study_notes.Radix.Rebuild.{Formed-at, Formed-put, prefix-put, Avoids-at, Avoids-put}
use study_notes.Radix.Scan.{length-bytes}
use study_notes.Radix.Matched.{take_all, AtRoot, Matched}
use study_notes.Radix.Search.{match-Matched}
use study_notes.Radix.Adds.{Adds, Adds-again}
use study_notes.Radix.Removal.{merge-count, Avoids-merge, Formed-merge, Starts-merge, Short-merge}
use study_notes.Radix.Same.{Locate-put, Same, Same-put, Rebuilds, parent_of}
use study_notes.Radix.Erased.{erase_leaf-Rebuilds}

module _ (t : Tree) (s : MatchResult) (p w : List ℕ)
    (linked : s.current_node ≡ s.edge_index ∷ s.parent_node)
    (parents : (s.parent_node ≡ []) ⊎ (s.parent_node ≡ s.gp_edge_index ∷ s.grandparent_node))
    (formed : IsFormed t) (short : Short 0 t) where
  -- A node that no longer holds a key goes, if it has one child or none.
  erase_key-Rebuilds :
      (es : Edges)
      → Locate t s.current_node (node 0 p es) w
      → Rebuilds t (erase_key t s (node 0 p es))
  unfolding erase_key count_below
  erase_key-Rebuilds nil l =
      let up = parent_of (subst (λ h. Locate t h (node 0 p nil) w) linked l) in
      rw (at-Locate up.located)
        (erase_leaf-Rebuilds s p parents formed short up.r up.q up.es up.w up.b up.located up.edge)
  erase_key-Rebuilds (cons b m nil) l =
      let merged = merge (node 0 p (cons b m nil)) m in
      let below_path = Short-prefix_length (length w + length p) m (Short-at l short).1.0 in
      let fits : ltb (length p + prefix_length m) (2 ^ 32) ≡ true = ground (arith, below_path) in
      (
        put t (s.edge_index ∷ s.parent_node) merged,
        rw fits,
        subst (λ h. Same t (put t h merged)) linked
            (Same-put l merged (merge-count p (cons b m nil) m (λ k. omega arith))
              (λ g. Formed-merge (node 0 p (cons b m nil)) m g.2)
              (λ k. Starts-merge (node 0 p (cons b m nil)) m k)
              (λ root. absurd (ground (arith, root, linked)))
              (λ z g. Avoids-merge z (node 0 p (cons b m nil)) m g.0 g.1.0)
              (λ g. Short-merge (length w) (node 0 p (cons b m nil)) m g.1.0)),
      )
  erase_key-Rebuilds (cons b m (cons c n es)) l = (
    t,
    ground arith,
    record { counts = λ k. refl; is_formed = λ f. f; avoids = λ z a. a; short = λ a. a },
  )

root_path : {t : Tree} {h : Handle} {n : Tree} {w : List ℕ} → Locate t h n w → h ≡ [] → w ≡ []
root_path here e = refl
root_path (below l x) e = absurd (ground (arith, e))

-- A subtree that loses `rest` makes the tree lose the path to it and `rest`.
Removes-put :
    {t : Tree} {h : Handle} {n : Tree} {w : List ℕ}
    → Locate t h n w
    → (n' : Tree) (rest : List ℕ) → Adds rest n' n
    → Adds (w ++ rest) (put t h n') t
Removes-put {n} {w} l n' rest a k = omega (
  arith,
  put-count l n' k,
  under-plus w (count n) (count n') (once rest) a k,
  under-once w rest k,
)

module _ {t : Tree} {key : ℕ → ℕ} {size : ℕ} {s : MatchResult} {r : ℕ} {p : List ℕ} {es : Edges}
    {w : List ℕ} (m : Matched t key size s (node r p es) w) (formed : IsFormed t)
    (short : Short 0 t) (whole_key : s.nkey ≡ size) (whole_prefix : s.nprefix ≡ length p)
    (some_key : 0 < size) (held : 0 < r) where
  spelled : bytes key 0 size ≡ w ++ p
  spelled = rw (whole_prefix, take_all, whole_key) at m.agree

  linked :
      AtRoot s (node r p es) ⊎ ((s.current_node ≡ s.edge_index ∷ s.parent_node) × (0 < s.nprefix))
      → s.current_node ≡ s.edge_index ∷ s.parent_node
  linked (inl (a, b)) =
      let no_bytes : w ++ p ≡ [] = rw (root_path m.located a, b) in
      absurd (omega (arith, ap length (spelled ∙ no_bytes), length-bytes key 0 size))
  linked (inr (a, b)) = a

  abbrev lowered : Tree
  lowered = put t s.current_node (node (r - 1) p es)

  lowered-Adds : Adds (bytes key 0 size) lowered t
  lowered-Adds =
      let back : r - 1 + 1 ≡ r = omega arith in
      rw spelled (
        Removes-put m.located (node (r - 1) p es) p
          (subst (λ c. Adds p (node (r - 1) p es) (node c p es)) back (Adds-again (r - 1) p es)))

  lowered-IsFormed : IsFormed lowered
  lowered-IsFormed = record {
    root_prefix = prefix-put m.located _ (λ e. refl) ∙ formed.root_prefix;
    formed =
        Formed-put m.located (node (r - 1) p es) formed.formed (Formed-at m.located formed.formed)
          (λ k. (k, refl));
  }

  lowered-Avoids : (z : ℕ) → Avoids z t → Avoids z lowered
  lowered-Avoids z a = Avoids-put z m.located (node (r - 1) p es) a (Avoids-at z m.located a)

  lowered-Short : Short 0 lowered
  lowered-Short = Short-put m.located (node (r - 1) p es) short (Short-at m.located short)

  erase_at-Rebuilds : Rebuilds lowered (erase_at t s (node r p es))
  unfolding erase_at
  erase_at-Rebuilds =
      let below = linked m.place in
      let inside : is_root s.current_node ≡ false = rw below in
      elim (Bool-cases (ltb 0 (r - 1))) [
        | inl more ↦ (
          lowered,
          rw (inside, more),
          record { counts = λ k. refl; is_formed = λ f. f; avoids = λ z a. a; short = λ a. a },
        )
        | inr gone ↦
            let none_left : r - 1 ≡ 0 = ground arith in
            rw (inside, gone)
              (subst
                (λ c.
                  Rebuilds (put t s.current_node (node c p es))
                    (erase_key (put t s.current_node (node c p es)) s (node c p es)))
                (sym none_left)
                (erase_key-Rebuilds _ s p w below m.parents
                  (subst (λ c. IsFormed (put t s.current_node (node c p es))) none_left
                    lowered-IsFormed)
                  (subst (λ c. Short 0 (put t s.current_node (node c p es))) none_left
                    lowered-Short)
                  es (Locate-put m.located (node 0 p es))))
      ]

module _ (tree : RadixTree) (key : ℕ → ℕ) (size : ℕ) where
  -- What a call of `erase` has to do for a key that is held.
  pub record Erasure (root' : Tree) : Type 0 where
    pub returns :
        erase tree key size
        ≡ some (record { root = root'; size = (tree.size + 2 ^ 64 - 1) % 2 ^ 64 }, true)
    pub removes : Adds (bytes key 0 size) root' tree.root
    pub is_formed : IsFormed root'
    pub avoids : Avoids (key size) root'
    pub short : Short 0 root'

  erased :
      IsFormed tree.root
      → Short 0 tree.root
      → Avoids (key size) tree.root
      → 0 < size
      → 0 < count tree.root (bytes key 0 size)
      → (s : MatchResult) (n : Tree) (w : List ℕ) → match tree.root key size ≡ some s
      → Matched tree.root key size s n w
      → (root' : Tree) × Erasure root'
  unfolding erase
  erased formed short avoids some_key held s (node r p es) w e m =
      let whole_key : s.nkey ≡ size = ground (arith, m.held) in
      let whole_prefix : s.nprefix ≡ length p = ground (arith, m.held) in
      let here : 0 < r = ground (arith, m.held) in
      let (root', made, same) =
        erase_at-Rebuilds m formed short whole_key whole_prefix some_key here in
      (
        root',
        record {
          returns = ground (arith, e, at-Locate m.located, made);
          removes = λ k. omega (
            arith,
            same.counts k,
            lowered-Adds m formed short whole_key whole_prefix some_key here k,
          );
          is_formed =
              same.is_formed (lowered-IsFormed m formed short whole_key whole_prefix some_key here);
          avoids = same.avoids (key size) (
              lowered-Avoids m formed short whole_key whole_prefix some_key here (key size) avoids);
          short = same.short (lowered-Short m formed short whole_key whole_prefix some_key here);
        },
      )

  missing :
      count tree.root (bytes key 0 size) ≡ 0
      → (s : MatchResult) (n : Tree) (w : List ℕ) → match tree.root key size ≡ some s
      → Matched tree.root key size s n w
      → erase tree key size ≡ some (tree, false)
  unfolding erase
  missing none_held s n w e m = ground (arith, e, at-Locate m.located, m.held)

  -- On a formed tree with fewer than 2 ^ 32 bytes on the way to each node, for a nonempty key whose
  -- byte behind its end is in no prefix, and that is held: `erase` returns, reports that it erased,
  -- counts the key once less and no other key differently, and keeps the tree formed, free of that
  -- byte, and with fewer than 2 ^ 32 bytes on the way to each node.
  pub erase-Erasure :
      IsFormed tree.root
      → Short 0 tree.root
      → Avoids (key size) tree.root
      → 0 < size
      → 0 < count tree.root (bytes key 0 size)
      → (root' : Tree) × Erasure root'
  erase-Erasure formed short avoids h held =
      let (s, n, w, e, m) = match-Matched tree.root key size formed avoids h in
      erased formed short avoids h held s n w e m

  -- On a formed tree, for a nonempty key whose byte behind its end is in no prefix, and that is not
  -- held: `erase` returns the tree as it was, and reports that it erased nothing.
  pub erase-missing :
      IsFormed tree.root
      → Avoids (key size) tree.root
      → 0 < size
      → count tree.root (bytes key 0 size) ≡ 0
      → erase tree key size ≡ some (tree, false)
  erase-missing formed avoids h none_held =
      let (s, n, w, e, m) = match-Matched tree.root key size formed avoids h in
      missing none_held s n w e m
