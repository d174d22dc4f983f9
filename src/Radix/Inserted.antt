-- ===== src/Radix/Inserted.antt =====
-- `insert` adds one to the count of the key, and to no other.
use native.Mathlib.Nat.{zero-add}
use study_notes.Base.{
  ℕ, ◌+◌, ◌-◌, ◌%◌, ◌^◌, ◌<◌, ◌≡◌, refl, sym, ap, ◌∙◌, ◌⊎◌, inl, inr, Bool, ◌||◌, List, [], ◌∷◌,
  ◌++◌, length, length-append, length-take, take, drop, arith, ◌==◌, Bool-cases, append_assoc,
  append-nil, take-append-drop,
}
use study_notes.Radix.{Tree, Edges, node, nil, cons, prefix, bytes, first_byte, put}
use study_notes.Radix.Match.{MatchResult}
use study_notes.Radix.Insert.{relink, insert_leaf, insert_split, insert_above, insert_at}
use study_notes.Radix.Count.{count}
use study_notes.Radix.Scan.{bytes-append, length-bytes}
use study_notes.Radix.Matched.{take_all, AtRoot, Matched}
use study_notes.Radix.Adds.{Adds, Adds-put, Adds-edge, Adds-split, Adds-above, Adds-again}

module _ {t : Tree} {key : ℕ → ℕ} {size : ℕ} {s : MatchResult} {r : ℕ} {p : List ℕ} {es : Edges}
    {w : List ℕ} (m : Matched t key size s (node r p es) w) where
  abbrev pub rest : List ℕ
  rest = bytes key s.nkey (size - s.nkey)

  pub key_parts : bytes key 0 size ≡ w ++ (take s.nprefix p ++ rest)
  key_parts =
      let e : size ≡ s.nkey + (size - s.nkey) = omega (arith, m.fits) in
      ap (bytes key 0) e
      ∙ bytes-append key 0 s.nkey (size - s.nkey)
      ∙ rw (m.agree, zero-add)
          (append_assoc w (take s.nprefix p) (bytes key s.nkey (size - s.nkey)))

  -- Nothing is matched at the root alone.
  pub whole_at_start :
      s.nkey ≡ 0
      → AtRoot s (node r p es) ⊎ ((s.current_node ≡ s.edge_index ∷ s.parent_node) × (0 < s.nprefix))
      → s.nprefix ≡ length p
  whole_at_start e (inl (a, b)) = omega (arith, m.part, ap length b)
  whole_at_start e (inr (a, b)) = absurd (
      omega (
        arith,
        ap length m.agree,
        length-bytes key 0 s.nkey,
        length-append w (take s.nprefix p),
        length-take s.nprefix p,
        m.part,
      ))

  pub relink-put :
      (n : Tree)
      → prefix n ≡ p
      → s.nprefix ≡ length p
      → AtRoot s (node r p es) ⊎ ((s.current_node ≡ s.edge_index ∷ s.parent_node) × (0 < s.nprefix))
      → relink t s.parent_node s.edge_index n ≡ put t s.current_node n
  relink-put n e h (inl (a, b)) = ground (arith, e, b, a)
  relink-put n e h (inr (a, b)) = ground (arith, e, a, ap length e)

  Adds-at :
      (n : Tree) (q : List ℕ)
      → Adds q (node r p es) n
      → bytes key 0 size ≡ w ++ q
      → Adds (bytes key 0 size) t (put t s.current_node n)
  Adds-at n q a e = rw e (Adds-put m.located n q a)

  insert_leaf-Adds :
      s.nprefix ≡ length p → Adds (bytes key 0 size) t (insert_leaf t key size s (node r p es))
  unfolding insert_leaf
  insert_leaf-Adds h =
      rw (relink-put _ refl h m.place)
        (Adds-at _ (p ++ rest) (Adds-edge r p rest es (key s.nkey)) (rw (h, take_all) at key_parts))

  -- Within a prefix the current node is a child of its parent.
  pub below_root :
      s.nprefix < length p
      → AtRoot s (node r p es) ⊎ ((s.current_node ≡ s.edge_index ∷ s.parent_node) × (0 < s.nprefix))
      → (s.current_node ≡ s.edge_index ∷ s.parent_node) × (0 < s.nprefix)
  below_root h (inl (a, b)) = absurd (omega (arith, ap length b))
  below_root h (inr b) = b

  pub no_rest : s.nkey ≡ size → rest ≡ []
  no_rest e = let none_left : size - s.nkey ≡ 0 = omega arith in rw none_left

  -- The parts of the node's prefix, and of a node that is split there.
  abbrev pub above_part : List ℕ
  above_part = take s.nprefix p

  abbrev pub below_part : List ℕ
  below_part = drop s.nprefix p

  abbrev pub split_tree : Tree
  split_tree = node 0 above_part (
      cons (first_byte rest) (node 1 rest nil)
        (cons (first_byte below_part) (node r below_part es) nil))

  abbrev pub above_tree : Tree
  above_tree = node 1 above_part (cons (first_byte below_part) (node r below_part es) nil)

  pub insert_split-put :
      s.nprefix < length p
      → insert_split t key size s (node r p es) ≡ put t s.current_node split_tree
  unfolding insert_split
  insert_split-put h = ap (λ at_edge. put t at_edge split_tree) (sym (below_root h m.place).0)

  pub insert_above-put :
      s.nprefix < length p → insert_above t s (node r p es) ≡ put t s.current_node above_tree
  unfolding insert_above
  insert_above-put h = ap (λ at_edge. put t at_edge above_tree) (sym (below_root h m.place).0)

  insert_split-Adds :
      s.nprefix < length p → Adds (bytes key 0 size) t (insert_split t key size s (node r p es))
  insert_split-Adds h =
      let add =
        Adds-split r above_part below_part rest es (first_byte rest) (first_byte below_part) in
      rw (insert_split-put h)
        (Adds-at _ (above_part ++ rest) (rw (take-append-drop s.nprefix p) at add) key_parts)

  insert_above-Adds :
      s.nkey ≡ size
      → s.nprefix < length p
      → Adds (bytes key 0 size) t (insert_above t s (node r p es))
  insert_above-Adds e h =
      let add = Adds-above r above_part below_part es (first_byte below_part) in
      rw (insert_above-put h) (
        Adds-at _ above_part (rw (take-append-drop s.nprefix p) at add)
          (rw (no_rest e, append-nil) at key_parts))

  insert_again-Adds :
      s.nkey ≡ size
      → s.nprefix ≡ length p
      → Adds (bytes key 0 size) t (put t s.current_node (node (r + 1) p es))
  insert_again-Adds e h =
      Adds-at _ p (Adds-again r p es) (rw (h, take_all, no_rest e, append-nil) at key_parts)

  -- A new root with the key added, and whether the key is new.
  abbrev pub Inserts : Tree × Bool → Type 0
  Inserts x = Adds (bytes key 0 size) t x.0 × (x.1 ≡ (count t (bytes key 0 size) == 0))

  pub insert_at-Adds :
      count t (bytes key 0 size) + 1 < 2 ^ 32 → Inserts (insert_at t key size s (node r p es))
  unfolding insert_at
  insert_at-Adds small = elim (Bool-cases (s.nkey == size)) [
    | inr more ↦ elim (Bool-cases (s.nkey == 0 || s.nprefix == length p)) [
      | inl leaf ↦
          let whole : s.nprefix ≡ length p =
            ground (arith, λ (e : s.nkey ≡ 0). whole_at_start e m.place) in
          rw (more, leaf) (insert_leaf-Adds whole, ground (arith, m.held))
      | inr split ↦
          let part : s.nprefix < length p = ground (arith, m.part) in
          rw (more, split) (insert_split-Adds part, ground (arith, m.held))
    ]
    | inl end ↦ elim (Bool-cases (s.nprefix == length p)) [
      | inr part ↦
          rw (end, part)
            (insert_above-Adds (ground arith) (ground (arith, m.part)), ground (arith, m.held))
      | inl whole ↦
          let held : count t (bytes key 0 size) ≡ r = ground (arith, m.held) in
          let wraps : (r + 1) % 2 ^ 32 ≡ r + 1 = omega arith in
          rw (end, whole, wraps)
            (insert_again-Adds (ground arith) (ground arith), ground (arith, held))
    ]
  ]
