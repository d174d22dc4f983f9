-- ===== src/Radix/Insertion.antt =====
-- `insert` as a whole: it returns, adds one to the count of the key, and keeps the tree formed.
use mathlib.Core.Path.{subst}
use study_notes.Base.{
  ℕ, zero, suc, ◌+◌, ◌-◌, ◌%◌, ◌^◌, ◌<◌, ◌≡◌, ◌≢◌, refl, sym, ap, take-append-drop, ◌∙◌, inl, inr,
  ◌||◌, some, List, [], ◌∷◌, ◌++◌, length, length-append, length-take, length-drop, take, drop,
  arith, ◌==◌, Bool-cases,
}
use study_notes.Radix.{Tree, Edges, node, nil, cons, RadixTree, prefix, bytes, first_byte, put}
use study_notes.Radix.Match.{MatchResult, match}
use study_notes.Radix.Insert.{
  append_edge, insert_leaf, insert_split, insert_above, insert_at, insert,
}
use study_notes.Radix.Count.{count}
use study_notes.Radix.Focus.{at-Locate}
use study_notes.Radix.Shape.{
  Starts, Fresh, Formed, FormedEdges, IsFormed, AvoidsBytes, Avoids, AvoidsEdges,
}
use study_notes.Radix.Short.{Short, Short-append_edge, Short-at, Short-put}
use study_notes.Radix.Rebuild.{Fits, Formed-at, Formed-put, prefix-put, Avoids-at, Avoids-put}
use study_notes.Radix.Scan.{length-bytes}
use study_notes.Radix.Matched.{take_all, Matched}
use study_notes.Radix.Search.{match-Matched}
use study_notes.Radix.Adds.{Adds}
use study_notes.Radix.Inserted.{
  rest, key_parts, whole_at_start, relink-put, below_root, split_tree, above_tree, insert_split-put,
  insert_above-put, insert_at-Adds,
}

Fresh-append_edge :
    (c : ℕ) (es : Edges) (b : ℕ) (n : Tree) → Fresh c es → b ≢ c → Fresh c (append_edge es b n)
Fresh-append_edge c nil b n f d = (d, tt)
Fresh-append_edge c (cons a m es) b n f d = (f.0, Fresh-append_edge c es b n f.1 d)

Formed-append_edge :
    (es : Edges) (b : ℕ) (n : Tree)
    → FormedEdges es
    → Fresh b es
    → Starts b n
    → Formed n
    → FormedEdges (append_edge es b n)
Formed-append_edge nil b n f d s g = (s, tt, g, tt)
Formed-append_edge (cons a m es) b n f d s g = (
  f.0,
  Fresh-append_edge a es b n f.1 (λ e. d.0 (sym e)),
  f.2,
  Formed-append_edge es b n f.3 d.1 s g,
)

Avoids-append_edge :
    (z : ℕ) (es : Edges) (b : ℕ) (n : Tree)
    → AvoidsEdges z es
    → Avoids z n
    → AvoidsEdges z (append_edge es b n)
Avoids-append_edge z nil b n a e = (e, tt)
Avoids-append_edge z (cons c m es) b n a e = (a.0, Avoids-append_edge z es b n a.1 e)

AvoidsBytes-take : (z n : ℕ) (p : List ℕ) → AvoidsBytes z p → AvoidsBytes z (take n p)
AvoidsBytes-take z zero p a = tt
AvoidsBytes-take z (suc n) [] a = tt
AvoidsBytes-take z (suc n) (c ∷ p) a = (a.0, AvoidsBytes-take z n p a.1)

AvoidsBytes-drop : (z n : ℕ) (p : List ℕ) → AvoidsBytes z p → AvoidsBytes z (drop n p)
AvoidsBytes-drop z zero p a = a
AvoidsBytes-drop z (suc n) [] a = tt
AvoidsBytes-drop z (suc n) (c ∷ p) a = AvoidsBytes-drop z n p a.1

AvoidsBytes-behind : (z : ℕ) (p q : List ℕ) → AvoidsBytes z (p ++ q) → AvoidsBytes z q
AvoidsBytes-behind z [] q a = a
AvoidsBytes-behind z (c ∷ p) q a = AvoidsBytes-behind z p q a.1

first_byte-take : (n : ℕ) (p : List ℕ) → 0 < n → first_byte (take n p) ≡ first_byte p
first_byte-take zero p h = absurd (omega arith)
first_byte-take (suc n) [] h = refl
first_byte-take (suc n) (c ∷ p) h = refl

bytes-Starts :
    (key : ℕ → ℕ) (i m : ℕ)
    → 0 < m
    → Starts (first_byte (bytes key i m)) (node 1 (bytes key i m) nil)
      × (first_byte (bytes key i m) ≡ key i)
bytes-Starts key i zero h = absurd (omega arith)
bytes-Starts key i (suc m) h = ((omega arith, refl), refl)

module _ {t : Tree} {key : ℕ → ℕ} {size : ℕ} {s : MatchResult} {r : ℕ} {p : List ℕ} {es : Edges}
    {w : List ℕ} (m : Matched t key size s (node r p es) w) (formed : IsFormed t) where
  -- A new tree that is still formed, free of any byte that the old one and the key are free of, and
  -- with fewer than 2 ^ 32 bytes on the way to each node.
  record Kept (t' : Tree) : Type 0 where
    pub is_formed : IsFormed t'
    pub avoids : (z : ℕ) → Avoids z t → AvoidsBytes z (bytes key 0 size) → Avoids z t'
    pub short : Short 0 t → size < 2 ^ 32 → Short 0 t'

  formed_here : FormedEdges es
  formed_here = Formed-at m.located formed.formed

  Avoids-here : (z : ℕ) → Avoids z t → AvoidsBytes z p × AvoidsEdges z es
  Avoids-here z a = Avoids-at z m.located a

  avoids_rest : (z : ℕ) → AvoidsBytes z (bytes key 0 size) → AvoidsBytes z (rest m)
  avoids_rest z a =
      AvoidsBytes-behind z (take s.nprefix p) _ (AvoidsBytes-behind z w _ (rw (key_parts m) at a))

  -- The lengths of the path, of what is matched of the prefix, and of the rest make up the key.
  key_length : length w + (length (take s.nprefix p) + length (rest m)) ≡ size
  key_length = omega (
    arith,
    ap length (key_parts m),
    length-bytes key 0 size,
    length-append w (take s.nprefix p ++ rest m),
    length-append (take s.nprefix p) (rest m),
  )

  Short-rest : size < 2 ^ 32 → Short (length w + length (take s.nprefix p)) (node 1 (rest m) nil)
  Short-rest h = (omega (arith, key_length), tt)

  Short-lower :
      Short 0 t → Short (length w + length (take s.nprefix p)) (node r (drop s.nprefix p) es)
  Short-lower h =
      let old = Short-at m.located h in
      let e : length w + length (take s.nprefix p) + length (drop s.nprefix p)
          ≡ length w + length p =
        omega (
          arith,
          length-append (take s.nprefix p) (drop s.nprefix p),
          ap length (take-append-drop s.nprefix p),
        ) in
      rw e old

  put-Kept :
      (n : Tree)
      → Formed n
      → Fits (node r p es) n
      → (s.current_node ≡ [] → prefix n ≡ p)
      → ((z : ℕ) → Avoids z t → AvoidsBytes z (bytes key 0 size) → Avoids z n)
      → (Short 0 t → size < 2 ^ 32 → Short (length w) n)
      → Kept (put t s.current_node n)
  put-Kept n f g h a u = record {
    is_formed = record {
      root_prefix = prefix-put m.located n h ∙ formed.root_prefix;
      formed = Formed-put m.located n formed.formed f g;
    };
    avoids = λ z b c. Avoids-put z m.located n b (a z b c);
    short = λ b c. Short-put m.located n b (u b c);
  }

  insert_leaf-Kept :
      s.nprefix ≡ length p → s.nkey < size → Kept (insert_leaf t key size s (node r p es))
  unfolding insert_leaf
  insert_leaf-Kept h l =
      let starts = bytes-Starts key s.nkey (size - s.nkey) (omega arith) in
      rw (relink-put m _ refl h m.place) (
        put-Kept _
          (Formed-append_edge es (key s.nkey) _ formed_here (m.fresh h l) (starts.0.0, starts.1) tt)
          (λ k. (k, refl)) (λ k. refl)
          (λ z a b.
            let old = Avoids-here z a in
            (old.0, Avoids-append_edge z es _ _ old.1 (avoids_rest z b, tt)))
          (λ a b.
            let old = Short-at m.located a in
            let all : take s.nprefix p ≡ p = rw h (take_all p) in
            (
              old.0,
              Short-append_edge (length w + length p) es _ _ old.1 (
                  subst (λ x. Short (length w + length x) (node 1 (rest m) nil)) all
                    (Short-rest b)),
            )))

  above_Fits :
      s.nprefix < length p → (n : Tree) → prefix n ≡ take s.nprefix p → Fits (node r p es) n
  above_Fits h n e k = rw e (
    omega (arith, length-take s.nprefix p, (below_root m h m.place).1),
    first_byte-take s.nprefix p (below_root m h m.place).1,
  )

  not_root : s.nprefix < length p → (n : Tree) → s.current_node ≡ [] → prefix n ≡ p
  not_root h n e = let there = (below_root m h m.place).0 in cc

  insert_split-Kept :
      s.nprefix < length p → s.nkey < size → Kept (insert_split t key size s (node r p es))
  insert_split-Kept h l =
      let starts = bytes-Starts key s.nkey (size - s.nkey) (omega arith) in
      rw (insert_split-put m h) (
        put-Kept (split_tree m)
          (
            starts.0,
            (λ e. m.differs h (e ∙ starts.1), tt),
            tt,
            ((omega (arith, length-drop s.nprefix p), refl), tt, formed_here, tt),
          )
          (above_Fits h (split_tree m) refl) (not_root h (split_tree m))
          (λ z a b.
            let old = Avoids-here z a in
            (
              AvoidsBytes-take z s.nprefix p old.0,
              ((avoids_rest z b, tt), ((AvoidsBytes-drop z s.nprefix p old.0, old.1), tt)),
            ))
          (λ a b. (omega (arith, key_length), (Short-rest b, (Short-lower a, tt)))))

  insert_above-Kept : s.nprefix < length p → Kept (insert_above t s (node r p es))
  insert_above-Kept h = rw (insert_above-put m h) (
      put-Kept (above_tree m) ((omega (arith, length-drop s.nprefix p), refl), tt, formed_here, tt)
        (above_Fits h (above_tree m) refl) (not_root h (above_tree m))
        (λ z a b.
          let old = Avoids-here z a in
          (
            AvoidsBytes-take z s.nprefix p old.0,
            ((AvoidsBytes-drop z s.nprefix p old.0, old.1), tt),
          ))
        (λ a b. (omega (arith, key_length), (Short-lower a, tt))))

  insert_again-Kept : (c : ℕ) → Kept (put t s.current_node (node c p es))
  insert_again-Kept c =
      put-Kept (node c p es) formed_here (λ k. (k, refl)) (λ k. refl) (λ z a b. Avoids-here z a)
        (λ a b. Short-at m.located a)

  insert_at-Kept : Kept (insert_at t key size s (node r p es)).0
  unfolding insert_at
  insert_at-Kept = elim (Bool-cases (s.nkey == size)) [
    | inr more ↦
        let before : s.nkey < size = ground (arith, m.fits) in
        elim (Bool-cases (s.nkey == 0 || s.nprefix == length p)) [
          | inl leaf ↦
              let whole : s.nprefix ≡ length p =
                ground (arith, λ (e : s.nkey ≡ 0). whole_at_start m e m.place) in
              rw (more, leaf) (insert_leaf-Kept whole before)
          | inr split ↦ rw (more, split) (insert_split-Kept (ground (arith, m.part)) before)
        ]
    | inl end ↦ elim (Bool-cases (s.nprefix == length p)) [
      | inr part ↦ rw (end, part) (insert_above-Kept (ground (arith, m.part)))
      | inl whole ↦ rw (end, whole) (insert_again-Kept ((r + 1) % 2 ^ 32))
    ]
  ]

module _ (tree : RadixTree) (key : ℕ → ℕ) (size : ℕ) where
  -- What a call of `insert` has to do.
  pub record Insertion (root' : Tree) : Type 0 where
    pub returns :
        insert tree key size
        ≡ some (
          record { root = root'; size = (tree.size + 1) % 2 ^ 64 },
          count tree.root (bytes key 0 size) == 0,
        )
    pub adds : Adds (bytes key 0 size) tree.root root'
    pub is_formed : IsFormed root'
    pub avoids : Avoids (key size) root'
    pub short : Short 0 root'

  inserted :
      IsFormed tree.root
      → Short 0 tree.root
      → size < 2 ^ 32
      → Avoids (key size) tree.root
      → AvoidsBytes (key size) (bytes key 0 size)
      → count tree.root (bytes key 0 size) + 1 < 2 ^ 32
      → (s : MatchResult) (n : Tree) (w : List ℕ) → match tree.root key size ≡ some s
      → Matched tree.root key size s n w
      → (root' : Tree) × Insertion root'
  unfolding insert
  inserted formed short fits free clean small s (node r p es) w e m =
      let adds = insert_at-Adds m small in
      let kept = insert_at-Kept m formed in
      (
        (insert_at tree.root key size s (node r p es)).0,
        record {
          returns = ground (arith, e, at-Locate m.located, m.fits, fits, adds.1);
          adds = adds.0;
          is_formed = kept.is_formed;
          avoids = kept.avoids (key size) free clean;
          short = kept.short short fits;
        },
      )

  -- On a formed tree with fewer than 2 ^ 32 bytes on the way to each node, for a key that is not
  -- empty, shorter than 2 ^ 32, ended by a byte in neither the tree nor the key, and held fewer than
  -- 2 ^ 32 - 1 times: `insert` returns, reports whether the key is new, counts it once more and no
  -- other key differently, and keeps the tree formed, free of that byte, and with fewer than 2 ^ 32
  -- bytes on the way to each node.
  pub insert-Insertion :
      IsFormed tree.root
      → Short 0 tree.root
      → size < 2 ^ 32
      → Avoids (key size) tree.root
      → AvoidsBytes (key size) (bytes key 0 size)
      → 0 < size
      → count tree.root (bytes key 0 size) + 1 < 2 ^ 32
      → (root' : Tree) × Insertion root'
  insert-Insertion formed short fits avoids clean h small =
      let (s, n, w, e, m) = match-Matched tree.root key size formed avoids h in
      inserted formed short fits avoids clean small s n w e m
