-- ===== src/Radix/Cells.antt =====
-- The prefix, the first bytes and the pointers in a block, and the block with other sizes.
use study_notes.Base.{
  ℕ, suc, ◌+◌, ◌-◌, ◌*◌, ◌<◌, ◌≡◌, refl, sym, ap, ◌∙◌, leb, true, some, List, [], ◌∷◌, ◌++◌,
  append_assoc, arith, length, length-append, take, lt→ltb,
}
use study_notes.Radix.Block.{
  first_of, set_prefix, set_first_bytes, set_node_ptrs, in_edges, first_byte_at, node_at,
  set_first_byte_at, set_node_at, set_edge_at, resize,
}
use study_notes.Radix.Layout.{
  two_32, head, take-length, get_bytes-middle, put_bytes-middle, get_prefix_length-head,
  get_edgecount-head, put_prefix_length-head, put_edgecount-head, first_bytes-head, node_ptrs-head,
}

first_of-append : (xs ys : List ℕ) (n : ℕ) → n ≡ length xs → first_of n (xs ++ ys) ≡ some xs
first_of-append xs ys n h =
    let e : leb n (length (xs ++ ys)) ≡ true = ground (arith, h, length-append xs ys) in
    rw (e, h, take-length xs ys) refl

inner :
    (xs fs gs ts : List ℕ) (c : ℕ) → xs ++ ((fs ++ (c ∷ gs)) ++ ts) ≡ (xs ++ fs) ++ (c ∷ (gs ++ ts))
inner xs fs gs ts c =
    ap (λ l. xs ++ l) (append_assoc fs (c ∷ gs) ts) ∙ sym (append_assoc xs fs (c ∷ (gs ++ ts)))

outer : (xs ys qs ts : List ℕ) → xs ++ (ys ++ (qs ++ ts)) ≡ (xs ++ (ys ++ qs)) ++ ts
outer xs ys qs ts =
    ap (λ l. xs ++ l) (sym (append_assoc ys qs ts)) ∙ sym (append_assoc xs (ys ++ qs) ts)

-- The block has `p` bytes of a prefix and `e` edges.
module _ (r p e : ℕ) (small_p : p < two_32) (small_e : e < two_32) where
  pub set_prefix-head :
      (old new more rest : List ℕ)
      → length old ≡ p
      → length new ≡ p
      → set_prefix (head r p e ++ (old ++ rest)) (new ++ more) ≡ some (head r p e ++ (new ++ rest))
  unfolding set_prefix
  set_prefix-head old new more rest h k =
      rw (get_prefix_length-head r p e (old ++ rest) small_p, first_of-append new more p (sym k))
        (put_bytes-middle (head r p e) old rest new 12 refl (k ∙ sym h))

  pub set_first_bytes-head :
      (xs old new more rest : List ℕ)
      → length xs ≡ p
      → length old ≡ e
      → length new ≡ e
      → set_first_bytes (head r p e ++ (xs ++ (old ++ rest))) (new ++ more)
        ≡ some (head r p e ++ (xs ++ (new ++ rest)))
  unfolding set_first_bytes
  set_first_bytes-head xs old new more rest l h k =
      rw
        (
          get_edgecount-head r p e (xs ++ (old ++ rest)) small_e,
          first_bytes-head r p e (xs ++ (old ++ rest)) small_p,
          first_of-append new more e (sym k),
        )
        (put_bytes-middle (head r p e ++ xs) old rest new (12 + p) (omega (arith, l)) (k ∙ sym h))

  pub set_node_ptrs-head :
      (xs ys old new more rest : List ℕ)
      → length xs ≡ p
      → length ys ≡ e
      → length old ≡ e * 8
      → length new ≡ e * 8
      → set_node_ptrs (head r p e ++ (xs ++ (ys ++ (old ++ rest)))) (new ++ more)
        ≡ some (head r p e ++ (xs ++ (ys ++ (new ++ rest))))
  unfolding set_node_ptrs
  set_node_ptrs-head xs ys old new more rest l m h k =
      rw
        (
          get_edgecount-head r p e (xs ++ (ys ++ (old ++ rest))) small_e,
          node_ptrs-head r p e (xs ++ (ys ++ (old ++ rest))) small_p small_e,
          first_of-append new more (e * 8) (sym k),
          ← append_assoc xs ys (old ++ rest),
          ← append_assoc xs ys (new ++ rest),
        )
        (put_bytes-middle (head r p e ++ (xs ++ ys)) old rest new (12 + p + e)
          (omega (arith, l, m, length-append xs ys)) (k ∙ sym h))

  in_edges-head : (i : ℕ) (body : List ℕ) → i < e → in_edges (head r p e ++ body) i ≡ some tt
  in_edges-head i body h = rw (get_edgecount-head r p e body small_e, lt→ltb i e h) refl

  set_first_byte_at-head :
      (xs fs gs ts : List ℕ) (c b i : ℕ)
      → length xs ≡ p
      → length fs ≡ i
      → i < e
      → set_first_byte_at (head r p e ++ (xs ++ ((fs ++ (c ∷ gs)) ++ ts))) i b
        ≡ some (head r p e ++ (xs ++ ((fs ++ (b ∷ gs)) ++ ts)))
  unfolding set_first_byte_at
  set_first_byte_at-head xs fs gs ts c b i l f h =
      rw
        (
          in_edges-head i (xs ++ ((fs ++ (c ∷ gs)) ++ ts)) h,
          first_bytes-head r p e (xs ++ ((fs ++ (c ∷ gs)) ++ ts)) small_p,
          inner xs fs gs ts c,
          inner xs fs gs ts b,
        )
        (put_bytes-middle (head r p e ++ (xs ++ fs)) (c ∷ []) (gs ++ ts) (b ∷ []) (12 + p + i)
          (omega (arith, l, f, length-append xs fs)) refl)

  pub set_node_at-head :
      (xs ys qs old us new : List ℕ) (i : ℕ)
      → length xs ≡ p
      → length ys ≡ e
      → length qs ≡ i * 8
      → length old ≡ 8
      → length new ≡ 8
      → i < e
      → set_node_at (head r p e ++ (xs ++ (ys ++ (qs ++ (old ++ us))))) i new
        ≡ some (head r p e ++ (xs ++ (ys ++ (qs ++ (new ++ us)))))
  unfolding set_node_at
  set_node_at-head xs ys qs old us new i l m q o n h =
      rw
        (
          in_edges-head i (xs ++ (ys ++ (qs ++ (old ++ us)))) h,
          node_ptrs-head r p e (xs ++ (ys ++ (qs ++ (old ++ us)))) small_p small_e,
          outer xs ys qs (old ++ us),
          outer xs ys qs (new ++ us),
        )
        (put_bytes-middle (head r p e ++ (xs ++ (ys ++ qs))) old us new (12 + p + e + i * 8)
          (omega (arith, l, m, q, length-append xs (ys ++ qs), length-append ys qs)) (n ∙ sym o))

  -- An edge, between those before and those behind it.
  pub set_edge_at-head :
      (xs fs gs qs old us new : List ℕ) (c b i : ℕ)
      → length xs ≡ p
      → length fs ≡ i
      → length gs + (i + 1) ≡ e
      → length qs ≡ i * 8
      → length old ≡ 8
      → length new ≡ 8
      → set_edge_at (head r p e ++ (xs ++ ((fs ++ (c ∷ gs)) ++ (qs ++ (old ++ us))))) i b new
        ≡ some (head r p e ++ (xs ++ ((fs ++ (b ∷ gs)) ++ (qs ++ (new ++ us)))))
  unfolding set_edge_at
  set_edge_at-head xs fs gs qs old us new c b i l f g q o n =
      let h : i < e = omega (arith, g) in
      rw (set_first_byte_at-head xs fs gs (qs ++ (old ++ us)) c b i l f h) (
        set_node_at-head xs (fs ++ (b ∷ gs)) qs old us new i l
          (length-append fs (b ∷ gs) ∙ omega (arith, f, g)) q o n h)

  -- And what is read of it.
  pub first_byte_at-head :
      (xs fs gs ts : List ℕ) (c i : ℕ)
      → length xs ≡ p
      → length fs ≡ i
      → i < e
      → first_byte_at (head r p e ++ (xs ++ ((fs ++ (c ∷ gs)) ++ ts))) i ≡ some (c ∷ [])
  unfolding first_byte_at
  first_byte_at-head xs fs gs ts c i l f h =
      rw
        (
          in_edges-head i (xs ++ ((fs ++ (c ∷ gs)) ++ ts)) h,
          first_bytes-head r p e (xs ++ ((fs ++ (c ∷ gs)) ++ ts)) small_p,
          inner xs fs gs ts c,
        )
        (get_bytes-middle (head r p e ++ (xs ++ fs)) (c ∷ []) (gs ++ ts) (12 + p + i) 1
          (omega (arith, l, f, length-append xs fs)) refl)

  pub node_at-head :
      (xs ys qs old us : List ℕ) (i : ℕ)
      → length xs ≡ p
      → length ys ≡ e
      → length qs ≡ i * 8
      → length old ≡ 8
      → i < e
      → node_at (head r p e ++ (xs ++ (ys ++ (qs ++ (old ++ us))))) i ≡ some old
  unfolding node_at
  node_at-head xs ys qs old us i l m q o h =
      rw
        (
          in_edges-head i (xs ++ (ys ++ (qs ++ (old ++ us)))) h,
          node_ptrs-head r p e (xs ++ (ys ++ (qs ++ (old ++ us)))) small_p small_e,
          outer xs ys qs (old ++ us),
        )
        (get_bytes-middle (head r p e ++ (xs ++ (ys ++ qs))) old us (12 + p + e + i * 8) 8
          (omega (arith, l, m, q, length-append xs (ys ++ qs), length-append ys qs)) (sym o))

take-add : (xs ys : List ℕ) (n : ℕ) → take (length xs + n) (xs ++ ys) ≡ xs ++ take n ys
take-add [] ys n = ap (λ k. take k ys) (omega arith)
take-add (x ∷ xs) ys n =
    let e : suc (length xs) + n ≡ suc (length xs + n) = omega arith in
    ap (λ k. take k (x ∷ (xs ++ ys))) e ∙ ap (λ l. x ∷ l) (take-add xs ys n)

-- A block of other sizes: what fits of the old one, and then the memory behind it.
pub resize-head :
    (fresh : ℕ → List ℕ) (r p e p' e' : ℕ) (body : List ℕ)
    → resize fresh (head r p e ++ body) p' e'
      ≡ some (head r p' e' ++ (take (p' + e' * 9) body ++ fresh (p' + e' * 9 - length body)))
unfolding resize
resize-head fresh r p e p' e' body =
    let n = p' + e' * 9 in
    let a : 12 + p' + e' * 9 ≡ 12 + n = omega arith in
    let d : 12 + n - length (head r p e ++ body) ≡ n - length body = omega arith in
    rw
      (
        a,
        d,
        take-add (head r p e) body n,
        put_prefix_length-head r p e (take n body ++ fresh (n - length body)) p',
      )
      (put_edgecount-head r p' e (take n body ++ fresh (n - length body)) e')
