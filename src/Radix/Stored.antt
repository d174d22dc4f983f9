-- ===== src/Radix/Stored.antt =====
-- A node's block with an edge added, as `insert` does it.
use study_notes.Base.{
  ℕ, zero, suc, ◌+◌, ◌-◌, ◌*◌, ◌≤◌, ◌<◌, ◌≡◌, refl, sym, ap, ◌∙◌, some, List, [], ◌∷◌, ◌++◌,
  append-nil, append_assoc, arith, length, length-append, take, drop, take-append-drop, length-take,
  length-drop,
}
use study_notes.Radix.Block.{
  ◌>>=◌, Block, get_bytes, put_bytes, memmove, resize, set_edge_at, add_edge,
}
use study_notes.Radix.Layout.{
  two_32, head, get_bytes-middle, put_bytes-middle, get_prefix_length-head, get_edgecount-head,
  node_ptrs-head,
}
use study_notes.Radix.Cells.{set_edge_at-head, resize-head}

-- The block of a refcount, a prefix, the first bytes of the edges, and the bytes of the pointers.
abbrev pub stored : ℕ → List ℕ → List ℕ → List ℕ → Block
stored r p f q = head r (length p) (length f) ++ (p ++ (f ++ q))

pub take_all : (xs : List ℕ) (n : ℕ) → length xs ≤ n → take n xs ≡ xs
take_all [] zero h = refl
take_all (x ∷ xs) zero h = absurd (omega (arith, h))
take_all [] (suc n) h = refl
take_all (x ∷ xs) (suc n) h = ap (λ l. x ∷ l) (take_all xs n (omega (arith, h)))

-- Eight bytes for each of `m` pointers, and nine more.
record Cut (m : ℕ) (l : List ℕ) : Type 0 where
  byte : ℕ
  front : List ℕ
  back : List ℕ
  parts : l ≡ byte ∷ (front ++ back)
  length_front : length front ≡ m
  length_back : length back ≡ 8

cut : (m : ℕ) (l : List ℕ) → length l ≡ m + 9 → Cut m l
cut m [] h = absurd (omega (arith, h))
cut m (x ∷ l) h = record {
  byte = x;
  front = take m l;
  back = drop m l;
  parts = ap (λ t. x ∷ t) (sym (take-append-drop m l));
  length_front = omega (arith, h, length-take m l);
  length_back = omega (arith, h, length-drop m l);
}

-- Every pointer one byte to the right.
memmove-right :
    (xs fs qs ws : List ℕ) (i j n : ℕ)
    → (c : Cut (length qs) (qs ++ ws)) → i ≡ length xs + length fs + 1
    → j ≡ length xs + length fs
    → n ≡ length qs
    → memmove (xs ++ (fs ++ (qs ++ ws))) i j n
      ≡ some (xs ++ ((fs ++ c.byte ∷ []) ++ (qs ++ c.back)))
unfolding memmove
memmove-right xs fs qs ws i j n c hi hj hn =
    let all = xs ++ (fs ++ (qs ++ ws)) in
    let apart = sym (append_assoc xs fs (qs ++ ws)) in
    let before = (xs ++ fs) ++ c.byte ∷ [] in
    ap (λ o. o >>= λ bytes. put_bytes all i bytes)
      (ap (λ l. get_bytes l j n) apart
        ∙ get_bytes-middle (xs ++ fs) qs ws j n (hj ∙ sym (length-append xs fs)) hn)
    ∙ ap (λ l. put_bytes l i qs)
        (apart
          ∙ ap (λ l. (xs ++ fs) ++ l) c.parts
          ∙ sym (append_assoc (xs ++ fs) (c.byte ∷ []) (c.front ++ c.back)))
    ∙ put_bytes-middle before c.front c.back qs i
        (omega (arith, hi, length-append (xs ++ fs) (c.byte ∷ []), length-append xs fs))
        (sym c.length_front)
    ∙ ap some (
        ap (λ l. l ++ (qs ++ c.back)) (append_assoc xs fs (c.byte ∷ []))
        ∙ append_assoc xs (fs ++ c.byte ∷ []) (qs ++ c.back))

-- `realloc` and `malloc` give as many bytes as they are asked for.
abbrev pub Gives : (ℕ → List ℕ) → Type 0
Gives fresh = (n : ℕ) → length (fresh n) ≡ n

pub length-body :
    (p f q : List ℕ) → length q ≡ length f * 8 → length (p ++ (f ++ q)) ≡ length p + length f * 9
length-body p f q h = omega (arith, h, length-append p (f ++ q), length-append f q)

-- The block with room for one more edge.
grown :
    (fresh : ℕ → List ℕ) (r : ℕ) (p f q : List ℕ)
    → Gives fresh
    → length q ≡ length f * 8
    → resize fresh (stored r p f q) (length p) (length f + 1)
      ≡ some (head r (length p) (length f + 1) ++ (p ++ (f ++ (q ++ fresh 9))))
grown fresh r p f q g h =
    let n = length-body p f q h in
    let d : length p + (length f + 1) * 9 - length (p ++ (f ++ q)) ≡ 9 = omega (arith, n) in
    resize-head fresh r (length p) (length f) (length p) (length f + 1) (p ++ (f ++ q))
    ∙ rw
        (
          take_all (p ++ (f ++ q)) (length p + (length f + 1) * 9) (omega (arith, n)),
          d,
          append_assoc p (f ++ q) (fresh 9),
          append_assoc f q (fresh 9),
        )
        refl

-- The last edge of a block.
last_edge :
    (r : ℕ) (p f q old : List ℕ) (c b : ℕ) (n : List ℕ) (e i : ℕ)
    → length p < two_32
    → e < two_32
    → e ≡ length f + 1
    → i ≡ length f
    → length q ≡ length f * 8
    → length old ≡ 8
    → length n ≡ 8
    → set_edge_at (head r (length p) e ++ (p ++ ((f ++ c ∷ []) ++ (q ++ old)))) i b n
      ≡ some (head r (length p) e ++ (p ++ ((f ++ b ∷ []) ++ (q ++ n))))
last_edge r p f q old c b n e i sp se he hi hq ho hn =
    ap (λ l. set_edge_at (head r (length p) e ++ (p ++ ((f ++ c ∷ []) ++ (q ++ l)))) i b n)
      (sym (append-nil old))
    ∙ set_edge_at-head r (length p) e sp se p f [] q old [] n c b i refl (sym hi)
        (omega (arith, he, hi)) (omega (arith, hq, hi)) ho hn
    ∙ ap (λ l. some (head r (length p) e ++ (p ++ ((f ++ b ∷ []) ++ (q ++ l))))) (append-nil n)

-- Where the memory is given, the prefix and the edges are fewer than 2 ^ 32, and pointers have
-- eight bytes: from the block of a node, insert makes the block of the node with one more edge.
pub add_edge-stored :
    (fresh : ℕ → List ℕ) (r : ℕ) (p f q : List ℕ) (b : ℕ) (n : List ℕ)
    → Gives fresh
    → length p < two_32
    → length f + 1 < two_32
    → length q ≡ length f * 8
    → length n ≡ 8
    → add_edge fresh (stored r p f q) b n ≡ some (stored r p (f ++ b ∷ []) (q ++ n))
unfolding add_edge
add_edge-stored fresh r p f q b n g sp sf hq hn =
    let e = length f in
    let w = fresh 9 in
    let c = cut (length q) (q ++ w) (length-append q w ∙ ap (λ k. length q + k) (g 9)) in
    let back = length-append f (b ∷ []) in
    rw
      (
        get_prefix_length-head r (length p) e (p ++ (f ++ q)) sp,
        get_edgecount-head r (length p) e (p ++ (f ++ q)) (omega (arith, sf)),
        grown fresh r p f q g hq,
        node_ptrs-head r (length p) (e + 1) (p ++ (f ++ (q ++ w))) sp sf,
        get_edgecount-head r (length p) (e + 1) (p ++ (f ++ (q ++ w))) sf,
        memmove-right (head r (length p) (e + 1) ++ p) f q w (12 + length p + (e + 1))
            (12 + length p + (e + 1) - 1) ((e + 1 - 1) * 8) c (omega arith) (omega arith)
            (omega (arith, hq)),
      )
      (last_edge r p f q c.back c.byte b n (e + 1) (e + 1 - 1) sp sf refl (omega arith) hq
          c.length_back hn
        ∙ ap (λ k. some (head r (length p) k ++ (p ++ ((f ++ b ∷ []) ++ (q ++ n))))) (sym back))
