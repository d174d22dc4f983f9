-- ===== src/Radix/Halves.antt =====
-- What `insert` makes of a node's block where a key ends or differs within its prefix.
use study_notes.Base.{
  ℕ, ◌+◌, ◌-◌, ◌*◌, ◌≤◌, ◌<◌, ◌≡◌, refl, sym, ap, ◌∙◌, some, List, ◌++◌, arith, length, drop,
  length-drop,
}
use study_notes.Radix.Block.{split_off, size_of}
use study_notes.Radix.Layout.{
  two_32, head, drop-length, get_refcount-head, get_prefix_length-head, get_edgecount-head,
  first_bytes-head, node_ptrs-head,
}
use study_notes.Radix.Stored.{stored, Gives}
use study_notes.Radix.Parted.{make_node-head, thirds, drop-append, drop-add, fill}

-- The memory from a place of the block on.
drop-prefix :
    (r j : ℕ) (p f q : List ℕ)
    → j ≤ length p
    → drop (12 + j) (stored r p f q) ≡ drop j p ++ (f ++ q)
drop-prefix r j p f q h =
    drop-add (head r (length p) (length f)) (p ++ (f ++ q)) j ∙ drop-append j p (f ++ q) h

pub drop-first_bytes : (r : ℕ) (p f q : List ℕ) → drop (12 + length p) (stored r p f q) ≡ f ++ q
drop-first_bytes r p f q =
    drop-add (head r (length p) (length f)) (p ++ (f ++ q)) (length p) ∙ drop-length p (f ++ q)

pub drop-node_ptrs : (r : ℕ) (p f q : List ℕ) → drop (12 + length p + length f) (stored r p f q) ≡ q
drop-node_ptrs r p f q =
    let e : 12 + length p + length f ≡ 12 + (length p + length f) = omega arith in
    ap (λ n. drop n (stored r p f q)) e
    ∙ drop-add (head r (length p) (length f)) (p ++ (f ++ q)) (length p + length f)
    ∙ drop-add p (f ++ q) (length f)
    ∙ drop-length f q

-- The lower half of a split, in a block of its own: the refcount and the edges of the node, and
-- its prefix behind the first `j` bytes.
pub split_off-stored :
    (fresh : ℕ → List ℕ) (r j : ℕ) (p f q : List ℕ)
    → Gives fresh
    → r < two_32
    → length p < two_32
    → length f < two_32
    → length q ≡ length f * 8
    → j ≤ length p
    → split_off fresh (stored r p f q) j ≡ some (stored r (drop j p) f q)
unfolding split_off
split_off-stored fresh r j p f q g sr sp sf hq hj =
    let e = length f in
    let n = length p - j in
    let l = drop 4 (drop 4 (drop 4 (fresh (size_of n e)))) in
    let hl : length l ≡ n + e + e * 8 = omega (
      arith,
      g (size_of n e),
      length-drop 4 (fresh (size_of n e)),
      length-drop 4 (drop 4 (fresh (size_of n e))),
      length-drop 4 (drop 4 (drop 4 (fresh (size_of n e)))),
    ) in
    rw
      (
        get_refcount-head r (length p) e (p ++ (f ++ q)) sr,
        get_prefix_length-head r (length p) e (p ++ (f ++ q)) sp,
        get_edgecount-head r (length p) e (p ++ (f ++ q)) sf,
        first_bytes-head r (length p) e (p ++ (f ++ q)) sp,
        node_ptrs-head r (length p) e (p ++ (f ++ q)) sp sf,
        make_node-head fresh r n e g,
        drop-prefix r j p f q hj,
        drop-first_bytes r p f q,
        drop-node_ptrs r p f q,
      )
      (fill r n e (drop j p) f q l (f ++ q) q (omega (arith, sp)) sf (length-drop j p) refl hq
          (thirds l n e (e * 8) hl)
        ∙ ap (λ k. some (head r k e ++ (drop j p ++ (f ++ q)))) (sym (length-drop j p)))
