-- ===== src/Radix/Merged.antt =====
-- What `erase` makes of the blocks of a node and of its only remaining child.
use study_notes.Base.{
  ℕ, ◌+◌, ◌*◌, ◌<◌, ◌≡◌, refl, sym, ap, ◌∙◌, Option, some, List, [], ◌++◌, append-nil, append_assoc,
  arith, length, length-append,
}
use study_notes.Radix.Block.{
  ◌>>=◌, Block, put_bytes, put_refcount, set_first_bytes, set_node_ptrs, absorb,
}
use study_notes.Radix.Layout.{
  two_32, head, get_bytes-middle, put_bytes-middle, get_refcount-head, get_prefix_length-head,
  get_edgecount-head, put_refcount-head, first_bytes-head, node_ptrs-head,
}
use study_notes.Radix.Cells.{resize-head, set_first_bytes-head, set_node_ptrs-head}
use study_notes.Radix.Stored.{stored, take_all, Gives}
use study_notes.Radix.Parted.{Thirds, thirds}
use study_notes.Radix.Halves.{drop-first_bytes, drop-node_ptrs}
use study_notes.Radix.Upper.{room}

-- The prefix, the first bytes and the pointers of the child, written behind a prefix.
append_parts :
    (r : ℕ) (p xs fs qs l : List ℕ) (k e : ℕ) (after : Block → Option Block)
    → k < two_32
    → e < two_32
    → length p + length xs ≡ k
    → length fs ≡ e
    → length qs ≡ e * 8
    → Thirds l (length xs) e (e * 8)
    → (put_bytes (head r k e ++ (p ++ l)) (12 + length p) xs >>= λ d.
        set_first_bytes d (fs ++ qs) >>= λ m. set_node_ptrs m qs >>= after)
      ≡ after (head r k e ++ ((p ++ xs) ++ (fs ++ qs)))
append_parts r p xs fs qs l k e after sk se hx hf hq t =
    let both : length (p ++ xs) ≡ k = length-append p xs ∙ hx in
    rw
      (
        t.parts,
        put_bytes-middle (head r k e ++ p) t.one (t.two ++ t.three) xs (12 + length p) (omega arith)
            (sym t.length_one),
        ← append_assoc p xs (t.two ++ t.three),
        set_first_bytes-head r k e sk se (p ++ xs) t.two fs qs t.three both t.length_two hf,
      )
      (ap (λ o. o >>= after)
        (ap (λ z. set_node_ptrs (head r k e ++ ((p ++ xs) ++ (fs ++ z))) qs)
            (sym (append-nil t.three))
          ∙ ap (set_node_ptrs (head r k e ++ ((p ++ xs) ++ (fs ++ (t.three ++ [])))))
              (sym (append-nil qs))
          ∙ set_node_ptrs-head r k e sk se (p ++ xs) fs t.three qs [] [] both hf t.length_three hq
          ∙ ap (λ z. some (head r k e ++ ((p ++ xs) ++ (fs ++ z)))) (append-nil qs)))

-- Where memory is given, and the two prefixes and the child's edges are fewer than 2 ^ 32: the
-- block of the node becomes that of its child's refcount and edges, and of both prefixes.
pub absorb-stored :
    (fresh : ℕ → List ℕ) (r s : ℕ) (p f q xs fs qs : List ℕ)
    → Gives fresh
    → s < two_32
    → length p + length xs < two_32
    → length fs < two_32
    → length qs ≡ length fs * 8
    → absorb fresh (stored r p f q) (stored s xs fs qs) ≡ some (stored s (p ++ xs) fs qs)
unfolding absorb
absorb-stored fresh r s p f q xs fs qs g ss sp sf hq =
    let e = length fs in
    let n = length xs in
    let k = length p + n in
    let again : k + e * 9 ≡ length p + (n + e * 9) = omega arith in
    let t = room fresh p (f ++ q) (length p) (n + e * 9) g (omega arith) in
    let sx : n < two_32 = omega (arith, sp) in
    let whole = take_all p (length p) (omega arith) in
    rw
      (
        get_prefix_length-head r (length p) (length f) (p ++ (f ++ q)) (omega (arith, sp)),
        get_prefix_length-head s n e (xs ++ (fs ++ qs)) sx,
        get_edgecount-head s n e (xs ++ (fs ++ qs)) sf,
        get_bytes-middle (head s n e) xs (fs ++ qs) 12 n refl refl,
        first_bytes-head s n e (xs ++ (fs ++ qs)) sx,
        node_ptrs-head s n e (xs ++ (fs ++ qs)) sx sf,
        get_refcount-head s n e (xs ++ (fs ++ qs)) ss,
        drop-first_bytes s xs fs qs,
        drop-node_ptrs s xs fs qs,
        resize-head fresh r (length p) (length f) k e (p ++ (f ++ q)),
        again,
        t.parts,
        whole,
      )
      (append_parts r p xs fs qs t.rest k e (λ d. put_refcount d s) sp sf refl refl hq
          (thirds t.rest n e (e * 8) (omega (arith, t.length_rest)))
        ∙ put_refcount-head r k e ((p ++ xs) ++ (fs ++ qs)) s
        ∙ ap (λ z. some (head s z e ++ ((p ++ xs) ++ (fs ++ qs)))) (sym (length-append p xs)))
