-- ===== src/Radix/Removed.antt =====
-- A node's block with an edge removed, as `erase` does it.
use study_notes.Base.{
  ℕ, ◌+◌, ◌-◌, ◌*◌, ◌<◌, ◌≡◌, refl, sym, ap, ◌∙◌, some, List, [], ◌∷◌, ◌++◌, append-nil,
  append_assoc, arith, length, length-append, take, drop, take-append-drop, length-take,
  length-drop,
}
use study_notes.Radix.Block.{
  ◌>>=◌, get_bytes, put_bytes, memmove, get_prefix_length, node_ptrs, node_at, set_edge_at, resize,
  remove_at, get_edgecount, first_byte_at,
}
use study_notes.Radix.Layout.{
  two_32, head, take-length, get_bytes-middle, put_bytes-middle, get_prefix_length-head,
  node_ptrs-head,
}
use study_notes.Radix.Cells.{resize-head, first_byte_at-head, node_at-head}
use study_notes.Radix.Stored.{stored, Gives, length-body}

-- What is left of a list behind its first `n` elements, less one.
record Back (n : ℕ) (z : ℕ) (qs : List ℕ) : Type 0 where
  front : List ℕ
  last : List ℕ
  parts : z ∷ qs ≡ front ++ last
  length_front : length front ≡ n
  length_last : length last ≡ 1

back : (z : ℕ) (qs : List ℕ) → Back (length qs) z qs
back z qs = record {
  front = take (length qs) (z ∷ qs);
  last = drop (length qs) (z ∷ qs);
  parts = sym (take-append-drop (length qs) (z ∷ qs));
  length_front = omega (arith, length-take (length qs) (z ∷ qs));
  length_last = omega (arith, length-drop (length qs) (z ∷ qs));
}

-- Every pointer one byte to the left.
memmove-left :
    (xs fs qs : List ℕ) (z i j n : ℕ)
    → (b : Back (length qs) z qs) → i ≡ length xs + length fs
    → j ≡ length xs + length fs + 1
    → n ≡ length qs
    → memmove (xs ++ ((fs ++ z ∷ []) ++ qs)) i j n ≡ some (xs ++ (fs ++ (qs ++ b.last)))
unfolding memmove
memmove-left xs fs qs z i j n b hi hj hn =
    let all = xs ++ ((fs ++ z ∷ []) ++ qs) in
    let apart =
      ap (λ l. l ++ qs) (sym (append_assoc xs fs (z ∷ []))) ∙ append_assoc (xs ++ fs) (z ∷ []) qs in
    let far = sym (append_assoc xs (fs ++ z ∷ []) qs) ∙ sym (append-nil _) ∙ append_assoc _ qs [] in
    ap (λ o. o >>= λ bytes. put_bytes all i bytes)
      (ap (λ l. get_bytes l j n) far
        ∙ get_bytes-middle (xs ++ (fs ++ z ∷ [])) qs [] j n
            (omega (arith, hj, length-append xs (fs ++ z ∷ []), length-append fs (z ∷ []))) hn)
    ∙ ap (λ l. put_bytes l i qs)
        (sym (append_assoc xs (fs ++ z ∷ []) qs) ∙ apart ∙ ap (λ l. (xs ++ fs) ++ l) b.parts)
    ∙ put_bytes-middle (xs ++ fs) b.front b.last qs i (hi ∙ sym (length-append xs fs))
        (sym b.length_front)
    ∙ ap some (append_assoc xs fs (qs ++ b.last))

no_bytes : (l : List ℕ) → length l ≡ 0 → l ≡ []
no_bytes [] h = refl
no_bytes (x ∷ l) h = absurd (omega (arith, h))

kept :
    (p g s t us : List ℕ) (n : ℕ)
    → n ≡ length (p ++ (g ++ s))
    → take n (p ++ (g ++ ((s ++ t) ++ us))) ≡ p ++ (g ++ s)
kept p g s t us n h = rw h (
    ap (take (length (p ++ (g ++ s)))) (
      ap (λ l. p ++ l) (ap (λ l. g ++ l) (append_assoc s t us) ∙ sym (append_assoc g s (t ++ us)))
      ∙ sym (append_assoc p (g ++ s) (t ++ us)))
    ∙ take-length (p ++ (g ++ s)) (t ++ us))

-- The last first byte and the last pointer are given up.
pub shrink :
    (fresh : ℕ → List ℕ) (r e : ℕ) (p g s t : List ℕ) (z : ℕ)
    → Gives fresh
    → length p < two_32
    → e < two_32
    → e ≡ length g + 1
    → length s ≡ length g * 8
    → length t ≡ 8
    → (node_ptrs (head r (length p) e ++ (p ++ ((g ++ z ∷ []) ++ (s ++ t)))) >>= λ k.
        memmove (head r (length p) e ++ (p ++ ((g ++ z ∷ []) ++ (s ++ t)))) (k - 1) k (e * 8)
        >>= λ moved. get_prefix_length moved >>= λ n. resize fresh moved n (e - 1))
      ≡ some (stored r p g s)
shrink fresh r e p g s t z gives sp se he hs ht =
    let q = s ++ t in
    let n = length p in
    let b = back z q in
    let whole = p ++ (g ++ (q ++ b.last)) in
    let less : e - 1 ≡ length g = omega (arith, he) in
    let size : length whole ≡ n + length g * 9 + 9 = omega (
      arith,
      length-append p (g ++ (q ++ b.last)),
      length-append g (q ++ b.last),
      length-append q b.last,
      length-append s t,
      hs,
      ht,
      b.length_last,
    ) in
    let none_left : n + length g * 9 - length whole ≡ 0 = omega (arith, size) in
    rw
      (
        node_ptrs-head r n e (p ++ ((g ++ z ∷ []) ++ q)) sp se,
        memmove-left (head r n e ++ p) g q z (12 + n + e - 1) (12 + n + e) (e * 8) b
            (omega (arith, he)) (omega (arith, he)) (omega (arith, he, hs, ht, length-append s t)),
        get_prefix_length-head r n e whole sp,
        resize-head fresh r n e n (e - 1) whole,
        less,
        none_left,
      )
      (ap (λ l. some (head r n (length g) ++ (take (n + length g * 9) whole ++ l)))
          (no_bytes (fresh 0) (gives 0))
        ∙ ap (λ l. some (head r n (length g) ++ l))
            (append-nil (take (n + length g * 9) whole)
              ∙ kept p g s t b.last (n + length g * 9) (sym (length-body p g s hs))))

-- What is read of the last edge.
pub last_byte :
    (r e : ℕ) (p g q : List ℕ) (z : ℕ)
    → length p < two_32
    → e < two_32
    → e ≡ length g + 1
    → first_byte_at (head r (length p) e ++ (p ++ ((g ++ z ∷ []) ++ q))) (e - 1) ≡ some (z ∷ [])
last_byte r e p g q z sp se he =
    first_byte_at-head r (length p) e sp se p g [] q z (e - 1) refl (omega (arith, he))
      (omega (arith, he))

pub last_pointer :
    (r e : ℕ) (p f s t : List ℕ)
    → length p < two_32
    → e < two_32
    → length f ≡ e
    → length s ≡ (e - 1) * 8
    → length t ≡ 8
    → 0 < e
    → node_at (head r (length p) e ++ (p ++ (f ++ (s ++ t)))) (e - 1) ≡ some t
last_pointer r e p f s t sp se hf hs ht h =
    ap (λ l. node_at (head r (length p) e ++ (p ++ (f ++ (s ++ l)))) (e - 1)) (sym (append-nil t))
    ∙ node_at-head r (length p) e sp se p f s t [] (e - 1) refl hf hs ht (omega (arith, h))

-- Edge `i` has been written over, so that the last one stands twice, and goes.
pub remove_moved :
    (fresh : ℕ → List ℕ) (r i : ℕ) (p f q g s t : List ℕ) (z : ℕ)
    → Gives fresh
    → length p < two_32
    → length g + 1 < two_32
    → length s ≡ length g * 8
    → length t ≡ 8
    → (e : ℕ) → e ≡ length g + 1
    → get_edgecount (head r (length p) e ++ (p ++ (f ++ q))) ≡ some e
    → first_byte_at (head r (length p) e ++ (p ++ (f ++ q))) (e - 1) ≡ some (z ∷ [])
    → node_at (head r (length p) e ++ (p ++ (f ++ q))) (e - 1) ≡ some t
    → set_edge_at (head r (length p) e ++ (p ++ (f ++ q))) i z t
      ≡ some (head r (length p) e ++ (p ++ ((g ++ z ∷ []) ++ (s ++ t))))
    → remove_at fresh (head r (length p) e ++ (p ++ (f ++ q))) i ≡ some (stored r p g s)
unfolding remove_at
remove_moved fresh r i p f q g s t z gives sp sg hs ht e he count byte pointer edge =
    let same : z + 256 * 0 ≡ z = omega arith in
    rw (count, byte, pointer, same, edge)
      (shrink fresh r e p g s t z gives sp (omega (arith, he, sg)) he hs ht)
