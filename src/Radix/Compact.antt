-- ===== src/Radix/Compact.antt =====
-- A node's block without one of its edges: the last edge, or one that the last edge replaces.
use study_notes.Base.{
  ℕ, ◌+◌, ◌-◌, ◌*◌, ◌<◌, ◌≡◌, refl, sym, ap, ◌∙◌, some, List, [], ◌∷◌, ◌++◌, append-nil,
  append_assoc, arith, length, length-append,
}
use study_notes.Radix.Block.{set_edge_at, remove_at}
use study_notes.Radix.Layout.{two_32, head, get_edgecount-head}
use study_notes.Radix.Cells.{set_edge_at-head}
use study_notes.Radix.Stored.{stored, Gives}
use study_notes.Radix.Removed.{last_byte, last_pointer, remove_moved}

-- Where memory is given, the prefix and the edges are fewer than 2 ^ 32, and pointers have eight
-- bytes: from a node's block erase makes the block without the last edge.
pub remove_at-last :
    (fresh : ℕ → List ℕ) (r : ℕ) (p g s t : List ℕ) (z : ℕ)
    → Gives fresh
    → length p < two_32
    → length g + 1 < two_32
    → length s ≡ length g * 8
    → length t ≡ 8
    → remove_at fresh (stored r p (g ++ z ∷ []) (s ++ t)) (length g) ≡ some (stored r p g s)
remove_at-last fresh r p g s t z gives sp sg hs ht =
    let f = g ++ z ∷ [] in
    let q = s ++ t in
    let he : length f ≡ length g + 1 = length-append g (z ∷ []) in
    let se : length f < two_32 = omega (arith, he, sg) in
    remove_moved fresh r (length g) p f q g s t z gives sp sg hs ht (length f) he
      (get_edgecount-head r (length p) (length f) (p ++ (f ++ q)) se)
      (last_byte r (length f) p g q z sp se he)
      (last_pointer r (length f) p f s t sp se refl (omega (arith, he, hs)) ht (omega (arith, he)))
      (ap (λ l. set_edge_at (head r (length p) (length f) ++ (p ++ (f ++ (s ++ l)))) (length g) z t)
          (sym (append-nil t))
        ∙ set_edge_at-head r (length p) (length f) sp se p g [] s t [] t z z (length g) refl refl
            (omega (arith, he)) hs ht ht
        ∙ ap (λ l. some (head r (length p) (length f) ++ (p ++ (f ++ (s ++ l))))) (append-nil t))

-- The removal of an edge by erase, where memory is given, on a block with a prefix and edges fewer
-- than 2 ^ 32 and pointers of eight bytes, for an edge that is not the last: it returns the block in
-- which the last edge, its first byte and its pointer, stands in the place of the removed one, and
-- every other edge stands where it did.
pub remove_at-middle :
    (fresh : ℕ → List ℕ) (r : ℕ) (p fs gs qs old us t : List ℕ) (c z : ℕ)
    → Gives fresh
    → length p < two_32
    → length fs + length gs + 2 < two_32
    → length qs ≡ length fs * 8
    → length us ≡ length gs * 8
    → length old ≡ 8
    → length t ≡ 8
    → remove_at fresh
        (stored r p ((fs ++ (c ∷ gs)) ++ z ∷ []) ((qs ++ (old ++ us)) ++ t))
        (length fs)
      ≡ some (stored r p (fs ++ (z ∷ gs)) (qs ++ (t ++ us)))
remove_at-middle fresh r p fs gs qs old us t c z gives sp sg hq hu ho ht =
    let f = (fs ++ (c ∷ gs)) ++ z ∷ [] in
    let q = (qs ++ (old ++ us)) ++ t in
    let g = fs ++ (z ∷ gs) in
    let s = qs ++ (t ++ us) in
    let hc : length (fs ++ (c ∷ gs)) ≡ length fs + length gs + 1 =
      omega (arith, length-append fs (c ∷ gs)) in
    let hg : length g ≡ length fs + length gs + 1 = omega (arith, length-append fs (z ∷ gs)) in
    let he : length f ≡ length g + 1 =
      omega (arith, hc, hg, length-append (fs ++ (c ∷ gs)) (z ∷ [])) in
    let se : length f < two_32 = omega (arith, he, hg, sg) in
    let hs : length s ≡ length g * 8 =
      omega (arith, hg, hq, hu, ht, length-append qs (t ++ us), length-append t us) in
    let ho' : length (qs ++ (old ++ us)) ≡ (length f - 1) * 8 =
      omega (arith, he, hg, hq, hu, ho, length-append qs (old ++ us), length-append old us) in
    let wide : (n : List ℕ) → (qs ++ (n ++ us)) ++ t ≡ qs ++ (n ++ (us ++ t)) =
      λ n. append_assoc qs (n ++ us) t ∙ ap (λ l. qs ++ l) (append_assoc n us t) in
    let h = head r (length p) (length f) in
    remove_moved fresh r (length fs) p f q g s t z gives sp (omega (arith, hg, sg)) hs ht (length f)
      he (get_edgecount-head r (length p) (length f) (p ++ (f ++ q)) se)
      (last_byte r (length f) p (fs ++ (c ∷ gs)) q z sp se (omega (arith, he, hg, hc)))
      (last_pointer r (length f) p f (qs ++ (old ++ us)) t sp se refl ho' ht (omega (arith, he)))
      (ap (λ l. set_edge_at (h ++ (p ++ (l ++ q))) (length fs) z t)
          (append_assoc fs (c ∷ gs) (z ∷ []))
        ∙ ap (λ l. set_edge_at (h ++ (p ++ ((fs ++ (c ∷ (gs ++ z ∷ []))) ++ l))) (length fs) z t)
            (wide old)
        ∙ set_edge_at-head r (length p) (length f) sp se p fs (gs ++ z ∷ []) qs old (us ++ t) t c z
            (length fs) refl refl (omega (arith, he, hg, length-append gs (z ∷ []))) hq ho ht
        ∙ ap (λ l. some (h ++ (p ++ (l ++ (qs ++ (t ++ (us ++ t)))))))
            (sym (append_assoc fs (z ∷ gs) (z ∷ [])))
        ∙ ap (λ l. some (h ++ (p ++ ((g ++ z ∷ []) ++ l)))) (sym (wide t)))
