-- ===== src/Radix/Upper.antt =====
-- The upper half of a node's block: what `insert` leaves in place where a key ends or differs
-- within the prefix.
use study_notes.Base.{
  ℕ, zero, suc, ◌+◌, ◌-◌, ◌*◌, ◌≤◌, ◌<◌, ◌≡◌, refl, sym, ap, ◌∙◌, some, List, [], ◌∷◌, ◌++◌,
  append-nil, arith, length, length-append, take, drop, take-append-drop, length-take, length-drop,
}
use study_notes.Radix.Block.{◌>>=◌, set_edge_at, fork, raise}
use study_notes.Radix.Layout.{two_32, head, put_refcount-head}
use study_notes.Radix.Cells.{set_edge_at-head, resize-head}
use study_notes.Radix.Stored.{stored, Gives}
use study_notes.Radix.Parted.{thirds}

take-take : (k m : ℕ) (xs ws : List ℕ) → k ≤ length xs → take k (take (k + m) xs ++ ws) ≡ take k xs
take-take zero m xs ws h = refl
take-take (suc k) m [] ws h = absurd (omega (arith, h))
take-take (suc k) m (x ∷ xs) ws h =
    let e : suc k + m ≡ suc (k + m) = omega arith in
    ap (λ n. take (suc k) (take n (x ∷ xs) ++ ws)) e
    ∙ ap (λ l. x ∷ l) (take-take k m xs ws (omega (arith, h)))

take-front : (k : ℕ) (xs ys : List ℕ) → k ≤ length xs → take k (xs ++ ys) ≡ take k xs
take-front zero xs ys h = refl
take-front (suc k) [] ys h = absurd (omega (arith, h))
take-front (suc k) (x ∷ xs) ys h = ap (λ l. x ∷ l) (take-front k xs ys (omega (arith, h)))

-- A block resized: the first `j` bytes of the prefix are there, and `k` more.
pub record Room (p : List ℕ) (j k : ℕ) (l : List ℕ) : Type 0 where
  pub rest : List ℕ
  pub parts : l ≡ take j p ++ rest
  pub length_rest : length rest ≡ k

pub room :
    (fresh : ℕ → List ℕ) (p s : List ℕ) (j k : ℕ)
    → Gives fresh
    → j ≤ length p
    → Room p j k (take (j + k) (p ++ s) ++ fresh (j + k - length (p ++ s)))
room fresh p s j k g h =
    let n = j + k in
    let w = fresh (n - length (p ++ s)) in
    let l = take n (p ++ s) ++ w in
    let fits : j ≤ length (p ++ s) = omega (arith, h, length-append p s) in
    let size : length l ≡ n =
      omega (
        arith,
        length-append (take n (p ++ s)) w,
        length-take n (p ++ s),
        g (n - length (p ++ s)),
      ) in
    record {
      rest = drop j l;
      parts =
          sym (take-append-drop j l)
          ∙ ap (λ t. t ++ drop j l) (take-take j k (p ++ s) w fits ∙ take-front j p s h);
      length_rest = omega (arith, size, length-drop j l);
    }

nothing : (ys : List ℕ) → length ys ≡ 0 → (zs : List ℕ) → zs ++ ys ≡ zs
nothing [] e zs = append-nil zs
nothing (y ∷ ys) e zs = absurd (omega (arith, e))

-- Two edges are written over whatever is there.
two_edges :
    (r p : ℕ) (xs l m n : List ℕ) (a b : ℕ)
    → p < two_32
    → length xs ≡ p
    → length l ≡ 18
    → length m ≡ 8
    → length n ≡ 8
    → (set_edge_at (head r p 2 ++ (xs ++ l)) 0 a m >>= λ d. set_edge_at d 1 b n)
      ≡ some (head r p 2 ++ (xs ++ ((a ∷ b ∷ []) ++ (m ++ n))))
two_edges r p xs [] m n a b sx hx h hm hn = absurd (omega (arith, h))
two_edges r p xs (c ∷ []) m n a b sx hx h hm hn = absurd (omega (arith, h))
two_edges r p xs (c ∷ d ∷ l) m n a b sx hx h hm hn =
    let t = thirds l 8 8 0 (omega (arith, h)) in
    let two : 2 < two_32 = omega arith in
    ap (λ k. set_edge_at (head r p 2 ++ (xs ++ (c ∷ d ∷ k))) 0 a m >>= λ d. set_edge_at d 1 b n)
      t.parts
    ∙ ap (λ o. o >>= λ d. set_edge_at d 1 b n)
        (set_edge_at-head r p 2 sx two xs [] (d ∷ []) [] t.one (t.two ++ t.three) m c a 0 hx refl
          refl refl t.length_one hm)
    ∙ set_edge_at-head r p 2 sx two xs (a ∷ []) [] m t.two t.three n d b 1 hx refl refl hm
        t.length_two hn
    ∙ ap (λ k. some (head r p 2 ++ (xs ++ ((a ∷ b ∷ []) ++ (m ++ k)))))
        (nothing t.three t.length_three n)

one_edge :
    (r p : ℕ) (xs l m : List ℕ) (a : ℕ)
    → p < two_32
    → length xs ≡ p
    → length l ≡ 9
    → length m ≡ 8
    → set_edge_at (head r p 1 ++ (xs ++ l)) 0 a m ≡ some (head r p 1 ++ (xs ++ (a ∷ m)))
one_edge r p xs [] m a sx hx h hm = absurd (omega (arith, h))
one_edge r p xs (c ∷ l) m a sx hx h hm =
    let one : 1 < two_32 = omega arith in
    ap (λ k. set_edge_at (head r p 1 ++ (xs ++ (c ∷ k))) 0 a m) (sym (append-nil l))
    ∙ set_edge_at-head r p 1 sx one xs [] [] [] l [] m c a 0 hx refl refl refl (omega (arith, h)) hm
    ∙ ap (λ k. some (head r p 1 ++ (xs ++ (a ∷ k)))) (append-nil m)

-- Where the key differs within the prefix: the first `j` bytes of it, no key, and two edges.
pub fork-stored :
    (fresh : ℕ → List ℕ) (r j : ℕ) (p f q m n : List ℕ) (a b : ℕ)
    → Gives fresh
    → length p < two_32
    → j ≤ length p
    → length m ≡ 8
    → length n ≡ 8
    → fork fresh (stored r p f q) j a m b n ≡ some (stored 0 (take j p) (a ∷ b ∷ []) (m ++ n))
unfolding fork
fork-stored fresh r j p f q m n a b g sp hj hm hn =
    let t = room fresh p (f ++ q) j (2 * 9) g hj in
    let e : length (take j p) ≡ j = omega (arith, hj, length-take j p) in
    rw
      (
        resize-head fresh r (length p) (length f) j 2 (p ++ (f ++ q)),
        t.parts,
        put_refcount-head r j 2 (take j p ++ t.rest) 0,
      )
      (two_edges 0 j (take j p) t.rest m n a b (omega (arith, sp, hj)) e t.length_rest hm hn
        ∙ ap (λ k. some (head 0 k 2 ++ (take j p ++ ((a ∷ b ∷ []) ++ (m ++ n))))) (sym e))

-- Where the key ends within the prefix: the first `j` bytes of it, one key, and one edge.
pub raise-stored :
    (fresh : ℕ → List ℕ) (r j : ℕ) (p f q m : List ℕ) (a : ℕ)
    → Gives fresh
    → length p < two_32
    → j ≤ length p
    → length m ≡ 8
    → raise fresh (stored r p f q) j a m ≡ some (stored 1 (take j p) (a ∷ []) m)
unfolding raise
raise-stored fresh r j p f q m a g sp hj hm =
    let t = room fresh p (f ++ q) j (1 * 9) g hj in
    let e : length (take j p) ≡ j = omega (arith, hj, length-take j p) in
    rw
      (
        resize-head fresh r (length p) (length f) j 1 (p ++ (f ++ q)),
        t.parts,
        one_edge r j (take j p) t.rest m a (omega (arith, sp, hj)) e t.length_rest hm,
        put_refcount-head r j 1 (take j p ++ (a ∷ m)) 1,
      )
      (ap (λ k. some (head 1 k 1 ++ (take j p ++ (a ∷ m)))) (sym e))
