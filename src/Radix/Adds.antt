-- ===== src/Radix/Adds.antt =====
-- What it is for a key to be added to a tree, and the changes of a node that add one below it.
use study_notes.Base.{ℕ, ◌+◌, ◌≡◌, refl, ◌∙◌, List, [], ◌∷◌, ◌++◌, arith, append-nil}
use study_notes.Radix.{Tree, Edges, node, nil, cons, Handle, put}
use study_notes.Radix.Insert.{append_edge}
use study_notes.Radix.Count.{
  under, held_here, count, count_below, once, under-append, under-once, under-plus,
}
use study_notes.Radix.Focus.{Locate, put-count}

-- Every count but that of `key` is kept, and that of `key` grows by one.
abbrev pub Adds : List ℕ → Tree → Tree → Type 0
Adds key t t' = (k : List ℕ) → count t' k ≡ count t k + once key k

-- A subtree that gains `rest` makes the tree gain the path to it and `rest`.
pub Adds-put :
    {t : Tree} {p : Handle} {n : Tree} {w : List ℕ}
    → Locate t p n w
    → (n' : Tree) (rest : List ℕ) → Adds rest n n'
    → Adds (w ++ rest) t (put t p n')
Adds-put {n} {w} l n' rest a k = omega (
  arith,
  put-count l n' k,
  under-plus w (count n') (count n) (once rest) a k,
  under-once w rest k,
)

count-append_edge :
    (es : Edges) (b : ℕ) (n : Tree) (k : List ℕ)
    → count_below (append_edge es b n) k ≡ count_below es k + count n k
unfolding count count_below
count-append_edge nil b n k = omega arith
count-append_edge (cons c m es) b n k = omega (arith, count-append_edge es b n k)

none_here : (k : List ℕ) → held_here 0 k ≡ 0
none_here [] = refl
none_here (x ∷ k) = refl

held_once : (k : List ℕ) → held_here 1 k ≡ once [] k
held_once [] = refl
held_once (x ∷ k) = refl

one_more : (r : ℕ) (k : List ℕ) → held_here (r + 1) k ≡ held_here r k + once [] k
one_more r [] = refl
one_more r (x ∷ k) = omega arith

pub under_key : (p k : List ℕ) → under p (once []) k ≡ once p k
under_key p k = rw append-nil at (under-once p [] k)

pub under_zero : (p k : List ℕ) → under p (λ _. 0) k ≡ 0
under_zero [] k = refl
under_zero (c ∷ p) [] = refl
under_zero (c ∷ p) (x ∷ k) = ground (arith, under_zero p k)

-- A leaf that holds `rest` once.
count_leaf : (rest k : List ℕ) → count (node 1 rest nil) k ≡ once rest k
unfolding count
count_leaf rest k =
    under-plus rest _ (once []) (λ _. 0) (λ x. omega (arith, held_once x)) k
    ∙ omega (arith, under_key rest k, under_zero rest k)

pub Adds-edge :
    (r : ℕ) (p rest : List ℕ) (es : Edges) (b : ℕ)
    → Adds (p ++ rest) (node r p es) (node r p (append_edge es b (node 1 rest nil)))
unfolding count
Adds-edge r p rest es b k = rw (← under-once p rest k) (
    under-plus p _ _ (once rest)
      (λ x. omega (arith, count-append_edge es b (node 1 rest nil) x, count_leaf rest x)) k)

pub Adds-split :
    (r : ℕ) (p q rest : List ℕ) (es : Edges) (b c : ℕ)
    → Adds
        (p ++ rest)
        (node r (p ++ q) es)
        (node 0 p (cons b (node 1 rest nil) (cons c (node r q es) nil)))
unfolding count
Adds-split r p q rest es b c k =
    rw (under-append, ← under-once p rest k)
      (under-plus p _ _ (once rest) (λ x. omega (arith, none_here x, count_leaf rest x)) k)

pub Adds-above :
    (r : ℕ) (p q : List ℕ) (es : Edges) (c : ℕ)
    → Adds p (node r (p ++ q) es) (node 1 p (cons c (node r q es) nil))
unfolding count
Adds-above r p q es c k =
    rw (under-append, ← under_key p k)
      (under-plus p _ _ (once []) (λ x. omega (arith, held_once x)) k)

pub Adds-again : (r : ℕ) (p : List ℕ) (es : Edges) → Adds p (node r p es) (node (r + 1) p es)
unfolding count
Adds-again r p es k =
    rw (← under_key p k) (under-plus p _ _ (once []) (λ x. omega (arith, one_more r x)) k)
