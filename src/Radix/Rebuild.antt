-- ===== src/Radix/Rebuild.antt =====
-- Replacing a subtree keeps the tree formed, and free of a byte.
use study_notes.Base.{ℕ, zero, suc, ◌<◌, ◌≡◌, refl, ◌∙◌, some, List, [], arith}
use study_notes.Radix.{
  Tree, Edges, node, nil, cons, Handle, edge_at, set_node, put, prefix, prefix_length, first_byte,
}
use study_notes.Radix.Focus.{Locate, here, below, at-Locate}
use study_notes.Radix.Shape.{Starts, Fresh, Formed, FormedEdges, Avoids, AvoidsEdges, Avoids-edge}

-- `n'` can stand where `n` stands below an edge.
abbrev pub Fits : Tree → Tree → Type 0
Fits n n' =
    0 < prefix_length n → (0 < prefix_length n') × (first_byte (prefix n') ≡ first_byte (prefix n))

pub Formed-edge :
    (es : Edges) (i b : ℕ) (n : Tree)
    → FormedEdges es
    → edge_at es i ≡ some (b, n)
    → Starts b n × Formed n
Formed-edge nil i b n f e = absurd (ground (arith, e))
Formed-edge (cons c m es) zero b n f e =
    let same : n ≡ m = cc in let byte : b ≡ c = cc in rw (same, byte) (f.0, f.2)
Formed-edge (cons c m es) (suc i) b n f e = Formed-edge es i b n f.3 e

Fresh-set_node : (b : ℕ) (es : Edges) (i : ℕ) (m : Tree) → Fresh b es → Fresh b (set_node es i m)
Fresh-set_node b nil i m f = tt
Fresh-set_node b (cons c n es) zero m f = f
Fresh-set_node b (cons c n es) (suc i) m f = (f.0, Fresh-set_node b es i m f.1)

Formed-set_node :
    (es : Edges) (i b : ℕ) (n n' : Tree)
    → FormedEdges es
    → edge_at es i ≡ some (b, n)
    → Formed n'
    → Fits n n'
    → FormedEdges (set_node es i n')
Formed-set_node nil i b n n' f e g h = tt
Formed-set_node (cons c m es) zero b n n' f e g h =
    let same : m ≡ n = cc in
    let starts : Starts c n = rw (← same) f.0 in
    let starts' = h starts.0 in ((starts'.0, starts'.1 ∙ starts.1), f.1, g, f.3)
Formed-set_node (cons c m es) (suc i) b n n' f e g h =
    (f.0, Fresh-set_node c es i n' f.1, f.2, Formed-set_node es i b n n' f.3 e g h)

pub Formed-at :
    {t : Tree} {p : Handle} {n : Tree} {w : List ℕ} → Locate t p n w → Formed t → Formed n
Formed-at here f = f
Formed-at (below {i = i} {b = b} {es = es} {n = n} l e) f =
    (Formed-edge es i b n (Formed-at l f) e).1

pub Formed-put :
    {t : Tree} {p : Handle} {n : Tree} {w : List ℕ}
    → Locate t p n w
    → (n' : Tree) → Formed t
    → Formed n'
    → Fits n n'
    → Formed (put t p n')
Formed-put here n' f g h = g
Formed-put (below {p = p} {i = i} {b = b} {r = r} {q = q} {es = es} {n = n} l e) n' f g h =
    rw (at-Locate l) (
      Formed-put l (node r q (set_node es i n')) f
        (Formed-set_node es i b n n' (Formed-at l f) e g h) (λ k. (k, refl)))

pub prefix-put :
    {t : Tree} {p : Handle} {n : Tree} {w : List ℕ}
    → Locate t p n w
    → (n' : Tree) → (p ≡ [] → prefix n' ≡ prefix n)
    → prefix (put t p n') ≡ prefix t
prefix-put here n' h = h refl
prefix-put (below {p = p} {i = i} {b = b} {r = r} {q = q} {es = es} {n = n} l e) n' h =
    rw (at-Locate l) (prefix-put l (node r q (set_node es i n')) (λ k. refl))

Avoids-set_node :
    (z : ℕ) (es : Edges) (i : ℕ) (n' : Tree)
    → AvoidsEdges z es
    → Avoids z n'
    → AvoidsEdges z (set_node es i n')
Avoids-set_node z nil i n' a b = tt
Avoids-set_node z (cons c m es) zero n' a b = (b, a.1)
Avoids-set_node z (cons c m es) (suc i) n' a b = (a.0, Avoids-set_node z es i n' a.1 b)

pub Avoids-at :
    {t : Tree} {p : Handle} {n : Tree} {w : List ℕ} (z : ℕ)
    → Locate t p n w
    → Avoids z t
    → Avoids z n
Avoids-at z here a = a
Avoids-at z (below {i = i} {b = b} {es = es} {n = n} l e) a =
    Avoids-edge z es i b n (Avoids-at z l a).1 e

pub Avoids-put :
    {t : Tree} {p : Handle} {n : Tree} {w : List ℕ} (z : ℕ)
    → Locate t p n w
    → (n' : Tree) → Avoids z t
    → Avoids z n'
    → Avoids z (put t p n')
Avoids-put z here n' a b = b
Avoids-put z (below {p = p} {i = i} {b = b'} {r = r} {q = q} {es = es} {n = n} l e) n' a b =
    let up = Avoids-at z l a in
    rw (at-Locate l)
      (Avoids-put z l (node r q (set_node es i n')) a (up.0, Avoids-set_node z es i n' up.1 b))
