-- ===== src/Radix/Count.antt =====
-- What a radix tree stands for: how often it holds each key. A key is held once for each unit of
-- the refcounts of the nodes whose path spells it; the edges' first bytes play no part.
use study_notes.Base.{ℕ, ◌+◌, ◌≡◌, refl, List, [], ◌∷◌, ◌++◌, arith, ◌==◌, if◌then◌else◌}
use study_notes.Radix.{Tree, Edges, node, nil, cons}

-- A count of keys, moved below the prefix `p`.
abbrev pub under : List ℕ → (List ℕ → ℕ) → List ℕ → ℕ
under [] f k = f k
under (c ∷ cs) f [] = 0
under (c ∷ cs) f (x ∷ k) = if c == x then under cs f k else 0

abbrev pub held_here : ℕ → List ℕ → ℕ
held_here r [] = r
held_here r (x ∷ k) = 0

unfoldable mutual
  pub count : Tree → List ℕ → ℕ
  count (node r p es) k = under p (λ rest. held_here r rest + count_below es rest) k

  pub count_below : Edges → List ℕ → ℕ
  count_below nil k = 0
  count_below (cons b n es) k = count n k + count_below es k

-- 1 at the key itself.
abbrev pub once : List ℕ → List ℕ → ℕ
once [] [] = 1
once [] (x ∷ k) = 0
once (c ∷ cs) [] = 0
once (c ∷ cs) (x ∷ k) = if c == x then once cs k else 0

pub under-append :
    (p q : List ℕ) (f : List ℕ → ℕ) (k : List ℕ) → under (p ++ q) f k ≡ under p (under q f) k
under-append [] q f k = refl
under-append (c ∷ p) q f [] = refl
under-append (c ∷ p) q f (x ∷ k) = ground (arith, under-append p q f k)

pub under-once : (p r k : List ℕ) → under p (once r) k ≡ once (p ++ r) k
under-once [] r k = refl
under-once (c ∷ p) r [] = refl
under-once (c ∷ p) r (x ∷ k) = ground (arith, under-once p r k)

-- An equation of counts holds below a prefix too.
pub under-add :
    (p : List ℕ) (f g f' g' : List ℕ → ℕ)
    → ((k : List ℕ) → f k + g k ≡ f' k + g' k)
    → (k : List ℕ) → under p f k + under p g k ≡ under p f' k + under p g' k
under-add [] f g f' g' h k = h k
under-add (c ∷ p) f g f' g' h [] = refl
under-add (c ∷ p) f g f' g' h (x ∷ k) = ground (arith, under-add p f g f' g' h k)

pub under-plus :
    (p : List ℕ) (f g h : List ℕ → ℕ)
    → ((k : List ℕ) → f k ≡ g k + h k)
    → (k : List ℕ) → under p f k ≡ under p g k + under p h k
under-plus [] f g h e k = e k
under-plus (c ∷ p) f g h e [] = refl
under-plus (c ∷ p) f g h e (x ∷ k) = ground (arith, under-plus p f g h e k)
