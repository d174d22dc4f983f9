-- ===== src/Radix/Parted.antt =====
-- A node's block in two: what `insert` makes of it where a key ends or differs within the prefix.
use study_notes.Base.{
  ℕ, zero, suc, ◌+◌, ◌*◌, ◌≤◌, ◌<◌, ◌≡◌, refl, sym, ap, ◌∙◌, some, List, [], ◌∷◌, ◌++◌, append-nil,
  arith, length, take, drop, take-append-drop, length-take, length-drop,
}
use study_notes.Radix.Block.{
  ◌>>=◌, u32, put_refcount, put_prefix_length, put_edgecount, set_prefix, set_first_bytes,
  set_node_ptrs, make_node, size_of,
}
use study_notes.Radix.Layout.{two_32, head, put_bytes-middle}
use study_notes.Radix.Cells.{set_prefix-head, set_first_bytes-head, set_node_ptrs-head}
use study_notes.Radix.Stored.{Gives}

make_parts :
    (xs ys zs ds : List ℕ) (r p e : ℕ)
    → length xs ≡ 4
    → length ys ≡ 4
    → length zs ≡ 4
    → (put_refcount (xs ++ (ys ++ (zs ++ ds))) r >>= λ d.
        put_prefix_length d p >>= λ m. put_edgecount m e)
      ≡ some (head r p e ++ ds)
unfolding put_refcount put_prefix_length put_edgecount
make_parts xs ys zs ds r p e hx hy hz =
    rw
      (
        put_bytes-middle [] xs (ys ++ (zs ++ ds)) (u32 r) 0 refl (sym hx),
        put_bytes-middle (u32 r) ys (zs ++ ds) (u32 p) 4 refl (sym hy),
      )
      (put_bytes-middle (u32 r ++ u32 p) zs ds (u32 e) 8 refl (sym hz))

pub make_node-head :
    (fresh : ℕ → List ℕ) (r p e : ℕ)
    → Gives fresh
    → make_node fresh r p e ≡ some (head r p e ++ drop 4 (drop 4 (drop 4 (fresh (size_of p e)))))
unfolding make_node
make_node-head fresh r p e g =
    let l = fresh (size_of p e) in
    let n : length l ≡ 12 + p + e * 9 = g (size_of p e) in
    let l4 = drop 4 l in
    let l8 = drop 4 l4 in
    let n4 : length l4 ≡ 8 + p + e * 9 = omega (arith, n, length-drop 4 l) in
    let n8 : length l8 ≡ 4 + p + e * 9 = omega (arith, n4, length-drop 4 l4) in
    let whole : l ≡ take 4 l ++ (take 4 l4 ++ (take 4 l8 ++ drop 4 l8)) = sym (
      ap (λ t. take 4 l ++ t)
        (ap (λ t. take 4 l4 ++ t) (take-append-drop 4 l8) ∙ take-append-drop 4 l4)
      ∙ take-append-drop 4 l) in
    ap (λ m. put_refcount m r >>= λ d. put_prefix_length d p >>= λ m. put_edgecount m e) whole
    ∙ make_parts (take 4 l) (take 4 l4) (take 4 l8) (drop 4 l8) r p e
        (omega (arith, n, length-take 4 l)) (omega (arith, n4, length-take 4 l4))
        (omega (arith, n8, length-take 4 l8))

-- A list in three parts.
pub record Thirds (l : List ℕ) (a b c : ℕ) : Type 0 where
  pub one : List ℕ
  pub two : List ℕ
  pub three : List ℕ
  pub parts : l ≡ one ++ (two ++ three)
  pub length_one : length one ≡ a
  pub length_two : length two ≡ b
  pub length_three : length three ≡ c

pub thirds : (l : List ℕ) (a b c : ℕ) → length l ≡ a + b + c → Thirds l a b c
thirds l a b c h =
    let t = drop a l in
    let n : length t ≡ b + c = omega (arith, h, length-drop a l) in
    record {
      one = take a l;
      two = take b t;
      three = drop b t;
      parts = sym (ap (λ k. take a l ++ k) (take-append-drop b t) ∙ take-append-drop a l);
      length_one = omega (arith, h, length-take a l);
      length_two = omega (arith, n, length-take b t);
      length_three = omega (arith, n, length-drop b t);
    }

pub drop-append : (j : ℕ) (xs ys : List ℕ) → j ≤ length xs → drop j (xs ++ ys) ≡ drop j xs ++ ys
drop-append zero xs ys h = refl
drop-append (suc j) [] ys h = absurd (omega (arith, h))
drop-append (suc j) (x ∷ xs) ys h = drop-append j xs ys (omega (arith, h))

pub drop-add : (xs ys : List ℕ) (n : ℕ) → drop (length xs + n) (xs ++ ys) ≡ drop n ys
drop-add [] ys n = ap (λ k. drop k ys) (omega arith)
drop-add (x ∷ xs) ys n =
    let e : suc (length xs) + n ≡ suc (length xs + n) = omega arith in
    ap (λ k. drop k (x ∷ (xs ++ ys))) e ∙ drop-add xs ys n

-- The three parts of an empty block are filled.
pub fill :
    (r p e : ℕ) (xs fs qs : List ℕ) (l : List ℕ) (more fs_more : List ℕ)
    → p < two_32
    → e < two_32
    → length xs ≡ p
    → length fs ≡ e
    → length qs ≡ e * 8
    → Thirds l p e (e * 8)
    → (set_prefix (head r p e ++ l) (xs ++ more) >>= λ d.
        set_first_bytes d (fs ++ fs_more) >>= λ m. set_node_ptrs m qs)
      ≡ some (head r p e ++ (xs ++ (fs ++ qs)))
fill r p e xs fs qs l more fs_more sp se hx hf hq t =
    rw
      (
        t.parts,
        set_prefix-head r p e sp se t.one xs more (t.two ++ t.three) t.length_one hx,
        set_first_bytes-head r p e sp se xs t.two fs fs_more t.three hx t.length_two hf,
      )
      (ap (λ k. set_node_ptrs (head r p e ++ (xs ++ (fs ++ k))) qs) (sym (append-nil t.three))
        ∙ ap (set_node_ptrs (head r p e ++ (xs ++ (fs ++ (t.three ++ []))))) (sym (append-nil qs))
        ∙ set_node_ptrs-head r p e sp se xs fs t.three qs [] [] hx hf t.length_three hq
        ∙ ap (λ k. some (head r p e ++ (xs ++ (fs ++ k)))) (append-nil qs))
