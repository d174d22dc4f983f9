-- ===== src/Radix/Layout.antt =====
-- The parts of a node's block: what is read from them and what a write changes.
use study_notes.Base.{
  ℕ, ◌+◌, ◌<◌, ◌≡◌, refl, sym, ap, ◌∙◌, leb, true, some, List, [], ◌∷◌, ◌++◌, append_assoc, arith,
  length, length-append, take, drop,
}
use study_notes.Radix.Block.{
  ◌>>=◌, u32, of_bytes, get_bytes, put_bytes, get_u32, get_refcount, put_refcount,
  get_prefix_length, put_prefix_length, get_edgecount, put_edgecount, first_bytes, node_ptrs,
}

-- The number of refcounts, lengths and edges that a block can hold.
abbrev pub two_32 : ℕ
two_32 = 4294967296

of_bytes-u32 : (n : ℕ) → n < two_32 → of_bytes (u32 n) ≡ n
of_bytes-u32 n h = omega (arith, h)

abbrev pub head : ℕ → ℕ → ℕ → List ℕ
head r p e = u32 r ++ (u32 p ++ u32 e)

pub take-length : (xs ys : List ℕ) → take (length xs) (xs ++ ys) ≡ xs
take-length [] ys = refl
take-length (x ∷ xs) ys = ap (λ l. x ∷ l) (take-length xs ys)

pub drop-length : (xs ys : List ℕ) → drop (length xs) (xs ++ ys) ≡ ys
drop-length [] ys = refl
drop-length (x ∷ xs) ys = drop-length xs ys

-- The bytes in the middle.
pub get_bytes-middle :
    (xs ys zs : List ℕ) (i n : ℕ)
    → i ≡ length xs
    → n ≡ length ys
    → get_bytes (xs ++ (ys ++ zs)) i n ≡ some ys
unfolding get_bytes
get_bytes-middle xs ys zs i n h k =
    let e : leb (i + n) (length (xs ++ (ys ++ zs))) ≡ true =
      ground (arith, h, k, length-append xs (ys ++ zs), length-append ys zs) in
    rw (e, h, k, drop-length xs (ys ++ zs), take-length ys zs) refl

pub put_bytes-middle :
    (xs ys zs new : List ℕ) (i : ℕ)
    → i ≡ length xs
    → length new ≡ length ys
    → put_bytes (xs ++ (ys ++ zs)) i new ≡ some (xs ++ (new ++ zs))
unfolding put_bytes
put_bytes-middle xs ys zs new i h k =
    let e : leb (i + length new) (length (xs ++ (ys ++ zs))) ≡ true =
      ground (arith, h, k, length-append xs (ys ++ zs), length-append ys zs) in
    let n : length xs + length ys ≡ length (xs ++ ys) = sym (length-append xs ys) in
    rw (e, h, k, n, take-length xs (ys ++ zs), ← append_assoc xs ys zs, drop-length (xs ++ ys) zs)
      refl

-- The fields of the header.
get_u32-middle :
    (xs zs : List ℕ) (i n : ℕ)
    → n < two_32
    → i ≡ length xs
    → get_u32 (xs ++ (u32 n ++ zs)) i ≡ some n
get_u32-middle xs zs i n h e =
    ap (λ o. o >>= λ bytes. some (of_bytes bytes)) (get_bytes-middle xs (u32 n) zs i 4 e refl)
    ∙ ap some (of_bytes-u32 n h)

module _ (r p e : ℕ) (body : List ℕ) where
  pub get_refcount-head : r < two_32 → get_refcount (head r p e ++ body) ≡ some r
  unfolding get_refcount
  get_refcount-head h = get_u32-middle [] (u32 p ++ (u32 e ++ body)) 0 r h refl

  pub get_prefix_length-head : p < two_32 → get_prefix_length (head r p e ++ body) ≡ some p
  unfolding get_prefix_length
  get_prefix_length-head h = get_u32-middle (u32 r) (u32 e ++ body) 4 p h refl

  pub get_edgecount-head : e < two_32 → get_edgecount (head r p e ++ body) ≡ some e
  unfolding get_edgecount
  get_edgecount-head h = get_u32-middle (u32 r ++ u32 p) body 8 e h refl

  pub put_refcount-head : (n : ℕ) → put_refcount (head r p e ++ body) n ≡ some (head n p e ++ body)
  unfolding put_refcount
  put_refcount-head n = put_bytes-middle [] (u32 r) (u32 p ++ (u32 e ++ body)) (u32 n) 0 refl refl

  pub put_prefix_length-head :
      (n : ℕ) → put_prefix_length (head r p e ++ body) n ≡ some (head r n e ++ body)
  unfolding put_prefix_length
  put_prefix_length-head n = put_bytes-middle (u32 r) (u32 p) (u32 e ++ body) (u32 n) 4 refl refl

  pub put_edgecount-head :
      (n : ℕ) → put_edgecount (head r p e ++ body) n ≡ some (head r p n ++ body)
  unfolding put_edgecount
  put_edgecount-head n = put_bytes-middle (u32 r ++ u32 p) (u32 e) body (u32 n) 8 refl refl

  pub first_bytes-head : p < two_32 → first_bytes (head r p e ++ body) ≡ some (12 + p)
  unfolding first_bytes
  first_bytes-head h = rw (get_prefix_length-head h) refl

  pub node_ptrs-head : p < two_32 → e < two_32 → node_ptrs (head r p e ++ body) ≡ some (12 + p + e)
  unfolding node_ptrs
  node_ptrs-head h k = rw (get_prefix_length-head h, get_edgecount-head k) refl
