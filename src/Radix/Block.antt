-- ===== src/Radix/Block.antt =====
-- Algorithm/radix-tree/radix_tree.cpp: the block of memory behind a `node` handle, for a machine
-- whose numbers have their low byte first and whose pointers have eight bytes. An access outside
-- the block and a failed assertion are `none`.
use study_notes.Base.{
  ℕ, ◌+◌, ◌-◌, ◌*◌, ◌/◌, ◌%◌, ltb, leb, Option, none, some, List, [], ◌∷◌, ◌++◌, length, take, drop,
  if◌then◌else◌,
}

infixl 5 ◌>>=◌
abbrev pub ◌>>=◌ {ℓ κ} : {A : Type ℓ} {B : Type κ} → Option A → (A → Option B) → Option B
none >>= f = none
some a >>= f = f a

abbrev pub Block : Type 0
Block = List ℕ

-- The bytes of a number, and the number.
abbrev pub u32 : ℕ → List ℕ
u32 n = n % 256 ∷ n / 256 % 256 ∷ n / 65536 % 256 ∷ n / 16777216 % 256 ∷ []

abbrev pub of_bytes : List ℕ → ℕ
of_bytes [] = 0
of_bytes (b ∷ bs) = b + 256 * of_bytes bs

-- `memcpy` from a block and into it.
unfoldable pub get_bytes : Block → ℕ → ℕ → Option (List ℕ)
get_bytes mem i n = if leb (i + n) (length mem) then some (take n (drop i mem)) else none

unfoldable pub put_bytes : Block → ℕ → List ℕ → Option Block
put_bytes mem i bytes =
    if leb (i + length bytes) (length mem)
    then some (take i mem ++ (bytes ++ drop (i + length bytes) mem))
    else none

-- `memmove` within a block.
unfoldable pub memmove : Block → ℕ → ℕ → ℕ → Option Block
memmove mem dest src n = get_bytes mem src n >>= λ bytes. put_bytes mem dest bytes

abbrev pub get_u32 : Block → ℕ → Option ℕ
get_u32 mem i = get_bytes mem i 4 >>= λ bytes. some (of_bytes bytes)

unfoldable pub get_refcount : Block → Option ℕ
get_refcount mem = get_u32 mem 0

unfoldable pub put_refcount : Block → ℕ → Option Block
put_refcount mem value = put_bytes mem 0 (u32 value)

unfoldable pub get_prefix_length : Block → Option ℕ
get_prefix_length mem = get_u32 mem 4

unfoldable pub put_prefix_length : Block → ℕ → Option Block
put_prefix_length mem value = put_bytes mem 4 (u32 value)

unfoldable pub get_edgecount : Block → Option ℕ
get_edgecount mem = get_u32 mem 8

unfoldable pub put_edgecount : Block → ℕ → Option Block
put_edgecount mem value = put_bytes mem 8 (u32 value)

-- `prefix()`, `first_bytes()` and `node_ptrs()`: where they start in the block.
abbrev pub prefix_start : ℕ
prefix_start = 12

unfoldable pub first_bytes : Block → Option ℕ
first_bytes mem = get_prefix_length mem >>= λ n. some (prefix_start + n)

unfoldable pub node_ptrs : Block → Option ℕ
node_ptrs mem =
    get_prefix_length mem >>= λ n. get_edgecount mem >>= λ e. some (prefix_start + n + e)

-- The first bytes of the memory that an argument points to; `none` where there are fewer.
abbrev pub first_of : ℕ → List ℕ → Option (List ℕ)
first_of n bytes = if leb n (length bytes) then some (take n bytes) else none

unfoldable pub set_prefix : Block → List ℕ → Option Block
set_prefix mem bytes =
    get_prefix_length mem >>= λ n. first_of n bytes >>= λ xs. put_bytes mem prefix_start xs

unfoldable pub set_first_bytes : Block → List ℕ → Option Block
set_first_bytes mem bytes = get_edgecount mem >>= λ e.
    first_bytes mem >>= λ i. first_of e bytes >>= λ xs. put_bytes mem i xs

unfoldable pub set_node_ptrs : Block → List ℕ → Option Block
set_node_ptrs mem ptrs = get_edgecount mem >>= λ e.
    node_ptrs mem >>= λ i. first_of (e * 8) ptrs >>= λ xs. put_bytes mem i xs

-- The assertion that an index is one of an edge.
abbrev pub in_edges : Block → ℕ → Option (Unit {0})
in_edges mem i = get_edgecount mem >>= λ e. if ltb i e then some tt else none

unfoldable pub first_byte_at : Block → ℕ → Option (List ℕ)
first_byte_at mem i = in_edges mem i >>= λ _. first_bytes mem >>= λ k. get_bytes mem (k + i) 1

unfoldable pub node_at : Block → ℕ → Option (List ℕ)
node_at mem i = in_edges mem i >>= λ _. node_ptrs mem >>= λ k. get_bytes mem (k + i * 8) 8

unfoldable pub set_first_byte_at : Block → ℕ → ℕ → Option Block
set_first_byte_at mem i byte =
    in_edges mem i >>= λ _. first_bytes mem >>= λ k. put_bytes mem (k + i) (byte ∷ [])

-- `n` is a pointer, by its bytes.
unfoldable pub set_node_at : Block → ℕ → List ℕ → Option Block
set_node_at mem i n = in_edges mem i >>= λ _. node_ptrs mem >>= λ k. put_bytes mem (k + i * 8) n

unfoldable pub set_edge_at : Block → ℕ → ℕ → List ℕ → Option Block
set_edge_at mem i byte n = set_first_byte_at mem i byte >>= λ d. set_node_at d i n

abbrev pub size_of : ℕ → ℕ → ℕ
size_of prefix_length edgecount = 12 + prefix_length + edgecount * 9

-- `realloc` keeps what fits; `fresh` is what the memory behind it holds.
unfoldable pub resize : (ℕ → List ℕ) → Block → ℕ → ℕ → Option Block
resize fresh mem prefix_length edgecount =
    let sz = size_of prefix_length edgecount in
    put_prefix_length (take sz mem ++ fresh (sz - length mem)) prefix_length >>= λ d.
    put_edgecount d edgecount

-- `fresh` is what `malloc` gives.
unfoldable pub make_node : (ℕ → List ℕ) → ℕ → ℕ → ℕ → Option Block
make_node fresh refs bytes edges = put_refcount (fresh (size_of bytes edges)) refs >>= λ d.
    put_prefix_length d bytes >>= λ e. put_edgecount e edges

-- `insert`: room for one more edge, and the edge.
unfoldable pub add_edge : (ℕ → List ℕ) → Block → ℕ → List ℕ → Option Block
add_edge fresh mem byte n = get_prefix_length mem >>= λ p. get_edgecount mem >>= λ e.
    resize fresh mem p (e + 1) >>= λ grown. node_ptrs grown >>= λ k. get_edgecount grown >>= λ e'.
    memmove grown k (k - 1) ((e' - 1) * 8) >>= λ moved. set_edge_at moved (e' - 1) byte n

-- `insert`: the node with what is behind the first `j` bytes of the prefix, and the edges.
unfoldable pub split_off : (ℕ → List ℕ) → Block → ℕ → Option Block
split_off fresh mem j = get_refcount mem >>= λ r. get_prefix_length mem >>= λ p.
    get_edgecount mem >>= λ e. make_node fresh r (p - j) e >>= λ d.
    set_prefix d (drop (prefix_start + j) mem) >>= λ d'. first_bytes mem >>= λ k.
    set_first_bytes d' (drop k mem) >>= λ d''. node_ptrs mem >>= λ q. set_node_ptrs d'' (drop q mem)

-- `insert`: the node with the first `j` bytes of the prefix, and two edges.
unfoldable pub fork : (ℕ → List ℕ) → Block → ℕ → ℕ → List ℕ → ℕ → List ℕ → Option Block
fork fresh mem j a m b n = resize fresh mem j 2 >>= λ d.
    put_refcount d 0 >>= λ d'. set_edge_at d' 0 a m >>= λ d''. set_edge_at d'' 1 b n

-- `insert`: the node with the first `j` bytes of the prefix, one edge, and a key.
unfoldable pub raise : (ℕ → List ℕ) → Block → ℕ → ℕ → List ℕ → Option Block
raise fresh mem j a m = resize fresh mem j 1 >>= λ d. set_edge_at d 0 a m >>= λ e. put_refcount e 1

-- `erase`: the parent takes the data of its other child, behind both prefixes.
unfoldable pub absorb : (ℕ → List ℕ) → Block → Block → Option Block
absorb fresh mem child = get_prefix_length mem >>= λ old. get_prefix_length child >>= λ p.
    get_edgecount child >>= λ e. resize fresh mem (old + p) e >>= λ d.
    get_bytes child prefix_start p >>= λ xs. put_bytes d (prefix_start + old) xs >>= λ d1.
    first_bytes child >>= λ k. set_first_bytes d1 (drop k child) >>= λ d2. node_ptrs child >>= λ q.
    set_node_ptrs d2 (drop q child) >>= λ d3. get_refcount child >>= λ r. put_refcount d3 r

-- `erase`: the last edge is moved to edge `i`, and its place is given up.
unfoldable pub remove_at : (ℕ → List ℕ) → Block → ℕ → Option Block
remove_at fresh mem i = get_edgecount mem >>= λ e. first_byte_at mem (e - 1) >>= λ b.
    node_at mem (e - 1) >>= λ n. set_edge_at mem i (of_bytes b) n >>= λ d. node_ptrs d >>= λ k.
    memmove d (k - 1) k (e * 8) >>= λ moved.
    get_prefix_length moved >>= λ p. resize fresh moved p (e - 1)
