-- ===== src/Keywords.antt =====
-- Algorithm/ac_automation.cpp: the automaton that looks for words in a text. A node is the path to
-- it, the bytes of its edges from the root on, so that the root is the empty path; the tree is what
-- the fields of its nodes are, but for the level, which is only printed.
pub mod Insert
pub mod Suffix
pub mod Fail
pub mod Child
pub mod Levels
pub mod Build
pub mod Grow
pub mod Misses
use study_notes.Base.{
  ℕ, zero, suc, ◌+◌, ◌==◌, ltb, Bool, true, false, not, ◌&&◌, Option, none, some, List, [], ◌∷◌,
  ◌++◌, length, if◌then◌else◌,
}

abbrev pub maxn : ℕ
maxn = 127

-- `Trie`: which nodes there are, and their fields.
pub record Trie : Type 0 where
  pub has : List ℕ → Bool
  pub is_word : List ℕ → Bool
  pub is_marked : List ℕ → Bool
  pub fail_ptr : List ℕ → Option (List ℕ)

abbrev pub equal : List ℕ → List ℕ → Bool
equal [] [] = true
equal [] (y ∷ ys) = false
equal (x ∷ xs) [] = false
equal (x ∷ xs) (y ∷ ys) = x == y && equal xs ys

abbrev pub set {ℓ} : {A : Type ℓ} → (List ℕ → A) → List ℕ → A → List ℕ → A
set f p a q = if equal q p then a else f q

-- `create_node`, where it is put.
abbrev pub create_node : Trie → List ℕ → Trie
create_node t p = record {
  has = set t.has p true;
  is_word = set t.is_word p false;
  is_marked = set t.is_marked p false;
  fail_ptr = set t.fail_ptr p none;
}

-- The root that `main` makes.
abbrev pub new_trie : Trie
new_trie =
    create_node
      record {
        has = λ p. false;
        is_word = λ p. false;
        is_marked = λ p. false;
        fail_ptr = λ p. none;
      }
      []

-- A round of the loop of `insert_tree`: the child, made where it is missing.
unfoldable pub made_child : Trie → List ℕ → Trie
made_child t child = if t.has child then t else create_node t child

-- The loop of `insert_tree` from a node on; `none` is an index out of bounds.
unfoldable pub insert_loop : Trie → List ℕ → List ℕ → Option Trie
insert_loop t cur [] = some (record t { is_word = set t.is_word cur true })
insert_loop t cur (ch ∷ words) =
    let rest = insert_loop (made_child t (cur ++ ch ∷ [])) (cur ++ ch ∷ []) words in
    if ltb ch maxn then rest else none

-- `insert_tree`.
unfoldable pub insert_tree : Trie → List ℕ → Option Trie
insert_tree t words = insert_loop t [] words

abbrev pub fail_of : Trie → Option (List ℕ) → Option (List ℕ)
fail_of t none = none
fail_of t (some p) = t.fail_ptr p

-- The loop of `do_find_fail_ptr` from a pointer on, on fuel; the result is `none` where the fuel
-- runs out.
unfoldable pub find_fail_loop : ℕ → Trie → Option (List ℕ) → ℕ → List ℕ → Option (List ℕ)
find_fail_loop fuel t none ch default_ptr = some default_ptr
find_fail_loop zero t (some p) ch default_ptr = none
find_fail_loop (suc fuel) t (some p) ch default_ptr =
    let rest = find_fail_loop fuel t (t.fail_ptr p) ch default_ptr in
    if t.has (p ++ ch ∷ []) then some (p ++ ch ∷ []) else rest

-- `do_find_fail_ptr`.
unfoldable pub do_find_fail_ptr : Trie → List ℕ → ℕ → List ℕ → Option (List ℕ)
do_find_fail_ptr t cur ch default_ptr =
    find_fail_loop (length cur + 1) t (t.fail_ptr cur) ch default_ptr

-- `do_check_and_return_cnt`: the tree, and whether the word is counted.
unfoldable pub do_check_and_return_cnt : Trie → List ℕ → Trie × ℕ
do_check_and_return_cnt t cur =
    if t.is_word cur && not (t.is_marked cur)
    then (record t { is_marked = set t.is_marked cur true }, 1)
    else (t, 0)

abbrev pub Queue : Type 0
Queue = List (List ℕ)

-- A child that is there gets its failure pointer, and goes to the queue.
abbrev pub point_child : Trie → List ℕ → Queue → Option (List ℕ) → Option (Trie × Queue)
point_child t child q none = none
point_child t child q (some p) =
    some (record t { fail_ptr = set t.fail_ptr child (some p) }, q ++ child ∷ [])

unfoldable pub visit_child : Trie → List ℕ → ℕ → Queue → Option (Trie × Queue)
visit_child t cur i q =
    if t.has (cur ++ i ∷ [])
    then point_child t (cur ++ i ∷ []) q (do_find_fail_ptr t cur i [])
    else some (t, q)

abbrev pub go_on : {A : Type 0} → (Trie → Queue → Option A) → Option (Trie × Queue) → Option A
go_on next none = none
go_on next (some (t, q)) = next t q

-- The inner loop of `build_fail_ptr`, for `n` indexes from `i` on.
unfoldable pub visit_children : ℕ → ℕ → Trie → List ℕ → Queue → Option (Trie × Queue)
visit_children zero i t cur q = some (t, q)
visit_children (suc n) i t cur q =
    go_on (λ t' q'. visit_children n (suc i) t' cur q') (visit_child t cur i q)

-- The loop of `build_fail_ptr` over its queue, on fuel.
unfoldable pub build_loop : ℕ → Trie → Queue → Option Trie
build_loop fuel t [] = some t
build_loop zero t (cur ∷ q) = none
build_loop (suc fuel) t (cur ∷ q) =
    go_on (λ t' q'. build_loop fuel t' q') (visit_children maxn 0 t cur q)

-- `build_fail_ptr`.
unfoldable pub build_fail_ptr : ℕ → Trie → Option Trie
build_fail_ptr fuel t = build_loop fuel (record t { fail_ptr = set t.fail_ptr [] none }) ([] ∷ [])

-- The node that a failure pointer leads to is checked and counted.
abbrev pub count_back :
    (Trie → ℕ → Option (Trie × ℕ)) → Trie → ℕ → Option (List ℕ) → Option (Trie × ℕ)
count_back go t count none = none
count_back go t count (some p) = let (t', n) = do_check_and_return_cnt t p in go t' (count + n)

-- The loop of `search` that goes back to the root, on fuel: the tree, and how many words it counts;
-- `none` is a pointer that is null, or no fuel.
unfoldable pub unwind : ℕ → Trie → Option (List ℕ) → ℕ → Option (Trie × ℕ)
unwind fuel t none count = none
unwind fuel t (some []) count = some (t, count)
unwind zero t (some (x ∷ cur)) count = none
unwind (suc fuel) t (some (x ∷ cur)) count =
    count_back (λ t' n. unwind fuel t' (t.fail_ptr (x ∷ cur)) n) t count (t.fail_ptr (x ∷ cur))

-- A round of the loop of `search` from a node on: the tree, the next node, and the count.
abbrev pub Searching : Type 0
Searching = Trie × (List ℕ × ℕ)

abbrev pub at_root : Option (Trie × ℕ) → Option Searching
at_root none = none
at_root (some (t, count)) = some (t, ([], count))

unfoldable pub search_round : Searching → ℕ → Option Searching
search_round (t, (cur, count)) ch =
    if ltb ch maxn
    then (if t.has (cur ++ ch ∷ [])
        then (let (t', n) = do_check_and_return_cnt t (cur ++ ch ∷ []) in
            some (t', (cur ++ ch ∷ [], count + n)))
        else at_root (unwind (length cur) t (some cur) count))
    else none

abbrev pub next_round : (Searching → Option ℕ) → Option Searching → Option ℕ
next_round go none = none
next_round go (some s) = go s

unfoldable pub search_loop : Searching → List ℕ → Option ℕ
search_loop s [] = some s.1.1
search_loop s (ch ∷ matchs) = next_round (λ s'. search_loop s' matchs) (search_round s ch)

-- `search`: the count, or `none` for an index out of bounds or a null pointer.
unfoldable pub search_text : Trie → List ℕ → Option ℕ
search_text t matchs = search_loop (t, ([], 0)) matchs
