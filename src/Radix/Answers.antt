-- ===== src/Radix/Answers.antt =====
-- Every call on a radix tree answers as the multiset of strings does that the tree stands for.
use mathlib.Core.Path.{subst}
use study_notes.Base.{
  ℕ, zero, suc, ◌+◌, ◌-◌, ◌^◌, ◌≤◌, ◌<◌, ◌≡◌, refl, ◌∙◌, ap, sym, ◌%◌, Bool, some, List, [], ◌∷◌,
  length, arith, ◌⊎◌, ◌==◌, ltb, Bool-cases, inl, inr,
}
use study_notes.Radix.{RadixTree, bytes, empty}
use study_notes.Radix.Count.{count, once}
use study_notes.Radix.Short.{Short}
use study_notes.Radix.Shape.{IsFormed, Avoids, AvoidsBytes}
use study_notes.Radix.Contains.{contains-count}
use study_notes.Radix.Insertion.{insert-Insertion}
use study_notes.Radix.Erasure.{erase-Erasure, erase-missing}
use study_notes.Radix.Session.{
  Call, insert_key, erase_key, contains_key, memory, call, run, Bag, bag_after, answer_of, last_bag,
  answers_of, IsKey, IsCall, AreCalls,
}

bytes-shift :
    (f g : ℕ → ℕ) (i n : ℕ) → ((j : ℕ) → f (suc j) ≡ g j) → bytes f (suc i) n ≡ bytes g i n
bytes-shift f g i zero h = refl
bytes-shift f g i (suc n) h =
    let e : suc i + 1 ≡ suc (i + 1) = omega arith in rw (h i, e, bytes-shift f g (i + 1) n h) refl

pub bytes-memory : (k : List ℕ) → bytes (memory k) 0 (length k) ≡ k
bytes-memory [] = refl
bytes-memory (b ∷ bs) =
    let one : 0 + 1 ≡ suc 0 = refl in
    ap (◌∷◌ b)
      (bytes-shift (memory (b ∷ bs)) (memory bs) 0 (length bs) (λ j. refl) ∙ bytes-memory bs)

pub memory_end : (k : List ℕ) → memory k (length k) ≡ 0
memory_end [] = refl
memory_end (b ∷ bs) = memory_end bs

once_le : (k x : List ℕ) → once k x ≤ 1
once_le [] [] = omega arith
once_le [] (y ∷ x) = omega arith
once_le (c ∷ k) [] = omega arith
once_le (c ∷ k) (y ∷ x) = ground (arith, once_le k x)

once-other : (k x : List ℕ) → (once k x ≡ 0) ⊎ (x ≡ k)
once-other [] [] = inr refl
once-other [] (y ∷ x) = inl refl
once-other (c ∷ k) [] = inl refl
once-other (c ∷ k) (y ∷ x) = elim (Bool-cases (c == y)) [
  | inr miss ↦ rw miss (inl refl)
  | inl hit ↦
      let same : y ≡ c = ground arith in
      elim (once-other k x) [
        | inl zero_count ↦ rw hit (inl zero_count)
        | inr equal ↦ inr (rw (same, equal) refl)
      ]
]

-- Taking a string away from a bag that does not hold it.
once-absent : (k x : List ℕ) (bag : List ℕ → ℕ) → bag k ≡ 0 → bag x - once k x ≡ bag x
once-absent k x bag e = elim (once-other k x) [
  | inl zero_count ↦ rw zero_count (omega arith)
  | inr equal ↦ rw (equal, e) (omega arith)
]

-- The tree stands for the bag, after `n` calls at most.
pub record Represents (tree : RadixTree) (bag : Bag) (n : ℕ) : Type 0 where
  pub counts : (k : List ℕ) → count tree.root k ≡ bag k
  pub few : (k : List ℕ) → bag k ≤ n
  pub is_formed : IsFormed tree.root
  pub avoids : Avoids 0 tree.root
  pub short : Short 0 tree.root

-- What one call does.
record Answers (tree : RadixTree) (bag : Bag) (n : ℕ) (c : Call) : Type 0 where
  tree' : RadixTree
  returns : call tree c ≡ some (tree', answer_of bag c)
  represents : Represents tree' (bag_after bag c) (n + 1)

module _ {tree : RadixTree} {bag : Bag} {n : ℕ} (r : Represents tree bag n) (small : n + 1 < 2 ^ 32)
    (k : List ℕ) (key : IsKey k) where
  -- The byte behind the string is in no prefix.
  free : Avoids (memory k (length k)) tree.root
  free = subst (λ z. Avoids z tree.root) (sym (memory_end k)) r.avoids

  clean : AvoidsBytes (memory k (length k)) (bytes (memory k) 0 (length k))
  clean =
      subst (λ z. AvoidsBytes z (bytes (memory k) 0 (length k))) (sym (memory_end k))
        (subst (AvoidsBytes 0) (sym (bytes-memory k)) key.1)

  held : count tree.root (bytes (memory k) 0 (length k)) ≡ bag k
  held = ap (count tree.root) (bytes-memory k) ∙ r.counts k

  insert-Answers : Answers tree bag n (insert_key k)
  unfolding call
  insert-Answers =
      let (root', made) =
        insert-Insertion tree (memory k) (length k) r.is_formed r.short key.2 free clean key.0
          (omega (arith, held, r.few k)) in
      record {
        tree' = record { root = root'; size = (tree.size + 1) % 2 ^ 64 };
        returns =
            made.returns
            ∙ ap (λ b. some (record { root = root'; size = (tree.size + 1) % 2 ^ 64 }, b == 0))
                held;
        represents = record {
          counts = λ x.
              subst (λ w. count root' x ≡ bag x + once w x) (bytes-memory k)
                (omega (arith, made.adds x, r.counts x));
          few = λ x. omega (arith, once_le k x, r.few x);
          is_formed = made.is_formed;
          avoids = subst (λ z. Avoids z root') (memory_end k) made.avoids;
          short = made.short;
        };
      }

  erase-Answers : Answers tree bag n (erase_key k)
  unfolding call
  erase-Answers = elim (Bool-cases (ltb 0 (bag k))) [
    | inl there ↦
        let (root', made) =
          erase-Erasure tree (memory k) (length k) r.is_formed r.short free key.0
            (ground (arith, held, there)) in
        record {
          tree' = record { root = root'; size = (tree.size + 2 ^ 64 - 1) % 2 ^ 64 };
          returns = rw there made.returns;
          represents = record {
            counts = λ x.
                subst (λ w. count root' x ≡ bag x - once w x) (bytes-memory k)
                  (omega (arith, made.removes x, r.counts x));
            few = λ x. omega (arith, r.few x);
            is_formed = made.is_formed;
            avoids = subst (λ z. Avoids z root') (memory_end k) made.avoids;
            short = made.short;
          };
        }
    | inr missing ↦ record {
      tree' = tree;
      returns = rw missing (
          erase-missing tree (memory k) (length k) r.is_formed free key.0
            (ground (arith, held, missing)));
      represents = record {
        counts = λ x. omega (arith, r.counts x, once-absent k x bag (ground (arith, missing)));
        few = λ x. omega (arith, r.few x);
        is_formed = r.is_formed;
        avoids = r.avoids;
        short = r.short;
      };
    }
  ]

  contains-Answers : Answers tree bag n (contains_key k)
  unfolding call
  contains-Answers = record {
    tree' = tree;
    returns =
        rw (call, contains-count tree (memory k) (length k) r.is_formed free key.0)
          (ap (λ b. some (tree, ltb 0 b)) held);
    represents = record {
      counts = r.counts;
      few = λ x. omega (arith, r.few x);
      is_formed = r.is_formed;
      avoids = r.avoids;
      short = r.short;
    };
  }

call-Answers :
    (tree : RadixTree) (bag : Bag) (n : ℕ) (c : Call)
    → Represents tree bag n
    → n + 1 < 2 ^ 32
    → IsCall c
    → Answers tree bag n c
call-Answers tree bag n (insert_key k) r small key = insert-Answers r small k key
call-Answers tree bag n (erase_key k) r small key = erase-Answers r small k key
call-Answers tree bag n (contains_key k) r small key = contains-Answers r small k key

run-cons :
    (tree tree' last : RadixTree) (c : Call) (cs : List Call) (answer : Bool) (answers : List Bool)
    → call tree c ≡ some (tree', answer)
    → run tree' cs ≡ some (last, answers)
    → run tree (c ∷ cs) ≡ some (last, answer ∷ answers)
unfolding run
run-cons tree tree' last c cs answer answers e f = ground (arith, e, f)

run-Represents :
    (tree : RadixTree) (bag : Bag) (n : ℕ) (cs : List Call)
    → Represents tree bag n
    → n + length cs < 2 ^ 32
    → AreCalls cs
    → (last : RadixTree) × (run tree cs ≡ some (last, answers_of bag cs))
      × Represents last (last_bag bag cs) (n + length cs)
unfolding run
run-Represents tree bag n [] r small keys =
    let same : n + 0 ≡ n = omega arith in (tree, refl, rw same r)
run-Represents tree bag n (c ∷ cs) r small keys =
    let first = call-Answers tree bag n c r (omega arith) keys.0 in
    let (last, returns, represents) =
      run-Represents first.tree' (bag_after bag c) (n + 1) cs first.represents (omega arith)
        keys.1 in
    let total : n + suc (length cs) ≡ n + 1 + length cs = omega arith in
    (last, run-cons tree first.tree' last c cs _ _ first.returns returns, rw total represents)

count_empty_tree : (k : List ℕ) → count empty.root k ≡ 0
unfolding count
count_empty_tree [] = refl
count_empty_tree (x ∷ k) = refl

empty-Represents : Represents empty (λ k. 0) 0
empty-Represents = record {
  counts = count_empty_tree;
  few = λ k. omega arith;
  is_formed = record { root_prefix = refl; formed = tt };
  avoids = (tt, tt);
  short = (omega arith, tt);
}

-- From an empty tree, for fewer than 2 ^ 32 calls on strings of bytes other than 0 that are not
-- empty and shorter than 2 ^ 32: every call returns, with the answers of a multiset of strings, and
-- the tree counts every string as often as the multiset holds it, is formed, free of 0, and has
-- fewer than 2 ^ 32 bytes on the way to each node.
pub run-bag :
    (cs : List Call)
    → length cs < 2 ^ 32
    → AreCalls cs
    → (last : RadixTree) × (run empty cs ≡ some (last, answers_of (λ k. 0) cs))
      × Represents last (last_bag (λ k. 0) cs) (length cs)
run-bag cs small keys =
    let (last, returns, represents) =
      run-Represents empty (λ k. 0) 0 cs empty-Represents (omega arith) keys in
    let same : 0 + length cs ≡ length cs = omega arith in (last, returns, rw same at represents)
