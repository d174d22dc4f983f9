-- ===== src/Tests/Radix.antt =====
-- Runs of the radix tree.
use study_notes.Base.{ℕ, zero, suc, ◌≡◌, ◌≢◌, refl, true, none, some, List, [], ◌∷◌, arith}
use study_notes.Radix.{Tree, node, nil, cons, empty, RadixTree}
use study_notes.Radix.Match.{scan, find_edge, follow, match_node, match_round, match_loop, match}
use study_notes.Radix.Count.{count}
use study_notes.Radix.Insert.{insert_at, insert}
use study_notes.Radix.Visit.{visit_keys, visit_edges, apply}
use study_notes.Radix.Shape.{IsFormed, Avoids}
use study_notes.Radix.Short.{Short}
use study_notes.Radix.Insertion.{Insertion, insert-Insertion}
use study_notes.Radix.Session.{insert_key, erase_key, contains_key, run, last_bag}
use study_notes.Radix.Answers.{Represents, run-bag}
use study_notes.Radix.Reported.{times, apply-times}
use study_notes.Radix.Erasure.{Erasure, erase-Erasure}

-- A key with a 0 behind its end.
abbrev string : List ℕ → ℕ → ℕ
string [] i = 0
string (b ∷ bs) zero = b
string (b ∷ bs) (suc i) = string bs i

abbrev car : ℕ → ℕ
car = string (3 ∷ 1 ∷ 18 ∷ [])

abbrev cat : ℕ → ℕ
cat = string (3 ∷ 1 ∷ 20 ∷ [])

abbrev ca : ℕ → ℕ
ca = string (3 ∷ 1 ∷ [])

-- "car" and "cat", the second one twice.
abbrev two_keys : RadixTree
two_keys = record {
  root = node 0 [] (
      cons 3
        (node 0 (3 ∷ 1 ∷ []) (cons 20 (node 2 (20 ∷ []) nil) (cons 18 (node 1 (18 ∷ []) nil) nil)))
        nil);
  size = 3;
}

two_keys-IsFormed : IsFormed two_keys.root
two_keys-IsFormed = record {
  root_prefix = refl;
  formed = (
    (omega arith, refl),
    tt,
    ((omega arith, refl), ((λ e. omega (arith, e)), tt), tt, ((omega arith, refl), tt, tt, tt)),
    tt,
  );
}

abbrev byte : (b : ℕ) → suc b ≢ 0
byte b e = omega (arith, e)

two_keys-Avoids : Avoids 0 two_keys.root
two_keys-Avoids =
    (tt, (((byte 2, (byte 0, tt)), (((byte 19, tt), tt), (((byte 17, tt), tt), tt))), tt))

two_keys-Short : Short 0 two_keys.root
two_keys-Short = (omega arith, ((omega arith, ((omega arith, tt), ((omega arith, tt), tt))), tt))

runs_insert :
    insert two_keys ca 2
    ≡ some (
      record {
        root = node 0 [] (
            cons 3
              (node 1
                (3 ∷ 1 ∷ [])
                (cons 20 (node 2 (20 ∷ []) nil) (cons 18 (node 1 (18 ∷ []) nil) nil)))
              nil);
        size = 4;
      },
      true,
    )
unfolding insert match match_loop match_round match_node scan follow find_edge insert_at
runs_insert = refl

runs_apply : apply two_keys ≡ (3 ∷ 1 ∷ 20 ∷ []) ∷ (3 ∷ 1 ∷ 18 ∷ []) ∷ []
unfolding apply visit_keys visit_edges
runs_apply = refl

-- A key within the prefix of an edge, whose memory goes on with the rest of that prefix.
abbrev overrun : Tree
overrun = node 0 [] (cons 3 (node 1 (3 ∷ 1 ∷ 18 ∷ []) nil) nil)

runs_overrun : insert (record { root = overrun; size = 1 }) car 2 ≡ none
unfolding insert match match_loop match_round match_node scan follow find_edge
runs_overrun = refl

insert-Insertion_example : (root' : Tree) × Insertion two_keys ca 2 root'
unfolding count
insert-Insertion_example =
    insert-Insertion two_keys ca 2 two_keys-IsFormed two_keys-Short (omega arith) two_keys-Avoids
      (byte 2, (byte 0, tt)) (omega arith) (omega arith)

erase-Erasure_example : (root' : Tree) × Erasure two_keys car 3 root'
unfolding count
erase-Erasure_example =
    erase-Erasure two_keys car 3 two_keys-IsFormed two_keys-Short two_keys-Avoids (omega arith)
      (omega arith)

apply-times_example : times (3 ∷ 1 ∷ 20 ∷ []) (apply two_keys) ≡ 1
unfolding count
apply-times_example = apply-times two_keys (3 ∷ 1 ∷ 20 ∷ []) two_keys-IsFormed

run-bag_example :
    (last : RadixTree) × (run empty (
        insert_key (3 ∷ 1 ∷ 18 ∷ [])
        ∷ insert_key (3 ∷ 1 ∷ [])
        ∷ erase_key (3 ∷ 1 ∷ 18 ∷ [])
        ∷ contains_key (3 ∷ 1 ∷ [])
        ∷ [])
      ≡ some (last, true ∷ true ∷ true ∷ true ∷ []))
    × Represents last
        (last_bag
          (λ k. 0)
          (insert_key (3 ∷ 1 ∷ 18 ∷ [])
            ∷ insert_key (3 ∷ 1 ∷ [])
            ∷ erase_key (3 ∷ 1 ∷ 18 ∷ [])
            ∷ contains_key (3 ∷ 1 ∷ [])
            ∷ []))
        4
run-bag_example =
    run-bag
      (insert_key (3 ∷ 1 ∷ 18 ∷ [])
        ∷ insert_key (3 ∷ 1 ∷ [])
        ∷ erase_key (3 ∷ 1 ∷ 18 ∷ [])
        ∷ contains_key (3 ∷ 1 ∷ [])
        ∷ [])
      (omega arith)
      (
        (omega arith, (byte 2, (byte 0, (byte 17, tt))), omega arith),
        (
          (omega arith, (byte 2, (byte 0, tt)), omega arith),
          (
            (omega arith, (byte 2, (byte 0, (byte 17, tt))), omega arith),
            ((omega arith, (byte 2, (byte 0, tt)), omega arith), tt),
          ),
        ),
      )
