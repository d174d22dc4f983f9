-- ===== src/Tests/Cluster.antt =====
-- Runs of the split and of the cluster manager.
use study_notes.Base.{
  ℕ, ◌≡◌, refl, Bool, true, false, ◌&&◌, ◌||◌, none, some, List, [], ◌∷◌, ◌++◌, arith, ◌==◌,
  if◌then◌else◌,
}
use study_notes.Cluster.Split.{find_char, strip, find_string, split_loop, split}
use study_notes.Cluster.Parts.{join, nonempty_parts, AllFree, search_for, split-join}
use study_notes.Cluster.Manager.{
  zok, znonode, running, Manager, Zookeeper, new_manager, slash, create_parents,
  trigger_master_event,
}
use study_notes.Cluster.Life.{is_sound, Reach-is_sound, initialized_with, started_up, fresh, later}
use study_notes.Cluster.Manager.{initialize, start}
use study_notes.Cluster.Trigger.{trigger_master_event-throws}
use study_notes.Cluster.Creation.{Serves, AllThere, create_parents-AllThere}

-- "/a//b", with the slash as 47.
abbrev path : List ℕ
path = 47 ∷ 97 ∷ 47 ∷ 47 ∷ 98 ∷ []

runs_split : split (47 ∷ []) false path ≡ some ((97 ∷ []) ∷ (98 ∷ []) ∷ [])
unfolding split split_loop find_char
runs_split = refl

runs_split_string : split (47 ∷ 47 ∷ []) true path ≡ some ((47 ∷ 97 ∷ []) ∷ (98 ∷ []) ∷ [])
unfolding split split_loop find_string strip
runs_split_string = refl

split-join_example :
    (parts : List (List ℕ)) × (split (47 ∷ []) true path ≡ some parts)
    × (join (47 ∷ []) parts ≡ path)
    × AllFree (search_for (47 ∷ [])) parts
    × (split (47 ∷ []) false path ≡ some (nonempty_parts parts))
split-join_example = split-join (47 ∷ []) path (omega arith)

trigger_master_event-throws_example :
    trigger_master_event (λ n h. h == 7) 20 0 (5 ∷ 7 ∷ 8 ∷ []) ≡ none
trigger_master_event-throws_example =
    trigger_master_event-throws (λ n h. h == 7) 20 0 (5 ∷ []) (8 ∷ []) 7 (λ n. refl)

-- Servers that keep the list of their nodes.
abbrev same : List ℕ → List ℕ → Bool
same [] [] = true
same [] (y ∷ ys) = false
same (x ∷ xs) [] = false
same (x ∷ xs) (y ∷ ys) = x == y && same xs ys

same_self : (xs : List ℕ) → same xs xs ≡ true
same_self [] = refl
same_self (x ∷ xs) = ground (arith, same_self xs)

abbrev has : List (List ℕ) → List ℕ → Bool
has [] p = false
has (q ∷ s) p = same p q || has s p

abbrev zk : Zookeeper (List (List ℕ))
zk = record {
  zookeeper_init = λ s hosts timeout. (s, true);
  zoo_exists = λ s p. (s, if has s p then zok else znonode);
  zoo_create = λ s p. (p ∷ s, zok);
  zoo_get_children = λ s p. (s, (zok, []));
}

zk-Serves : Serves zk has
zk-Serves = record {
  exists_state = λ s p. refl;
  exists_code = λ s p. refl;
  create_code = λ s p part above missing. refl;
  create_adds = λ s p part above. ground (arith, same_self (p ++ slash ∷ part));
  create_keeps = λ s p q h. ground (arith, h);
}

create_parents-AllThere_example :
    AllThere
      (has (create_parents zk ((47 ∷ 97 ∷ []) ∷ []) [] ((97 ∷ []) ∷ (98 ∷ []) ∷ []) znonode).0)
      []
      ((97 ∷ []) ∷ (98 ∷ []) ∷ [])
    × ((create_parents zk ((47 ∷ 97 ∷ []) ∷ []) [] ((97 ∷ []) ∷ (98 ∷ []) ∷ []) znonode).1 ≡ zok)
create_parents-AllThere_example =
    create_parents-AllThere zk has zk-Serves ((47 ∷ 97 ∷ []) ∷ []) (97 ∷ []) ((98 ∷ []) ∷ [])
      znonode

-- A manager of the node "a" or "b" below "/b".
abbrev manager_of : ℕ → Manager
manager_of c = record new_manager {
  run_state = running;
  has_handle = true;
  hosts = 104 ∷ [];
  path = 47 ∷ 98 ∷ [];
  node = c ∷ [];
}

-- A manager that is initialized with "h", "/p" and "n", and started.
abbrev begun : List (List ℕ) × Manager
begun = (
  (initialize zk [] new_manager (104 ∷ []) (47 ∷ 112 ∷ []) (110 ∷ []) 10).0,
  (initialize zk [] new_manager (104 ∷ []) (47 ∷ 112 ∷ []) (110 ∷ []) 10).1.0,
)

Reach-is_sound_example : is_sound (start zk begun.0 begun.1).1.0 ≡ true
Reach-is_sound_example =
    Reach-is_sound zk (start zk begun.0 begun.1).0 (start zk begun.0 begun.1).1.0 (
      later
        (later (fresh [])
          (initialized_with [] new_manager (104 ∷ []) (47 ∷ 112 ∷ []) (110 ∷ []) 10))
        (started_up begun.0 begun.1))
