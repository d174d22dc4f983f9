-- ===== src/Cluster/Watcher.antt =====
-- Languages/cpp/15_zookeeper_multi_thread_demo/cluster_manager.cpp: the events of the watcher.
use study_notes.Base.{
  ℕ, zero, suc, ◌≡◌, refl, Bool, true, false, not, ◌&&◌, Option, none, some, List, [], ◌∷◌, arith,
  ◌==◌, if◌then◌else◌,
}
use study_notes.Cluster.Manager.{
  Rc, zok, is_zok, Zookeeper, RunState, unknown, running, NodeMode, leader, follower, other,
  Manager, initialize, start,
}

-- Equality of strings.
abbrev pub same_text : List ℕ → List ℕ → Bool
same_text [] [] = true
same_text [] (y ∷ ys) = false
same_text (x ∷ xs) [] = false
same_text (x ∷ xs) (y ∷ ys) = x == y && same_text xs ys

-- `onZOO_CHILD_EVENT` for the result and the children that `zoo_get_children` returns: the manager,
-- and what `triggerMasterEvent` is called with.
unfoldable pub on_child_event : Manager → Rc → List (List ℕ) → Manager × Option Bool
on_child_event m res [] = (m, none)
on_child_event m res (first ∷ children) =
    if is_zok res
    then (let is_master = same_text m.node first in
        (record m { node_mode = if is_master then leader else follower }, some is_master))
    else (m, none)

abbrev pub is_running : RunState → Bool
is_running running = true
is_running _ = false

abbrev pub is_other : NodeMode → Bool
is_other other = true
is_other _ = false

module _ {S : Type 0} (zk : Zookeeper S) where
  -- The loop that follows an expired session. The mode that a round reads may have been written by
  -- the watcher of a new session meanwhile: `seen` tells it. `none` means that fuel ran out.
  unfoldable pub reconnect : (ℕ → NodeMode) → ℕ → ℕ → S → Manager → Option (S × Manager)
  unfolding initialize start
  reconnect seen zero round s m = none
  reconnect seen (suc fuel) round s m =
      let (s1, (m1, _)) =
        initialize zk s (record m { node_mode = seen round; run_state = unknown }) m.hosts m.path
          m.node m.timeout in
      let (s2, (m2, _)) = start zk s1 m1 in
      let again = reconnect seen fuel (suc round) s2 m2 in
      if not (is_other (seen round))
      then some (s, record m { node_mode = seen round })
      else if is_running m2.run_state
      then again
      else some (s2, m2)

-- The states of a session that the code tells apart; `closing` is its 999.
pub data Session : Type 0 where
  expired auth_failed closing connected : Session

abbrev is_lost : Session → Bool
is_lost connected = false
is_lost _ = true

abbrev is_expired : Session → Bool
is_expired expired = true
is_expired _ = false

module _ {S : Type 0} (zk : Zookeeper S) where
  unfoldable pub on_session_event :
      (ℕ → NodeMode) → ℕ → S → Manager → Session → Option (S × Manager)
  unfolding reconnect
  on_session_event seen fuel s m state =
      let lost = if is_lost state then record m { node_mode = other } else m in
      if is_expired state then reconnect zk seen fuel 0 s lost else some (s, lost)

abbrev pub is_leader : NodeMode → Bool
is_leader leader = true
is_leader _ = false

same_text-both : (a b c : List ℕ) → same_text a b ≡ false → same_text a c && same_text b c ≡ false
same_text-both [] [] c d = absurd (ground (arith, d))
same_text-both [] (y ∷ b) [] d = refl
same_text-both [] (y ∷ b) (z ∷ c) d = refl
same_text-both (x ∷ a) [] [] d = refl
same_text-both (x ∷ a) [] (z ∷ c) d = ground arith
same_text-both (x ∷ a) (y ∷ b) [] d = refl
same_text-both (x ∷ a) (y ∷ b) (z ∷ c) d = ground (arith, d, same_text-both a b c)

-- Of two managers with different nodes that get the same children at an event, at least one of
-- which there is, not both lead behind it.
on_child_event-leaders :
    (m n : Manager) (first : List ℕ) (children : List (List ℕ))
    → same_text m.node n.node ≡ false
    → is_leader (on_child_event m zok (first ∷ children)).0.node_mode
        && is_leader (on_child_event n zok (first ∷ children)).0.node_mode
      ≡ false
unfolding on_child_event
on_child_event-leaders m n first children d = ground (arith, same_text-both m.node n.node first d)
