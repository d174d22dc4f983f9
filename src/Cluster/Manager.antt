-- ===== src/Cluster/Manager.antt =====
-- Languages/cpp/15_zookeeper_multi_thread_demo/cluster_manager.h and cluster_manager.cpp: the
-- cluster manager. ZooKeeper's calls are parameters, on a state of the servers; a string is the
-- list of its characters.
use study_notes.Base.{
  ℕ, zero, suc, Bool, true, false, not, ◌&&◌, ◌||◌, Option, none, some, List, [], ◌∷◌, ◌++◌,
  if◌then◌else◌,
}
use study_notes.Base.Int.{ℤ, pos, negsuc}
use study_notes.Cluster.Split.{nonempty, split}

-- The results that the code tells apart: `ZOK`, `ZNONODE`, and any other number.
pub data Rc : Type 0 where
  zok znonode : Rc
  code : ℤ → Rc

abbrev pub is_zok : Rc → Bool
is_zok zok = true
is_zok _ = false

abbrev pub is_znonode : Rc → Bool
is_znonode znonode = true
is_znonode _ = false

pub record Zookeeper (S : Type 0) : Type 0 where
  pub zookeeper_init : S → List ℕ → ℕ → S × Bool
  pub zoo_exists : S → List ℕ → S × Rc
  pub zoo_create : S → List ℕ → S × Rc
  pub zoo_get_children : S → List ℕ → S × (Rc × List (List ℕ))

-- `EN_State`.
pub data RunState : Type 0 where
  unknown initialized started running stopped : RunState

-- `EN_NodeMode`.
pub data NodeMode : Type 0 where
  leader follower other : NodeMode

pub record Manager : Type 0 where
  pub run_state : RunState
  pub node_mode : NodeMode
  pub has_handle : Bool
  pub hosts : List ℕ
  pub path : List ℕ
  pub node : List ℕ
  pub timeout : ℕ
  pub event_handlers : List ℕ

abbrev pub new_manager : Manager
new_manager = record {
  run_state = unknown;
  node_mode = other;
  has_handle = false;
  hosts = [];
  path = [];
  node = [];
  timeout = 10;
  event_handlers = [];
}

abbrev pub is_up : RunState → Bool
is_up initialized = true
is_up started = true
is_up running = true
is_up _ = false

abbrev pub is_initialized : RunState → Bool
is_initialized initialized = true
is_initialized _ = false

-- `'/'`.
abbrev pub slash : ℕ
slash = 47

module _ {S : Type 0} (zk : Zookeeper S) where
  unfoldable pub initialize : S → Manager → List ℕ → List ℕ → List ℕ → ℕ → S × (Manager × ℤ)
  initialize s m hosts path node timeout =
      if is_up m.run_state
      then (s, (m, pos 0))
      else if not (nonempty hosts) || not (nonempty path)
      then (s, (m, negsuc 0))
      else (let (s', made) = zk.zookeeper_init s hosts timeout in
          if not made then (s', (m, negsuc 1)) else (
            s',
            (
              record m {
                run_state = initialized;
                has_handle = true;
                hosts = hosts;
                path = path;
                node = node;
                timeout = timeout;
              },
              pos 0,
            ),
          ))

  -- The loop of `createNode` over the parts of the path, behind `zk_path`.
  unfoldable pub create_parents : S → List ℕ → List (List ℕ) → Rc → S × Rc
  create_parents s zk_path [] res = (s, res)
  create_parents s zk_path (part ∷ parts) res =
      let next = zk_path ++ slash ∷ part in
      let (s1, there) = zk.zoo_exists s next in
      let (s2, made) = zk.zoo_create s1 next in
      let with_it = create_parents s1 next parts there in
      let with_new = create_parents s2 next parts made in
      if is_znonode there
      then (if is_zok made then with_new else (s2, code (negsuc 1)))
      else with_it

  abbrev or_none : Option (List (List ℕ)) → List (List ℕ)
  or_none none = []
  or_none (some parts) = parts

  -- The result of `zoo_get_children` is lost: the next call of `zoo_exists` writes over it.
  unfoldable pub create_node : S → Manager → List ℕ → List ℕ → S × Rc
  create_node s m path node =
      if m.has_handle && nonempty path && nonempty node
      then (let (s1, there) = zk.zoo_exists s path in
          let (s2, _) =
            (if is_znonode there
              then create_parents s1 [] (or_none (split (slash ∷ []) false path)) there
              else (s1, there)) in
          let (s3, _) = zk.zoo_get_children s2 m.path in
          let zk_path = path ++ slash ∷ node in
          let (s4, at_node) = zk.zoo_exists s3 zk_path in
          if is_znonode at_node then zk.zoo_create s4 zk_path else (s4, at_node))
      else (s, code (negsuc 0))

  unfoldable pub start : S → Manager → S × (Manager × Rc)
  unfolding create_node
  start s m =
      if is_initialized m.run_state
      then (let (s', res) = create_node s m m.path m.node in
          (s', ((if is_zok res then record m { run_state = running } else m), res)))
      else (s, (m, code (negsuc 0)))

abbrev pub register : Manager → ℕ → Manager
register m handler = record m { event_handlers = m.event_handlers ++ handler ∷ [] }

abbrev pub stop : Manager → Manager
stop m = record m { event_handlers = []; has_handle = false; run_state = stopped }

abbrev pub de_initialize : Manager → Manager
de_initialize m = record m { event_handlers = []; has_handle = false; run_state = unknown }

-- `triggerMasterEvent` from the handler at the iterator on: the calls that it makes. Whether a
-- call throws is the handler's matter, told by the number of the calls before it. `none` means
-- that fuel ran out.
unfoldable pub trigger_master_event : (ℕ → ℕ → Bool) → ℕ → ℕ → List ℕ → Option (List ℕ)
trigger_master_event throws zero calls handlers = none
trigger_master_event throws (suc fuel) calls [] = some []
trigger_master_event throws (suc fuel) calls (handler ∷ handlers) =
    let again = trigger_master_event throws fuel (suc calls) (handler ∷ handlers) in
    let next = trigger_master_event throws fuel (suc calls) handlers in
    elim (if throws calls handler then again else next) [
      | none ↦ none
      | some called ↦ some (handler ∷ called)
    ]
