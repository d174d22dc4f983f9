-- ===== src/Cluster/Life.antt =====
-- The watcher of cluster_manager.cpp, and the life of a manager: its calls and events, in any order.
use study_notes.Base.{
  ℕ, zero, suc, ◌≡◌, refl, Bool, true, false, not, ◌&&◌, ◌||◌, Option, none, some, List, [], ◌∷◌,
  arith, if◌then◌else◌,
}
use study_notes.Cluster.Split.{nonempty}
use study_notes.Cluster.Manager.{
  Rc, Zookeeper, unknown, NodeMode, other, Manager, new_manager, is_up, initialize, start, register,
  stop, de_initialize,
}
use mathlib.Core.Path.{subst}
use study_notes.Cluster.Watcher.{
  on_child_event, on_session_event, reconnect, Session, expired, auth_failed, closing, connected,
  is_other, is_running,
}

-- The type of an event, with the state of the session or the path of the node.
pub data WatchEvent : Type 0 where
  session_event : Session → WatchEvent
  child_event : List ℕ → WatchEvent
  other_event : WatchEvent

-- A manager that is up has a session, and names for the servers and the path.
abbrev pub is_sound : Manager → Bool
is_sound m = not (is_up m.run_state) || (m.has_handle && (nonempty m.hosts && nonempty m.path))

module _ {S : Type 0} (zk : Zookeeper S) where
  -- `watcher`: the servers and the manager, and what the handlers are called with; `seen` and `fuel`
  -- are for the loop that follows an expired session.
  unfoldable pub watcher :
      (ℕ → NodeMode) → ℕ → S → Manager → WatchEvent → Option (S × (Manager × Option Bool))
  watcher seen fuel s m (session_event state) = elim (on_session_event zk seen fuel s m state) [
    | none ↦ none
    | some (s', m') ↦ some (s', (m', none))
  ]
  watcher seen fuel s m (child_event path) =
      let (s', (res, children)) = zk.zoo_get_children s path in
      some (s', on_child_event m res children)
  watcher seen fuel s m other_event = some (s, (m, none))

  initialize-is_sound :
      (s : S) (m : Manager) (hosts path node : List ℕ) (timeout : ℕ)
      → is_sound m ≡ true
      → is_sound (initialize zk s m hosts path node timeout).1.0 ≡ true
  unfolding initialize
  initialize-is_sound s m hosts path node timeout h = ground (arith, h)

  start-is_sound : (s : S) (m : Manager) → is_sound m ≡ true → is_sound (start zk s m).1.0 ≡ true
  unfolding start
  start-is_sound s m h = ground (arith, h)

  -- What is sound where a result is given.
  abbrev SoundResult : Option (S × Manager) → Type 0
  SoundResult none = Unit
  SoundResult (some (s, m)) = is_sound m ≡ true

  either :
      (a b : Bool) (x y z : Option (S × Manager))
      → SoundResult x
      → SoundResult y
      → SoundResult z
      → SoundResult (if a then x else if b then y else z)
  either true b x y z f g h = f
  either false true x y z f g h = g
  either false false x y z f g h = h

  reconnect-SoundResult :
      (seen : ℕ → NodeMode) (fuel round : ℕ) (s : S) (m : Manager)
      → is_sound m ≡ true
      → SoundResult (reconnect zk seen fuel round s m)
  unfolding reconnect
  reconnect-SoundResult seen zero round s m h = tt
  reconnect-SoundResult seen (suc fuel) round s m h =
      let cleared = record m { node_mode = seen round; run_state = unknown } in
      let (s1, (m1, _)) = initialize zk s cleared m.hosts m.path m.node m.timeout in
      let (s2, (m2, _)) = start zk s1 m1 in
      let one = initialize-is_sound s cleared m.hosts m.path m.node m.timeout refl in
      let two = start-is_sound s1 m1 one in
      either (not (is_other (seen round))) (is_running m2.run_state) _ _ _ h
        (reconnect-SoundResult seen fuel (suc round) s2 m2 two) two

  on_session_event-SoundResult :
      (seen : ℕ → NodeMode) (fuel : ℕ) (s : S) (m : Manager) (state : Session)
      → is_sound m ≡ true
      → SoundResult (on_session_event zk seen fuel s m state)
  unfolding on_session_event
  on_session_event-SoundResult seen fuel s m expired h =
      reconnect-SoundResult seen fuel 0 s (record m { node_mode = other }) h
  on_session_event-SoundResult seen fuel s m auth_failed h = h
  on_session_event-SoundResult seen fuel s m closing h = h
  on_session_event-SoundResult seen fuel s m connected h = h

  on_child_event-is_sound :
      (m : Manager) (res : Rc) (children : List (List ℕ))
      → is_sound m ≡ true
      → is_sound (on_child_event m res children).0 ≡ true
  unfolding on_child_event
  on_child_event-is_sound m res [] h = h
  on_child_event-is_sound m res (first ∷ children) h = ground (arith, h)

  -- The manager behind an event.
  abbrev pub manager_of : Option (S × (Manager × Option Bool)) → Option (S × Manager)
  manager_of none = none
  manager_of (some (s, (m, called))) = some (s, m)

  watcher-SoundResult :
      (seen : ℕ → NodeMode) (fuel : ℕ) (s : S) (m : Manager) (event : WatchEvent)
      → is_sound m ≡ true
      → SoundResult (manager_of (watcher seen fuel s m event))
  unfolding watcher
  watcher-SoundResult seen fuel s m (session_event state) h =
      session (on_session_event zk seen fuel s m state)
        (on_session_event-SoundResult seen fuel s m state h)
    where
      session :
          (o : Option (S × Manager))
          → SoundResult o
          → SoundResult
              (manager_of (elim o [ none ↦ none | some (s', m') ↦ some (s', (m', none)) ]))
      session none r = tt
      session (some (s', m')) r = r
  watcher-SoundResult seen fuel s m (child_event path) h =
      on_child_event-is_sound m (zk.zoo_get_children s path).1.0 (zk.zoo_get_children s path).1.1 h
  watcher-SoundResult seen fuel s m other_event h = h

  -- A call, an event, or a change of the servers.
  pub data Step : S × Manager → S × Manager → Type 0 where
    initialized_with :
        (s : S) (m : Manager) (hosts path node : List ℕ) (timeout : ℕ)
        → Step
            (s, m)
            (
              (initialize zk s m hosts path node timeout).0,
              (initialize zk s m hosts path node timeout).1.0,
            )
    started_up : (s : S) (m : Manager) → Step (s, m) ((start zk s m).0, (start zk s m).1.0)
    registered : (s : S) (m : Manager) (handler : ℕ) → Step (s, m) (s, register m handler)
    halted : (s : S) (m : Manager) → Step (s, m) (s, stop m)
    undone : (s : S) (m : Manager) → Step (s, m) (s, de_initialize m)
    watched :
        (s s' : S) (m m' : Manager) (seen : ℕ → NodeMode) (fuel : ℕ) (event : WatchEvent)
        → manager_of (watcher seen fuel s m event) ≡ some (s', m')
        → Step (s, m) (s', m')
    served : (s s' : S) (m : Manager) → Step (s, m) (s', m)

  pub data Reach : S × Manager → Type 0 where
    fresh : (s : S) → Reach (s, new_manager)
    later : {a b : S × Manager} → Reach a → Step a b → Reach b

  Step-is_sound : (a b : S × Manager) → Step a b → is_sound a.1 ≡ true → is_sound b.1 ≡ true
  Step-is_sound _ _ (initialized_with s m hosts path node timeout) h =
      initialize-is_sound s m hosts path node timeout h
  Step-is_sound _ _ (started_up s m) h = start-is_sound s m h
  Step-is_sound _ _ (registered s m handler) h = h
  Step-is_sound _ _ (halted s m) h = refl
  Step-is_sound _ _ (undone s m) h = refl
  Step-is_sound _ _ (watched s s' m m' seen fuel event e) h =
      subst SoundResult e (watcher-SoundResult seen fuel s m event h)
  Step-is_sound _ _ (served s s' m) h = h

  -- In every state that a manager gets to by its calls and by events, in any order, however the
  -- servers change meanwhile: where it is initialized or running, it has a session, and names for
  -- the servers and the path.
  pub Reach-is_sound : (s : S) (m : Manager) → Reach (s, m) → is_sound m ≡ true
  Reach-is_sound s m r = go (s, m) r
    where
      go : (a : S × Manager) → Reach a → is_sound a.1 ≡ true
      go _ (fresh t) = refl
      go _ (later {a} {b} r step) = Step-is_sound a b step (go a r)
