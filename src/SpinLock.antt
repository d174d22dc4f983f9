-- ===== src/SpinLock.antt =====
-- Languages/cpp/locks/spin_lock.hpp: threads that take and give back a spin lock. Each access of
-- the atomic flag is one step, and the threads are interleaved in any order.
pub mod Exclusion
use study_notes.Base.{ℕ, ◌≡◌, Bool, true, false, ◌==◌, if◌then◌else◌}

-- `LockState`.
pub data LockState : Type 0 where
  locked unlocked : LockState

-- Where a thread stands: outside, in the loop of `lock`, and behind it.
pub data Place : Type 0 where
  outside spinning inside : Place

pub record System : Type 0 where
  pub state : LockState
  pub place : ℕ → Place

abbrev pub update : (ℕ → Place) → ℕ → Place → ℕ → Place
update f i p j = if j == i then p else f j

-- The constructor, with every thread outside.
abbrev pub init : System
init = record { state = unlocked; place = λ i. outside }

-- `exchange(Locked)`: what it returns, and what it leaves.
abbrev pub exchange : LockState → LockState × LockState
exchange old = (old, locked)

abbrev pub after_exchange : LockState → Place
after_exchange locked = spinning
after_exchange unlocked = inside

-- A round of the loop of `lock` by thread `i`.
unfoldable pub lock_round : System → ℕ → System
lock_round s i =
    let (old, new) = exchange s.state in
    record { state = new; place = update s.place i (after_exchange old) }

-- `unlock` by thread `i`.
unfoldable pub unlock : System → ℕ → System
unlock s i = record { state = unlocked; place = update s.place i outside }

-- `unlock` is called by the thread that is inside.
pub data Step (s : System) : System → Type 0 where
  enter_loop :
      (i : ℕ) → s.place i ≡ outside → Step s (record s { place = update s.place i spinning })
  round : (i : ℕ) → s.place i ≡ spinning → Step s (lock_round s i)
  leave : (i : ℕ) → s.place i ≡ inside → Step s (unlock s i)

pub data Reach : System → Type 0 where
  start : Reach init
  later : {s t : System} → Reach s → Step s t → Reach t
