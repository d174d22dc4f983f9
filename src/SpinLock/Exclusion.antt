-- ===== src/SpinLock/Exclusion.antt =====
-- At most one thread holds the spin lock, and the flag tells whether one does.
use study_notes.Base.{ℕ, ◌≡◌, ◌≢◌, refl, arith}
use study_notes.SpinLock.{
  locked, unlocked, inside, System, lock_round, unlock, Step, enter_loop, round, leave, Reach,
  start, later,
}

-- Who holds the lock, when it is held.
pub data Held (s : System) : Type 0 where
  nobody : s.state ≡ unlocked → ((j : ℕ) → s.place j ≢ inside) → Held s
  holder :
      (i : ℕ)
      → s.state ≡ locked
      → s.place i ≡ inside
      → ((j : ℕ) → s.place j ≡ inside → j ≡ i)
      → Held s

Step-Held : {s t : System} → Step s t → Held s → Held t
unfolding lock_round unlock
Step-Held (enter_loop i e) (nobody free none_in) =
    nobody free (λ j q. none_in j (ground (arith, q)))
Step-Held (enter_loop i e) (holder h taken in_h only) =
    holder h taken (ground (arith, e, in_h)) (λ j q. only j (ground (arith, q)))
Step-Held (round i e) (nobody free none_in) =
    holder i refl (ground (arith, free)) (λ j q. ground (arith, q, none_in j))
Step-Held (round i e) (holder h taken in_h only) =
    holder h refl (ground (arith, taken, e, in_h)) (λ j q. only j (ground (arith, q, taken)))
Step-Held (leave i e) (nobody free none_in) = absurd (none_in i e)
Step-Held (leave i e) (holder h taken in_h only) =
    nobody refl (λ j q. ground (arith, q, only i e, only j))

-- In every state that is reached, the flag is unlocked and no thread is inside, or it is locked and
-- exactly one is.
pub Reach-Held : {s : System} → Reach s → Held s
Reach-Held start = nobody refl (λ j. cc)
Reach-Held (later r step) = Step-Held step (Reach-Held r)
