-- ===== src/Tests/SpinLock.antt =====
-- Two threads that run for the spin lock.
use study_notes.Base.{refl, ◌==◌, if◌then◌else◌}
use study_notes.SpinLock.{
  outside, spinning, System, init, lock_round, enter_loop, round, Reach, start, later,
}
use study_notes.SpinLock.Exclusion.{Held, Reach-Held}

-- Thread 0 holds the lock, and thread 1 spins.
abbrev contended : System
contended =
    lock_round
      (record init {
        place = λ j. if j == 1 then spinning else if j == 0 then spinning else outside;
      })
      0

contended-Reach : Reach contended
contended-Reach = later (later (later start (enter_loop 0 refl)) (enter_loop 1 refl)) (round 0 refl)

Reach-Held_example : Held contended
Reach-Held_example = Reach-Held contended-Reach
