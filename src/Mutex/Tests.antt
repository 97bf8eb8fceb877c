-- ===== src/Mutex/Tests.antt =====
-- Two tasks and one lock.
use nos.Prelude.{◌≡◌, ◌≤◌, refl, [], ◌∷◌, length, some, true, false, not, ◌==◌}
use nos.Mutex.{lock_pass, mutex_lock, mutex_unlock}
use nos.Mutex.Exclusion.{World, Step, Reach, mutex_excludes, mutex_lock-after}

abbrev start : World
start = record { mutex = record { locked = false }; holders = [] }

abbrev held : World
held = record { mutex = record { locked = true }; holders = 4 ∷ [] }

-- Task 4 takes the lock, and task 5 tries.
held-Reach : Reach start held
unfolding lock_pass
held-Reach = Reach.next held held (Reach.next start held Reach.here (Step.tries 4)) (Step.tries 5)

mutex_excludes_example : (length held.holders ≤ 1) × (true ≡ not (length held.holders == 0))
mutex_excludes_example = mutex_excludes held held-Reach

mutex_lock-after_example :
    mutex_lock ((λ m. m) ∷ (mutex_unlock ∷ [])) (record { locked = true })
    ≡ some (record { locked = true })
unfolding mutex_unlock
mutex_lock-after_example =
    mutex_lock-after 2 ((λ m. m) ∷ (mutex_unlock ∷ [])) (record { locked = true }) refl
