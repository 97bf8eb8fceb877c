-- ===== src/Mutex.antt =====
-- kernel/mutex.c: a lock that is taken and given back with interrupts masked.
pub mod Exclusion
mod Tests
use nos.Prelude.{List, [], ◌∷◌, Option, none, some, Bool, true, false, not, if◌then◌else◌}

-- `struct mutex`
pub record Mutex : Type 0 where
  pub locked : Bool

-- A round of the loop, up to the unmasking: whether the lock was taken.
unfoldable pub lock_pass : Mutex → Bool × Mutex
lock_pass mutex = if not mutex.locked then (true, record { locked = true }) else (false, mutex)

-- What the other tasks do to the lock during each task_switch is an argument; `none` is a task that
-- still waits after the last of them.
unfoldable pub mutex_lock : List (Mutex → Mutex) → Mutex → Option Mutex
mutex_lock [] mutex = let (taken, m) = lock_pass mutex in if taken then some m else none
mutex_lock (switch ∷ later) mutex =
    let (taken, m) = lock_pass mutex in
    let rest = mutex_lock later (switch m) in if taken then some m else rest

unfoldable pub mutex_unlock : Mutex → Mutex
mutex_unlock mutex = record { locked = false }
