-- ===== src/Mutex/Exclusion.antt =====
-- Any tasks that take and give back one lock, in any order.
use nos.Prelude.{
  ℕ, zero, suc, ◌≤◌, ◌≡◌, refl, sym, ap, ◌∙◌, List, [], ◌∷◌, ◌++◌, length, length-append, some,
  true, false, not, if◌then◌else◌, ◌==◌, arith, inl, inr, Bool-cases,
}
use nos.Mutex.{Mutex, lock_pass, mutex_lock, mutex_unlock}

-- The lock and the tasks between their call of `mutex_lock` and that of `mutex_unlock`.
pub record World : Type 0 where
  pub mutex : Mutex
  pub holders : List ℕ

-- A task goes through one round of `mutex_lock`, or a task that holds the lock gives it back.
pub data Step (w : World) : World → Type 0 where
  tries :
      (t : ℕ)
      → Step w (
          let (taken, m) = lock_pass w.mutex in
          if taken then record { mutex = m; holders = t ∷ w.holders } else record w { mutex = m })
  unlocks :
      (t : ℕ) (before behind : List ℕ)
      → w.holders ≡ before ++ (t ∷ behind)
      → Step w (record { mutex = mutex_unlock w.mutex; holders = before ++ behind })

pub data Reach (w : World) : World → Type 0 where
  here : Reach w w
  next : (u v : World) → Reach w u → Step u v → Reach w v

-- The lock is set just while one task holds it.
abbrev pub IsHeld : World → Type 0
IsHeld w = length w.holders ≡ (if w.mutex.locked then 1 else 0)

step-IsHeld : (w u : World) → Step w u → IsHeld w → IsHeld u
unfolding lock_pass mutex_unlock
step-IsHeld w u (tries t) h = elim (Bool-cases w.mutex.locked) [
  | inl e ↦ rw (lock_pass, e) (h ∙ rw e refl)
  | inr e ↦ rw (lock_pass, e) (let none_yet : length w.holders ≡ 0 = h ∙ rw e refl in omega arith)
]
step-IsHeld w u (unlocks t before behind e) h =
    let count = length-append before (t ∷ behind) in
    let left = length-append before behind in
    let all = ap length e in
    let most : (if w.mutex.locked then 1 else 0) ≤ 1 = ground arith in omega arith

reach-IsHeld : (w u : World) → Reach w u → IsHeld w → IsHeld u
reach-IsHeld w u here h = h
reach-IsHeld w u (next x y way step) h = step-IsHeld x u step (reach-IsHeld w x way h)

-- However tasks try and give back a lock that starts free, one round or one call at a time and in
-- any order, where only a task that holds it gives it back: at most one task holds it, and it is
-- set just while one does.
pub mutex_excludes :
    (w : World)
    → Reach (record { mutex = record { locked = false }; holders = [] }) w
    → (length w.holders ≤ 1) × (w.mutex.locked ≡ not (length w.holders == 0))
mutex_excludes w way =
    let held =
      reach-IsHeld (record { mutex = record { locked = false }; holders = [] }) w way refl in
    (ground arith, ground arith)

-- The lock after the first k switches to the other tasks.
abbrev pub after : ℕ → List (Mutex → Mutex) → Mutex → Mutex
after zero others mutex = mutex
after (suc k) [] mutex = mutex
after (suc k) (switch ∷ later) mutex = after k later (switch mutex)

-- Where what the other tasks do leaves the lock free after some number of switches, mutex_lock
-- returns with the lock set.
pub mutex_lock-after :
    (k : ℕ) (others : List (Mutex → Mutex)) (mutex : Mutex)
    → (after k others mutex).locked ≡ false
    → mutex_lock others mutex ≡ some (record { locked = true })
unfolding mutex_lock lock_pass
mutex_lock-after zero [] mutex free = rw (mutex_lock, lock_pass, free) refl
mutex_lock-after (suc k) [] mutex free = rw (mutex_lock, lock_pass, free) refl
mutex_lock-after zero (switch ∷ later) mutex free = rw (mutex_lock, lock_pass, free) refl
mutex_lock-after (suc k) (switch ∷ later) mutex free = elim (Bool-cases mutex.locked) [
  | inl e ↦
      let same : mutex ≡ record { locked = true } = ap (λ l. record { locked = l }) e in
      rw (mutex_lock, lock_pass, e)
        (ap (λ m. mutex_lock later (switch m)) (sym same)
          ∙ mutex_lock-after k later (switch mutex) free)
  | inr e ↦ rw (mutex_lock, lock_pass, e) refl
]
