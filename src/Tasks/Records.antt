-- ===== src/Tasks/Records.antt =====
-- How long the exit code of a task is kept.
use nos.Prelude.{
  ℕ, zero, suc, ◌+◌, ◌%◌, ◌≤◌, ◌<◌, ◌≡◌, ◌≢◌, refl, sym, subst, ◌==◌, List, [], ◌∷◌, All,
  Bool-cases, inl, inr, length, arith, ℤ,
}
use nos.Tasks.{Sys, ExitRecord, leave, code_loop, task_exit_code}

-- The tasks in the list die one after the other, each with its code.
abbrev pub deaths : List (ℕ × ℤ) → Sys → Sys
deaths [] s = s
deaths ((t, code) ∷ ds) s = deaths ds (leave s t code)

-- The record in the slot is the only one of the pid.
abbrev Sole : (ℕ → ExitRecord) → ℕ → ℕ → ℤ → Type 0
Sole records slot pid code =
    ((records slot).pid ≡ pid)
    × ((records slot).code ≡ code)
    × ((k : ℕ) → k ≢ slot → (records k).pid ≢ pid)

code_loop-Sole :
    (n i slot : ℕ) (records : ℕ → ExitRecord) (pid : ℕ) (code : ℤ)
    → Sole records slot pid code
    → i ≤ slot
    → slot < i + n
    → code_loop n i records pid ≡ code
unfolding code_loop
code_loop-Sole zero i slot records pid code w lo hi = absurd (omega arith)
code_loop-Sole (suc n) i slot records pid code (p, c, u) lo hi = elim (Bool-cases (i == slot)) [
  | inl e ↦ ground arith
  | inr e ↦
      let ne = u i (ground arith) in
      let rest =
        code_loop-Sole n (i + 1) slot records pid code (p, c, u) (ground arith) (ground arith) in
      ground arith
]

module _ (s : Sys) (t : ℕ) (code : ℤ) where
  leave-task : (leave s t code).task ≡ s.task
  unfolding leave
  leave-task = refl

  leave-next : (leave s t code).exit_record_next ≡ (s.exit_record_next + 1) % 32
  unfolding leave
  leave-next = refl

  leave-Sole_new :
      ((k : ℕ) → (s.exit_records k).pid ≢ (s.task t).id)
      → Sole (leave s t code).exit_records s.exit_record_next (s.task t).id code
  unfolding leave
  leave-Sole_new fresh = (ground arith, ground arith, λ k ne. let f = fresh k in ground arith)

  leave-Sole :
      (slot pid : ℕ) (c : ℤ)
      → slot ≢ s.exit_record_next
      → (s.task t).id ≢ pid
      → Sole s.exit_records slot pid c
      → Sole (leave s t code).exit_records slot pid c
  unfolding leave
  leave-Sole slot pid c other ne (p, e, u) =
      (ground arith, ground arith, λ k kn. let f = u k kn in ground arith)

deaths-Sole :
    (ds : List (ℕ × ℤ)) (s : Sys) (slot pid m : ℕ) (c : ℤ)
    → slot < 32
    → s.exit_record_next ≡ (slot + m) % 32
    → 0 < m
    → m + length ds ≤ 32
    → All (λ d. (s.task d.0).id ≢ pid) ds
    → Sole s.exit_records slot pid c
    → Sole (deaths ds s).exit_records slot pid c
deaths-Sole [] s slot pid m c lt n p b k w = w
deaths-Sole ((t, code) ∷ ds) s slot pid m c lt n p b (ne, k) w =
    deaths-Sole ds (leave s t code) slot pid (m + 1) c lt
      (let e = leave-next s t code in omega arith) (omega arith) (omega arith)
      (subst (λ f. All (λ d. (f d.0).id ≢ pid) ds) (sym (leave-task s t code)) k)
      (leave-Sole s t code slot pid c (omega arith) ne w)

-- If the index of the next record is below 32 and no record is of the pid of the dying task,
-- task_exit_code returns that task's code after at most 31 further tasks of other pids have died.
pub exit_code-deaths :
    (s : Sys) (t : ℕ) (code : ℤ) (ds : List (ℕ × ℤ))
    → s.exit_record_next < 32
    → ((k : ℕ) → (s.exit_records k).pid ≢ (s.task t).id)
    → All (λ d. (s.task d.0).id ≢ (s.task t).id) ds
    → length ds ≤ 31
    → task_exit_code (s.task t).id (deaths ds (leave s t code)) ≡ code
unfolding task_exit_code
exit_code-deaths s t code ds lt fresh others b =
    code_loop-Sole 32 0 s.exit_record_next _ _ code
      (deaths-Sole ds (leave s t code) s.exit_record_next (s.task t).id 1 code lt
        (leave-next s t code) (omega arith) (omega arith)
        (subst (λ f. All (λ d. (f d.0).id ≢ (s.task t).id) ds) (sym (leave-task s t code)) others)
        (leave-Sole_new s t code fresh))
      (omega arith) (omega arith)
