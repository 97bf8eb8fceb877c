-- ===== src/Tasks/Deaths.antt =====
-- Tasks that are killed, exit records and zombies.
use nos.Prelude.{
  ℕ, zero, suc, ◌+◌, ◌≤◌, ◌≡◌, ◌≢◌, refl, sym, ap, ◌∙◌, subst, List, [], ◌∷◌, ◌++◌, some, All,
  length, update, arith, pos, negsuc,
}
use nos.Tasks.{Task, Sys, Outcome, leave, unlink, bury, find_pid, task_kill}
use nos.Tasks.Queue.{Chain, Chain-same, All-intro, Queued, Distinct}

module _ {ℓ} (P : ℕ → Type ℓ) where
  All-middle : (pre : List ℕ) (x : ℕ) (post : List ℕ) → All P (pre ++ x ∷ post) → P x
  All-middle [] x post (px, k) = px
  All-middle (y ∷ pre) x post (py, k) = All-middle pre x post k

  All-drop_second :
      (pre : List ℕ) (x v : ℕ) (post : List ℕ)
      → All P (pre ++ x ∷ v ∷ post)
      → All P (pre ++ x ∷ post)
  All-drop_second [] x v post (px, (pv, k)) = (px, k)
  All-drop_second (y ∷ pre) x v post (py, k) = (py, All-drop_second pre x v post k)

Distinct-drop_second :
    (pre : List ℕ) (x v : ℕ) (post : List ℕ)
    → Distinct (pre ++ x ∷ v ∷ post)
    → Distinct (pre ++ x ∷ post)
Distinct-drop_second [] x v post ((vx, k), (kv, d)) = (k, d)
Distinct-drop_second (y ∷ pre) x v post (k, d) =
    (All-drop_second _ pre x v post k, Distinct-drop_second pre x v post d)

All-map {ℓ κ} :
    {P : ℕ → Type ℓ} {Q : ℕ → Type κ} (xs : List ℕ) → ((x : ℕ) → P x → Q x) → All P xs → All Q xs
All-map [] f k = tt
All-map (x ∷ xs) f (px, k) = (f x px, All-map xs f k)

module _ (task : ℕ → Task) (f q t pid : ℕ) where
  find_pid-finds : t ≢ 0 → (task t).id ≡ pid → find_pid (suc f) task q t pid ≡ some (q, t)
  unfolding find_pid
  find_pid-finds nz e = ground arith

  find_pid-skips :
      t ≢ 0
      → (task t).id ≢ pid
      → find_pid (suc f) task q t pid ≡ find_pid f task t (task t).next pid
  unfolding find_pid
  find_pid-skips nz ne = ground arith

module _ (task : ℕ → Task) (prev v : ℕ) where
  abbrev relinked : ℕ → Task
  relinked = update task prev (record (task prev) { next = (task v).next })

  relinked-prev : (relinked prev).next ≡ (task v).next
  relinked-prev = ground arith

  relinked-other : (y : ℕ) → y ≢ prev → (relinked y).next ≡ (task y).next
  relinked-other y ne = ground arith

  -- The victim leaves the chain.
  unlink-Chain :
      (pre post : List ℕ) (p : ℕ)
      → Chain task p (pre ++ prev ∷ v ∷ post)
      → Distinct (pre ++ prev ∷ v ∷ post)
      → Chain relinked p (pre ++ prev ∷ post)
  unlink-Chain [] post p (h, nz, (hv, nzv, c)) ((vp, k), d) = (
    h,
    nz,
    Chain-same task relinked _ post (All-map post relinked-other k)
        (subst (λ q. Chain task q post) (sym relinked-prev) c),
  )
  unlink-Chain (z ∷ pre) post p (h, nz, c) (k, d) =
      let ne = All-middle _ pre prev (v ∷ post) k in
      (
        h,
        nz,
        subst (λ q. Chain relinked q (pre ++ prev ∷ post))
            (sym (relinked-other z (λ e. ne (sym e)))) (unlink-Chain pre post _ c d),
      )

  find_pid-Chain :
      (f : ℕ) (pre post : List ℕ) (q p pid : ℕ)
      → length pre + 2 ≤ f
      → Chain task p (pre ++ prev ∷ v ∷ post)
      → All (λ x. (task x).id ≢ pid) (pre ++ prev ∷ [])
      → (task v).id ≡ pid
      → find_pid f task q p pid ≡ some (prev, v)
  find_pid-Chain zero pre post q p pid room c k e = absurd (omega arith)
  find_pid-Chain (suc zero) pre post q p pid room c k e = absurd (omega arith)
  find_pid-Chain (suc (suc f)) [] post q p pid room (h, nz, (hv, nzv, c)) (ne, k) e =
      ap (λ t. find_pid (suc (suc f)) task q t pid) h
      ∙ find_pid-skips task (suc f) q prev pid nz ne
      ∙ ap (λ t. find_pid (suc f) task prev t pid) hv
      ∙ find_pid-finds task f prev v pid nzv e
  find_pid-Chain (suc (suc f)) (z ∷ pre) post q p pid room (h, nz, c) (ne, k) e =
      ap (λ t. find_pid (suc (suc f)) task q t pid) h
      ∙ find_pid-skips task (suc f) q z pid nz ne
      ∙ find_pid-Chain (suc f) pre post z _ pid (omega arith) c k e

-- What task_kill makes of a task behind the head.
module _ (s : Sys) (prev v : ℕ) where
  abbrev killed : Sys
  killed = bury (leave (unlink s prev v) v (negsuc 8)) v

  task_kill-found :
      (rounds pid : ℕ)
      → (s.task s.current_task).id ≢ pid
      → v ≢ 0
      → v ≢ s.ready_queue
      → find_pid rounds s.task 0 s.ready_queue pid ≡ some (prev, v)
      → task_kill rounds pid s ≡ Outcome.returned (pos 0) killed
  unfolding task_kill
  task_kill-found rounds pid other nz nh e = ground arith

  killed-next : (t : ℕ) → (killed.task t).next ≡ (relinked s.task prev v t).next
  unfolding leave
  killed-next t = ground arith

  killed-ready : killed.ready_queue ≡ s.ready_queue
  unfolding leave
  killed-ready = refl

  killed-zombie : (killed.task v).reap_next ≡ s.zombie_queue
  unfolding leave
  killed-zombie = ground arith

All-second {ℓ} :
    (P : ℕ → Type ℓ) (pre : List ℕ) (x v : ℕ) (post : List ℕ) → All P (pre ++ x ∷ v ∷ post) → P v
All-second P [] x v post (px, (pv, k)) = pv
All-second P (y ∷ pre) x v post (py, k) = All-second P pre x v post k

Chain-nonzero :
    (task : ℕ → Task) (p : ℕ) (pre : List ℕ) (x v : ℕ) (post : List ℕ)
    → Chain task p (pre ++ x ∷ v ∷ post)
    → v ≢ 0
Chain-nonzero task p [] x v post (h, nz, (hv, nzv, c)) = nzv
Chain-nonzero task p (y ∷ pre) x v post (h, nz, c) = Chain-nonzero task _ pre x v post c

-- The second of two neighbours is not the first.
Distinct-second : (pre : List ℕ) (x v : ℕ) (post : List ℕ) → Distinct (pre ++ x ∷ v ∷ post) → v ≢ x
Distinct-second [] x v post ((vx, k), d) = vx
Distinct-second (y ∷ pre) x v post (k, d) = Distinct-second pre x v post d

-- Nor is it the head.
head-other :
    (task : ℕ → Task) (p : ℕ) (pre : List ℕ) (x v : ℕ) (post : List ℕ)
    → Chain task p (pre ++ x ∷ v ∷ post)
    → Distinct (pre ++ x ∷ v ∷ post)
    → v ≢ p
head-other task p [] x v post (h, nz, c) ((vx, k), d) e = vx (e ∙ h)
head-other task p (y ∷ pre) x v post (h, nz, c) (k, d) e = All-second _ pre x v post k (e ∙ h)

-- Where the tasks of the ready queue stand in it once, the pid is that of a task behind the head
-- and of none before it, the running task has another pid and the rounds suffice: task_kill
-- returns 0, the queue is left without that task alone and in the same order, the task heads the
-- zombie list in front of the earlier zombies, and its own next is kept.
pub task_kill-Queued :
    (s : Sys) (pre : List ℕ) (prev v : ℕ) (post : List ℕ) (rounds pid : ℕ)
    → Queued s (pre ++ prev ∷ v ∷ post)
    → All (λ x. (s.task x).id ≢ pid) (pre ++ prev ∷ [])
    → (s.task v).id ≡ pid
    → (s.task s.current_task).id ≢ pid
    → length pre + 2 ≤ rounds
    → (after : Sys) × (task_kill rounds pid s ≡ Outcome.returned (pos 0) after)
      × Queued after (pre ++ prev ∷ post)
      × (after.zombie_queue ≡ v)
      × ((after.task v).reap_next ≡ s.zombie_queue)
      × ((after.task v).next ≡ (s.task v).next)
task_kill-Queued s pre prev v post rounds pid (c, d) k e other room =
    let ne = Distinct-second pre prev v post d in
    let found = find_pid-Chain s.task prev v rounds pre post 0 s.ready_queue pid room c k e in
    let links = killed-next s prev v in
    (
      killed s prev v,
      task_kill-found s prev v rounds pid other (Chain-nonzero s.task _ pre prev v post c)
          (head-other s.task _ pre prev v post c d) found,
      (
        subst (λ p. Chain (killed s prev v).task p (pre ++ prev ∷ post))
            (sym (killed-ready s prev v))
            (Chain-same (relinked s.task prev v) (killed s prev v).task _ (pre ++ prev ∷ post)
              (All-intro (pre ++ prev ∷ post) links)
              (unlink-Chain s.task prev v pre post s.ready_queue c d)),
        Distinct-drop_second pre prev v post d,
      ),
      refl,
      killed-zombie s prev v,
      links v ∙ relinked-other s.task prev v v ne,
    )
