-- ===== src/Tasks/Queue.antt =====
-- The ready queue as a list of tasks.
use nos.Prelude.{
  ℕ, zero, suc, ◌<◌, ◌≡◌, ◌≢◌, refl, sym, subst, ◌==◌, List, [], ◌∷◌, some, Bool, false, ◌||◌, All,
  length, arith,
}
use nos.Tasks.{Task, Sys, alive_loop, task_alive}

-- The tasks xs are linked by `next` from p on.
abbrev pub Chain : (ℕ → Task) → ℕ → List ℕ → Type 0
Chain task p [] = p ≡ 0
Chain task p (x ∷ xs) = (p ≡ x) × (x ≢ 0) × Chain task (task x).next xs

-- No task stands in the list twice.
abbrev pub Distinct : List ℕ → Type 0
Distinct [] = Unit
Distinct (x ∷ xs) = All (λ y. y ≢ x) xs × Distinct xs

abbrev pub any : (ℕ → Bool) → List ℕ → Bool
any p [] = false
any p (x ∷ xs) = p x || any p xs

abbrev pub Queued : Sys → List ℕ → Type 0
Queued s xs = Chain s.task s.ready_queue xs × Distinct xs

-- Changes that keep the links keep the chain.
pub Chain-same :
    (task other : ℕ → Task) (p : ℕ) (xs : List ℕ)
    → All (λ x. (other x).next ≡ (task x).next) xs
    → Chain task p xs
    → Chain other p xs
Chain-same task other p [] same c = c
Chain-same task other p (x ∷ xs) (e, same) (h, nz, c) =
    (h, nz, Chain-same task other _ xs same (subst (λ q. Chain task q xs) (sym e) c))

pub All-intro {ℓ κ} : {A : Type ℓ} {P : A → Type κ} (xs : List A) → ((x : A) → P x) → All P xs
All-intro [] k = tt
All-intro (x ∷ xs) k = (k x, All-intro xs k)

alive_loop-Chain :
    (f : ℕ) (task : ℕ → Task) (p : ℕ) (xs : List ℕ) (pid : ℕ)
    → length xs < f
    → Chain task p xs
    → alive_loop f task p pid ≡ some (any (λ x. (task x).id == pid) xs)
unfolding alive_loop
alive_loop-Chain zero task p xs pid room c = absurd (omega arith)
alive_loop-Chain (suc f) task p [] pid room c = rw c refl
alive_loop-Chain (suc f) task p (x ∷ xs) pid room (h, nz, c) =
    let rest = alive_loop-Chain f task _ xs pid (omega arith) c in rw h (ground arith)

-- Where the ready queue holds the tasks xs and the rounds are more than these, task_alive tells
-- whether one of xs has the pid.
pub task_alive-any :
    (s : Sys) (xs : List ℕ) (rounds pid : ℕ)
    → Queued s xs
    → length xs < rounds
    → task_alive rounds pid s ≡ some (any (λ x. (s.task x).id == pid) xs)
unfolding task_alive
task_alive-any s xs rounds pid (c, d) room =
    alive_loop-Chain rounds s.task s.ready_queue xs pid room c
