-- ===== src/Tasks/Turns.antt =====
-- Whose turn it is, from switch to switch.
use nos.Prelude.{ℕ, suc, ◌≡◌, ◌≢◌, sym, ap, ◌∙◌, subst, List, [], ◌∷◌, ◌++◌, length, arith}
use nos.Tasks.{Sys, successor, schedule}
use nos.Tasks.Queue.{Chain, Chain-same, All-intro, Queued}

-- The tasks that run after each of some switches, whose stack pointers are esps.
abbrev pub visits : List ℕ → Sys → List ℕ
visits [] s = []
visits (esp ∷ esps) s = let after = (schedule esp s).1 in after.current_task ∷ visits esps after

module _ (esp : ℕ) (s : Sys) where
  schedule-current :
      s.current_task ≢ 0 → (schedule esp s).1.current_task ≡ successor s s.current_task
  unfolding schedule
  schedule-current nz = ground arith

  schedule-ready : (schedule esp s).1.ready_queue ≡ s.ready_queue
  unfolding schedule
  schedule-ready = ground arith

  schedule-next : (t : ℕ) → ((schedule esp s).1.task t).next ≡ (s.task t).next
  unfolding schedule
  schedule-next t = ground arith

visits-rest :
    (xs esps : List ℕ) (s : Sys) (head : ℕ)
    → s.current_task ≢ 0
    → s.ready_queue ≡ head
    → Chain s.task (s.task s.current_task).next xs
    → length esps ≡ suc (length xs)
    → visits esps s ≡ xs ++ head ∷ []
visits-rest xs [] s head nz r c n = absurd (omega arith)
visits-rest [] (e ∷ []) s head nz r c n =
    let cur = schedule-current e s nz in ap (λ t. t ∷ []) (cur ∙ ground arith)
visits-rest [] (e ∷ f ∷ esps) s head nz r c n = absurd (omega arith)
visits-rest (y ∷ ys) (e ∷ esps) s head nz r (h, ynz, c) n =
    let after = (schedule e s).1 in
    let cur : after.current_task ≡ y = schedule-current e s nz ∙ ground arith in
    let c2 : Chain after.task (after.task after.current_task).next ys =
      Chain-same s.task after.task _ ys (All-intro ys (schedule-next e s)) (
        subst (λ q. Chain s.task q ys)
          (sym (ap (λ t. (after.task t).next) cur ∙ schedule-next e s y)) c) in
    let rest =
      visits-rest ys esps after head (λ z. ynz (sym cur ∙ z)) (schedule-ready e s ∙ r) c2
        (omega arith) in
    cc

-- Where the head of the ready queue runs, as many switches as the queue has tasks, each with any
-- stack pointer, give every other task one turn in the order of the queue and come back to the
-- head.
pub schedule-turns :
    (s : Sys) (x : ℕ) (xs esps : List ℕ)
    → Queued s (x ∷ xs)
    → s.current_task ≡ x
    → length esps ≡ suc (length xs)
    → visits esps s ≡ xs ++ x ∷ []
schedule-turns s x xs esps ((h, nz, c), d) cur n =
    visits-rest xs esps s x (λ z. nz (sym cur ∙ z)) h
      (subst (λ t. Chain s.task (s.task t).next xs) (sym cur) c) n
