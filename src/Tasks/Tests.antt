-- ===== src/Tasks/Tests.antt =====
-- Three tasks in the ready queue, on which the theorems are applied.
use nos.Prelude.{
  ℕ, ◌+◌, ◌≡◌, refl, ◌==◌, [], ◌∷◌, ◌++◌, some, false, if◌then◌else◌, pos, update, arith,
}
use nos.Tasks.{
  Task, Sys, Outcome, Call, leave, task_kill, task_alive, task_exit_code, exit, find_before,
}
use nos.Tasks.Queue.{Queued, any, task_alive-any}
use nos.Tasks.Turns.{visits, schedule-turns}
use nos.Tasks.Deaths.{task_kill-Queued}
use nos.Tasks.Records.{deaths, exit_code-deaths}

abbrev task_at : ℕ → Task
task_at t = record {
  id = if t == 100 then 1 else if t == 200 then 2 else 3;
  esp = t + 50;
  stack_mem = t + 8;
  kstack_top = 0;
  page_directory = 4096;
  owns_dir = false;
  next = if t == 100 then 200 else if t == 200 then 300 else 0;
  reap_next = 0;
}

abbrev three : Sys
three = record {
  current_task = 100;
  ready_queue = 100;
  zombie_queue = 0;
  task = task_at;
  exit_records = λ k. record { pid = 0; code = pos 0 };
  exit_record_next = 31;
  current_directory = 4096;
  esp0 = 0;
  calls = [];
}

three-Queued : Queued three (100 ∷ 200 ∷ 300 ∷ [])
three-Queued = (
  (refl, omega arith, (refl, omega arith, (refl, omega arith, refl))),
  ((omega arith, (omega arith, tt)), ((omega arith, tt), (tt, tt))),
)

task_alive-any_test :
    task_alive 4 7 three ≡ some (any (λ x. (three.task x).id == 7) (100 ∷ 200 ∷ 300 ∷ []))
task_alive-any_test = task_alive-any three (100 ∷ 200 ∷ 300 ∷ []) 4 7 three-Queued (omega arith)

schedule-turns_example : visits (1 ∷ 2 ∷ 3 ∷ []) three ≡ (200 ∷ 300 ∷ []) ++ 100 ∷ []
schedule-turns_example =
    schedule-turns three 100 (200 ∷ 300 ∷ []) (1 ∷ 2 ∷ 3 ∷ []) three-Queued refl refl

task_kill-Queued_example :
    (after : Sys) × (task_kill 9 3 three ≡ Outcome.returned (pos 0) after)
    × Queued after ((100 ∷ []) ++ 200 ∷ [])
    × (after.zombie_queue ≡ 300)
    × ((after.task 300).reap_next ≡ 0)
    × ((after.task 300).next ≡ 0)
task_kill-Queued_example =
    task_kill-Queued three (100 ∷ []) 200 300 [] 9 3 three-Queued (omega arith, (omega arith, tt))
      refl (omega arith) (omega arith)

exit_code-deaths_example :
    task_exit_code (three.task 200).id (deaths ((300, pos 1) ∷ []) (leave three 200 (pos 42)))
    ≡ pos 42
exit_code-deaths_example =
    exit_code-deaths three 200 (pos 42) ((300, pos 1) ∷ []) (omega arith) (λ k. omega arith)
      (omega arith, tt) (omega arith)

exit_run :
    exit 9 (pos 5) (record three { current_task = 200 })
    ≡ Outcome.switched_away (record three {
      current_task = 200;
      zombie_queue = 200;
      task = update (update task_at 100 (record (task_at 100) { next = 300 })) 200 (task_at 200);
      exit_records = update three.exit_records 31 (record { pid = 2; code = pos 5 });
      exit_record_next = 0;
      calls = Call.close_all_files 200 ∷ Call.fb_task_exit 2 ∷ Call.wsurf_task_exit 2 4096 ∷ [];
    })
unfolding exit leave find_before
exit_run = refl
