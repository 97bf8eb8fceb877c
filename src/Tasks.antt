-- ===== src/Tasks.antt =====
-- kernel/task.c: the ready queue, the scheduler, the death of tasks and what is left of them.
-- Tasks stand at addresses and are linked by `next` and `reap_next`, where 0 is the null pointer.
-- Each walk along `next` has a number of rounds; `none` and `out_of_rounds` say that they ran out.
-- Calls into other components are logged in the order in which they are made.
pub mod Queue
pub mod Turns
pub mod Deaths
pub mod Records
mod Tests
use nos.Prelude.{
  ℕ, zero, suc, ◌+◌, ◌%◌, ◌==◌, ltb, List, [], ◌∷◌, ◌++◌, Option, none, some, Bool, true, false,
  not, ◌&&◌, ◌||◌, if◌then◌else◌, ℤ, pos, negsuc, minus_one, update,
}

-- `struct task`; its name, break and open files play no part here.
pub record Task : Type 0 where
  pub id : ℕ
  pub esp : ℕ
  pub stack_mem : ℕ
  pub kstack_top : ℕ
  pub page_directory : ℕ
  pub owns_dir : Bool
  pub next : ℕ
  pub reap_next : ℕ

-- An element of `exit_records`
pub record ExitRecord : Type 0 where
  pub pid : ℕ
  pub code : ℤ

pub data Call : Type 0 where
  close_all_files : ℕ → Call
  fb_task_exit : ℕ → Call
  wsurf_task_exit : ℕ → ℕ → Call
  kfree : ℕ → Call
  free_directory : ℕ → Call

-- The static variables, the tasks in memory, `tss.esp0` and the calls so far.
pub record Sys : Type 0 where
  pub current_task : ℕ
  pub ready_queue : ℕ
  pub zombie_queue : ℕ
  pub task : ℕ → Task
  pub exit_records : ℕ → ExitRecord
  pub exit_record_next : ℕ
  pub current_directory : ℕ
  pub esp0 : ℕ
  pub calls : List Call

pub data Outcome : Type 0 where
  returned : ℤ → Sys → Outcome
  switched_away : Sys → Outcome
  panicked : Outcome
  out_of_rounds : Outcome

-- `EXIT_RECORDS`
abbrev pub exit_records_len : ℕ
exit_records_len = 32

-- The task whose turn it is after `t`.
abbrev pub successor : Sys → ℕ → ℕ
successor s t = if (s.task t).next == 0 then s.ready_queue else (s.task t).next

unfoldable pub schedule : ℕ → Sys → ℕ × Sys
schedule esp s =
    if s.current_task == 0
    then (esp, s)
    else (let stored =
          update s.task s.current_task (record (s.task s.current_task) { esp = esp }) in
        let next = successor s s.current_task in
        let dir = (stored next).page_directory in
        (
          (stored next).esp,
          record s {
            task = stored;
            current_task = next;
            current_directory =
                if not (dir == 0) && not (dir == s.current_directory)
                then dir
                else s.current_directory;
            esp0 = if (stored next).kstack_top == 0 then s.esp0 else (stored next).kstack_top;
          },
        ))

-- What the death of the task at `t` leaves to the other components, and its exit record.
unfoldable pub leave : Sys → ℕ → ℤ → Sys
leave s t code = record s {
  calls =
      s.calls
      ++ (Call.close_all_files t
          ∷ Call.fb_task_exit (s.task t).id
          ∷ Call.wsurf_task_exit (s.task t).id (s.task t).page_directory
          ∷ []);
  exit_records =
      update s.exit_records s.exit_record_next (record { pid = (s.task t).id; code = code });
  exit_record_next = (s.exit_record_next + 1) % exit_records_len;
}

-- `prev->next = t->next`
abbrev pub unlink : Sys → ℕ → ℕ → Sys
unlink s prev t = record s {
  task = update s.task prev (record (s.task prev) { next = (s.task t).next });
}

-- The task joins the zombies.
abbrev pub bury : Sys → ℕ → Sys
bury s t = record s {
  task = update s.task t (record (s.task t) { reap_next = s.zombie_queue });
  zombie_queue = t;
}

-- The walk of `exit` to the task in front of `cur`.
unfoldable pub find_before : ℕ → (ℕ → Task) → ℕ → ℕ → Option ℕ
find_before zero task prev cur = none
find_before (suc f) task prev cur =
    let rest = find_before f task (task prev).next cur in
    if (task prev).next == cur then some prev else rest

-- `exit` up to its `task_switch`
unfoldable pub exit : ℕ → ℤ → Sys → Outcome
exit rounds code s =
    let cur = s.current_task in
    if cur == s.ready_queue && (s.task cur).next == 0
    then Outcome.panicked
    else if cur == s.ready_queue
    then Outcome.switched_away
        (bury (record (leave s cur code) { ready_queue = (s.task cur).next }) cur)
    else elim (find_before rounds s.task s.ready_queue cur) [
      | none ↦ Outcome.out_of_rounds
      | some prev ↦ Outcome.switched_away (bury (unlink (leave s cur code) prev cur) cur)
    ]

-- The walk of `task_kill`: the task in front, and the first task with the pid or 0.
unfoldable pub find_pid : ℕ → (ℕ → Task) → ℕ → ℕ → ℕ → Option (ℕ × ℕ)
find_pid zero task prev t pid = none
find_pid (suc f) task prev t pid =
    let rest = find_pid f task t (task t).next pid in
    if t == 0 || (task t).id == pid then some (prev, t) else rest

-- -9 is the code of a killed task.
unfoldable pub task_kill : ℕ → ℕ → Sys → Outcome
task_kill rounds pid s =
    if not (s.current_task == 0) && (s.task s.current_task).id == pid
    then exit rounds (negsuc 8) s
    else elim (find_pid rounds s.task 0 s.ready_queue pid) [
      | none ↦ Outcome.out_of_rounds
      | some (prev, t) ↦
          if t == 0 || t == s.ready_queue
          then Outcome.returned minus_one s
          else Outcome.returned (pos 0) (bury (leave (unlink s prev t) t (negsuc 8)) t)
    ]

-- The loop of `reap_tasks`, as the calls that it makes.
unfoldable pub reap_loop : ℕ → (ℕ → Task) → ℕ → Option (List Call)
reap_loop zero task z = none
reap_loop (suc f) task z =
    let rest = reap_loop f task (task z).reap_next in
    if z == 0 then some [] else elim rest [
      | none ↦ none
      | some later ↦ some (
          (if (task z).stack_mem == 0 then [] else Call.kfree (task z).stack_mem ∷ [])
          ++ ((if (task z).owns_dir && not ((task z).page_directory == 0)
                then Call.free_directory (task z).page_directory ∷ []
                else [])
              ++ (Call.kfree z ∷ later)))
    ]

unfoldable pub reap_tasks : ℕ → Sys → Option Sys
reap_tasks rounds s = elim (reap_loop rounds s.task s.zombie_queue) [
  | none ↦ none
  | some made ↦ some (record s { zombie_queue = 0; calls = s.calls ++ made })
]

unfoldable pub alive_loop : ℕ → (ℕ → Task) → ℕ → ℕ → Option Bool
alive_loop zero task t pid = none
alive_loop (suc f) task t pid =
    let rest = alive_loop f task (task t).next pid in
    if t == 0 then some false else if (task t).id == pid then some true else rest

unfoldable pub task_alive : ℕ → ℕ → Sys → Option Bool
task_alive rounds pid s = alive_loop rounds s.task s.ready_queue pid

-- The n records from i on.
unfoldable pub code_loop : ℕ → ℕ → (ℕ → ExitRecord) → ℕ → ℤ
code_loop zero i records pid = pos 0
code_loop (suc n) i records pid =
    if (records i).pid == pid then (records i).code else code_loop n (i + 1) records pid

unfoldable pub task_exit_code : ℕ → Sys → ℤ
task_exit_code pid s = code_loop exit_records_len 0 s.exit_records pid
