-- ===== src/Elf/Arguments.antt =====
-- The arguments of a program, from the caller's memory to the first stack.
use nos.Prelude.{
  ℕ, zero, suc, ◌+◌, ◌≤◌, ltb, length, false, ◌&&◌, ◌==◌, add32, inl, inr, Bool-cases, arith,
}
use nos.Strings.{strlen}
use nos.UserMem.{Directory, user_ok, user_str_ok}
use nos.Elf.{le32, text_at, collect_args, exec_args, initial_stack}
use nos.Elf.Stack.{text_bytes, Started, initial_stack-Started}

module _ (dir : Directory) (mem : ℕ → ℕ) where
  -- What is collected has room.
  collect_args-fits :
      (n argv used : ℕ)
      → used ≤ 1024
      → (length (collect_args n dir mem argv used) ≤ n)
        × (used + text_bytes (collect_args n dir mem argv used) ≤ 1024)
  unfolding collect_args
  collect_args-fits zero argv used h = (omega arith, omega arith)
  collect_args-fits (suc n) argv used h =
      let s = text_at 1024 mem (le32 mem argv) in
      elim (Bool-cases (user_ok dir argv 4 false && user_str_ok dir mem (le32 mem argv) 1024)) [
        | inl e ↦ elim (Bool-cases (ltb 1024 (used + (strlen s + 1)))) [
          | inl full ↦ rw (e, full) (omega arith, omega arith)
          | inr room ↦
              let (a, b) =
                collect_args-fits n (add32 argv 4) (used + (strlen s + 1)) (ground arith) in
              rw (e, room) (omega arith, omega arith)
        ]
        | inr e ↦ rw e (omega arith, omega arith)
      ]

  exec_args-fits :
      (argv : ℕ)
      → (length (exec_args dir mem argv) ≤ 16) × (text_bytes (exec_args dir mem argv) ≤ 1024)
  unfolding exec_args
  exec_args-fits argv = elim (Bool-cases (argv == 0)) [
    | inl e ↦ rw e (omega arith, omega arith)
    | inr e ↦ let (a, b) = collect_args-fits 16 argv 0 (omega arith) in rw e (a, omega arith)
  ]

  -- Whatever a caller passes as its argument table, the stack pointer of the program is aligned
  -- and inside its stack, and from it on stand a return address of 0, the number of the arguments
  -- that were collected, the address of a table behind these words, and the table itself: the
  -- addresses of as many strings, which stand above it below the top of the stack with the bytes
  -- collected and a final 0, and then 0.
  pub exec_args-Started :
      (argv : ℕ) (mem0 : ℕ → ℕ)
      → Started
          (initial_stack (exec_args dir mem argv) mem0).1
          (initial_stack (exec_args dir mem argv) mem0).0
          (exec_args dir mem argv)
  exec_args-Started argv mem0 =
      let (few, short) = exec_args-fits argv in
      initial_stack-Started (exec_args dir mem argv) mem0 few short
