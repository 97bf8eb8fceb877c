-- ===== src/Pipe.antt =====
-- kernel/pipe.c. A pass is what a call does between masking interrupts and unmasking them; what
-- the other tasks do to the pipe during one `task_switch` is a function, and a schedule is the list
-- of them. `none` says that the schedule ends while the call still waits.
pub mod Passes
pub mod Interleave
mod Tests
use nos.Prelude.{
  ℕ, zero, suc, ◌-◌, ltb, List, [], ◌∷◌, Option, none, some, Bool, true, false, ◌&&◌, if◌then◌else◌,
  ◌==◌, ℤ, pos, minus_one, signed32, add32, sub32, length, drop,
}
use nos.Ring.{Ring, put_all, get_upto}

-- `PIPE_SZ`
abbrev pub pipe_sz : ℕ
pipe_sz = 512

-- `struct pipe`; `readers` and `writers` are the bit patterns of the C ints.
pub record Pipe : Type 0 where
  pub ring : Ring
  pub readers : ℕ
  pub writers : ℕ

-- The buffer is whatever `kmalloc` returned.
unfoldable pub pipe_create : (ℕ → ℕ) → Pipe
pipe_create garbage = record {
  ring = record { buf = garbage; head = 0; tail = 0 };
  readers = 1;
  writers = 1;
}

unfoldable pub pipe_addref : Pipe → Bool → Pipe
pipe_addref p writable =
    if writable
    then record p { writers = add32 p.writers 1 }
    else record p { readers = add32 p.readers 1 }

-- `none` is a pipe that was freed.
unfoldable pub pipe_release : Pipe → Bool → Option Pipe
pipe_release p writable =
    let q =
      if writable
      then record p { writers = sub32 p.writers 1 }
      else record p { readers = sub32 p.readers 1 } in
    if q.readers == 0 && q.writers == 0 then none else some q

-- One round of `for (;;)` in `pipe_read`: the result with the bytes put into `buf`, or a wait.
unfoldable pub read_pass : Pipe → ℕ → Option (ℤ × List ℕ) × Pipe
read_pass p len =
    let (bytes, r) = get_upto pipe_sz len p.ring in
    let q = record p { ring = r } in
    if ltb 0 (length bytes)
    then (some (pos (length bytes), bytes), q)
    else if p.writers == 0
    then (some (pos 0, []), q)
    else (none, q)

read_loop : List (Pipe → Pipe) → Pipe → ℕ → Option (ℤ × List ℕ) × Pipe
read_loop [] p len = read_pass p len
read_loop (others ∷ later) p len =
    let (result, q) = read_pass p len in
    elim result [ none ↦ read_loop later (others q) len | some r ↦ (some r, q) ]

unfoldable pub pipe_read : List (Pipe → Pipe) → Pipe → ℕ → Option (ℤ × List ℕ) × Pipe
unfolding read_loop
pipe_read schedule p len = if len == 0 then (some (pos 0, []), p) else read_loop schedule p len

-- One round of `while (done < len)` in `pipe_write`, at the bytes from `done` on: `none` for
-- `return -1`, or the bytes that are still to go.
unfoldable pub write_pass : Pipe → List ℕ → Option (List ℕ) × Pipe
write_pass p todo =
    let (n, r) = put_all pipe_sz p.ring todo in
    if p.readers == 0 then (none, p) else (some (drop n todo), record p { ring = r })

-- The rounds from a non-empty `todo` on; `len` is the length of the whole buffer.
unfoldable pub write_loop : List (Pipe → Pipe) → ℕ → Option (List ℕ) × Pipe → Option ℤ × Pipe
write_loop schedule len (none, p) = (some minus_one, p)
write_loop schedule len (some [], p) = (some (signed32 len), p)
write_loop [] len (some (x ∷ xs), p) = (none, p)
write_loop (others ∷ later) len (some (x ∷ xs), p) =
    write_loop later len (write_pass (others p) (x ∷ xs))

-- The round is entered only while `done < len`.
unfoldable pub pipe_write : List (Pipe → Pipe) → Pipe → List ℕ → Option ℤ × Pipe
pipe_write schedule p [] = (some (signed32 0), p)
pipe_write schedule p (x ∷ xs) = write_loop schedule (length (x ∷ xs)) (write_pass p (x ∷ xs))
