-- ===== src/Pipe/Tests.antt =====
-- Runs of the pipe, and the theorems about it at concrete inputs.
use nos.Prelude.{
  sym, ◌∙◌, ap, ℕ, ◌≡◌, refl, [], ◌∷◌, some, arith, ◌<◌, pos, length, drop, length-drop,
}
use nos.Pipe.{Pipe, pipe_create, read_pass, write_pass, pipe_read, pipe_write}
use nos.Ring.{get_upto, put_all}
use nos.Pipe.Passes.{IsValid, stored, read_result, read_pass-queue, write_pass-queue, length-stored}
use nos.Pipe.Interleave.{World, Step, Reach, Drains, pipe_in_order, write_drained}

abbrev zeros : ℕ → ℕ
zeros i = 0

abbrev empty : Pipe
empty = record { ring = record { buf = zeros; head = 0; tail = 0 }; readers = 1; writers = 1 }

empty-IsValid : IsValid empty
empty-IsValid = record { ring_ok = omega arith }

create_run : pipe_create zeros ≡ empty
unfolding pipe_create
create_run = refl

-- A read without data waits for the writer, which puts two bytes in, and then gets them.
read_waits :
    (pipe_read ((λ p. (write_pass p (7 ∷ 8 ∷ [])).1) ∷ []) empty 5).0 ≡ some (pos 2, 7 ∷ 8 ∷ [])
unfolding pipe_read read_pass write_pass get_upto put_all
read_waits = refl

read_pass-queue_test :
    let (result, q) = read_pass empty 3 in
    IsValid q
    × (result ≡ read_result [] 3 1)
    × (stored q ≡ drop 3 [])
    × (q.readers ≡ 1)
    × (q.writers ≡ 1)
read_pass-queue_test = read_pass-queue empty 3 empty-IsValid

write_pass-queue_test :
    let (result, q) = write_pass empty (5 ∷ []) in
    IsValid q × (result ≡ some []) × (stored q ≡ 5 ∷ []) × (q.readers ≡ 1) × (q.writers ≡ 1)
write_pass-queue_test = write_pass-queue empty (5 ∷ []) empty-IsValid

-- A byte through the pipe: written, then read.
abbrev wrote : World
wrote = record {
  pipe = (write_pass (pipe_create zeros) (9 ∷ [])).1;
  written = 9 ∷ [];
  received = [];
}

abbrev served : World
served = record wrote { pipe = (read_pass wrote.pipe 1).1; received = 9 ∷ [] }

served-Reach : Reach (record { pipe = pipe_create zeros; written = []; received = [] }) served
unfolding pipe_create write_pass put_all read_pass get_upto
served-Reach = Reach.next (Reach.next Reach.here (Step.writes _ (9 ∷ []))) (Step.reads _ 1)

pipe_in_order_example : (9 ∷ [] ≡ 9 ∷ stored served.pipe) × (length (stored served.pipe) < 512)
pipe_in_order_example = pipe_in_order zeros served served-Reach

-- A reader that takes one byte whenever it runs.
abbrev reader : Pipe → Pipe
reader p = (read_pass p 1).1

reader-Drains : Drains reader
reader-Drains p v r =
    let (v', _, rest, readers', _) = read_pass-queue p 1 v in
    (
      v',
      (λ z. r (sym readers' ∙ z)),
      omega (arith, ap length rest, length-drop 1 (stored p), length-stored p v),
    )

write_drained_example :
    (q : Pipe) × (pipe_write (reader ∷ reader ∷ []) empty (1 ∷ 2 ∷ []) ≡ (some (pos 2), q))
write_drained_example =
    write_drained (reader ∷ reader ∷ []) empty (1 ∷ 2 ∷ []) (reader-Drains, (reader-Drains, tt))
      empty-IsValid (omega arith) (omega arith)
