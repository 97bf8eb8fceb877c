-- ===== src/Pipe/Passes.antt =====
-- What one pass of `pipe_read` and `pipe_write` does, against the queue of the bytes in the pipe.
use nos.Prelude.{
  ℕ, ◌-◌, ◌<◌, min, ◌≡◌, List, [], ◌++◌, Option, none, some, arith, ltb, ◌==◌, if◌then◌else◌, ℤ,
  pos, length, take, drop,
}
use nos.Ring.Fifo
use nos.Ring.Fifo.{contents, put_all-Wrote, get_upto-Took, used_lt, used, length-contents}
use nos.Pipe.{Pipe, pipe_sz, read_pass, write_pass}

pub record IsValid (p : Pipe) : Type 0 where
  pub ring_ok : Fifo.IsValid pipe_sz p.ring

-- The bytes that are in the pipe, oldest first.
abbrev pub stored : Pipe → List ℕ
stored p = contents pipe_sz p.ring

-- The result of a pass over a queue `q` of bytes.
abbrev pub read_result : List ℕ → ℕ → ℕ → Option (ℤ × List ℕ)
read_result q len writers =
    if ltb 0 (length (take len q))
    then some (pos (length (take len q)), take len q)
    else if writers == 0
    then some (pos 0, [])
    else none

-- A pass of pipe_read on a sound pipe returns the oldest bytes, at most len, and takes just these
-- out; without any it returns 0 when there is no writer, and waits otherwise; the counts stay.
pub read_pass-queue :
    (p : Pipe) (len : ℕ)
    → IsValid p
    → let (result, q) = read_pass p len in
      IsValid q
      × (result ≡ read_result (stored p) len p.writers)
      × (stored q ≡ drop len (stored p))
      × (q.readers ≡ p.readers)
      × (q.writers ≡ p.writers)
unfolding read_pass
read_pass-queue p len v =
    let took = get_upto-Took pipe_sz len p.ring v.ring_ok in ground (arith, took)

-- The number of bytes that a pipe holding `q` takes from `todo`.
abbrev pub room_for : List ℕ → List ℕ → ℕ
room_for q todo = min (length todo) (pipe_sz - 1 - length q)

-- A pass of pipe_write on a sound pipe gives up, and changes nothing, if there is no reader;
-- otherwise it appends as many bytes as fit below 511, in order, and leaves the others to go; the
-- counts stay.
pub write_pass-queue :
    (p : Pipe) (todo : List ℕ)
    → IsValid p
    → let (result, q) = write_pass p todo in
      IsValid q
      × (result ≡ (if p.readers == 0 then none else some (drop (room_for (stored p) todo) todo)))
      × (stored q
          ≡ (if p.readers == 0 then stored p else stored p ++ take (room_for (stored p) todo) todo))
      × (q.readers ≡ p.readers)
      × (q.writers ≡ p.writers)
unfolding write_pass
write_pass-queue p todo v =
    let wrote = put_all-Wrote pipe_sz todo p.ring v.ring_ok in
    ground (arith, wrote, length-contents pipe_sz p.ring)

pub length-stored : (p : Pipe) → IsValid p → length (stored p) < pipe_sz
length-stored p v = omega (arith, length-contents pipe_sz p.ring, used_lt pipe_sz p.ring v.ring_ok)
