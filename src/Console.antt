-- ===== src/Console.antt =====
-- kernel/console.c: the table of console channels, each a ring of output and a ring of input.
pub mod Channels
mod Tests
use nos.Prelude.{
  ℕ, zero, suc, ◌+◌, ltb, List, [], ◌∷◌, Bool, true, false, ◌&&◌, if◌then◌else◌, ◌==◌, ℤ, pos,
  negsuc, minus_one, signed32, length, update,
}
use nos.Ring.{Ring, next, put_all, get_upto}

-- `OUT_SZ`, `IN_SZ` and `NCONSOLE`
abbrev pub out_sz : ℕ
out_sz = 4096

abbrev pub in_sz : ℕ
in_sz = 256

abbrev pub nconsole : ℕ
nconsole = 8

-- `struct console`
pub record Console : Type 0 where
  pub used : Bool
  pub pid : ℤ
  pub out : Ring
  pub inp : Ring

-- `consoles`: the eight channels of the array stand at 0 to 7, and what a wrong index would reach
-- behind the array from 8 on.
abbrev pub Table : Type 0
Table = ℕ → Console

abbrev index : ℤ → ℕ
index (pos i) = i
index (negsuc i) = 0

unfoldable pub console_valid : Table → ℤ → Bool
console_valid t (pos i) = ltb i nconsole && (t i).used
console_valid t (negsuc n) = false

abbrev reset : Ring → Ring
reset r = record r { head = 0; tail = 0 }

-- `consoles[i]` as it is handed out.
abbrev pub opened : Console → Console
opened c = record { used = true; pid = minus_one; out = reset c.out; inp = reset c.inp }

-- The scan from slot `i` on, with `n` slots left.
unfoldable pub alloc_from : ℕ → ℕ → Table → ℤ × Table
alloc_from zero i t = (minus_one, t)
alloc_from (suc n) i t =
    let rest = alloc_from n (i + 1) t in
    if (t i).used then rest else (pos i, update t i (opened (t i)))

unfoldable pub console_alloc : Table → ℤ × Table
unfolding alloc_from
console_alloc t = alloc_from nconsole 0 t

unfoldable pub console_free : Table → ℤ → Table
console_free t cid =
    if console_valid t cid
    then update t (index cid) (record (t (index cid)) { used = false })
    else t

unfoldable pub console_set_pid : Table → ℤ → ℤ → Table
console_set_pid t cid pid =
    if console_valid t cid then update t (index cid) (record (t (index cid)) { pid = pid }) else t

unfoldable pub console_pid : Table → ℤ → ℤ
console_pid t cid = if console_valid t cid then (t (index cid)).pid else minus_one

unfoldable pub console_out_write : Table → ℤ → List ℕ → ℤ × Table
console_out_write t cid bytes =
    let c = t (index cid) in
    let (n, r) = put_all out_sz c.out bytes in
    if console_valid t cid
    then (signed32 n, update t (index cid) (record c { out = r }))
    else (minus_one, t)

-- The result with the bytes that are put into `buf`.
unfoldable pub console_out_read : Table → ℤ → ℕ → ℤ × List ℕ × Table
console_out_read t cid len =
    let c = t (index cid) in
    let (bytes, r) = get_upto out_sz len c.out in
    if console_valid t cid
    then (signed32 (length bytes), bytes, update t (index cid) (record c { out = r }))
    else (minus_one, [], t)

unfoldable pub console_in_write : Table → ℤ → List ℕ → ℤ × Table
console_in_write t cid bytes =
    let c = t (index cid) in
    let (n, r) = put_all in_sz c.inp bytes in
    if console_valid t cid
    then (signed32 n, update t (index cid) (record c { inp = r }))
    else (minus_one, t)

unfoldable pub console_in_getc : Table → ℤ → ℤ × Table
console_in_getc t cid =
    let c = t (index cid) in
    let r = c.inp in
    if console_valid t cid
    then (if r.tail == r.head then (minus_one, t) else (
      pos (r.buf r.tail),
      update t (index cid) (record c { inp = record r { tail = next in_sz r.tail } }),
    ))
    else (minus_one, t)
