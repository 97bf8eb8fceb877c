-- ===== src/Ring.antt =====
-- The byte rings of kernel/pipe.c, kernel/console.c and kernel/tcp.c: an array of `sz` bytes with
-- the next write at `head` and the next read at `tail`, empty at `head == tail`, so that one slot
-- always stays free. The three files spell the same two loops; each names its own size.
pub mod Fifo
use nos.Prelude.{ℕ, zero, suc, ◌+◌, ◌%◌, List, [], ◌∷◌, if◌then◌else◌, ◌==◌, update}

pub record Ring : Type 0 where
  pub buf : ℕ → ℕ
  pub head : ℕ
  pub tail : ℕ

-- `(i + 1) % SZ`
abbrev pub next : ℕ → ℕ → ℕ
next sz i = (i + 1) % sz

-- The writing loop: bytes go in until they run out or the ring is full. The number is the loop's
-- counter at its end.
unfoldable pub put_all : ℕ → Ring → List ℕ → ℕ × Ring
put_all sz r [] = (0, r)
put_all sz r (x ∷ xs) =
    let rest = put_all sz (record r { buf = update r.buf r.head x; head = next sz r.head }) xs in
    if next sz r.head == r.tail then (0, r) else (suc rest.0, rest.1)

-- The reading loop: at most `len` bytes, until the ring is empty.
unfoldable pub get_upto : ℕ → ℕ → Ring → List ℕ × Ring
get_upto sz zero r = ([], r)
get_upto sz (suc len) r =
    let rest = get_upto sz len (record r { tail = next sz r.tail }) in
    if r.tail == r.head then ([], r) else (r.buf r.tail ∷ rest.0, rest.1)
