-- ===== src/Files/Tests.antt =====
-- A task that makes a pipe and runs a program on its end.
use nos.Prelude.{
  ℕ, ◌≡◌, refl, [], ◌∷◌, none, some, true, false, pos, minus_one, arith, length, ◌⊎◌, List, ◌++◌,
  take, drop, ◌==◌, if◌then◌else◌,
}
use nos.Tcp.{Sock, State}
use nos.Ring.{Ring}
use nos.Console.{Console}
use nos.Files.{World, no_file, console_file, five_free, sys_pipe, sys_exec2, put_file, free_slot}
use nos.Vfs.{FsNode, vfs_resolve, resolve_loop, component, skip_slashes, vfs_finddir, vfs_follow}
use nos.Files.Open.{
  Driver, opened_file, sys_open, sys_openmode, find_or_create, vfs_truncate, vfs_write, read_file,
  write_file,
}
use nos.Files.Open.Access.{Opens, Fails, openmode-outcome, openmode-access}
use nos.Files.Open.Sequence.{bytes_of, reads, open-reads}
use nos.Files.Closing.{IsAccounted}
use nos.Files.Inheriting.{after}
use nos.Files.Calls.{Step, Steps, run-IsAccounted}

abbrev zeros : ℕ → ℕ
zeros i = 0

abbrev empty : Ring
empty = record { buf = zeros; head = 0; tail = 0 }

abbrev no_sock : Sock
no_sock = record {
  state = State.free;
  refs = 0;
  rip = 0;
  rport = 0;
  lport = 0;
  snd_nxt = 0;
  snd_una = 0;
  rcv_nxt = 0;
  peer_fin = false;
  reset = false;
  fin_sent = false;
  close_ticks = 0;
  rx = empty;
}

abbrev no_console : Console
no_console = record { used = false; pid = minus_one; out = empty; inp = empty }

abbrev start : World
start = record {
  tables = (console_file ∷ (console_file ∷ (console_file ∷ five_free))) ∷ [];
  pipes = λ p. none;
  socks = λ i. no_sock;
  consoles = λ i. no_console;
  next_pid = 1;
  ticks = 0;
}

start-IsAccounted : IsAccounted start
start-IsAccounted = record { eight = (refl, tt); held = λ p. (refl, refl) }

abbrev piped : World
piped = (sys_pipe start 0 true 64 zeros).1

-- The new program gets the end of the writers as its file 1.
run-IsAccounted_example :
    (u : World) × (after (sys_exec2 piped 0 true minus_one (pos 4) minus_one true) ≡ some u)
    × IsAccounted u
run-IsAccounted_example =
    run-IsAccounted 2 start (after (sys_exec2 piped 0 true minus_one (pos 4) minus_one true))
      (Steps.more 1 piped _
        (Steps.more 0 start _ Steps.done (Step.pipe 0 true 64 zeros (omega arith) refl))
        (Step.exec2 0 true minus_one (pos 4) minus_one true))
      start-IsAccounted (omega arith)

-- A filesystem of one file `f`, which keeps its bytes.
abbrev node_at : ℕ → FsNode
node_at a =
    if a == 10
    then record { flags = 2; finddir = some (λ name. if length name == 1 then 40 else 0); ptr = 0 }
    else record { flags = 1; finddir = none; ptr = 0 }

abbrev disk : Driver (List ℕ)
disk = record {
  tree = λ s. record { fs_root = 10; node = node_at };
  create = λ s dir. none;
  mkdir = λ s dir. none;
  truncate = λ s node. some (true, []);
  read = λ s node. some (λ off len. take len (drop off s));
  write = λ s node. some (λ off bytes. (length bytes, s ++ bytes));
}

abbrev path : List ℕ
path = b'/' ∷ b'f' ∷ []

abbrev content : List ℕ
content = 7 ∷ 8 ∷ 9 ∷ []

abbrev cut_file : World
cut_file = put_file start 0 3 (opened_file no_file 0x303 40)

cut_run : sys_openmode disk content start 0 true path 9 ≡ (pos 3, [], cut_file)
unfolding sys_openmode find_or_create vfs_resolve resolve_loop component skip_slashes vfs_finddir
    vfs_follow vfs_truncate free_slot
cut_run = refl

openmode-outcome_example :
    let (r, s2, u) = sys_openmode disk content start 0 true path 9 in
    ((fd : ℕ) × Opens disk content start 0 true path 9 fd r s2 u)
    ⊎ Fails disk content start 0 true path 9 r s2 u
openmode-outcome_example = openmode-outcome disk content start 0 true path 9

-- Opened with O_WRONLY and O_TRUNC: no bytes are read, and a write goes through.
openmode-access_example :
    (read_file disk [] cut_file 0 3 5 ≡ some ((minus_one, []), cut_file))
    × (write_file disk [] cut_file 0 3 content
        ≡ some (
          pos 3,
          content,
          put_file cut_file 0 3 (record (opened_file no_file 0x303 40) { offset = 3 }),
        ))
unfolding find_or_create vfs_resolve resolve_loop component skip_slashes vfs_finddir vfs_follow
    vfs_write
openmode-access_example =
    openmode-access disk content [] [] start cut_file 0 3 true path content 9 5 cut_run
      (omega arith) refl

abbrev open_file : World
open_file = put_file start 0 3 (opened_file no_file 3 40)

open_run : sys_open disk content start 0 true path ≡ (pos 3, open_file)
unfolding sys_open vfs_resolve resolve_loop component skip_slashes vfs_finddir vfs_follow free_slot
open_run = refl

open-reads_example : bytes_of (reads disk content open_file 0 3 (2 ∷ 5 ∷ [])) ≡ some content
open-reads_example =
    open-reads disk content start open_file 0 3 true path (2 ∷ 5 ∷ []) content
      (λ off len. take len (drop off content)) open_run refl (λ off len. refl) (omega arith)
      (omega arith) refl
