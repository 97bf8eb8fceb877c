-- ===== src/Files.antt =====
-- kernel/task.c and kernel/syscall.c: open files. The tables of all tasks stand in one list, in
-- which the table of a task keeps its place; a pipe stands at its address, and `none` there is freed
-- memory. A result `none` is the use of a pipe that was freed.
pub mod Counts
pub mod Hand
pub mod Closing
pub mod Installing
pub mod Inheriting
pub mod Calls
pub mod Open
mod Tests
use nos.Prelude.{
  ℕ, zero, suc, ◌+◌, ◌-◌, ◌%◌, ltb, List, [], ◌∷◌, ◌++◌, Option, none, some, Bool, true, false, not,
  ◌&&◌, ◌||◌, if◌then◌else◌, ◌==◌, ◌>>=◌, ℤ, pos, negsuc, minus_one, signed32, add32, update,
  get_or, set, take,
}
use nos.Pipe.{Pipe, pipe_create, pipe_addref, pipe_release, read_pass, write_pass}
use nos.Tcp.Table.{Socks, tcp_addref, tcp_release}
use nos.Console.{Table, console_alloc, console_free, console_set_pid}

-- `enum fd_type`
abbrev pub fd_none : ℕ
fd_none = 0

abbrev pub fd_console : ℕ
fd_console = 1

abbrev pub fd_channel : ℕ
fd_channel = 2

abbrev pub fd_file : ℕ
fd_file = 3

abbrev pub fd_pipe_r : ℕ
fd_pipe_r = 4

abbrev pub fd_pipe_w : ℕ
fd_pipe_w = 5

abbrev pub fd_socket : ℕ
fd_socket = 6

-- `FD_TYPE`
abbrev pub fd_type : ℕ → ℕ
fd_type type = type % 256

-- `struct file`
pub record File : Type 0 where
  pub type : ℕ
  pub node : ℕ
  pub offset : ℕ
  pub cid : ℤ
  pub pipe : ℕ
  pub sock : ℤ

-- A file of zeros, and one of the console.
abbrev pub no_file : File
no_file = record { type = 0; node = 0; offset = 0; cid = pos 0; pipe = 0; sock = pos 0 }

abbrev pub console_file : File
console_file = record no_file { type = fd_console }

-- The tables of files, the pipes, the sockets, the consoles, `next_pid` and `timer_ticks`.
pub record World : Type 0 where
  pub tables : List (List File)
  pub pipes : ℕ → Option Pipe
  pub socks : Socks
  pub consoles : Table
  pub next_pid : ℕ
  pub ticks : ℕ

abbrev pub file_of : World → ℕ → ℕ → File
file_of w t fd = get_or (get_or w.tables t []) fd no_file

abbrev pub put_file : World → ℕ → ℕ → File → World
put_file w t fd f = record w { tables = set w.tables t (set (get_or w.tables t []) fd f) }

abbrev pub is_end : File → Bool
is_end f = fd_type f.type == fd_pipe_r || fd_type f.type == fd_pipe_w

abbrev pub is_writer : File → Bool
is_writer f = fd_type f.type == fd_pipe_w

unfoldable pub file_addref : World → File → Option World
file_addref w f =
    if is_end f
    then elim (w.pipes f.pipe) [
      | none ↦ none
      | some p ↦
          some (record w { pipes = update w.pipes f.pipe (some (pipe_addref p (is_writer f))) })
    ]
    else if fd_type f.type == fd_socket
    then some (record w { socks = tcp_addref w.socks f.sock })
    else some w

-- The first half of `file_close`.
unfoldable pub file_release : World → File → Option World
file_release w f =
    if is_end f
    then elim (w.pipes f.pipe) [
      | none ↦ none
      | some p ↦ some (record w { pipes = update w.pipes f.pipe (pipe_release p (is_writer f)) })
    ]
    else if fd_type f.type == fd_socket
    then some (record w { socks = (tcp_release w.socks f.sock w.ticks).0 })
    else some w

abbrev pub cleared_file : File → File
cleared_file f = record f { type = fd_none; node = 0; pipe = 0; sock = pos 0 }

unfoldable pub file_close : World → ℕ → ℕ → Option World
file_close w t fd = do
  u ← file_release w (file_of w t fd)
  some (put_file u t fd (cleared_file (file_of w t fd)))

-- `TASK_MAX_FILES`
abbrev pub task_max_files : ℕ
task_max_files = 8

unfoldable pub close_loop : ℕ → ℕ → World → ℕ → Option World
close_loop zero i w t = some w
close_loop (suc n) i w t = do
  u ← (if (file_of w t i).type == fd_none then some w else file_close w t i)
  close_loop n (i + 1) u t

unfoldable pub close_all_files : World → ℕ → Option World
close_all_files w t = close_loop task_max_files 0 w t

-- The first free descriptor of the n ones from i on.
unfoldable pub free_slot : ℕ → ℕ → List File → Option ℕ
free_slot zero i table = none
free_slot (suc n) i table =
    let rest = free_slot n (i + 1) table in
    if (get_or table i no_file).type == fd_none then some i else rest

-- 0 to 2 are stdio.
abbrev pub new_fd : World → ℕ → Option ℕ
new_fd w t = free_slot 5 3 (get_or w.tables t [])

-- `fd_get`
abbrev pub fd_get : ℤ → Option ℕ
fd_get (negsuc n) = none
fd_get (pos fd) = if ltb fd task_max_files then some fd else none

unfoldable pub sys_close : World → ℕ → ℤ → Option (ℤ × World)
sys_close w t fd = elim (fd_get fd) [
  | none ↦ some (minus_one, w)
  | some i ↦
      if (file_of w t i).type == fd_none
      then some (minus_one, w)
      else (do u ← file_close w t i; some (pos 0, u))
]

-- The two ends that `sys_pipe` installs, with the pipe at an address that `kmalloc` gave.
abbrev pub pipe_end : File → ℕ → ℕ → File
pipe_end f type p = record f { type = type; pipe = p }

-- `none` is -1, else the descriptors that are written to `fds`; the test of `fds` is an argument.
unfoldable pub sys_pipe : World → ℕ → Bool → ℕ → (ℕ → ℕ) → Option (ℕ × ℕ) × World
sys_pipe w t fds_ok p garbage = if not fds_ok then (none, w) else elim (new_fd w t) [
  | none ↦ (none, w)
  | some rfd ↦ elim (free_slot (7 - rfd) (rfd + 1) (get_or w.tables t [])) [
    | none ↦ (none, w)
    | some wfd ↦
        (let made = record w { pipes = update w.pipes p (some (pipe_create garbage)) } in
          let read = put_file made t rfd (pipe_end (file_of w t rfd) fd_pipe_r p) in
          (some (rfd, wfd), put_file read t wfd (pipe_end (file_of w t wfd) fd_pipe_w p)))
  ]
]

unfoldable pub addref_all : List File → World → Option World
addref_all [] w = some w
addref_all (f ∷ fs) w = do u ← file_addref w f; addref_all fs u

abbrev pub five_free : List File
five_free = no_file ∷ (no_file ∷ (no_file ∷ (no_file ∷ (no_file ∷ []))))

-- `spawn_task`, as far as files go: the pid, and the table of the new task behind all others.
unfoldable pub spawn_files : World → Option (List File) → Option (ℤ × World)
spawn_files w none = some (
  signed32 w.next_pid,
  record w {
    tables = w.tables ++ ((console_file ∷ (console_file ∷ (console_file ∷ five_free))) ∷ []);
    next_pid = add32 w.next_pid 1;
  },
)
spawn_files w (some stdio) = do
  u ← addref_all stdio w
  some (
    signed32 u.next_pid,
    record u { tables = u.tables ++ ((stdio ++ five_free) ∷ []); next_pid = add32 u.next_pid 1 },
  )

-- `elf_exec`: whether the program can be loaded is an argument.
unfoldable pub exec_files : World → Bool → List File → Option (ℤ × World)
exec_files w loads stdio = if loads then spawn_files w (some stdio) else some (minus_one, w)

-- `SYS_EXEC`
unfoldable pub sys_exec : World → ℕ → Bool → Option (ℤ × World)
sys_exec w t loads = exec_files w loads (file_of w t 0 ∷ (file_of w t 1 ∷ (file_of w t 2 ∷ [])))

-- Entry i of the map of `sys_exec2`; `none` is the return of -1.
abbrev pub mapped_file : World → ℕ → ℕ → ℤ → Option File
mapped_file w t i (negsuc n) = some (file_of w t i)
mapped_file w t i (pos fd) = elim (fd_get (pos fd)) [
  | none ↦ none
  | some k ↦ if (file_of w t k).type == fd_none then none else some (file_of w t k)
]

abbrev pub mapped_all : World → ℕ → ℤ → ℤ → ℤ → Option (List File)
mapped_all w t a b c = do
  f ← mapped_file w t 0 a
  g ← mapped_file w t 1 b
  h ← mapped_file w t 2 c
  some (f ∷ (g ∷ (h ∷ [])))

-- The three entries; a null `fds` is three times -1. The tests of the pointers are an argument.
unfoldable pub sys_exec2 : World → ℕ → Bool → ℤ → ℤ → ℤ → Bool → Option (ℤ × World)
sys_exec2 w t args_ok a b c loads =
    if not args_ok then some (minus_one, w) else elim (mapped_all w t a b c) [
      | none ↦ some (minus_one, w)
      | some stdio ↦ exec_files w loads stdio
    ]

abbrev pub channel_file : File → ℤ → File
channel_file garbage cid = record garbage { type = fd_channel; node = 0; offset = 0; cid = cid }

abbrev pub is_minus : ℤ → Bool
is_minus (pos n) = false
is_minus (negsuc n) = true

-- The fields of `stdio` that `sys_execc` does not set are what the stack holds.
unfoldable pub sys_execc : World → Bool → Bool → File → Option (ℤ × World)
sys_execc w path_ok loads garbage =
    if not path_ok
    then some (minus_one, w)
    else (let (cid, consoles) = console_alloc w.consoles in
        let stdio =
          channel_file garbage cid ∷ (channel_file garbage cid ∷ (channel_file garbage cid ∷ [])) in
        if is_minus cid then some (minus_one, record w { consoles = consoles }) else (do
          r ← exec_files (record w { consoles = consoles }) loads stdio
          some (
              if is_minus r.0
              then (minus_one, record r.1 { consoles = console_free r.1.consoles cid })
              else (cid, record r.1 { consoles = console_set_pid r.1.consoles cid r.0 }))))

-- `sys_connect`: the table of sockets behind `tcp_connect`, and its result, are arguments.
unfoldable pub sys_connect : World → ℕ → ℤ → Socks → ℤ × World
sys_connect w t s socks = elim (new_fd w t) [
  | none ↦ (minus_one, w)
  | some fd ↦
      (let u = record w { socks = socks } in
        if is_minus s
        then (minus_one, u)
        else (pos fd, put_file u t fd (record (file_of w t fd) { type = fd_socket; sock = s })))
]

-- One pass of `pipe_read` and of `pipe_write` by `sys_read` and `sys_write` on a pipe's end.
unfoldable pub read_end : World → ℕ → ℕ → ℕ → Option World
read_end w t fd len =
    let f = file_of w t fd in
    if fd_type f.type == fd_pipe_r
    then elim (w.pipes f.pipe) [
      | none ↦ none
      | some p ↦ some (record w { pipes = update w.pipes f.pipe (some (read_pass p len).1) })
    ]
    else some w

unfoldable pub write_end : World → ℕ → ℕ → List ℕ → Option World
write_end w t fd bytes =
    let f = file_of w t fd in
    if fd_type f.type == fd_pipe_w
    then elim (w.pipes f.pipe) [
      | none ↦ none
      | some p ↦ some (record w { pipes = update w.pipes f.pipe (some (write_pass p bytes).1) })
    ]
    else some w
