-- ===== src/Elf.antt =====
-- kernel/elf.c: the checks of a program file, the loading of its segments, and its first stack.
pub mod Headers
pub mod Segments
pub mod Stack
pub mod Arguments
mod Tests
use nos.Prelude.{
  ℕ, zero, suc, ◌+◌, ◌-◌, ◌*◌, ◌/◌, ◌%◌, ltb, List, [], ◌∷◌, ◌++◌, length, Option, none, some, Bool,
  true, false, not, ◌&&◌, ◌||◌, if◌then◌else◌, ◌==◌, add32, sub32, update,
}
use nos.Strings.{memcpy, memset, strlen}
use nos.UserMem.{Directory, user_vaddr_min, user_vaddr_max, user_ok, user_str_ok}

-- Little-endian words in memory.
abbrev pub le16 : (ℕ → ℕ) → ℕ → ℕ
le16 mem a = mem a + mem (a + 1) * 256

abbrev pub le32 : (ℕ → ℕ) → ℕ → ℕ
le32 mem a = le16 mem a + le16 mem (a + 2) * 65536

-- The fields of `struct elf32_ehdr` and `struct elf32_phdr` that are read.
pub record Ehdr : Type 0 where
  pub e_entry : ℕ
  pub e_phoff : ℕ
  pub e_phentsize : ℕ
  pub e_phnum : ℕ

pub record Phdr : Type 0 where
  pub p_type : ℕ
  pub p_offset : ℕ
  pub p_vaddr : ℕ
  pub p_filesz : ℕ
  pub p_memsz : ℕ

abbrev pub read_ehdr : (ℕ → ℕ) → ℕ → Ehdr
read_ehdr mem a = record {
  e_entry = le32 mem (a + 24);
  e_phoff = le32 mem (a + 28);
  e_phentsize = le16 mem (a + 42);
  e_phnum = le16 mem (a + 44);
}

abbrev pub read_phdr : (ℕ → ℕ) → ℕ → Phdr
read_phdr mem a = record {
  p_type = le32 mem a;
  p_offset = le32 mem (a + 4);
  p_vaddr = le32 mem (a + 8);
  p_filesz = le32 mem (a + 16);
  p_memsz = le32 mem (a + 20);
}

-- `sizeof(struct elf32_ehdr)` and `PT_LOAD`
abbrev pub ehdr_size : ℕ
ehdr_size = 52

abbrev pub pt_load : ℕ
pt_load = 1

unfoldable pub elf_is_valid : (ℕ → ℕ) → ℕ → Bool
elf_is_valid mem eh =
    mem eh == 0x7F && (mem (eh + 1) == b'E' && (mem (eh + 2) == b'L' && mem (eh + 3) == b'F'))

-- The program header i of the file at `buf`.
abbrev pub phdr_at : (ℕ → ℕ) → ℕ → Ehdr → ℕ → Phdr
phdr_at mem buf eh i = read_phdr mem (buf + eh.e_phoff + i * eh.e_phentsize)

-- The test of one PT_LOAD, in a file of `got` bytes.
unfoldable pub bad_segment : ℕ → Phdr → Bool
bad_segment got ph =
    ltb got ph.p_offset
    || (ltb (got - ph.p_offset) ph.p_filesz
        || (ltb ph.p_memsz ph.p_filesz
            || (ltb ph.p_vaddr user_vaddr_min || ltb (sub32 user_vaddr_max ph.p_vaddr) ph.p_memsz)))

-- The loop over the n headers from i on.
unfoldable pub segments_ok : ℕ → (ℕ → ℕ) → ℕ → ℕ → Ehdr → ℕ → Bool
segments_ok zero mem buf got eh i = true
segments_ok (suc n) mem buf got eh i =
    let rest = segments_ok n mem buf got eh (i + 1) in
    let ph = phdr_at mem buf eh i in
    if not (ph.p_type == pt_load) then rest else if bad_segment got ph then false else rest

-- What stands between the reading of the file and the new address space; `none` is -1.
unfoldable pub check_headers : (ℕ → ℕ) → ℕ → ℕ → Option Ehdr
check_headers mem buf got =
    let eh = read_ehdr mem buf in
    if ltb got ehdr_size
    then none
    else if not (elf_is_valid mem buf)
    then none
    else if ltb got eh.e_phoff || ltb (got - eh.e_phoff) (eh.e_phnum * eh.e_phentsize)
    then none
    else if segments_ok eh.e_phnum mem buf got eh 0
    then some eh
    else none

-- The copy of one segment into the new address space.
abbrev pub load_segment : (ℕ → ℕ) → ℕ → Phdr → (ℕ → ℕ)
load_segment mem buf ph =
    let copied = memcpy mem ph.p_vaddr (buf + ph.p_offset) ph.p_filesz in
    if ltb ph.p_filesz ph.p_memsz
    then memset copied (ph.p_vaddr + ph.p_filesz) 0 (ph.p_memsz - ph.p_filesz)
    else copied

unfoldable pub load_segments : ℕ → (ℕ → ℕ) → ℕ → Ehdr → ℕ → (ℕ → ℕ)
load_segments zero mem buf eh i = mem
load_segments (suc n) mem buf eh i =
    let ph = phdr_at mem buf eh i in
    load_segments n (if ph.p_type == pt_load then load_segment mem buf ph else mem) buf eh (i + 1)

-- `EXEC_MAX_ARGS` and `EXEC_ARG_BYTES`
abbrev pub exec_max_args : ℕ
exec_max_args = 16

abbrev pub exec_arg_bytes : ℕ
exec_arg_bytes = 1024

-- The text at an address, of n bytes at most.
unfoldable pub text_at : ℕ → (ℕ → ℕ) → ℕ → List ℕ
text_at zero mem a = []
text_at (suc n) mem a = let rest = text_at n mem (a + 1) in if mem a == 0 then [] else mem a ∷ rest

-- The loop that collects the arguments, of n rounds at most.
unfoldable pub collect_args : ℕ → Directory → (ℕ → ℕ) → ℕ → ℕ → List (List ℕ)
collect_args zero dir mem argv argused = []
collect_args (suc n) dir mem argv argused =
    let s = text_at exec_arg_bytes mem (le32 mem argv) in
    let rest = collect_args n dir mem (add32 argv 4) (argused + (strlen s + 1)) in
    if user_ok dir argv 4 false && user_str_ok dir mem (le32 mem argv) exec_arg_bytes
    then (if ltb exec_arg_bytes (argused + (strlen s + 1)) then [] else s ∷ rest)
    else []

-- The arguments as they are kept; kernel callers have none.
unfoldable pub exec_args : Directory → (ℕ → ℕ) → ℕ → List (List ℕ)
exec_args dir mem argv = if argv == 0 then [] else collect_args exec_max_args dir mem argv 0

-- `USER_STACK_TOP` and `USER_STACK_SIZE`
abbrev pub user_stack_top : ℕ
user_stack_top = 0x50000000

abbrev pub user_stack_size : ℕ
user_stack_size = 0x4000

unfoldable pub put_bytes : (ℕ → ℕ) → ℕ → List ℕ → (ℕ → ℕ)
put_bytes mem a [] = mem
put_bytes mem a (b ∷ s) = put_bytes (update mem a b) (a + 1) s

-- A word is put with its low byte first.
abbrev pub word : ℕ → List ℕ
word v = v % 256 ∷ (v / 256 % 256 ∷ (v / 65536 % 256 ∷ (v / 16777216 % 256 ∷ [])))

abbrev pub put_word : (ℕ → ℕ) → ℕ → ℕ → (ℕ → ℕ)
put_word mem a v = put_bytes mem a (word v)

-- The strings go down from `usp`: their addresses, the new `usp` and the memory.
unfoldable pub put_strings : List (List ℕ) → ℕ → (ℕ → ℕ) → List ℕ × ℕ × (ℕ → ℕ)
put_strings [] usp mem = ([], usp, mem)
put_strings (s ∷ args) usp mem =
    let top = usp - (strlen s + 1) in
    let (uargs, low, after) = put_strings args top (put_bytes mem top (s ++ (0 ∷ []))) in
    (top ∷ uargs, low, after)

unfoldable pub put_words : (ℕ → ℕ) → ℕ → List ℕ → (ℕ → ℕ)
put_words mem a [] = mem
put_words mem a (v ∷ vs) = put_words (put_word mem a v) (a + 4) vs

-- The stack of the program: the stack pointer and the memory.
unfoldable pub initial_stack : List (List ℕ) → (ℕ → ℕ) → ℕ × (ℕ → ℕ)
initial_stack args mem0 =
    let mem = memset mem0 (user_stack_top - user_stack_size) 0 user_stack_size in
    let (uargs, low, strings) = put_strings args user_stack_top mem in
    let argc = length args in
    let uargv = low / 4 * 4 - (argc + 1) * 4 in
    let table = put_words strings uargv (uargs ++ (0 ∷ [])) in
    (
      uargv - 12,
      put_word (put_word (put_word table (uargv - 4) uargv) (uargv - 8) argc) (uargv - 12) 0,
    )
