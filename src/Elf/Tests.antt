-- ===== src/Elf/Tests.antt =====
-- The loader at concrete files and arguments.
use nos.Prelude.{
  ℕ, ◌+◌, ◌*◌, ◌≡◌, ◌↔◌, ◌≤◌, ◌<◌, refl, [], ◌∷◌, none, some, true, false, if◌then◌else◌, ◌==◌, inl,
  arith, subst,
}
use nos.Strings.{strlen}
use nos.UserMem.{allows, pages_ok, str_loop, scan, Page, Directory, user_ok, user_str_ok, get_page}
use nos.Elf.{
  read_ehdr, phdr_at, bad_segment, segments_ok, check_headers, elf_is_valid, load_segments,
  exec_args, collect_args, text_at, initial_stack,
}
use nos.Elf.Headers.{Accepted, check_headers-Accepted}
use nos.Elf.Segments.{InWindow, load_segments-Outside}
use nos.Elf.Stack.{Started}
use nos.Elf.Arguments.{exec_args-Started}

-- A file of 84 bytes at address 4096 with one header, for 4 bytes of the file and 8 bytes of memory.
abbrev image : ℕ → ℕ
image a =
    if a == 4096
    then 0x7F
    else if a == 4097
    then 69
    else if a == 4098
    then 76
    else if a == 4099
    then 70
    else if a == 4124
    then 52
    else if a == 4138
    then 32
    else if a == 4140
    then 1
    else if a == 4148
    then 1
    else if a == 4159
    then 0x40
    else if a == 4164
    then 4
    else if a == 4168
    then 8
    else 0

-- The same with its segment at 0x90000000.
abbrev high_image : ℕ → ℕ
high_image a = if a == 4159 then 0x90 else image a

image_small : (a : ℕ) → image a < 256
image_small a = ground arith

high_small : (a : ℕ) → high_image a < 256
high_small a = ground (arith, image_small a)

check_test :
    check_headers image 4096 84
    ≡ some (record { e_entry = 0; e_phoff = 52; e_phentsize = 32; e_phnum = 1 })
unfolding check_headers elf_is_valid segments_ok bad_segment
check_test = refl

-- A segment above the user window passes.
check_high_test :
    check_headers high_image 4096 84
    ≡ some (record { e_entry = 0; e_phoff = 52; e_phentsize = 32; e_phnum = 1 })
unfolding check_headers elf_is_valid segments_ok bad_segment
check_high_test = refl

check_headers-Accepted_example : (check_headers image 4096 84 ≡ some (read_ehdr image 4096)) ↔ (
    (52 ≤ 84)
    × (elf_is_valid image 4096 ≡ true)
    × ((read_ehdr image 4096).e_phoff
          + (read_ehdr image 4096).e_phnum * (read_ehdr image 4096).e_phentsize
        ≤ 84)
    × ((k : ℕ)
        → k < (read_ehdr image 4096).e_phnum
        → (phdr_at image 4096 (read_ehdr image 4096) k).p_type ≡ 1
        → Accepted 84 (phdr_at image 4096 (read_ehdr image 4096) k)))
check_headers-Accepted_example = check_headers-Accepted image image_small 4096 84

one_header :
    (k : ℕ)
    → k < 1
    → (phdr_at image 4096 (read_ehdr image 4096) k).p_type ≡ 1
    → InWindow (phdr_at image 4096 (read_ehdr image 4096) k)
one_header k lt load =
    let first : 0 ≡ k = omega arith in
    subst (λ j. InWindow (phdr_at image 4096 (read_ehdr image 4096) j)) first
      (omega arith, omega arith, omega arith)

load_segments-Outside_example : load_segments 1 image 4096 (read_ehdr image 4096) 0 4096 ≡ 0x7F
load_segments-Outside_example =
    load_segments-Outside image 4096 (read_ehdr image 4096) (omega arith) (omega arith) one_header
      4096 (inl (omega arith))

-- A caller whose table of one argument stands at 0x40000000, and the text "a" behind it.
abbrev caller_mem : ℕ → ℕ
caller_mem a =
    if a == 0x40000000
    then 8
    else if a == 0x40000003
    then 0x40
    else if a == 0x40000008
    then 97
    else 0

abbrev caller_page : Page
caller_page = record {
  present = true;
  rw = true;
  user = true;
  accessed = false;
  dirty = false;
  frame = 3;
}

abbrev caller_dir : Directory
caller_dir = record { tables = λ i. if i == 256 then some (λ k. caller_page) else none }

args_test : exec_args caller_dir caller_mem 0x40000000 ≡ (97 ∷ []) ∷ []
unfolding allows exec_args collect_args text_at user_ok user_str_ok pages_ok get_page strlen
    str_loop scan
args_test = refl

exec_args-Started_example :
    Started
      (initial_stack (exec_args caller_dir caller_mem 0x40000000) (λ a. 7)).1
      (initial_stack (exec_args caller_dir caller_mem 0x40000000) (λ a. 7)).0
      (exec_args caller_dir caller_mem 0x40000000)
exec_args-Started_example = exec_args-Started caller_dir caller_mem 0x40000000 (λ a. 7)
