-- ===== src/Initrd.antt =====
-- kernel/initrd.c: the tar archive in memory as a file system. A name is a list of bytes without
-- its final 0, and the chain of headers is a list.
pub mod Archive
pub mod Names
pub mod Listing
mod Tests
use nos.Prelude.{
  ℕ, zero, suc, ◌+◌, ◌-◌, ◌*◌, ◌/◌, ◌%◌, ◌^◌, ltb, List, [], ◌∷◌, length, take, Option, none, some,
  Bool, true, false, not, ◌&&◌, ◌||◌, if◌then◌else◌, ◌==◌, ℤ, pos, negsuc, minus_one, map, ◌>>=◌,
  add32, sub32, get_elem?,
}
use nos.Elf.{text_at}
use nos.Strings.{memcpy, strcmp}

-- A `char` as an int, as a bit pattern.
abbrev pub char_word : ℕ → ℕ
char_word c = if ltb c 128 then c else c + 2 ^ 32 - 256

-- The loop of `getsize` from j = n down.
unfoldable pub getsize_loop : ℕ → (ℕ → ℕ) → ℕ → ℕ → ℕ → ℕ
getsize_loop zero mem a count size = size
getsize_loop (suc j) mem a count size =
    getsize_loop j mem a (count * 8 % 2 ^ 32)
      (add32 size (sub32 (char_word (mem (a + j))) 48 * count % 2 ^ 32))

unfoldable pub getsize : (ℕ → ℕ) → ℕ → ℕ
getsize mem a = getsize_loop 11 mem a 1 0

-- `struct tar_header_chain`
pub record Header : Type 0 where
  pub size : ℕ
  pub tar_header : ℕ

-- The loop of `parse` in n rounds; `none` when they do not reach the end of the archive.
unfoldable pub parse : ℕ → (ℕ → ℕ) → ℕ → Option (List Header)
parse zero mem addr = none
parse (suc n) mem addr =
    let size = getsize mem (addr + 124) in
    let next = add32 addr ((size / 512 + 1) * 512 + (if size % 512 == 0 then 0 else 512)) in
    let rest = parse n mem next in
    if mem addr == 0 then some [] else elim rest [
      | none ↦ none
      | some headers ↦ some (record { size = size; tar_header = addr } ∷ headers)
    ]

-- The files of the archive and whether a disk is mounted.
pub record Initrd : Type 0 where
  pub headers : List Header
  pub names : List (List ℕ)
  pub disk : Bool

-- The name of a file: the field has 100 bytes, with a 0 behind a shorter name only.
unfoldable pub initrd_init : ℕ → (ℕ → ℕ) → ℕ → Option Initrd
initrd_init rounds mem ptr = elim (parse rounds mem ptr) [
  | none ↦ none
  | some headers ↦ some (record {
    headers = headers;
    names = map (λ h. text_at 100 mem h.tar_header) headers;
    disk = false;
  })
]

-- The nodes that the callbacks are called on or return: the root, "dev", "disk" and the files.
pub data Node : Type 0 where
  root dev disk : Node
  file : ℕ → Node

abbrev pub is_root : Node → Bool
is_root root = true
is_root dev = false
is_root disk = false
is_root (file i) = false

abbrev pub same_name : List ℕ → List ℕ → Bool
same_name s t = elim (strcmp s t) [ pos n ↦ n == 0 | negsuc n ↦ false ]

abbrev pub dev_name : List ℕ
dev_name = b'd' ∷ (b'e' ∷ (b'v' ∷ []))

abbrev pub disk_name : List ℕ
disk_name = b'd' ∷ (b'i' ∷ (b's' ∷ (b'k' ∷ [])))

-- The entry at an index, its name and inode; `none` is -1.
unfoldable pub initrd_readdir : Initrd → Node → ℕ → Option (List ℕ × ℕ)
initrd_readdir s node index =
    let base = if is_root node then (if s.disk then 2 else 1) else 1 in
    if is_root node && index == 0
    then some (dev_name, 0)
    else if is_root node && (s.disk && index == 1)
    then some (disk_name, 0)
    else if ltb index base
    then none
    else elim (get_elem? s.names (index - base)) [
      | none ↦ none
      | some name ↦ some (name, index - base)
    ]

-- The loop of `initrd_finddir` from file i on.
unfoldable pub find_loop : List (List ℕ) → ℕ → List ℕ → Option Node
find_loop [] i name = none
find_loop (n ∷ names) i name =
    let rest = find_loop names (i + 1) name in if same_name name n then some (file i) else rest

unfoldable pub initrd_finddir : Initrd → Node → List ℕ → Option Node
initrd_finddir s node name =
    if is_root node && same_name name dev_name
    then some dev
    else if is_root node && (s.disk && same_name name disk_name)
    then some disk
    else find_loop s.names 0 name

-- The number of bytes read, and the memory; `none` is the panic.
unfoldable pub initrd_read : Initrd → ℕ → ℕ → ℕ → (ℕ → ℕ) → ℕ → Option (ℕ × (ℕ → ℕ))
initrd_read s inode offset size mem buffer = elim (get_elem? s.headers inode) [
  | none ↦ none
  | some h ↦
      (if ltb h.size offset
        then some (0, mem)
        else (let n = if ltb h.size (add32 offset size) then h.size - offset else size in
            some (n, memcpy mem buffer (h.tar_header + 512 + offset) n)))
]
