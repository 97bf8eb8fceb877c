-- ===== src/Files/Open.antt =====
-- kernel/syscall.c and kernel/vfs.c: files that are opened, made, cut, read and written. What a
-- filesystem keeps is a type S, and its callbacks are functions on it.
pub mod Access
pub mod Sequence
use nos.Prelude.{
  ℕ, zero, suc, ◌+◌, ltb, List, [], ◌∷◌, Option, none, some, Bool, true, false, not, ◌&&◌, ◌||◌,
  if◌then◌else◌, ◌==◌, ◌>>=◌, ℤ, pos, minus_one, signed32, add32, bit_and, take, drop, length,
}
use nos.Vfs.{Vfs, FsNode, vfs_resolve, slash, fs_directory}
use nos.Files.{File, World, file_of, put_file, new_fd, fd_get, fd_file, fd_type}

-- `FS_FILE`
abbrev pub fs_file : ℕ
fs_file = 0x01

-- The nodes, and the callbacks of the node at an address; `none` is a null pointer. A callback
-- gives its result, where 0 is no node and false is a result below 0, and what is kept then.
pub record Driver (S : Type 0) : Type 0 where
  pub tree : S → Vfs
  pub create : S → ℕ → Option (List ℕ → ℕ × S)
  pub mkdir : S → ℕ → Option (List ℕ → Bool × S)
  pub truncate : S → ℕ → Option (Bool × S)
  pub read : S → ℕ → Option (ℕ → ℕ → List ℕ)
  pub write : S → ℕ → Option (ℕ → List ℕ → ℕ × S)

module _ {S : Type 0} (d : Driver S) where
  abbrev pub kind : S → ℕ → ℕ
  kind s node = bit_and ((d.tree s).node node).flags 0x7

  -- No node, or one that is no directory.
  abbrev pub no_dir : S → ℕ → Bool
  no_dir s node = node == 0 || not (kind s node == fs_directory)

  unfoldable pub vfs_create : S → ℕ → List ℕ → ℕ × S
  vfs_create s dir name =
      if no_dir s dir
      then (0, s)
      else elim (d.create s dir) [ none ↦ (0, s) | some make ↦ make name ]

  unfoldable pub vfs_mkdir : S → ℕ → List ℕ → Bool × S
  vfs_mkdir s dir name =
      if no_dir s dir
      then (false, s)
      else elim (d.mkdir s dir) [ none ↦ (false, s) | some make ↦ make name ]

  unfoldable pub vfs_truncate : S → ℕ → Bool × S
  vfs_truncate s node =
      if node == 0
      then (false, s)
      else elim (d.truncate s node) [ none ↦ (false, s) | some cut ↦ cut ]

  unfoldable pub vfs_read : S → ℕ → ℕ → ℕ → List ℕ
  vfs_read s node offset size = elim (d.read s node) [ none ↦ [] | some get ↦ get offset size ]

  unfoldable pub vfs_write : S → ℕ → ℕ → List ℕ → ℕ × S
  vfs_write s node offset bytes = elim (d.write s node) [
    | none ↦ (0, s)
    | some put ↦ put offset bytes
  ]

-- The first free descriptor takes the node.
abbrev pub opened_file : File → ℕ → ℕ → File
opened_file f type node = record f { type = type; node = node; offset = 0 }

-- The loop for the last slash, from place i on.
unfoldable pub last_slash : List ℕ → ℕ → Option ℕ → Option ℕ
last_slash [] i last = last
last_slash (c ∷ path) i last = last_slash path (i + 1) (if c == slash then some i else last)

abbrev pub bad_leaf : List ℕ → Bool
bad_leaf [] = true
bad_leaf (c ∷ leaf) = c == slash

abbrev pub o_wronly : ℕ
o_wronly = 0x1

abbrev pub o_rdwr : ℕ
o_rdwr = 0x2

abbrev pub o_create : ℕ
o_create = 0x4

abbrev pub o_trunc : ℕ
o_trunc = 0x8

-- A test of the bits of a mask.
abbrev pub has_flag : ℕ → ℕ → Bool
has_flag flags mask = not (bit_and flags mask == 0)

-- The three tests of the flags: unknown bits, O_TRUNC without an access that writes, and the
-- access that is both.
abbrev pub bad_flags : ℕ → Bool
bad_flags flags =
    has_flag flags 0xFFFFFFF0
    || (has_flag flags o_trunc && not (has_flag (bit_and flags 3) 3) || bit_and flags 3 == 3)

abbrev pub fd_writable : ℕ
fd_writable = 0x100

abbrev pub fd_writeonly : ℕ
fd_writeonly = 0x200

-- The bits of the sum stand apart.
abbrev pub open_type : ℕ → ℕ
open_type flags =
    fd_file
    + (if has_flag flags 3 then fd_writable else 0)
    + (if has_flag flags o_wronly then fd_writeonly else 0)

abbrev pub is_null : {A : Type 0} → Option A → Bool
is_null none = true
is_null (some x) = false

abbrev pub is_nil : List ℕ → Bool
is_nil [] = true
is_nil (c ∷ path) = false

module _ {S : Type 0} (d : Driver S) where
  -- The parent and the leaf of a path that is not empty; `none` is -1 for a leaf that is not.
  unfoldable pub parent_leaf : S → List ℕ → Option (ℕ × List ℕ)
  parent_leaf s path = elim (last_slash path 0 none) [
    | none ↦ some ((d.tree s).fs_root, path)
    | some last ↦
        (let leaf = drop (last + 1) path in
          if bad_leaf leaf
          then none
          else some (
            if is_nil (take last path)
                then (d.tree s).fs_root
                else vfs_resolve (d.tree s) (take last path),
            leaf,
          ))
  ]

  -- The test of the path is an argument of these calls.
  unfoldable pub sys_open : S → World → ℕ → Bool → List ℕ → ℤ × World
  sys_open s w t path_ok path =
      let node = vfs_resolve (d.tree s) path in
      if not path_ok || node == 0 then (minus_one, w) else elim (new_fd w t) [
        | none ↦ (minus_one, w)
        | some fd ↦ (pos fd, put_file w t fd (opened_file (file_of w t fd) fd_file node))
      ]

  -- The node that is found or made, 0 for none.
  unfoldable pub find_or_create : S → List ℕ → ℕ → ℕ × S
  find_or_create s path flags =
      let node = vfs_resolve (d.tree s) path in
      if not (node == 0)
      then (node, s)
      else if not (has_flag flags o_create)
      then (0, s)
      else elim (parent_leaf s path) [
        | none ↦ (0, s)
        | some (parent, leaf) ↦ if no_dir d s parent then (0, s) else vfs_create d s parent leaf
      ]

  unfoldable pub sys_openmode : S → World → ℕ → Bool → List ℕ → ℕ → ℤ × S × World
  sys_openmode s w t path_ok path flags =
      let kpath = take 127 path in
      if not path_ok || (bad_flags flags || is_nil kpath)
      then (minus_one, s, w)
      else elim (new_fd w t) [
        | none ↦ (minus_one, s, w)
        | some fd ↦
            (let (node, s1) = find_or_create s kpath flags in
              let (cut, s2) =
                if has_flag flags o_trunc then vfs_truncate d s1 node else (true, s1) in
              if node == 0 || not (kind d s1 node == fs_file)
              then (minus_one, s1, w)
              else if not cut
              then (minus_one, s2, w)
              else (
                pos fd,
                s2,
                put_file w t fd (opened_file (file_of w t fd) (open_type flags) node),
              ))
      ]

  unfoldable pub sys_mkdir : S → Bool → List ℕ → ℤ × S
  sys_mkdir s path_ok path =
      let kpath = take 127 path in
      if not path_ok || is_nil kpath then (minus_one, s) else elim (parent_leaf s kpath) [
        | none ↦ (minus_one, s)
        | some (parent, leaf) ↦
            if no_dir d s parent
            then (minus_one, s)
            else (let (made, u) = vfs_mkdir d s parent leaf in
                if made then (pos 0, u) else (minus_one, u))
      ]

  -- `sys_read` on a file: the result and the bytes for the buffer, which passed its test. `none`
  -- is for the other kinds of descriptor.
  unfoldable pub read_file : S → World → ℕ → ℕ → ℕ → Option ((ℤ × List ℕ) × World)
  read_file s w t fd len =
      let f = file_of w t fd in
      let got = vfs_read d s f.node f.offset len in
      if not (fd_type f.type == fd_file)
      then none
      else if has_flag f.type fd_writeonly
      then some ((minus_one, []), w)
      else some (
        (signed32 (length got), got),
        put_file w t fd (record f { offset = add32 f.offset (length got) }),
      )

  -- `sys_write` on a file.
  unfoldable pub write_file : S → World → ℕ → ℕ → List ℕ → Option (ℤ × S × World)
  write_file s w t fd bytes =
      let f = file_of w t fd in
      let (put, u) = vfs_write d s f.node f.offset bytes in
      if not (fd_type f.type == fd_file)
      then none
      else if not (has_flag f.type fd_writable) || (f.node == 0 || is_null (d.write s f.node))
      then some (minus_one, s, w)
      else some (signed32 put, u, put_file w t fd (record f { offset = add32 f.offset put }))
