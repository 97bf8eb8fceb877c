-- ===== src/Ext2.antt =====
-- kernel/ext2.c: the blocks of the mounted filesystem, and how they are read. Its blocks have
-- 1024 bytes and its inodes 128, as the mount makes sure.
pub mod Contents
pub mod Reading
pub mod Alloc
pub mod Inodes
mod Tests
use nos.Prelude.{
  ℕ, zero, suc, ◌+◌, ◌-◌, ◌*◌, ◌/◌, ◌%◌, ◌^◌, ltb, leb, min, List, [], ◌∷◌, ◌++◌, Option, none,
  some, Bool, true, false, not, ◌&&◌, ◌||◌, if◌then◌else◌, ◌==◌, ℤ, pos, negsuc, add32, get_or,
  take, drop,
}
use nos.Block.{BlockDevice, block_read}

-- `struct ext2_superblock` and `struct ext2_group_desc`, with the bytes of the fields that no code
-- uses, and `struct ext2_inode` and `struct ext2_mount`, as far as the models use them
pub record Superblock : Type 0 where
  pub s_inodes_count : ℕ
  pub s_blocks_count : ℕ
  pub s_r_blocks_count : ℕ
  pub s_free_blocks_count : ℕ
  pub s_free_inodes_count : ℕ
  pub s_first_data_block : ℕ
  pub s_others : List ℕ

pub record GroupDesc : Type 0 where
  pub bg_block_bitmap : ℕ
  pub bg_inode_bitmap : ℕ
  pub bg_inode_table : ℕ
  pub bg_free_blocks_count : ℕ
  pub bg_free_inodes_count : ℕ
  pub bg_others : List ℕ

pub record Inode : Type 0 where
  pub i_mode : ℕ
  pub i_size : ℕ
  pub i_block : ℕ → ℕ

pub record Mount (S : Type 0) : Type 0 where
  pub dev : Option (BlockDevice S)
  pub sb : Superblock
  pub gd : GroupDesc
  pub inode_table_block : ℕ
  pub inode_table_blocks : ℕ
  pub first_data_block : ℕ
  pub alloc_start_bit : ℕ
  pub sb_block : ℕ
  pub gd_block : ℕ

abbrev pub block_size : ℕ
block_size = 1024

abbrev pub sectors_per_block : ℕ
sectors_per_block = 2

abbrev pub inode_size : ℕ
inode_size = 128

-- Little-endian numbers in the bytes of a block.
abbrev pub word16 : List ℕ → ℕ → ℕ
word16 buf i = get_or buf i 0 + get_or buf (i + 1) 0 * 256

abbrev pub word32 : List ℕ → ℕ → ℕ
word32 buf i = word16 buf i + word16 buf (i + 2) * 65536

abbrev pub zero_bytes : ℕ → List ℕ
zero_bytes zero = []
zero_bytes (suc n) = 0 ∷ zero_bytes n

unfoldable pub ext2_blk_in_range : Superblock → ℕ → Bool
ext2_blk_in_range sb blk = leb sb.s_first_data_block blk && ltb blk sb.s_blocks_count

module _ {S : Type 0} (m : Mount S) where
  unfoldable pub ext2_data_blk_ok : ℕ → Bool
  ext2_data_blk_ok blk = blk == 0 || leb m.first_data_block blk && ltb blk m.sb.s_blocks_count

  -- The n pointers from place i on.
  unfoldable pub pointers_ok : ℕ → ℕ → Inode → Bool
  pointers_ok zero i node = true
  pointers_ok (suc n) i node =
      let rest = pointers_ok n (i + 1) node in
      if not (ext2_data_blk_ok (node.i_block i)) then false else rest

  unfoldable pub ext2_inode_pointers_ok : Inode → Bool
  ext2_inode_pointers_ok node =
      if not (pointers_ok 12 0 node)
      then false
      else if not (ext2_data_blk_ok (node.i_block 12))
      then false
      else node.i_block 13 == 0 && node.i_block 14 == 0

  -- A result below 0, and the call of a null pointer, are `none`.
  abbrev pub took : Option (ℤ × List ℕ × S) → S → Option (List ℕ) × S
  took none s = (none, s)
  took (some (negsuc n, buf, u)) s = (none, u)
  took (some (pos n, buf, u)) s = (some buf, u)

  unfoldable pub ext2_read_block : ℕ → S → Option (List ℕ) × S
  ext2_read_block blk s =
      if not (ext2_blk_in_range m.sb blk)
      then (none, s)
      else took (block_read m.dev (blk * sectors_per_block % 2 ^ 32) sectors_per_block true s) s

-- The inode at a place of a block.
abbrev pub inode_at : List ℕ → ℕ → Inode
inode_at buf i = record {
  i_mode = word16 buf i;
  i_size = word32 buf (i + 4);
  i_block = λ k. word32 buf (i + 40 + 4 * k);
}

module _ {S : Type 0} (m : Mount S) where
  unfoldable pub ext2_read_inode : ℕ → S → Option Inode × S
  ext2_read_inode ino s =
      let off = (ino - 1) * inode_size % 2 ^ 32 in
      let blk = add32 m.inode_table_block (off / block_size) in
      if ltb ino 1 || ltb m.sb.s_inodes_count ino
      then (none, s)
      else if leb (add32 m.inode_table_block m.inode_table_blocks) blk
      then (none, s)
      else (let (buf, u) = ext2_read_block m blk s in
          elim buf [
            | none ↦ (none, u)
            | some bytes ↦ (some (inode_at bytes (off % block_size)), u)
          ])

  -- The number `phys` of block bi of a file, the indirect block if it is loaded, and the device;
  -- `none` leaves the loop.
  unfoldable pub find_block : Inode → ℕ → Option (List ℕ) → S → Option ℕ × Option (List ℕ) × S
  find_block node bi indirect s =
      if ltb bi 12
      then (some (node.i_block bi), indirect, s)
      else if ltb bi (12 + block_size / 4)
      then (if node.i_block 12 == 0
          then (some 0, indirect, s)
          else if not (ext2_data_blk_ok m (node.i_block 12))
          then (none, indirect, s)
          else elim indirect [
            | some entries ↦ (some (word32 entries (4 * (bi - 12))), some entries, s)
            | none ↦
                (let (buf, u) = ext2_read_block m (node.i_block 12) s in
                  elim buf [
                    | none ↦ (none, none, u)
                    | some entries ↦ (some (word32 entries (4 * (bi - 12))), some entries, u)
                  ])
          ])
      else (none, indirect, s)

  -- A chunk of the block `phys`.
  unfoldable pub read_chunk : ℕ → ℕ → ℕ → S → Option (List ℕ) × S
  read_chunk phys in_blk chunk s =
      if phys == 0
      then (some (zero_bytes chunk), s)
      else if not (ext2_data_blk_ok m phys)
      then (none, s)
      else (let (buf, u) = ext2_read_block m phys s in
          elim buf [ none ↦ (none, u) | some bytes ↦ (some (take chunk (drop in_blk bytes)), u) ])

  -- The loop: the bytes from `buf + got` on.
  unfoldable pub data_loop : ℕ → Inode → ℕ → ℕ → ℕ → Option (List ℕ) → S → List ℕ × S
  data_loop zero node offset size got indirect s = ([], s)
  data_loop (suc f) node offset size got indirect s =
      let foff = add32 offset got in
      let in_blk = foff % block_size in
      let chunk = min (block_size - in_blk) (size - got) in
      let (phys, loaded, s1) = find_block node (foff / block_size) indirect s in
      if not (ltb got size) then ([], s) else elim phys [
        | none ↦ ([], s1)
        | some p ↦
            (let (bytes, s2) = read_chunk p in_blk chunk s1 in
              elim bytes [
                | none ↦ ([], s2)
                | some bs ↦
                    (let (rest, u) = data_loop f node offset size (got + chunk) loaded s2 in
                      (bs ++ rest, u))
              ])
      ]

  -- A round takes a byte at least.
  unfoldable pub ext2_read_data : Inode → ℕ → ℕ → S → List ℕ × S
  ext2_read_data node offset size s =
      let part = if ltb (node.i_size - offset) size then node.i_size - offset else size in
      if leb node.i_size offset then ([], s) else data_loop (suc part) node offset part 0 none s

  -- What is read under the lock of the mount.
  unfoldable pub ext2_read_file : ℕ → ℕ → ℕ → S → List ℕ × S
  ext2_read_file ino offset size s =
      let (node, s1) = ext2_read_inode ino s in
      elim node [
        | none ↦ ([], s1)
        | some n ↦
            if not (ext2_inode_pointers_ok m n) then ([], s1) else ext2_read_data n offset size s1
      ]
