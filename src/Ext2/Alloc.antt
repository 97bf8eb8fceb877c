-- ===== src/Ext2/Alloc.antt =====
-- kernel/ext2.c: the bitmap of blocks, a block that is taken and one that is given back.
pub mod Bitmap
pub mod Takes
pub mod Counts
pub mod Faults
pub mod Places
pub mod Marks
pub mod Outcome
pub mod Frees
mod Tests
use nos.Prelude.{
  ℕ, zero, suc, ◌+◌, ◌-◌, ◌*◌, ◌/◌, ◌%◌, ◌^◌, ltb, leb, List, [], ◌∷◌, ◌++◌, Option, none, some,
  Bool, true, false, not, ◌&&◌, ◌||◌, if◌then◌else◌, ◌==◌, ℤ, pos, negsuc, add32, sub32, get_or,
  set, drop, length, bit_and, bit_or,
}
use nos.Block.{block_write}
use nos.Ext2.{
  Superblock, GroupDesc, Mount, block_size, sectors_per_block, zero_bytes, ext2_blk_in_range,
  ext2_data_blk_ok, ext2_read_block,
}

-- The bytes of little-endian numbers.
abbrev pub bytes16 : ℕ → List ℕ
bytes16 n = n % 256 ∷ (n / 256 % 256 ∷ [])

abbrev pub bytes32 : ℕ → List ℕ
bytes32 n = bytes16 n ++ bytes16 (n / 65536)

abbrev pub sb_bytes : Superblock → List ℕ
sb_bytes sb =
    bytes32 sb.s_inodes_count
    ++ (bytes32 sb.s_blocks_count
        ++ (bytes32 sb.s_r_blocks_count
            ++ (bytes32 sb.s_free_blocks_count
                ++ (bytes32 sb.s_free_inodes_count
                    ++ (bytes32 sb.s_first_data_block ++ sb.s_others)))))

abbrev pub gd_bytes : GroupDesc → List ℕ
gd_bytes gd =
    bytes32 gd.bg_block_bitmap
    ++ (bytes32 gd.bg_inode_bitmap
        ++ (bytes32 gd.bg_inode_table
            ++ (bytes16 gd.bg_free_blocks_count
                ++ (bytes16 gd.bg_free_inodes_count ++ gd.bg_others))))

-- `bm[i / 8] & (1 << (i % 8))`, and the writes that set and clear the bit
abbrev pub is_taken : List ℕ → ℕ → Bool
is_taken bm i = not (bit_and (get_or bm (i / 8) 0) (2 ^ (i % 8)) == 0)

abbrev pub set_bit : List ℕ → ℕ → List ℕ
set_bit bm i = set bm (i / 8) (bit_or (get_or bm (i / 8) 0) (2 ^ (i % 8)))

abbrev pub clear_bit : List ℕ → ℕ → List ℕ
clear_bit bm i = set bm (i / 8) (bit_and (get_or bm (i / 8) 0) (2 ^ 8 - 1 - 2 ^ (i % 8)))

-- The first clear bit of the n ones from i on.
unfoldable pub free_bit : ℕ → ℕ → List ℕ → Option ℕ
free_bit zero i bm = none
free_bit (suc n) i bm =
    let rest = free_bit n (i + 1) bm in if not (is_taken bm i) then some i else rest

-- `uint16_t` counts
abbrev pub add16 : ℕ → ℕ → ℕ
add16 a b = (a + b) % 2 ^ 16

abbrev pub dec16 : ℕ → ℕ
dec16 a = (a + 2 ^ 16 - 1) % 2 ^ 16

abbrev pub one_less : {S : Type 0} → Mount S → Mount S
one_less m = record m {
  sb = record m.sb { s_free_blocks_count = sub32 m.sb.s_free_blocks_count 1 };
  gd = record m.gd { bg_free_blocks_count = dec16 m.gd.bg_free_blocks_count };
}

abbrev pub one_more : {S : Type 0} → Mount S → Mount S
one_more m = record m {
  sb = record m.sb { s_free_blocks_count = add32 m.sb.s_free_blocks_count 1 };
  gd = record m.gd { bg_free_blocks_count = add16 m.gd.bg_free_blocks_count 1 };
}

module _ {S : Type 0} where
  -- A result below 0, and the call of a null pointer, are false.
  abbrev pub went : Option (ℤ × S) → S → Bool × S
  went none s = (false, s)
  went (some (negsuc n, u)) s = (false, u)
  went (some (pos n, u)) s = (true, u)

  unfoldable pub ext2_write_block : Mount S → ℕ → List ℕ → S → Bool × S
  ext2_write_block m blk buf s =
      if not (ext2_blk_in_range m.sb blk)
      then (false, s)
      else went
          (block_write m.dev (blk * sectors_per_block % 2 ^ 32) sectors_per_block (some buf) s) s

  -- The bytes over the start of a block.
  unfoldable pub write_over : Mount S → ℕ → List ℕ → S → Bool × S
  write_over m blk bytes s =
      let (buf, u) = ext2_read_block m blk s in
      elim buf [
        | none ↦ (false, u)
        | some b ↦ ext2_write_block m blk (bytes ++ drop (length bytes) b) u
      ]

  abbrev pub ext2_write_superblock : Mount S → S → Bool × S
  ext2_write_superblock m s = write_over m m.sb_block (sb_bytes m.sb) s

  abbrev pub ext2_write_group_desc : Mount S → S → Bool × S
  ext2_write_group_desc m s = write_over m m.gd_block (gd_bytes m.gd) s

  -- Both counts: false where one could not be written.
  unfoldable pub write_counts : Mount S → S → Bool × S
  write_counts m s =
      let (a, u) = ext2_write_superblock m s in if a then ext2_write_group_desc m u else (false, u)

  -- Both counts, whether the first could be written or not.
  unfoldable pub restore_counts : Mount S → S → S
  restore_counts m s = (ext2_write_group_desc m (ext2_write_superblock m s).1).1

  -- The bit of a free block in the bitmap that was read.
  unfoldable pub take_bit : Mount S → ℕ → List ℕ → S → ℕ × Mount S × S
  take_bit m i bm s =
      let blk = add32 i m.sb.s_first_data_block in
      let bitmap = m.gd.bg_block_bitmap in
      let taken = set_bit bm i in
      let (w, s2) = ext2_write_block m bitmap taken s in
      let (z, s3) = ext2_write_block m blk (zero_bytes block_size) s2 in
      let less = one_less m in
      let (c, s4) = write_counts less s3 in
      let more = one_more less in
      if not (ext2_data_blk_ok m blk) || leb m.sb.s_blocks_count blk
      then (0, m, s)
      else if not w
      then (0, m, s2)
      else if not z
      then (0, m, (ext2_write_block m bitmap (clear_bit taken i) s3).1)
      else if not c
      then (0, more, (ext2_write_block more bitmap (clear_bit taken i) (restore_counts more s4)).1)
      else (blk, less, s4)

  unfoldable pub ext2_alloc_block : Mount S → S → ℕ × Mount S × S
  ext2_alloc_block m s =
      let (buf, s1) = ext2_read_block m m.gd.bg_block_bitmap s in
      let total = sub32 m.sb.s_blocks_count m.sb.s_first_data_block in
      if m.sb.s_free_blocks_count == 0 || m.gd.bg_free_blocks_count == 0
      then (0, m, s)
      else elim buf [
        | none ↦ (0, m, s1)
        | some bm ↦ elim (free_bit (total - m.alloc_start_bit) m.alloc_start_bit bm) [
          | none ↦ (0, m, s1)
          | some i ↦ take_bit m i bm s1
        ]
      ]

  unfoldable pub ext2_free_block : Mount S → ℕ → S → Mount S × S
  ext2_free_block m blk s =
      let bit = sub32 blk m.sb.s_first_data_block in
      let (buf, s1) = ext2_read_block m m.gd.bg_block_bitmap s in
      if blk == 0 || not (ext2_data_blk_ok m blk) then (m, s) else elim buf [
        | none ↦ (m, s1)
        | some bm ↦
            (let (w, s2) = ext2_write_block m m.gd.bg_block_bitmap (clear_bit bm bit) s1 in
              let more = one_more m in
              let (c, s3) = write_counts more s2 in
              if not (is_taken bm bit)
              then (m, s1)
              else if not w
              then (m, s2)
              else if not c
              then (one_less more, restore_counts (one_less more) s3)
              else (more, s3))
      ]
