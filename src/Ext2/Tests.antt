-- ===== src/Ext2/Tests.antt =====
-- A filesystem of 50 blocks, whose inode 11 is a file of 20 bytes in block 40.
use nos.Prelude.{
  ℕ, ◌*◌, ◌/◌, ◌%◌, ◌^◌, ◌≡◌, refl, List, ◌∷◌, ◌++◌, length, some, true, ◌==◌, if◌then◌else◌, arith,
  pos, passes_below, passes_below_lem, inl, inr, Bool-cases,
}
use nos.Block.{BlockDevice, block_read, block_range_ok}
use nos.Ext2.{
  Mount, zero_bytes, ext2_blk_in_range, ext2_data_blk_ok, ext2_read_file, ext2_inode_pointers_ok,
  pointers_ok,
}
use nos.Ext2.Contents.{Disk, block_of}
use nos.Ext2.Reading.{Gives, Mapped, HasTable, inode_of, read_file-bytes}

-- The third inode of block 6.
abbrev table_block : List ℕ
table_block = zero_bytes 260 ++ (20 ∷ (zero_bytes 35 ++ (40 ∷ zero_bytes 727)))

abbrev disk : Disk
disk b =
    if b == 6
    then table_block
    else if b == 40
    then 7 ∷ (8 ∷ (9 ∷ zero_bytes 1021))
    else zero_bytes 1024

abbrev device : BlockDevice ℕ
device = record {
  named = true;
  sector_count = 100;
  read = some (λ lba count s. (pos 0, disk (lba / 2), s));
  write = some (λ lba count bytes s. (pos 0, s));
}

abbrev mounted : Mount ℕ
mounted = record {
  dev = some device;
  sb = record {
    s_inodes_count = 16;
    s_blocks_count = 50;
    s_r_blocks_count = 0;
    s_free_blocks_count = 10;
    s_free_inodes_count = 5;
    s_first_data_block = 1;
    s_others = zero_bytes 80;
  };
  gd = record {
    bg_block_bitmap = 3;
    bg_inode_bitmap = 4;
    bg_inode_table = 5;
    bg_free_blocks_count = 10;
    bg_free_inodes_count = 5;
    bg_others = zero_bytes 16;
  };
  inode_table_block = 5;
  inode_table_blocks = 2;
  first_data_block = 7;
  alloc_start_bit = 6;
  sb_block = 1;
  gd_block = 2;
}

device-Gives : Gives mounted disk 0
unfolding block_read block_range_ok ext2_blk_in_range
device-Gives = record { reads = gives; full = sizes; above = omega arith }
  where
    gives :
        (b : ℕ)
        → ext2_blk_in_range mounted.sb b ≡ true
        → block_read (some device) (b * 2 % 2 ^ 32) 2 true 0 ≡ some (pos 0, disk b, 0)
    gives b e =
        let low : b * 2 % 2 ^ 32 ≡ b * 2 = ground arith in
        let ok : block_range_ok (some device) (b * 2) 2 ≡ true = ground arith in
        let half : b * 2 / 2 ≡ b = omega arith in rw (block_read, low, ok, half) refl

    sizes : (b : ℕ) → ext2_blk_in_range mounted.sb b ≡ true → length (disk b) ≡ 1024
    sizes b e = elim (Bool-cases (b == 6)) [
      | inl g ↦ rw g refl
      | inr g ↦ elim (Bool-cases (b == 40)) [ inl h ↦ rw (g, h) refl | inr h ↦ rw (g, h) refl ]
    ]

all_ok :
    passes_below (λ bi. ext2_data_blk_ok mounted (block_of disk (inode_of mounted disk 11) bi)) 268
    ≡ true
unfolding passes_below ext2_data_blk_ok
all_ok = refl

file-Mapped : Mapped mounted disk (inode_of mounted disk 11)
unfolding ext2_data_blk_ok
file-Mapped = record {
  pointers = refl;
  blocks = λ bi lt.
      passes_below_lem (λ i. ext2_data_blk_ok mounted (block_of disk (inode_of mounted disk 11) i))
        all_ok lt;
}

mounted-HasTable : HasTable mounted
mounted-HasTable = record {
  starts = omega arith;
  ends = omega arith;
  small = omega arith;
  inodes = omega arith;
  few = omega arith;
}

-- From byte 1 on, more than the file has.
read_file-bytes_example : ext2_read_file mounted 11 1 1000 0 ≡ (8 ∷ (9 ∷ zero_bytes 17), 0)
unfolding ext2_inode_pointers_ok pointers_ok ext2_data_blk_ok
read_file-bytes_example =
    read_file-bytes mounted disk 0 11 1 1000 device-Gives mounted-HasTable (omega arith)
      (omega arith) file-Mapped (omega arith)
