-- ===== src/Ext2/Alloc/Tests.antt =====
-- A device that keeps what is written, with 50 blocks, of which the data blocks start at 7 and
-- block 7 is in use.
use nos.Prelude.{
  ℕ, ◌*◌, ◌/◌, ◌%◌, ◌^◌, ◌<◌, ◌≡◌, ◌≢◌, refl, sym, ap, ◌∙◌, List, ◌∷◌, some, true, false, ◌==◌,
  take, drop, if◌then◌else◌, arith, pos, update, inl, inr, Bool-cases,
}
use nos.Block.{BlockDevice, block_read, block_write, block_range_ok}
use nos.Ext2.{Mount, zero_bytes, took, ext2_read_block, ext2_blk_in_range}
use nos.Ext2.Contents.{Disk}
use nos.Ext2.Reading.{HasTable}
use nos.Ext2.Inodes.{ext2_write_inode, write_inode-bytes}
use nos.Ext2.Alloc.{went, ext2_alloc_block, ext2_free_block, ext2_write_block}
use nos.Ext2.Alloc.Takes.{Obeys}
use nos.Ext2.Alloc.Frees.{Freed, free_block-outcome}
use nos.Ext2.Alloc.Places.{Layout}
use nos.Ext2.Alloc.Outcome.{Outcome, alloc_block-outcome}

abbrev device : BlockDevice Disk
device = record {
  named = true;
  sector_count = 100;
  read = some (λ lba count s. (pos 0, s (lba / 2), s));
  write = some (λ lba count bytes s. (pos 0, update s (lba / 2) bytes));
}

abbrev mounted : Mount Disk
mounted = record {
  dev = some device;
  sb = record {
    s_inodes_count = 16;
    s_blocks_count = 50;
    s_r_blocks_count = 0;
    s_free_blocks_count = 10;
    s_free_inodes_count = 5;
    s_first_data_block = 1;
    s_others = zero_bytes 80;
  };
  gd = record {
    bg_block_bitmap = 3;
    bg_inode_bitmap = 4;
    bg_inode_table = 5;
    bg_free_blocks_count = 10;
    bg_free_inodes_count = 5;
    bg_others = zero_bytes 16;
  };
  inode_table_block = 5;
  inode_table_blocks = 2;
  first_data_block = 7;
  alloc_start_bit = 6;
  sb_block = 1;
  gd_block = 2;
}

abbrev view : Disk → Disk
view s = s

mounted-Obeys : Obeys mounted view
unfolding block_read block_write block_range_ok
mounted-Obeys = record {
  read_keeps = keeps;
  read_gives = gives;
  write_keeps = others;
  write_stores = stores;
}
  where
    keeps :
        (x : ℕ) (s : Disk) (b : ℕ)
        → view (took mounted (block_read (some device) (x * 2 % 2 ^ 32) 2 true s) s).1 b ≡ view s b
    keeps x s b = elim (Bool-cases (block_range_ok (some device) (x * 2 % 2 ^ 32) 2)) [
      | inl e ↦ rw (block_read, e) refl
      | inr e ↦ rw (block_read, e) refl
    ]

    fits : (x : ℕ) → x < 50 → block_range_ok (some device) (x * 2 % 2 ^ 32) 2 ≡ true
    fits x small = ground arith

    half : (x : ℕ) → x < 50 → x * 2 % 2 ^ 32 / 2 ≡ x
    half x small = omega arith

    gives :
        (x : ℕ) (s : Disk) (buf : List ℕ)
        → x < 50
        → (took mounted (block_read (some device) (x * 2 % 2 ^ 32) 2 true s) s).0 ≡ some buf
        → buf ≡ view s x
    gives x s buf small e =
        let got : some (s (x * 2 % 2 ^ 32 / 2)) ≡ some buf =
          sym (rw (block_read, fits x small) refl) ∙ e in
        sym (cc got) ∙ ap s (half x small)

    others :
        (x : ℕ) (buf : List ℕ) (s : Disk) (b : ℕ)
        → x < 50
        → b < 50
        → b ≢ x
        → view (went (block_write (some device) (x * 2 % 2 ^ 32) 2 (some buf) s) s).1 b ≡ view s b
    others x buf s b small low ne =
        let apart : (x == b) ≡ false = ground arith in
        rw (block_write, fits x small, half x small, apart) refl

    stores :
        (x : ℕ) (buf : List ℕ) (s : Disk)
        → x < 50
        → (went (block_write (some device) (x * 2 % 2 ^ 32) 2 (some buf) s) s).0 ≡ true
        → view (went (block_write (some device) (x * 2 % 2 ^ 32) 2 (some buf) s) s).1 x ≡ buf
    stores x buf s small e =
        let same : (x == x) ≡ true = ground arith in
        rw (block_write, fits x small, half x small, same) refl

mounted-Layout : Layout mounted
mounted-Layout = record {
  bitmap_low = omega arith;
  sb_low = omega arith;
  gd_low = omega arith;
  bitmap_from = omega arith;
  sb_from = omega arith;
  gd_from = omega arith;
  sb_apart = λ e. absurd (omega arith);
  gd_apart = λ e. absurd (omega arith);
  data_low = omega arith;
  small = omega arith;
  blocks_count = omega arith;
  group_count = omega arith;
  first = omega arith;
  counts_apart = λ e. absurd (omega arith);
  bits = omega arith;
}

abbrev disk : Disk
disk b = if b == 3 then 0x7F ∷ zero_bytes 1023 else 5 ∷ zero_bytes 1023

alloc_block-outcome_example : Outcome mounted view disk 7 (ext2_alloc_block mounted disk)
alloc_block-outcome_example =
    alloc_block-outcome mounted view disk 7 mounted-Obeys mounted-Layout (omega arith)
      (λ e. absurd (omega arith)) (λ e. absurd (omega arith)) (λ e. absurd (omega arith)) (inr refl)
      refl

-- Block 7 is given back, and block 9 stays.
free_block-outcome_example : Freed mounted view disk 7 9 (ext2_free_block mounted 7 disk)
free_block-outcome_example =
    free_block-outcome mounted view disk 7 9 mounted-Obeys mounted-Layout (omega arith)
      (λ e. absurd (omega arith)) (λ e. absurd (omega arith)) (λ e. absurd (omega arith)) refl

mounted-HasTable : HasTable mounted
mounted-HasTable = record {
  starts = omega arith;
  ends = omega arith;
  small = omega arith;
  inodes = omega arith;
  few = omega arith;
}

wrote_run : (ext2_write_inode mounted 11 (zero_bytes 128) disk).0 ≡ true
unfolding ext2_write_inode ext2_write_block ext2_read_block ext2_blk_in_range block_read block_write
    block_range_ok
wrote_run = refl

-- Inode 11 is written, and inode 12, behind it, stays.
write_inode-bytes_example :
    take 128 (drop 384 ((ext2_write_inode mounted 11 (zero_bytes 128) disk).1 6))
    ≡ take 128 (drop 384 (disk 6))
write_inode-bytes_example =
    write_inode-bytes mounted view disk 11 12 (zero_bytes 128) mounted-Obeys mounted-HasTable
      (omega arith) (omega arith) (omega arith) (omega arith) refl refl wrote_run
