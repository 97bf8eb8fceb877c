-- ===== src/Ext2/Alloc/Places.antt =====
-- Where a mounted filesystem has its blocks.
use nos.Prelude.{ℕ, ◌^◌, ◌≤◌, ◌<◌, ◌≡◌, ◌≢◌, true, ◌+◌, arith}
use nos.Ext2.{Mount, ext2_blk_in_range}

-- What is taken of a mount: the blocks that it writes itself are apart, in the filesystem and below
-- the data blocks, the bitmap has a bit for each block, and the counts stay inside their fields.
pub record Layout {S : Type 0} (m : Mount S) : Type 0 where
  pub bitmap_low : m.gd.bg_block_bitmap < m.first_data_block
  pub sb_low : m.sb_block < m.first_data_block
  pub gd_low : m.gd_block < m.first_data_block
  pub bitmap_from : m.sb.s_first_data_block ≤ m.gd.bg_block_bitmap
  pub sb_from : m.sb.s_first_data_block ≤ m.sb_block
  pub gd_from : m.sb.s_first_data_block ≤ m.gd_block
  pub sb_apart : m.gd.bg_block_bitmap ≢ m.sb_block
  pub gd_apart : m.gd.bg_block_bitmap ≢ m.gd_block
  pub data_low : m.first_data_block < m.sb.s_blocks_count
  pub counts_apart : m.sb_block ≢ m.gd_block
  pub small : m.sb.s_blocks_count < 2 ^ 32
  pub bits : m.sb.s_blocks_count ≤ m.sb.s_first_data_block + 8192
  pub blocks_count : m.sb.s_free_blocks_count + 1 < 2 ^ 32
  pub group_count : m.gd.bg_free_blocks_count + 1 < 2 ^ 16
  pub first : m.alloc_start_bit + m.sb.s_first_data_block ≡ m.first_data_block

pub in_range :
    {S : Type 0} (m : Mount S) (x : ℕ)
    → m.sb.s_first_data_block ≤ x
    → x < m.sb.s_blocks_count
    → ext2_blk_in_range m.sb x ≡ true
unfolding ext2_blk_in_range
in_range m x a b = ground arith

module _ {S : Type 0} (m : Mount S) (l : Layout m) where
  pub bitmap-in_range : ext2_blk_in_range m.sb m.gd.bg_block_bitmap ≡ true
  bitmap-in_range =
      let a = l.bitmap_low in
      let b = l.data_low in in_range m m.gd.bg_block_bitmap l.bitmap_from (omega arith)

  pub sb-in_range : ext2_blk_in_range m.sb m.sb_block ≡ true
  sb-in_range =
      let a = l.sb_low in let b = l.data_low in in_range m m.sb_block l.sb_from (omega arith)

  pub gd-in_range : ext2_blk_in_range m.sb m.gd_block ≡ true
  gd-in_range =
      let a = l.gd_low in let b = l.data_low in in_range m m.gd_block l.gd_from (omega arith)
