-- ===== src/Ext2/Alloc/Marks.antt =====
-- The writes of `ext2_alloc_block`: the bitmap, the zeros, the counts.
use nos.Prelude.{
  ℕ, ◌≤◌, ◌<◌, ◌≡◌, ◌≢◌, ◌⊎◌, refl, ◌∙◌, leb, List, Bool, true, false, not, ◌||◌, add32, arith, inl,
  inr, Bool-cases,
}
use nos.Ext2.{Mount, block_size, zero_bytes, ext2_blk_in_range, ext2_data_blk_ok}
use nos.Ext2.Contents.{Disk}
use nos.Ext2.Alloc.{
  set_bit, clear_bit, one_less, one_more, ext2_write_block, write_counts, restore_counts, take_bit,
}
use nos.Ext2.Alloc.Counts.{StoredCounts, write_counts-Stored}
use nos.Ext2.Alloc.Faults.{Fails, write-Fails, less_counts-Fails}
use nos.Ext2.Alloc.Takes.{
  Obeys, less-Obeys, more-Obeys, write-keeps, write-stores, counts-keeps, restore-keeps,
}
use nos.Ext2.Alloc.Places.{Layout, in_range, bitmap-in_range, sb-in_range, gd-in_range}

module _ {S : Type 0} (m : Mount S) (view : S → Disk) (o : Obeys m view) (l : Layout m) (i : ℕ)
    (bm : List ℕ) (s : S) where
  abbrev blk : ℕ
  blk = add32 i m.sb.s_first_data_block

  abbrev bitmap : ℕ
  bitmap = m.gd.bg_block_bitmap

  abbrev first_write : Bool × S
  first_write = ext2_write_block m bitmap (set_bit bm i) s

  abbrev second_write : Bool × S
  second_write = ext2_write_block m blk (zero_bytes block_size) first_write.1

  abbrev counted : Bool × S
  counted = write_counts (one_less m) second_write.1

  abbrev bad_block : Bool
  bad_block = not (ext2_data_blk_ok m blk) || leb m.sb.s_blocks_count blk

  -- A block that is none of those that are written.
  module _ (b : ℕ) (small : b < m.sb.s_blocks_count) (n1 : b ≢ bitmap) (n2 : b ≢ m.sb_block)
      (n3 : b ≢ m.gd_block) (n4 : b ≢ blk) where
    second-keeps : view second_write.1 b ≡ view s b
    second-keeps =
        write-keeps m view o blk (zero_bytes block_size) first_write.1 b small n4
        ∙ write-keeps m view o bitmap (set_bit bm i) s b small n1

    counted-keeps : view counted.1 b ≡ view s b
    counted-keeps =
        counts-keeps (one_less m) view (less-Obeys m view o) b small n2 n3 second_write.1
        ∙ second-keeps

    undo-keeps :
        let more = one_more (one_less m) in
        view
          (ext2_write_block more bitmap
            (clear_bit (set_bit bm i) i)
            (restore_counts more counted.1)).1
          b
        ≡ view s b
    undo-keeps =
        let more = one_more (one_less m) in
        let obeys = more-Obeys (one_less m) view (less-Obeys m view o) in
        write-keeps more view obeys bitmap (clear_bit (set_bit bm i) i)
          (restore_counts more counted.1) b small n1
        ∙ restore-keeps more view obeys b small n2 n3 counted.1
        ∙ counted-keeps

    pub take_bit-keeps : view (take_bit m i bm s).2 b ≡ view s b
    unfolding take_bit
    take_bit-keeps = elim (Bool-cases bad_block) [
      | inl e ↦ rw (take_bit, e) refl
      | inr e ↦ elim (Bool-cases first_write.0) [
        | inr f ↦ rw (take_bit, e, f) (write-keeps m view o bitmap (set_bit bm i) s b small n1)
        | inl f ↦ elim (Bool-cases second_write.0) [
          | inr g ↦
              rw (take_bit, e, f, g)
                (write-keeps m view o bitmap (clear_bit (set_bit bm i) i) second_write.1 b small n1
                  ∙ second-keeps)
          | inl g ↦ elim (Bool-cases counted.0) [
            | inr h ↦ rw (take_bit, e, f, g, h) undo-keeps
            | inl h ↦ rw (take_bit, e, f, g, h) counted-keeps
          ]
        ]
      ]
    ]

  -- The result 0, which leaves the counts: the device has failed.
  abbrev pub Refuses : ℕ → Mount S → Type 0
  Refuses r m2 =
      (r ≡ 0)
      × (m2.sb.s_free_blocks_count ≡ m.sb.s_free_blocks_count)
      × (m2.gd.bg_free_blocks_count ≡ m.gd.bg_free_blocks_count)
      × Fails m

  back : Fails m → Refuses 0 (one_more (one_less m))
  back f =
      (refl, (let c = l.blocks_count in omega arith), (let c = l.group_count in omega arith), f)

  module _ (low : m.first_data_block ≤ blk) (high : blk < m.sb.s_blocks_count) where
    bitmap-stored : first_write.0 ≡ true → view counted.1 bitmap ≡ set_bit bm i
    bitmap-stored f =
        let a = l.bitmap_low in
        let c = l.data_low in
        counts-keeps (one_less m) view (less-Obeys m view o) bitmap (omega arith) l.sb_apart
          l.gd_apart second_write.1
        ∙ write-keeps m view o blk (zero_bytes block_size) first_write.1 bitmap (omega arith)
            (λ e. absurd (omega arith))
        ∙ write-stores m view o bitmap (set_bit bm i) s f

    block-zeroed : second_write.0 ≡ true → view counted.1 blk ≡ zero_bytes block_size
    block-zeroed g =
        let a = l.sb_low in
        let b = l.gd_low in
        counts-keeps (one_less m) view (less-Obeys m view o) blk high (λ e. absurd (omega arith))
          (λ e. absurd (omega arith)) second_write.1
        ∙ write-stores m view o blk (zero_bytes block_size) first_write.1 g

    counts_stored : counted.0 ≡ true → StoredCounts (one_less m) view counted.1
    counts_stored h =
        let a = l.sb_low in
        let b = l.data_low in
        let c = l.blocks_count in
        let d = l.group_count in
        write_counts-Stored (one_less m) view (less-Obeys m view o) second_write.1 (omega arith)
          l.counts_apart (omega arith) (omega arith) h

    block_good : bad_block ≡ false
    unfolding ext2_data_blk_ok
    block_good = ground arith

    block-in_range : ext2_blk_in_range m.sb blk ≡ true
    block-in_range = let c = l.first in in_range m blk (omega arith) high

    pub take_bit-outcome :
        let (r, m2, s2) = take_bit m i bm s in
        Refuses r m2
        ⊎ ((r ≡ blk)
            × (m2 ≡ one_less m)
            × (view s2 bitmap ≡ set_bit bm i)
            × (view s2 blk ≡ zero_bytes block_size)
            × StoredCounts (one_less m) view s2)
    unfolding take_bit
    take_bit-outcome =
        let e = block_good in
        elim (Bool-cases first_write.0) [
          | inr f ↦
              let why = write-Fails m bitmap (set_bit bm i) s (bitmap-in_range m l) f in
              rw (take_bit, e, f) (inl (refl, refl, refl, why))
          | inl f ↦ elim (Bool-cases second_write.0) [
            | inr g ↦
                let why =
                  write-Fails m blk (zero_bytes block_size) first_write.1 block-in_range g in
                rw (take_bit, e, f, g) (inl (refl, refl, refl, why))
            | inl g ↦ elim (Bool-cases counted.0) [
              | inr h ↦
                  let why =
                    less_counts-Fails m second_write.1 (sb-in_range m l) (gd-in_range m l) h in
                  rw (take_bit, e, f, g, h) (inl (back why))
              | inl h ↦
                  rw (take_bit, e, f, g, h)
                    (inr (refl, refl, bitmap-stored f, block-zeroed g, counts_stored h))
            ]
          ]
        ]
