-- ===== src/Ext2/Alloc/Frees.antt =====
-- `ext2_free_block`.
use nos.Prelude.{
  ℕ, ◌-◌, ◌≤◌, ◌<◌, ◌≡◌, ◌≢◌, ◌⊎◌, refl, sym, ap, ◌∙◌, List, some, Bool, true, false, not, ◌||◌,
  ◌==◌, if◌then◌else◌, length, ◌+◌, sub32, ltb, arith, inl, inr, Bool-cases, Option-cases,
}
use nos.Ext2.{Mount, ext2_data_blk_ok, ext2_read_block}
use nos.Ext2.Contents.{Disk}
use nos.Ext2.Alloc.{
  is_taken, clear_bit, one_less, one_more, ext2_write_block, write_counts, ext2_free_block,
}
use nos.Ext2.Alloc.Bitmap.{bit_at, free-bit, taken-bit, clear_bit-bit}
use nos.Ext2.Alloc.Counts.{with_counts, StoredCounts, write_counts-Stored, more-counts}
use nos.Ext2.Alloc.Faults.{Fails, read-Fails, write-Fails, more_counts-Fails}
use nos.Ext2.Alloc.Takes.{
  Obeys, less-Obeys, more-Obeys, read-keeps, read-gives, write-keeps, write-stores, counts-keeps,
  restore-keeps,
}
use nos.Ext2.Alloc.Places.{Layout, bitmap-in_range, sb-in_range, gd-in_range}

module _ {S : Type 0} (m : Mount S) (view : S → Disk) (s : S) (blk : ℕ) where
  -- The block is given back: it was a data block in use, its bit and nothing else of the bitmap is
  -- cleared, and the two free counts are one more, in the mount and on the device.
  abbrev pub GivesBack : Mount S → S → Type 0
  GivesBack m2 s2 =
      (m.first_data_block ≤ blk)
      × (blk < m.sb.s_blocks_count)
      × (bit_at (view s m.gd.bg_block_bitmap) (blk - m.sb.s_first_data_block) ≡ 1)
      × ((j : ℕ)
          → bit_at (view s2 m.gd.bg_block_bitmap) j ≡ (
              if blk - m.sb.s_first_data_block == j
              then 0
              else bit_at (view s m.gd.bg_block_bitmap) j))
      × (m2 ≡ with_counts m (m.sb.s_free_blocks_count + 1) (m.gd.bg_free_blocks_count + 1))
      × StoredCounts m2 view s2

  -- The counts are as before: the block is no data block in use, or the device has failed.
  abbrev pub Keeps : Mount S → Type 0
  Keeps m2 =
      (m2.sb.s_free_blocks_count ≡ m.sb.s_free_blocks_count)
      × (m2.gd.bg_free_blocks_count ≡ m.gd.bg_free_blocks_count)
      × ((blk < m.first_data_block)
          ⊎ ((m.sb.s_blocks_count ≤ blk)
              ⊎ ((bit_at (view s m.gd.bg_block_bitmap) (blk - m.sb.s_first_data_block) ≡ 0)
                  ⊎ Fails m)))

  abbrev pub Freed : ℕ → Mount S × S → Type 0
  Freed b (m2, s2) = (view s2 b ≡ view s b) × (Keeps m2 ⊎ GivesBack m2 s2)

module _ {S : Type 0} (m : Mount S) (view : S → Disk) (s : S) (blk : ℕ) (o : Obeys m view)
    (l : Layout m) (valid : (blk == 0 || not (ext2_data_blk_ok m blk)) ≡ false) (bm : List ℕ)
    (read : (ext2_read_block m m.gd.bg_block_bitmap s).0 ≡ some bm)
    (full : length (view s m.gd.bg_block_bitmap) ≡ 1024) where
  abbrev bit : ℕ
  bit = sub32 blk m.sb.s_first_data_block

  abbrev wrote : Bool × S
  wrote =
      ext2_write_block m m.gd.bg_block_bitmap (clear_bit bm bit)
        (ext2_read_block m m.gd.bg_block_bitmap s).1

  given-back :
      is_taken bm bit ≡ true
      → wrote.0 ≡ true
      → (write_counts (one_more m) wrote.1).0 ≡ true
      → GivesBack m view s blk (one_more m) (write_counts (one_more m) wrote.1).1
  unfolding ext2_data_blk_ok
  given-back taken done counted =
      let a = l.bitmap_low in
      let c = l.data_low in
      let d = l.small in
      let f = l.first in
      let low : m.first_data_block ≤ blk = ground arith in
      let high : blk < m.sb.s_blocks_count = ground arith in
      let place : bit ≡ blk - m.sb.s_first_data_block = omega arith in
      let same = read-gives m view o m.gd.bg_block_bitmap s bm read in
      let old = view s m.gd.bg_block_bitmap in
      let s2 = (write_counts (one_more m) wrote.1).1 in
      let stored : view s2 m.gd.bg_block_bitmap ≡ clear_bit old (blk - m.sb.s_first_data_block) =
        counts-keeps (one_more m) view (more-Obeys m view o) m.gd.bg_block_bitmap (omega arith)
          l.sb_apart l.gd_apart wrote.1
        ∙ write-stores m view o m.gd.bg_block_bitmap (clear_bit bm bit)
            (ext2_read_block m m.gd.bg_block_bitmap s).1 done
        ∙ ap (λ v. clear_bit v bit) same
        ∙ ap (clear_bit old) place in
      let set_before : is_taken old (blk - m.sb.s_first_data_block) ≡ true =
        ap (λ v. is_taken v (blk - m.sb.s_first_data_block)) (sym same)
        ∙ ap (is_taken bm) (sym place)
        ∙ taken in
      let g = l.sb_low in
      let p = l.blocks_count in
      let q = l.group_count in
      (
        low,
        high,
        taken-bit old (blk - m.sb.s_first_data_block) set_before,
        (λ j.
            ap (λ v. bit_at v j) stored
            ∙ clear_bit-bit old (blk - m.sb.s_first_data_block) j (let e = l.bits in omega arith)),
        more-counts m p q,
        write_counts-Stored (one_more m) view (more-Obeys m view o) wrote.1 (omega arith)
            l.counts_apart (omega arith) (omega arith) counted,
      )

no_data :
    {S : Type 0} (m : Mount S) (blk : ℕ)
    → Layout m
    → (blk == 0 || not (ext2_data_blk_ok m blk)) ≡ true
    → (blk < m.first_data_block) ⊎ (m.sb.s_blocks_count ≤ blk)
unfolding ext2_data_blk_ok
no_data m blk l e = elim (Bool-cases (ltb blk m.first_data_block)) [
  | inl a ↦ inl (ground arith)
  | inr a ↦ let b = l.bitmap_low in inr (ground arith)
]

not_set :
    {S : Type 0} (m : Mount S) (view : S → Disk) (s : S) (blk : ℕ)
    → Layout m
    → (blk == 0 || not (ext2_data_blk_ok m blk)) ≡ false
    → (bm : List ℕ) → bm ≡ view s m.gd.bg_block_bitmap
    → is_taken bm (sub32 blk m.sb.s_first_data_block) ≡ false
    → bit_at (view s m.gd.bg_block_bitmap) (blk - m.sb.s_first_data_block) ≡ 0
unfolding ext2_data_blk_ok
not_set m view s blk l valid bm read clear =
    let a = l.first in
    let b = l.small in
    let low : m.first_data_block ≤ blk = ground arith in
    let high : blk < m.sb.s_blocks_count = ground arith in
    let place : sub32 blk m.sb.s_first_data_block ≡ blk - m.sb.s_first_data_block = omega arith in
    free-bit (view s m.gd.bg_block_bitmap) (blk - m.sb.s_first_data_block) (
      ap (λ v. is_taken v (blk - m.sb.s_first_data_block)) (sym read)
      ∙ ap (is_taken bm) (sym place)
      ∙ clear)

-- On such a device and with such a mount as for ext2_alloc_block: ext2_free_block changes no
-- block other than the block bitmap, the superblock and the group descriptor. Either both free
-- counts of the mount are as before, and its block is no data block, its bit was 0, or the device
-- fails to read or to write some block of the filesystem; or its block was a data block whose bit
-- was 1; then that bit is 0 and every other bit of the bitmap as it was, and both free counts are
-- one more, in the mount, where nothing else has changed, and in the bytes of the superblock and
-- the group descriptor.
pub free_block-outcome :
    {S : Type 0} (m : Mount S) (view : S → Disk) (s : S) (blk b : ℕ)
    → Obeys m view
    → Layout m
    → b < m.sb.s_blocks_count
    → b ≢ m.gd.bg_block_bitmap
    → b ≢ m.sb_block
    → b ≢ m.gd_block
    → length (view s m.gd.bg_block_bitmap) ≡ 1024
    → Freed m view s blk b (ext2_free_block m blk s)
unfolding ext2_free_block ext2_data_blk_ok
free_block-outcome m view s blk b o l small n1 n2 n3 full =
    elim (Bool-cases (blk == 0 || not (ext2_data_blk_ok m blk))) [
      | inl e ↦ elim (no_data m blk l e) [
        | inl c ↦ rw (ext2_free_block, e) (refl, inl (refl, refl, inl c))
        | inr c ↦ rw (ext2_free_block, e) (refl, inl (refl, refl, inr (inl c)))
      ]
      | inr e ↦ elim (Option-cases (ext2_read_block m m.gd.bg_block_bitmap s).0) [
        | inl f ↦
            let why = read-Fails m m.gd.bg_block_bitmap s (bitmap-in_range m l) f in
            rw (ext2_free_block, e, f)
              (read-keeps m view o m.gd.bg_block_bitmap s b, inl (refl, refl, inr (inr (inr why))))
        | inr (bm, f) ↦
            let bitmap = m.gd.bg_block_bitmap in
            let s1 = (ext2_read_block m bitmap s).1 in
            let bit = sub32 blk m.sb.s_first_data_block in
            let wrote = ext2_write_block m bitmap (clear_bit bm bit) s1 in
            let counted = write_counts (one_more m) wrote.1 in
            let k1 = read-keeps m view o bitmap s b in
            let k2 = write-keeps m view o bitmap (clear_bit bm bit) s1 b small n1 ∙ k1 in
            let k3 =
              counts-keeps (one_more m) view (more-Obeys m view o) b small n2 n3 wrote.1 ∙ k2 in
            elim (Bool-cases (is_taken bm bit)) [
              | inr g ↦
                  let why = not_set m view s blk l e bm (read-gives m view o bitmap s bm f) g in
                  rw (ext2_free_block, e, f, g) (k1, inl (refl, refl, inr (inr (inl why))))
              | inl g ↦ elim (Bool-cases wrote.0) [
                | inr h ↦
                    let why = write-Fails m bitmap (clear_bit bm bit) s1 (bitmap-in_range m l) h in
                    rw (ext2_free_block, e, f, g, h) (k2, inl (refl, refl, inr (inr (inr why))))
                | inl h ↦ elim (Bool-cases counted.0) [
                  | inr c ↦
                      let why = more_counts-Fails m wrote.1 (sb-in_range m l) (gd-in_range m l) c in
                      rw (ext2_free_block, e, f, g, h, c)
                        (
                          restore-keeps (one_less (one_more m)) view
                                (less-Obeys (one_more m) view (more-Obeys m view o)) b small n2 n3
                                counted.1
                              ∙ k3,
                          inl (
                            (let x = l.blocks_count in omega arith),
                            (let x = l.group_count in omega arith),
                            inr (inr (inr why)),
                          ),
                        )
                  | inl c ↦
                      rw (ext2_free_block, e, f, g, h, c)
                        (k3, inr (given-back m view s blk o l e bm f full g h c))
                ]
              ]
            ]
      ]
    ]
