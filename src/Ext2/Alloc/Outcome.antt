-- ===== src/Ext2/Alloc/Outcome.antt =====
-- `ext2_alloc_block` as a whole.
use nos.Prelude.{
  ℕ, ◌-◌, ◌≤◌, ◌<◌, ◌≡◌, ◌≢◌, ◌⊎◌, refl, sym, ap, ◌∙◌, List, true, false, ◌||◌, ◌==◌, if◌then◌else◌,
  length, get_or, subst, ◌+◌, add32, sub32, arith, inl, inr, Bool-cases, Option-cases, none,
}
use nos.Ext2.{Mount, block_size, zero_bytes, ext2_read_block}
use nos.Ext2.Contents.{Disk}
use nos.Ext2.Alloc.{is_taken, set_bit, free_bit, take_bit, ext2_alloc_block}
use nos.Ext2.Alloc.Bitmap.{bit_at, free-bit, taken-bit, bit-taken, set_bit-bit}
use nos.Ext2.Alloc.Counts.{with_counts, StoredCounts, less-counts, get_or-zeros}
use nos.Ext2.Alloc.Faults.{Fails, read-Fails, free_bit-none}
use nos.Ext2.Alloc.Takes.{Obeys, free_bit-found, read-keeps, read-gives}
use nos.Ext2.Alloc.Places.{Layout, bitmap-in_range}
use nos.Ext2.Alloc.Marks.{take_bit-keeps, take_bit-outcome}

module _ {S : Type 0} (m : Mount S) (view : S → Disk) (s : S) where
  -- The new block: a data block that was free, which has zeros now; its bit and nothing else of the
  -- bitmap is set, and the two free counts are one less, in the mount and on the device.
  abbrev pub Takes : ℕ → Mount S → S → Type 0
  Takes r m2 s2 =
      (m.first_data_block ≤ r)
      × (r < m.sb.s_blocks_count)
      × (bit_at (view s m.gd.bg_block_bitmap) (r - m.sb.s_first_data_block) ≡ 0)
      × ((j : ℕ)
          → bit_at (view s2 m.gd.bg_block_bitmap) j ≡ (
              if r - m.sb.s_first_data_block == j
              then 1
              else bit_at (view s m.gd.bg_block_bitmap) j))
      × (length (view s2 r) ≡ 1024)
      × ((j : ℕ) → get_or (view s2 r) j 0 ≡ 0)
      × (m2 ≡ with_counts m (m.sb.s_free_blocks_count - 1) (m.gd.bg_free_blocks_count - 1))
      × StoredCounts m2 view s2

  -- A block in use: one below the data blocks, or one whose bit is set.
  abbrev pub InUse : ℕ → Type 0
  InUse b =
      (b < m.first_data_block)
      ⊎ (bit_at (view s m.gd.bg_block_bitmap) (b - m.sb.s_first_data_block) ≡ 1)

  -- Why no block is given: a count is 0, no data block is free, or the device has failed.
  abbrev pub NoBlock : Type 0
  NoBlock =
      (m.sb.s_free_blocks_count ≡ 0)
      ⊎ ((m.gd.bg_free_blocks_count ≡ 0)
          ⊎ (((c : ℕ)
                → m.first_data_block ≤ c
                → c < m.sb.s_blocks_count
                → bit_at (view s m.gd.bg_block_bitmap) (c - m.sb.s_first_data_block) ≡ 1)
              ⊎ Fails m))

  -- What the theorem about the whole says of its result.
  abbrev pub Outcome : ℕ → ℕ × Mount S × S → Type 0
  Outcome b (r, m2, s2) =
      (view s2 b ≡ view s b)
      × (((r ≡ 0)
            × (m2.sb.s_free_blocks_count ≡ m.sb.s_free_blocks_count)
            × (m2.gd.bg_free_blocks_count ≡ m.gd.bg_free_blocks_count)
            × NoBlock)
          ⊎ Takes r m2 s2)

no_count :
    {S : Type 0} (m : Mount S) (view : S → Disk) (s : S)
    → (m.sb.s_free_blocks_count == 0 || m.gd.bg_free_blocks_count == 0) ≡ true
    → NoBlock m view s
no_count m view s e = elim (Bool-cases (m.sb.s_free_blocks_count == 0)) [
  | inl a ↦ inl (ground arith)
  | inr a ↦ inr (inl (ground arith))
]

-- A search that finds nothing has seen the bit of every data block.
all_taken :
    {S : Type 0} (m : Mount S) (view : S → Disk) (s : S)
    → Layout m
    → (bm : List ℕ) → bm ≡ view s m.gd.bg_block_bitmap
    → free_bit
        (sub32 m.sb.s_blocks_count m.sb.s_first_data_block - m.alloc_start_bit)
        m.alloc_start_bit
        bm
      ≡ none
    → (c : ℕ) → m.first_data_block ≤ c
    → c < m.sb.s_blocks_count
    → bit_at (view s m.gd.bg_block_bitmap) (c - m.sb.s_first_data_block) ≡ 1
all_taken m view s l bm read none_free c low high =
    let a = l.first in
    let b = l.small in
    let d = l.data_low in
    let i = c - m.sb.s_first_data_block in
    let full =
      free_bit-none (sub32 m.sb.s_blocks_count m.sb.s_first_data_block - m.alloc_start_bit)
        m.alloc_start_bit bm none_free i (omega arith) (omega arith) in
    taken-bit (view s m.gd.bg_block_bitmap) i (ap (λ v. is_taken v i) (sym read) ∙ full)

module _ {S : Type 0} (m : Mount S) (view : S → Disk) (s s1 : S) (o : Obeys m view) (l : Layout m)
    (same : (c : ℕ) → view s1 c ≡ view s c) (b : ℕ) (small : b < m.sb.s_blocks_count)
    (n1 : b ≢ m.gd.bg_block_bitmap) (n2 : b ≢ m.sb_block) (n3 : b ≢ m.gd_block)
    (used : InUse m view s b) (i : ℕ) (bm : List ℕ) (read : bm ≡ view s m.gd.bg_block_bitmap)
    (from : m.alloc_start_bit ≤ i) (to : i + m.sb.s_first_data_block < m.sb.s_blocks_count)
    (free : is_taken bm i ≡ false) (full : length (view s m.gd.bg_block_bitmap) ≡ 1024)
    (left : 0 < m.sb.s_free_blocks_count) (left2 : 0 < m.gd.bg_free_blocks_count) where
  place : add32 i m.sb.s_first_data_block ≡ i + m.sb.s_first_data_block
  place = let c = l.small in omega arith

  back_bit : add32 i m.sb.s_first_data_block - m.sb.s_first_data_block ≡ i
  back_bit = omega (arith, place)

  other : b ≢ add32 i m.sb.s_first_data_block
  other e = elim used [
    | inl low ↦ let c = l.first in absurd (omega (arith, place))
    | inr taken ↦
        let bit : b - m.sb.s_first_data_block ≡ i =
          ap (λ x. x - m.sb.s_first_data_block) e ∙ back_bit in
        let clash : true ≡ false =
          sym (bit-taken (view s m.gd.bg_block_bitmap) (b - m.sb.s_first_data_block) taken)
          ∙ ap (is_taken (view s m.gd.bg_block_bitmap)) bit
          ∙ ap (λ v. is_taken v i) (sym read)
          ∙ free in
        absurd (cc clash)
  ]

  pub take_bit-Outcome : Outcome m view s b (take_bit m i bm s1)
  take_bit-Outcome =
      let kept = take_bit-keeps m view o l i bm s1 b small n1 n2 n3 other ∙ same b in
      let c = l.first in
      elim (take_bit-outcome m view o l i bm s1 (omega (arith, place)) (omega (arith, place))) [
        | inl (x, y, z, why) ↦ (kept, inl (x, y, z, inr (inr (inr why))))
        | inr (x, y, z, t, c2) ↦
            let old = view s m.gd.bg_block_bitmap in
            let s2 = (take_bit m i bm s1).2 in
            let r = (take_bit m i bm s1).0 in
            let bit : r - m.sb.s_first_data_block ≡ i =
              ap (λ k. k - m.sb.s_first_data_block) x ∙ back_bit in
            let clear = free-bit bm i free in
            let zeros : view s2 r ≡ zero_bytes block_size = ap (view s2) x ∙ t in
            (
              kept,
              inr (
                omega (arith, place, x),
                omega (arith, place, x),
                ap (bit_at old) bit ∙ ap (λ v. bit_at v i) (sym read) ∙ clear,
                (λ j.
                    ap (λ v. bit_at v j) (z ∙ ap (λ v. set_bit v i) read)
                    ∙ set_bit-bit old i j (let e = l.bits in omega arith)
                    ∙ ap (λ k. if k == j then 1 else bit_at old j) (sym bit)),
                ap length zeros ∙ refl,
                (λ j. ap (λ v. get_or v j 0) zeros ∙ get_or-zeros 1024 j),
                y
                    ∙ less-counts m (let e = l.blocks_count in omega arith)
                        (let e = l.group_count in omega arith) left left2,
                subst (λ q. StoredCounts q view s2) (sym y) c2,
              ),
            )
      ]

-- On a device whose transfers may fail, but which change no other block and, where they do not
-- fail, give and keep the bytes of their block: a block in use, other than the block bitmap, the
-- superblock and the group descriptor, is the same after ext2_alloc_block. The result is 0, with
-- the free counts of the mount as before, only where a free count is 0, the bit of every data
-- block is 1, or the device fails to read or to write some block of the filesystem; otherwise it
-- is a data block whose bit was 0; then that bit of the bitmap is 1 and every other bit as it
-- was, the block has 1024 zeros, and both free counts are one less, in the mount, where nothing
-- else has changed, and in the bytes of the superblock and the group descriptor. Those three
-- blocks are apart and lie in the filesystem below the data blocks, the bitmap has 1024 bytes and
-- with them a bit for each block, it is searched from the first data block on, and the counts
-- stay below the largest that their fields hold.
pub alloc_block-outcome :
    {S : Type 0} (m : Mount S) (view : S → Disk) (s : S) (b : ℕ)
    → Obeys m view
    → Layout m
    → b < m.sb.s_blocks_count
    → b ≢ m.gd.bg_block_bitmap
    → b ≢ m.sb_block
    → b ≢ m.gd_block
    → InUse m view s b
    → length (view s m.gd.bg_block_bitmap) ≡ 1024
    → Outcome m view s b (ext2_alloc_block m s)
unfolding ext2_alloc_block
alloc_block-outcome m view s b o l small n1 n2 n3 used full =
    elim (Bool-cases (m.sb.s_free_blocks_count == 0 || m.gd.bg_free_blocks_count == 0)) [
      | inl e ↦ rw (ext2_alloc_block, e) (refl, inl (refl, refl, refl, no_count m view s e))
      | inr e ↦
          let same = read-keeps m view o m.gd.bg_block_bitmap s b in
          let total = sub32 m.sb.s_blocks_count m.sb.s_first_data_block in
          elim (Option-cases (ext2_read_block m m.gd.bg_block_bitmap s).0) [
            | inl f ↦
                let why = read-Fails m m.gd.bg_block_bitmap s (bitmap-in_range m l) f in
                rw (ext2_alloc_block, e, f) (same, inl (refl, refl, refl, inr (inr (inr why))))
            | inr (bm, f) ↦
                elim (Option-cases (free_bit (total - m.alloc_start_bit) m.alloc_start_bit bm)) [
                  | inl g ↦
                      rw (ext2_alloc_block, e, f, g)
                        (
                          same,
                          inl (
                            refl,
                            refl,
                            refl,
                            inr (
                                inr (
                                  inl (
                                    all_taken m view s l bm
                                      (read-gives m view o m.gd.bg_block_bitmap s bm f) g))),
                          ),
                        )
                  | inr (i, g) ↦
                      let (from, to, free) =
                        free_bit-found (total - m.alloc_start_bit) m.alloc_start_bit bm i g in
                      let c = l.first in
                      let d = l.data_low in
                      let h = l.small in
                      rw (ext2_alloc_block, e, f, g)
                        (take_bit-Outcome m view s (ext2_read_block m m.gd.bg_block_bitmap s).1 o l
                          (read-keeps m view o m.gd.bg_block_bitmap s) b small n1 n2 n3 used i bm
                          (read-gives m view o m.gd.bg_block_bitmap s bm f) from (omega arith) free
                          full (ground arith) (ground arith))
                ]
          ]
    ]
