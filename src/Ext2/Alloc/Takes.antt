-- ===== src/Ext2/Alloc/Takes.antt =====
-- Which block is taken, and what stays as it was, on a device where transfers may fail.
use nos.Prelude.{
  ℕ, zero, suc, ◌+◌, ◌*◌, ◌%◌, ◌^◌, ◌≤◌, ◌<◌, ◌≡◌, ◌≢◌, refl, sym, ◌∙◌, subst, List, ◌++◌, none,
  some, true, false, drop, length, arith, inl, inr, Bool-cases, Option-cases,
}
use nos.Block.{block_read, block_write}
use nos.Ext2.{Mount, sectors_per_block, ext2_blk_in_range, ext2_read_block, took}
use nos.Ext2.Contents.{Disk}
use nos.Ext2.Alloc.{
  is_taken, free_bit, one_less, one_more, went, ext2_write_block, write_over, ext2_write_superblock,
  write_counts, restore_counts, sb_bytes, gd_bytes, ext2_write_group_desc,
}

-- A device that keeps blocks, as `view` shows them: a read changes none and, unless it fails, gives
-- the bytes of its block; a write changes no other block and, unless it fails, leaves its bytes.
pub record Obeys {S : Type 0} (m : Mount S) (view : S → Disk) : Type 0 where
  pub read_keeps :
      (x : ℕ) (s : S) (b : ℕ)
      → view
          (took m (block_read m.dev (x * sectors_per_block % 2 ^ 32) sectors_per_block true s) s).1
          b
        ≡ view s b
  pub read_gives :
      (x : ℕ) (s : S) (buf : List ℕ)
      → x < m.sb.s_blocks_count
      → (took m (block_read m.dev (x * sectors_per_block % 2 ^ 32) sectors_per_block true s) s).0
        ≡ some buf
      → buf ≡ view s x
  pub write_keeps :
      (x : ℕ) (buf : List ℕ) (s : S) (b : ℕ)
      → x < m.sb.s_blocks_count
      → b < m.sb.s_blocks_count
      → b ≢ x
      → view
          (went
            (block_write m.dev (x * sectors_per_block % 2 ^ 32) sectors_per_block (some buf) s)
            s).1
          b
        ≡ view s b
  pub write_stores :
      (x : ℕ) (buf : List ℕ) (s : S)
      → x < m.sb.s_blocks_count
      → (went
          (block_write m.dev (x * sectors_per_block % 2 ^ 32) sectors_per_block (some buf) s)
          s).0
        ≡ true
      → view
          (went
            (block_write m.dev (x * sectors_per_block % 2 ^ 32) sectors_per_block (some buf) s)
            s).1
          x
        ≡ buf

pub less-Obeys :
    {S : Type 0} (m : Mount S) (view : S → Disk) → Obeys m view → Obeys (one_less m) view
less-Obeys m view o = record {
  read_keeps = o.read_keeps;
  read_gives = o.read_gives;
  write_keeps = o.write_keeps;
  write_stores = o.write_stores;
}

pub more-Obeys :
    {S : Type 0} (m : Mount S) (view : S → Disk) → Obeys m view → Obeys (one_more m) view
more-Obeys m view o = record {
  read_keeps = o.read_keeps;
  read_gives = o.read_gives;
  write_keeps = o.write_keeps;
  write_stores = o.write_stores;
}

module _ {S : Type 0} (m : Mount S) (view : S → Disk) (o : Obeys m view) where
  pub read-keeps : (x : ℕ) (s : S) (b : ℕ) → view (ext2_read_block m x s).1 b ≡ view s b
  unfolding ext2_read_block
  read-keeps x s b = elim (Bool-cases (ext2_blk_in_range m.sb x)) [
    | inl e ↦ rw (ext2_read_block, e) (o.read_keeps x s b)
    | inr e ↦ rw (ext2_read_block, e) refl
  ]

  pub read-gives :
      (x : ℕ) (s : S) (buf : List ℕ) → (ext2_read_block m x s).0 ≡ some buf → buf ≡ view s x
  unfolding ext2_read_block ext2_blk_in_range
  read-gives x s buf h = elim (Bool-cases (ext2_blk_in_range m.sb x)) [
    | inl e ↦ o.read_gives x s buf (ground arith) (sym (rw (ext2_read_block, e) refl) ∙ h)
    | inr e ↦
        let clash : none ≡ some buf = sym (rw (ext2_read_block, e) refl) ∙ h in absurd (cc clash)
  ]

  pub write-keeps :
      (x : ℕ) (buf : List ℕ) (s : S) (b : ℕ)
      → b < m.sb.s_blocks_count
      → b ≢ x
      → view (ext2_write_block m x buf s).1 b ≡ view s b
  unfolding ext2_write_block ext2_blk_in_range
  write-keeps x buf s b small ne = elim (Bool-cases (ext2_blk_in_range m.sb x)) [
    | inl e ↦ rw (ext2_write_block, e) (o.write_keeps x buf s b (ground arith) small ne)
    | inr e ↦ rw (ext2_write_block, e) refl
  ]

  pub write-stores :
      (x : ℕ) (buf : List ℕ) (s : S)
      → (ext2_write_block m x buf s).0 ≡ true
      → view (ext2_write_block m x buf s).1 x ≡ buf
  unfolding ext2_write_block ext2_blk_in_range
  write-stores x buf s h = elim (Bool-cases (ext2_blk_in_range m.sb x)) [
    | inl e ↦
        rw (ext2_write_block, e)
          (o.write_stores x buf s (ground arith) (sym (rw (ext2_write_block, e) refl) ∙ h))
    | inr e ↦
        let clash : false ≡ true = sym (rw (ext2_write_block, e) refl) ∙ h in absurd (cc clash)
  ]

  over-keeps :
      (x : ℕ) (bytes : List ℕ) (s : S) (b : ℕ)
      → b < m.sb.s_blocks_count
      → b ≢ x
      → view (write_over m x bytes s).1 b ≡ view s b
  unfolding write_over
  over-keeps x bytes s b small ne = elim (Option-cases (ext2_read_block m x s).0) [
    | inl e ↦ rw (write_over, e) (read-keeps x s b)
    | inr (buf, e) ↦
        rw (write_over, e)
          (write-keeps x (bytes ++ drop (length bytes) buf) _ b small ne ∙ read-keeps x s b)
  ]

  over-stores :
      (x : ℕ) (bytes : List ℕ) (s : S)
      → (write_over m x bytes s).0 ≡ true
      → (rest : List ℕ) × (view (write_over m x bytes s).1 x ≡ bytes ++ rest)
  unfolding write_over
  over-stores x bytes s h = elim (Option-cases (ext2_read_block m x s).0) [
    | inl e ↦ let clash : false ≡ true = sym (rw (write_over, e) refl) ∙ h in absurd (cc clash)
    | inr (buf, e) ↦
        let new = bytes ++ drop (length bytes) buf in
        let done : (ext2_write_block m x new (ext2_read_block m x s).1).0 ≡ true =
          sym (rw (write_over, e) refl) ∙ h in
        (
          drop (length bytes) buf,
          rw (write_over, e) (write-stores x new (ext2_read_block m x s).1 done),
        )
  ]

  -- Both counts are on the device.
  pub counts-stored :
      (s : S)
      → m.sb_block < m.sb.s_blocks_count
      → m.sb_block ≢ m.gd_block
      → (write_counts m s).0 ≡ true
      → ((rest : List ℕ) × (view (write_counts m s).1 m.sb_block ≡ sb_bytes m.sb ++ rest))
        × ((rest : List ℕ) × (view (write_counts m s).1 m.gd_block ≡ gd_bytes m.gd ++ rest))
  unfolding write_counts
  counts-stored s small apart h = elim (Bool-cases (ext2_write_superblock m s).0) [
    | inl e ↦
        let u = (ext2_write_superblock m s).1 in
        let last : (ext2_write_group_desc m u).0 ≡ true = sym (rw (write_counts, e) refl) ∙ h in
        let (r, a) = over-stores m.sb_block (sb_bytes m.sb) s e in
        let (q, b) = over-stores m.gd_block (gd_bytes m.gd) u last in
        rw (write_counts, e)
          ((r, over-keeps m.gd_block (gd_bytes m.gd) u m.sb_block small apart ∙ a), (q, b))
    | inr e ↦ let clash : false ≡ true = sym (rw (write_counts, e) refl) ∙ h in absurd (cc clash)
  ]

  module _ (b : ℕ) (small : b < m.sb.s_blocks_count) (ne : b ≢ m.sb_block)
      (me : b ≢ m.gd_block) where
    pub counts-keeps : (s : S) → view (write_counts m s).1 b ≡ view s b
    unfolding write_counts
    counts-keeps s = elim (Bool-cases (ext2_write_superblock m s).0) [
      | inl e ↦
          rw (write_counts, e)
            (over-keeps m.gd_block (gd_bytes m.gd) _ b small me
              ∙ over-keeps m.sb_block (sb_bytes m.sb) s b small ne)
      | inr e ↦ rw (write_counts, e) (over-keeps m.sb_block (sb_bytes m.sb) s b small ne)
    ]

    pub restore-keeps : (s : S) → view (restore_counts m s) b ≡ view s b
    unfolding restore_counts
    restore-keeps s =
        over-keeps m.gd_block (gd_bytes m.gd) _ b small me
        ∙ over-keeps m.sb_block (sb_bytes m.sb) s b small ne

pub free_bit-found :
    (n i : ℕ) (bm : List ℕ) (k : ℕ)
    → free_bit n i bm ≡ some k
    → (i ≤ k) × (k < i + n) × (is_taken bm k ≡ false)
unfolding free_bit
free_bit-found zero i bm k e = absurd (cc e)
free_bit-found (suc n) i bm k e = elim (Bool-cases (is_taken bm i)) [
  | inl h ↦
      let (a, b, c) = free_bit-found n (i + 1) bm k (sym (rw h refl) ∙ e) in
      (omega arith, omega arith, c)
  | inr h ↦
      let here : some i ≡ some k = sym (rw h refl) ∙ e in
      let same : i ≡ k = cc here in
      (omega arith, omega arith, subst (λ j. is_taken bm j ≡ false) same h)
]
