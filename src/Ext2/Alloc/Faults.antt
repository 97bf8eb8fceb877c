-- ===== src/Ext2/Alloc/Faults.antt =====
-- When a transfer fails.
use nos.Prelude.{
  ℕ, zero, suc, ◌+◌, ◌<◌, ◌≤◌, ◌≡◌, ◌⊎◌, refl, sym, ap, ◌∙◌, List, ◌++◌, drop, length, none, some,
  true, false, arith, inl, inr, Bool-cases, Option-cases, ◌==◌,
}
use nos.Ext2.{Mount, ext2_blk_in_range, ext2_read_block}
use nos.Ext2.Alloc.{
  is_taken, free_bit, one_less, one_more, ext2_write_block, write_over, write_counts,
  ext2_write_superblock, sb_bytes, gd_bytes,
}

-- The device fails to read, or to write, some block of the filesystem.
abbrev pub Fails : {S : Type 0} → Mount S → Type 0
Fails {S = S} m =
    (x : ℕ) × (ext2_blk_in_range m.sb x ≡ true)
    × (((s : S) × ((ext2_read_block m x s).0 ≡ none))
        ⊎ ((s : S) × (buf : List ℕ) × ((ext2_write_block m x buf s).0 ≡ false)))

module _ {S : Type 0} (m : Mount S) where
  pub read-Fails :
      (x : ℕ) (s : S) → ext2_blk_in_range m.sb x ≡ true → (ext2_read_block m x s).0 ≡ none → Fails m
  read-Fails x s e h = (x, e, inl (s, h))

  pub write-Fails :
      (x : ℕ) (buf : List ℕ) (s : S)
      → ext2_blk_in_range m.sb x ≡ true
      → (ext2_write_block m x buf s).0 ≡ false
      → Fails m
  write-Fails x buf s e h = (x, e, inr (s, buf, h))

  over-Fails :
      (x : ℕ) (bytes : List ℕ) (s : S)
      → ext2_blk_in_range m.sb x ≡ true
      → (write_over m x bytes s).0 ≡ false
      → Fails m
  unfolding write_over
  over-Fails x bytes s e h = elim (Option-cases (ext2_read_block m x s).0) [
    | inl f ↦ read-Fails x s e f
    | inr (buf, f) ↦
        write-Fails x (bytes ++ drop (length bytes) buf) (ext2_read_block m x s).1 e
          (sym (rw (write_over, f) refl) ∙ h)
  ]

  counts-Fails :
      (s : S)
      → ext2_blk_in_range m.sb m.sb_block ≡ true
      → ext2_blk_in_range m.sb m.gd_block ≡ true
      → (write_counts m s).0 ≡ false
      → Fails m
  unfolding write_counts
  counts-Fails s a b h = elim (Bool-cases (ext2_write_superblock m s).0) [
    | inl e ↦
        over-Fails m.gd_block (gd_bytes m.gd) (ext2_write_superblock m s).1 b
          (sym (rw (write_counts, e) refl) ∙ h)
    | inr e ↦ over-Fails m.sb_block (sb_bytes m.sb) s a e
  ]

-- A search that finds nothing has seen no clear bit.
pub free_bit-none :
    (n i : ℕ) (bm : List ℕ)
    → free_bit n i bm ≡ none
    → (k : ℕ) → i ≤ k
    → k < i + n
    → is_taken bm k ≡ true
unfolding free_bit
free_bit-none zero i bm e k low high = absurd (omega arith)
free_bit-none (suc n) i bm e k low high = elim (Bool-cases (is_taken bm i)) [
  | inl h ↦ elim (Bool-cases (i == k)) [
    | inl same ↦ let here : i ≡ k = ground arith in ap (is_taken bm) (sym here) ∙ h
    | inr other ↦ free_bit-none n (i + 1) bm (sym (rw h refl) ∙ e) k (ground arith) (omega arith)
  ]
  | inr h ↦ let found : some i ≡ none = sym (rw h refl) ∙ e in absurd (cc found)
]

-- Other counts, on the same device.
module _ {S : Type 0} (m : Mount S) (s : S) (a : ext2_blk_in_range m.sb m.sb_block ≡ true)
    (b : ext2_blk_in_range m.sb m.gd_block ≡ true) where
  pub less_counts-Fails : (write_counts (one_less m) s).0 ≡ false → Fails m
  unfolding ext2_blk_in_range ext2_read_block ext2_write_block
  less_counts-Fails h = counts-Fails (one_less m) s a b h

  pub more_counts-Fails : (write_counts (one_more m) s).0 ≡ false → Fails m
  unfolding ext2_blk_in_range ext2_read_block ext2_write_block
  more_counts-Fails h = counts-Fails (one_more m) s a b h
