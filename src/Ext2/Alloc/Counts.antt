-- ===== src/Ext2/Alloc/Counts.antt =====
-- The free counts, in the mount and in the bytes on the device.
use nos.Prelude.{
  ℕ, zero, suc, ◌+◌, ◌-◌, ◌^◌, ◌<◌, ◌≡◌, ◌≢◌, refl, ap, ◌∙◌, List, ◌++◌, get_or, true, arith, add32,
  sub32,
}
use nos.Ext2.{Superblock, GroupDesc, Mount, word16, word32, zero_bytes}
use nos.Ext2.Contents.{Disk}
use nos.Ext2.Alloc.{one_less, one_more, sb_bytes, gd_bytes, write_counts, add16, dec16}
use nos.Ext2.Alloc.Takes.{Obeys, counts-stored}

-- The mount with these counts.
abbrev pub with_counts : {S : Type 0} → Mount S → ℕ → ℕ → Mount S
with_counts m blocks group = record m {
  sb = record m.sb { s_free_blocks_count = blocks };
  gd = record m.gd { bg_free_blocks_count = group };
}

-- The counts of the mount stand at byte 12 of the superblock and of the group descriptor.
abbrev pub StoredCounts : {S : Type 0} → Mount S → (S → Disk) → S → Type 0
StoredCounts m view s =
    (word32 (view s m.sb_block) 12 ≡ m.sb.s_free_blocks_count)
    × (word16 (view s m.gd_block) 12 ≡ m.gd.bg_free_blocks_count)

sb_bytes-count :
    (sb : Superblock) (rest : List ℕ)
    → sb.s_free_blocks_count < 2 ^ 32
    → word32 (sb_bytes sb ++ rest) 12 ≡ sb.s_free_blocks_count
sb_bytes-count sb rest small = omega arith

gd_bytes-count :
    (gd : GroupDesc) (rest : List ℕ)
    → gd.bg_free_blocks_count < 2 ^ 16
    → word16 (gd_bytes gd ++ rest) 12 ≡ gd.bg_free_blocks_count
gd_bytes-count gd rest small = omega arith

pub write_counts-Stored :
    {S : Type 0} (m : Mount S) (view : S → Disk)
    → Obeys m view
    → (s : S) → m.sb_block < m.sb.s_blocks_count
    → m.sb_block ≢ m.gd_block
    → m.sb.s_free_blocks_count < 2 ^ 32
    → m.gd.bg_free_blocks_count < 2 ^ 16
    → (write_counts m s).0 ≡ true
    → StoredCounts m view (write_counts m s).1
write_counts-Stored m view o s low apart small small2 h =
    let ((r, a), (q, b)) = counts-stored m view o s low apart h in
    (
      ap (λ v. word32 v 12) a ∙ sb_bytes-count m.sb r small,
      ap (λ v. word16 v 12) b ∙ gd_bytes-count m.gd q small2,
    )

pub less-counts :
    {S : Type 0} (m : Mount S)
    → m.sb.s_free_blocks_count < 2 ^ 32
    → m.gd.bg_free_blocks_count < 2 ^ 16
    → 0 < m.sb.s_free_blocks_count
    → 0 < m.gd.bg_free_blocks_count
    → one_less m ≡ with_counts m (m.sb.s_free_blocks_count - 1) (m.gd.bg_free_blocks_count - 1)
less-counts m a b c d =
    let x : sub32 m.sb.s_free_blocks_count 1 ≡ m.sb.s_free_blocks_count - 1 = omega arith in
    let y : dec16 m.gd.bg_free_blocks_count ≡ m.gd.bg_free_blocks_count - 1 = omega arith in
    ap (λ k. with_counts m k (dec16 m.gd.bg_free_blocks_count)) x
    ∙ ap (with_counts m (m.sb.s_free_blocks_count - 1)) y

pub more-counts :
    {S : Type 0} (m : Mount S)
    → m.sb.s_free_blocks_count + 1 < 2 ^ 32
    → m.gd.bg_free_blocks_count + 1 < 2 ^ 16
    → one_more m ≡ with_counts m (m.sb.s_free_blocks_count + 1) (m.gd.bg_free_blocks_count + 1)
more-counts m a b =
    let x : add32 m.sb.s_free_blocks_count 1 ≡ m.sb.s_free_blocks_count + 1 = omega arith in
    let y : add16 m.gd.bg_free_blocks_count 1 ≡ m.gd.bg_free_blocks_count + 1 = omega arith in
    ap (λ k. with_counts m k (add16 m.gd.bg_free_blocks_count 1)) x
    ∙ ap (with_counts m (m.sb.s_free_blocks_count + 1)) y

pub get_or-zeros : (n j : ℕ) → get_or (zero_bytes n) j 0 ≡ 0
get_or-zeros zero j = refl
get_or-zeros (suc n) zero = refl
get_or-zeros (suc n) (suc j) = get_or-zeros n j
