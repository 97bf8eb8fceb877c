-- ===== src/Ext2/Inodes.antt =====
-- kernel/ext2.c: an inode that is written into its table.
use nos.Prelude.{
  ℕ, zero, suc, ◌+◌, ◌-◌, ◌*◌, ◌/◌, ◌%◌, ◌^◌, ◌≤◌, ◌<◌, ◌≡◌, ◌≢◌, refl, sym, ap, ◌∙◌, ltb, leb,
  List, [], ◌∷◌, ◌++◌, length, take, drop, none, some, Bool, true, false, ◌||◌, if◌then◌else◌, ◌==◌,
  add32, arith, inl, inr, Bool-cases, Option-cases, length-take, drop-add, drop-append_self,
}
use nos.Ext2.{Mount, block_size, inode_size, ext2_read_block}
use nos.Ext2.Contents.{Disk}
use nos.Ext2.Reading.{HasTable}
use nos.Ext2.Alloc.{ext2_write_block}
use nos.Ext2.Alloc.Takes.{Obeys, read-keeps, read-gives, write-keeps, write-stores}

-- The bytes of the inode over those at a place of the block.
abbrev pub with_bytes : List ℕ → ℕ → List ℕ → List ℕ
with_bytes buf place bytes = take place buf ++ (bytes ++ drop (place + length bytes) buf)

-- The inode is the list of its bytes.
unfoldable pub ext2_write_inode : {S : Type 0} → Mount S → ℕ → List ℕ → S → Bool × S
ext2_write_inode m ino node s =
    let off = (ino - 1) * inode_size % 2 ^ 32 in
    let blk = add32 m.inode_table_block (off / block_size) in
    let (buf, u) = ext2_read_block m blk s in
    if ltb ino 1 || ltb m.sb.s_inodes_count ino
    then (false, s)
    else if leb (add32 m.inode_table_block m.inode_table_blocks) blk
    then (false, s)
    else elim buf [
      | none ↦ (false, u)
      | some bytes ↦ ext2_write_block m blk (with_bytes bytes (off % block_size) node) u
    ]

take-append_self : (xs ys : List ℕ) → take (length xs) (xs ++ ys) ≡ xs
take-append_self [] ys = refl
take-append_self (x ∷ xs) ys = ap (◌∷◌ x) (take-append_self xs ys)

take-append_less :
    (n p : ℕ) (xs ys : List ℕ) → n ≤ p → p ≤ length xs → take n (take p xs ++ ys) ≡ take n xs
take-append_less zero p xs ys a b = refl
take-append_less (suc n) zero xs ys a b = absurd (omega arith)
take-append_less (suc n) (suc p) [] ys a b = absurd (omega arith)
take-append_less (suc n) (suc p) (x ∷ xs) ys a b =
    ap (◌∷◌ x) (take-append_less n p xs ys (omega arith) (omega arith))

module _ (n : ℕ) (bytes : List ℕ) (size : length bytes ≡ n) where
  -- The part that was written.
  here-bytes :
      (p : ℕ) (buf : List ℕ) → p + n ≤ length buf → take n (drop p (with_bytes buf p bytes)) ≡ bytes
  here-bytes p buf fits =
      let count : length (take p buf) ≡ p = length-take p buf ∙ omega arith in
      let behind = bytes ++ drop (p + length bytes) buf in
      ap (take n)
        (ap (λ k. drop k (take p buf ++ behind)) (sym count) ∙ drop-append_self (take p buf) behind)
      ∙ ap (λ k. take k behind) (sym size)
      ∙ take-append_self bytes (drop (p + length bytes) buf)

  -- A part in front of it.
  before-bytes :
      (j p : ℕ) (buf : List ℕ)
      → j + n ≤ p
      → p + n ≤ length buf
      → take n (drop j (with_bytes buf p bytes)) ≡ take n (drop j buf)
  before-bytes j p buf low fits =
      prefix j p buf (bytes ++ drop (p + length bytes) buf) low (omega arith)
    where
      prefix :
          (j p : ℕ) (buf ys : List ℕ)
          → j + n ≤ p
          → p ≤ length buf
          → take n (drop j (take p buf ++ ys)) ≡ take n (drop j buf)
      prefix zero p buf ys a b = take-append_less n p buf ys (omega arith) b
      prefix (suc j) zero buf ys a b = absurd (omega arith)
      prefix (suc j) (suc p) [] ys a b = absurd (omega arith)
      prefix (suc j) (suc p) (x ∷ buf) ys a b = prefix j p buf ys (omega arith) (omega arith)

  -- A part behind it.
  behind-bytes :
      (j p : ℕ) (buf : List ℕ)
      → p + n ≤ j
      → p + n ≤ length buf
      → drop j (with_bytes buf p bytes) ≡ drop j buf
  behind-bytes j p buf high fits =
      let count : length (take p buf) ≡ p = length-take p buf ∙ omega arith in
      let tail = drop (p + length bytes) buf in
      let k = j - (p + n) in
      let split : j ≡ p + (length bytes + k) = omega arith in
      let back : p + length bytes + k ≡ j = omega arith in
      let whole = with_bytes buf p bytes in
      ap (λ i. drop i whole) split
      ∙ drop-add p (length bytes + k) whole
      ∙ ap (drop (length bytes + k))
          (ap (λ i. drop i whole) (sym count) ∙ drop-append_self (take p buf) (bytes ++ tail))
      ∙ drop-add (length bytes) k (bytes ++ tail)
      ∙ ap (drop k) (drop-append_self bytes tail)
      ∙ sym (drop-add (p + length bytes) k buf)
      ∙ ap (λ i. drop i buf) back

-- The bytes of an inode: eight stand in a block of the table.
abbrev pub inode_bytes : {S : Type 0} → Mount S → Disk → ℕ → List ℕ
inode_bytes m disk ino =
    take inode_size (drop ((ino - 1) % 8 * inode_size) (disk (m.inode_table_block + (ino - 1) / 8)))

module _ {S : Type 0} (m : Mount S) (view : S → Disk) (s : S) (ino : ℕ) (node : List ℕ)
    (o : Obeys m view) (table : HasTable m) (low : 1 ≤ ino) (high : ino ≤ m.sb.s_inodes_count)
    (wrote : (ext2_write_inode m ino node s).0 ≡ true) where
  abbrev blk : ℕ
  blk = m.inode_table_block + (ino - 1) / 8

  abbrev place : ℕ
  place = (ino - 1) % 8 * 128

  -- What a call that went well left.
  abbrev Left : S → Type 0
  Left s2 =
      (view s2 blk ≡ with_bytes (view s blk) place node)
      × ((b : ℕ) → b < m.sb.s_blocks_count → b ≢ blk → view s2 b ≡ view s b)

  write_inode-Left : Left (ext2_write_inode m ino node s).1
  unfolding ext2_write_inode
  write_inode-Left =
      let a = table.starts in
      let b = table.ends in
      let c = table.small in
      let d = table.inodes in
      let e = table.few in
      let block : add32 m.inode_table_block ((ino - 1) * 128 % 2 ^ 32 / 1024) ≡ blk = omega arith in
      let at : (ino - 1) * 128 % 2 ^ 32 % 1024 ≡ place = omega arith in
      let valid : (ltb ino 1 || ltb m.sb.s_inodes_count ino) ≡ false = ground arith in
      let spans : leb (add32 m.inode_table_block m.inode_table_blocks) blk ≡ false = ground arith in
      elim (Option-cases (ext2_read_block m blk s).0) [
        | inl f ↦
            let clash : false ≡ true =
              sym (rw (ext2_write_inode, valid, block, spans, f) refl) ∙ wrote in
            absurd (cc clash)
        | inr (buf, f) ↦
            let s1 = (ext2_read_block m blk s).1 in
            let same = read-gives m view o blk s buf f in
            let new = with_bytes buf place node in
            let done : (ext2_write_block m blk new s1).0 ≡ true =
              sym (rw (ext2_write_inode, valid, block, spans, f, block, at) refl) ∙ wrote in
            rw (ext2_write_inode, valid, block, spans, f, block, at)
              (
                write-stores m view o blk new s1 done ∙ ap (λ v. with_bytes v place node) same,
                λ k small ne.
                    write-keeps m view o blk new s1 k small ne ∙ read-keeps m view o blk s k,
              )
      ]

-- On a device whose transfers may fail, but which change no other block and, where they do not
-- fail, give and keep the bytes of their block; where the inode table lies inside the filesystem
-- and has an inode for each number, up to 8192, and the block of the inode has 1024 bytes: if
-- ext2_write_inode of an inode number and 128 bytes succeeds, the inode of that number has these
-- bytes, and that of every other number has the bytes it had.
pub write_inode-bytes :
    {S : Type 0} (m : Mount S) (view : S → Disk) (s : S) (ino other : ℕ) (node : List ℕ)
    → Obeys m view
    → HasTable m
    → 1 ≤ ino
    → ino ≤ m.sb.s_inodes_count
    → 1 ≤ other
    → other ≤ m.sb.s_inodes_count
    → length node ≡ inode_size
    → length (view s (m.inode_table_block + (ino - 1) / 8)) ≡ block_size
    → (ext2_write_inode m ino node s).0 ≡ true
    → inode_bytes m (view (ext2_write_inode m ino node s).1) other
      ≡ (if ino == other then node else inode_bytes m (view s) other)
write_inode-bytes m view s ino other node o table low high low2 high2 size full wrote =
    let (stored, kept) = write_inode-Left m view s ino node o table low high wrote in
    let s2 = (ext2_write_inode m ino node s).1 in
    let here = m.inode_table_block + (ino - 1) / 8 in
    let there = m.inode_table_block + (other - 1) / 8 in
    let p = (ino - 1) % 8 * 128 in
    let j = (other - 1) % 8 * 128 in
    let fits : p + 128 ≤ length (view s here) = omega (arith, full) in
    let a = table.ends in
    let d = table.inodes in
    elim (Bool-cases (ino == other)) [
      | inl e ↦
          let same : other ≡ ino = ground arith in
          rw e (
            ap (inode_bytes m (view s2)) same
            ∙ ap (λ v. take 128 (drop p v)) stored
            ∙ here-bytes 128 node size p (view s here) fits)
      | inr e ↦ rw e (elim (Bool-cases (there == here)) [
        | inl f ↦
            let same : there ≡ here = ground arith in
            ap (λ b. take 128 (drop j (view s2 b))) same
            ∙ ap (λ v. take 128 (drop j v)) stored
            ∙ elim (Bool-cases (ltb j p)) [
              | inl g ↦ before-bytes 128 node size j p (view s here) (ground arith) fits
              | inr g ↦
                  ap (take 128) (behind-bytes 128 node size j p (view s here) (ground arith) fits)
            ]
            ∙ ap (λ b. take 128 (drop j (view s b))) (sym same)
        | inr f ↦
            ap (λ v. take 128 (drop j v)) (kept there (omega arith) (λ g. absurd (ground arith)))
      ])
    ]
