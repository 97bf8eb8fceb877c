-- ===== src/Ext2/Reading.antt =====
-- Reads of a file against its contents, on a device that gives its blocks.
use nos.Prelude.{
  ℕ, zero, suc, ◌+◌, ◌-◌, ◌*◌, ◌/◌, ◌%◌, ◌^◌, ◌≤◌, ◌<◌, ◌≡◌, refl, ap, ◌∙◌, min, List, [], ◌++◌,
  length, if◌then◌else◌, ◌==◌, arith, ltb, leb, true, false, ◌||◌, Bool-cases, Option, none, some,
  inl, inr, pos, add32,
}
use nos.Block.{block_read}
use nos.Ext2.{
  Inode, Mount, block_size, sectors_per_block, word32, ext2_blk_in_range, ext2_data_blk_ok,
  ext2_read_block, find_block, read_chunk, data_loop, ext2_read_data, ext2_inode_pointers_ok,
  ext2_read_inode, ext2_read_file, inode_at,
}
use nos.Ext2.Contents.{Disk, block_of, file_bytes, file_bytes-append, hole-bytes, stored-bytes}

-- The device gives the 1024 bytes of each block of the filesystem, and stays as it is; data blocks
-- are blocks of the filesystem.
pub record Gives {S : Type 0} (m : Mount S) (disk : Disk) (s : S) : Type 0 where
  pub reads :
      (b : ℕ)
      → ext2_blk_in_range m.sb b ≡ true
      → block_read m.dev (b * sectors_per_block % 2 ^ 32) sectors_per_block true s
        ≡ some (pos 0, disk b, s)
  pub full : (b : ℕ) → ext2_blk_in_range m.sb b ≡ true → length (disk b) ≡ 1024
  pub above : m.sb.s_first_data_block ≤ m.first_data_block

-- The blocks of a file, and the one of its pointers, are holes or data blocks.
pub record Mapped {S : Type 0} (m : Mount S) (disk : Disk) (node : Inode) : Type 0 where
  pub pointers : ext2_data_blk_ok m (node.i_block 12) ≡ true
  pub blocks : (bi : ℕ) → bi < 268 → ext2_data_blk_ok m (block_of disk node bi) ≡ true

module _ {S : Type 0} (m : Mount S) (disk : Disk) (s : S) (dev : Gives m disk s) where
  read_block-disk :
      (b : ℕ) → ext2_blk_in_range m.sb b ≡ true → ext2_read_block m b s ≡ (some (disk b), s)
  unfolding ext2_read_block
  read_block-disk b e = rw (ext2_read_block, e, dev.reads b e) refl

  data-in_range :
      (b : ℕ) → ext2_data_blk_ok m b ≡ true → (b == 0) ≡ false → ext2_blk_in_range m.sb b ≡ true
  unfolding ext2_data_blk_ok ext2_blk_in_range
  data-in_range b e h = let a = dev.above in ground arith

  module _ (node : Inode) (mapped : Mapped m disk node) where
    -- The indirect block is not loaded, or is the one of the disk.
    abbrev Loaded : Option (List ℕ) → Type 0
    Loaded none = Unit
    Loaded (some entries) = entries ≡ disk (node.i_block 12)

    abbrev Finds : ℕ → Option ℕ × Option (List ℕ) × S → Type 0
    Finds bi r = (ind : Option (List ℕ)) × (r ≡ (some (block_of disk node bi), ind, s)) × Loaded ind

    indirect-Finds :
        (bi : ℕ) (ind : Option (List ℕ))
        → ltb bi 12 ≡ false
        → ltb bi 268 ≡ true
        → (node.i_block 12 == 0) ≡ false
        → Loaded ind
        → Finds bi (find_block m node bi ind s)
    unfolding find_block
    indirect-Finds bi none e lt g ok =
        let p = mapped.pointers in
        let read = read_block-disk (node.i_block 12) (data-in_range (node.i_block 12) p g) in
        (
          some (disk (node.i_block 12)),
          rw (find_block, e, lt, g, p, ap (λ r. r.0) read, ap (λ r. r.1) read) refl,
          refl,
        )
    indirect-Finds bi (some entries) e lt g ok =
        let p = mapped.pointers in
        (
          some entries,
          rw (find_block, e, lt, g, p)
              (ap (λ l. (some (word32 l (4 * (bi - 12))), some entries, s)) ok),
          ok,
        )

    find_block-Finds :
        (bi : ℕ) (ind : Option (List ℕ))
        → bi < 268
        → Loaded ind
        → Finds bi (find_block m node bi ind s)
    unfolding find_block
    find_block-Finds bi ind small ok = elim (Bool-cases (ltb bi 12)) [
      | inl e ↦ (ind, rw (find_block, e) refl, ok)
      | inr e ↦
          let lt : ltb bi 268 ≡ true = ground arith in
          elim (Bool-cases (node.i_block 12 == 0)) [
            | inl g ↦ (ind, rw (find_block, e, lt, g) refl, ok)
            | inr g ↦ indirect-Finds bi ind e lt g ok
          ]
    ]

    read_chunk-bytes :
        (bi r n : ℕ)
        → bi < 268
        → r + n ≤ 1024
        → read_chunk m (block_of disk node bi) r n s
          ≡ (some (file_bytes disk node n (bi * 1024 + r)), s)
    unfolding read_chunk
    read_chunk-bytes bi r n small fits = elim (Bool-cases (block_of disk node bi == 0)) [
      | inl e ↦
          rw (read_chunk, e)
            (ap (λ bs. (some bs, s)) (hole-bytes disk node bi n r fits (ground arith)))
      | inr e ↦
          let ok = mapped.blocks bi small in
          let there = data-in_range (block_of disk node bi) ok e in
          let read = read_block-disk (block_of disk node bi) there in
          rw (read_chunk, e, ok, ap (λ r. r.0) read, ap (λ r. r.1) read)
            (ap (λ bs. (some bs, s))
              (stored-bytes disk node bi n r fits (dev.full (block_of disk node bi) there) e))
    ]

    data_loop-bytes :
        (f offset size got : ℕ) (ind : Option (List ℕ))
        → size - got < f
        → got ≤ size
        → offset + size ≤ 268 * 1024
        → Loaded ind
        → data_loop m f node offset size got ind s
          ≡ (file_bytes disk node (size - got) (offset + got), s)
    unfolding data_loop
    data_loop-bytes zero offset size got ind enough le bound ok = absurd (omega arith)
    data_loop-bytes (suc f) offset size got ind enough le bound ok =
        elim (Bool-cases (ltb got size)) [
          | inl e ↦
              let foff = add32 offset got in
              let here : foff ≡ offset + got = ground arith in
              let chunk = min (block_size - foff % block_size) (size - got) in
              let place : foff / 1024 * 1024 + foff % 1024 ≡ offset + got = omega arith in
              let onward : offset + (got + chunk) ≡ offset + got + chunk = omega arith in
              let whole : chunk + (size - (got + chunk)) ≡ size - got = omega arith in
              let (loaded, found, now) =
                find_block-Finds (foff / block_size) ind (ground arith) ok in
              let read =
                read_chunk-bytes (foff / block_size) (foff % block_size) chunk (ground arith)
                  (omega arith) in
              let rest =
                data_loop-bytes f offset size (got + chunk) loaded (ground arith) (ground arith)
                  bound now in
              rw
                (
                  data_loop,
                  e,
                  ap (λ r. r.0) found,
                  ap (λ r. r.2) found,
                  ap (λ r. r.0) read,
                  ap (λ r. r.1) found,
                  ap (λ r. r.2) found,
                  ap (λ r. r.1) read,
                  rest,
                )
                (ap (λ bs. (bs, s))
                  (ap
                      (λ k.
                        file_bytes disk node chunk k
                        ++ file_bytes disk node (size - (got + chunk)) (offset + (got + chunk)))
                      place
                    ∙ ap
                        (λ k.
                          file_bytes disk node chunk (offset + got)
                          ++ file_bytes disk node (size - (got + chunk)) k)
                        onward
                    ∙ file_bytes-append disk node chunk (size - (got + chunk)) (offset + got)
                    ∙ ap (λ k. file_bytes disk node k (offset + got)) whole))
          | inr e ↦ let nothing : size - got ≡ 0 = ground arith in rw (data_loop, e, nothing) refl
        ]

read_data-bytes :
    {S : Type 0} (m : Mount S) (disk : Disk) (s : S) (node : Inode) (offset size : ℕ)
    → Gives m disk s
    → Mapped m disk node
    → node.i_size ≤ 268 * 1024
    → ext2_read_data m node offset size s
      ≡ (file_bytes disk node (min size (node.i_size - offset)) offset, s)
unfolding ext2_read_data
read_data-bytes m disk s node offset size dev mapped bound =
    elim (Bool-cases (leb node.i_size offset)) [
      | inl e ↦
          let none_left : min size (node.i_size - offset) ≡ 0 = ground arith in
          rw (ext2_read_data, e, none_left) refl
      | inr e ↦
          let part = if ltb (node.i_size - offset) size then node.i_size - offset else size in
          let same : part ≡ min size (node.i_size - offset) = ground arith in
          let start : offset + 0 ≡ offset = omega arith in
          let all : part - 0 ≡ part = omega arith in
          rw (ext2_read_data, e)
            (data_loop-bytes m disk s dev node mapped (suc part) offset part 0 none (omega arith)
                (omega arith) (ground arith) tt
              ∙ ap (λ k. (file_bytes disk node (part - 0) k, s)) start
              ∙ ap (λ n. (file_bytes disk node n offset, s)) (all ∙ same))
    ]

-- The inode table lies inside the filesystem and has an inode for each number.
pub record HasTable {S : Type 0} (m : Mount S) : Type 0 where
  pub starts : m.sb.s_first_data_block ≤ m.inode_table_block
  pub ends : m.inode_table_block + m.inode_table_blocks ≤ m.sb.s_blocks_count
  pub small : m.sb.s_blocks_count < 2 ^ 32
  pub inodes : m.sb.s_inodes_count ≤ 8 * m.inode_table_blocks
  pub few : m.sb.s_inodes_count ≤ 8192

-- The inode of a number: eight stand in a block of the table.
abbrev pub inode_of : {S : Type 0} → Mount S → Disk → ℕ → Inode
inode_of m disk ino = inode_at (disk (m.inode_table_block + (ino - 1) / 8)) ((ino - 1) % 8 * 128)

read_inode-disk :
    {S : Type 0} (m : Mount S) (disk : Disk) (s : S) (ino : ℕ)
    → Gives m disk s
    → HasTable m
    → 1 ≤ ino
    → ino ≤ m.sb.s_inodes_count
    → ext2_read_inode m ino s ≡ (some (inode_of m disk ino), s)
unfolding ext2_read_inode ext2_blk_in_range
read_inode-disk m disk s ino dev table low high =
    let a = table.starts in
    let b = table.ends in
    let c = table.small in
    let d = table.inodes in
    let e = table.few in
    let blk = m.inode_table_block + (ino - 1) / 8 in
    let off : (ino - 1) * 128 % 2 ^ 32 ≡ (ino - 1) * 128 = omega arith in
    let block : add32 m.inode_table_block ((ino - 1) * 128 % 2 ^ 32 / 1024) ≡ blk = omega arith in
    let place : (ino - 1) * 128 % 2 ^ 32 % 1024 ≡ (ino - 1) % 8 * 128 = omega arith in
    let inside : ext2_blk_in_range m.sb blk ≡ true = ground arith in
    let valid : (ltb ino 1 || ltb m.sb.s_inodes_count ino) ≡ false = ground arith in
    let spans : leb (add32 m.inode_table_block m.inode_table_blocks) blk ≡ false = ground arith in
    let read = read_block-disk m disk s dev blk inside in
    rw (ext2_read_inode, valid, block, spans, ap (λ r. r.0) read, block, ap (λ r. r.1) read, place)
      refl

-- Where the device gives 1024 bytes for each block of the filesystem, the inode table lies inside
-- it and has an inode for each number, up to 8192, and the file of an inode number has at most
-- 268 blocks that are holes or data blocks: ext2_read_file returns the bytes of the file from the
-- offset on, as many as the size asks for and the file has behind the offset, and nothing if the
-- pointers of the inode do not pass their test. Byte i of a file is byte i % 1024 of its block i
-- / 1024, which its inode or its indirect block names, and 0 in a hole.
pub read_file-bytes :
    {S : Type 0} (m : Mount S) (disk : Disk) (s : S) (ino offset size : ℕ)
    → Gives m disk s
    → HasTable m
    → 1 ≤ ino
    → ino ≤ m.sb.s_inodes_count
    → Mapped m disk (inode_of m disk ino)
    → (inode_of m disk ino).i_size ≤ 268 * 1024
    → ext2_read_file m ino offset size s ≡ (
        if ext2_inode_pointers_ok m (inode_of m disk ino)
        then (
          file_bytes disk
              (inode_of m disk ino)
              (min size ((inode_of m disk ino).i_size - offset))
              offset,
          s,
        )
        else ([], s))
unfolding ext2_read_file
read_file-bytes m disk s ino offset size dev table low high mapped bound =
    let node = inode_of m disk ino in
    let read = read_inode-disk m disk s ino dev table low high in
    let got = read_data-bytes m disk s node offset size dev mapped bound in
    elim (Bool-cases (ext2_inode_pointers_ok m node)) [
      | inl e ↦ rw (ext2_read_file, ap (λ r. r.0) read, ap (λ r. r.1) read, e) got
      | inr e ↦ rw (ext2_read_file, ap (λ r. r.0) read, ap (λ r. r.1) read, e) refl
    ]
