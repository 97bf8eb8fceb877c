-- ===== src/Ext2/Contents.antt =====
-- A file as its blocks and the pointers to them give it.
use nos.Prelude.{
  ℕ, zero, suc, ◌+◌, ◌-◌, ◌*◌, ◌/◌, ◌%◌, ◌≤◌, ◌<◌, ◌≡◌, refl, sym, ap, ◌∙◌, List, [], ◌∷◌, ◌++◌,
  length, get_or, take, drop, if◌then◌else◌, ◌==◌, false, arith, ltb,
}
use nos.Ext2.{Inode, block_size, word32, zero_bytes}

-- The bytes of a disk, block by block.
abbrev pub Disk : Type 0
Disk = ℕ → List ℕ

take-next :
    (n r : ℕ) (xs : List ℕ)
    → r < length xs
    → take (suc n) (drop r xs) ≡ get_or xs r 0 ∷ take n (drop (r + 1) xs)
take-next n r [] lt = absurd (omega arith)
take-next n zero (x ∷ xs) lt = refl
take-next n (suc r) (x ∷ xs) lt =
    let e : suc (r + 1) ≡ suc r + 1 = omega arith in
    take-next n r xs (omega arith) ∙ ap (λ k. get_or xs r 0 ∷ take n (drop k (x ∷ xs))) e

module _ (disk : Disk) (node : Inode) where
  -- The block that has block bi of the file, 0 for a hole.
  abbrev pub block_of : ℕ → ℕ
  block_of bi =
      if ltb bi 12
      then node.i_block bi
      else if node.i_block 12 == 0
      then 0
      else word32 (disk (node.i_block 12)) (4 * (bi - 12))

  abbrev pub file_byte : ℕ → ℕ
  file_byte off =
      if block_of (off / block_size) == 0
      then 0
      else get_or (disk (block_of (off / block_size))) (off % block_size) 0

  -- The n bytes from an offset on.
  abbrev pub file_bytes : ℕ → ℕ → List ℕ
  file_bytes zero off = []
  file_bytes (suc n) off = file_byte off ∷ file_bytes n (off + 1)

  pub file_bytes-append :
      (a b off : ℕ) → file_bytes a off ++ file_bytes b (off + a) ≡ file_bytes (a + b) off
  file_bytes-append zero b off =
      let e : off + 0 ≡ off = omega arith in
      let h : b ≡ zero + b = omega arith in ap (file_bytes b) e ∙ ap (λ k. file_bytes k off) h
  file_bytes-append (suc a) b off =
      let e : off + suc a ≡ off + 1 + a = omega arith in
      let h : suc (a + b) ≡ suc a + b = omega arith in
      ap (λ k. file_byte off ∷ (file_bytes a (off + 1) ++ file_bytes b k)) e
      ∙ ap (◌∷◌ (file_byte off)) (file_bytes-append a b (off + 1))
      ∙ ap (λ k. file_bytes k off) h

  module _ (q : ℕ) where
    -- Bytes inside block q, at places from r on.
    pub hole-bytes :
        (n r : ℕ) → r + n ≤ 1024 → block_of q ≡ 0 → zero_bytes n ≡ file_bytes n (q * 1024 + r)
    hole-bytes zero r small e = refl
    hole-bytes (suc n) r small e =
        let here : (q * 1024 + r) / 1024 ≡ q = omega arith in
        let next : q * 1024 + (r + 1) ≡ q * 1024 + r + 1 = omega arith in
        let rest = hole-bytes n (r + 1) (omega arith) e ∙ ap (file_bytes n) next in
        let byte : file_byte (q * 1024 + r) ≡ 0 = rw (here, e) refl in
        ap (λ c. c ∷ zero_bytes n) (sym byte) ∙ ap (◌∷◌ (file_byte (q * 1024 + r))) rest

    pub stored-bytes :
        (n r : ℕ)
        → r + n ≤ 1024
        → length (disk (block_of q)) ≡ 1024
        → (block_of q == 0) ≡ false
        → take n (drop r (disk (block_of q))) ≡ file_bytes n (q * 1024 + r)
    stored-bytes zero r small l e = refl
    stored-bytes (suc n) r small l e =
        let here : (q * 1024 + r) / 1024 ≡ q = omega arith in
        let place : (q * 1024 + r) % 1024 ≡ r = omega arith in
        let next : q * 1024 + (r + 1) ≡ q * 1024 + r + 1 = omega arith in
        let rest = stored-bytes n (r + 1) (omega arith) l e ∙ ap (file_bytes n) next in
        let byte : file_byte (q * 1024 + r) ≡ get_or (disk (block_of q)) r 0 =
          rw (here, place, e) refl in
        take-next n r (disk (block_of q)) (omega (arith, l))
        ∙ ap (λ c. c ∷ take n (drop (r + 1) (disk (block_of q)))) (sym byte)
        ∙ ap (◌∷◌ (file_byte (q * 1024 + r))) rest
