-- ===== src/Ext2/Alloc/Bitmap.antt =====
-- The bits of a bitmap, and what the writes of ext2.c to single bits do to them.
use nos.Prelude.{
  ℕ, zero, suc, ◌-◌, ◌/◌, ◌%◌, ◌^◌, ◌<◌, ◌≡◌, refl, ap, ◌∙◌, min, max, List, [], ◌∷◌, length,
  get_or, set, true, false, if◌then◌else◌, ◌==◌, ==_iff, bit_and, bit_or, bit, bit-and, bit-or,
  bit-two, bit-one, and_power, arith, inl, inr, Bool-cases, passes_below, passes_below_lem,
}
use nos.Ext2.Alloc.{is_taken, set_bit, clear_bit}

-- Digit i of the bytes, read one after the other, each from its lowest digit on.
abbrev pub bit_at : List ℕ → ℕ → ℕ
bit_at bm i = bit (get_or bm (i / 8) 0) (i % 8)

pub taken-bit : (bm : List ℕ) (i : ℕ) → is_taken bm i ≡ true → bit_at bm i ≡ 1
taken-bit bm i e =
    let two = bit-two (i % 8) (get_or bm (i / 8) 0) in
    let test = and_power (i % 8) (get_or bm (i / 8) 0) in ground arith

pub free-bit : (bm : List ℕ) (i : ℕ) → is_taken bm i ≡ false → bit_at bm i ≡ 0
free-bit bm i e = let test = and_power (i % 8) (get_or bm (i / 8) 0) in ground arith

pub bit-taken : (bm : List ℕ) (i : ℕ) → bit_at bm i ≡ 1 → is_taken bm i ≡ true
bit-taken bm i e = let test = and_power (i % 8) (get_or bm (i / 8) 0) in ground arith

-- The mask of a byte without one place.
mask_table :
    passes_below
      (λ j. passes_below (λ k. bit (2 ^ 8 - 1 - 2 ^ j) k == (if j == k then 0 else 1)) 8)
      8
    ≡ true
unfolding passes_below
mask_table = refl

bit-mask : (j k : ℕ) → j < 8 → k < 8 → bit (2 ^ 8 - 1 - 2 ^ j) k ≡ (if j == k then 0 else 1)
bit-mask j k a b = (==_iff _ _).0 (
    passes_below_lem (λ k. bit (2 ^ 8 - 1 - 2 ^ j) k == (if j == k then 0 else 1))
      (passes_below_lem
        (λ j. passes_below (λ k. bit (2 ^ 8 - 1 - 2 ^ j) k == (if j == k then 0 else 1)) 8)
        mask_table a)
      b)

get_or-set :
    (xs : List ℕ) (i j v : ℕ)
    → i < length xs
    → get_or (set xs i v) j 0 ≡ (if i == j then v else get_or xs j 0)
get_or-set [] i j v lt = absurd (omega arith)
get_or-set (x ∷ xs) zero zero v lt = refl
get_or-set (x ∷ xs) zero (suc j) v lt = ground arith
get_or-set (x ∷ xs) (suc i) zero v lt = ground arith
get_or-set (x ∷ xs) (suc i) (suc j) v lt =
    let same : (i == j) ≡ (suc i == suc j) = ground arith in
    get_or-set xs i j v (omega arith) ∙ ap (λ b. if b then v else get_or xs j 0) same

module _ (bm : List ℕ) (i j : ℕ) (inside : i / 8 < length bm) where
  same_place : (i / 8 == j / 8) ≡ true → (i % 8 == j % 8) ≡ (i == j)
  same_place h = ground arith

  other_byte : (i / 8 == j / 8) ≡ false → (i == j) ≡ false
  other_byte h = ground arith

  byte_same : (i / 8 == j / 8) ≡ true → bit (get_or bm (i / 8) 0) (j % 8) ≡ bit_at bm j
  byte_same h =
      let byte : i / 8 ≡ j / 8 = ground arith in ap (λ k. bit (get_or bm k 0) (j % 8)) byte

  -- A byte that is written changes the digits of that byte alone.
  written :
      (v : ℕ)
      → bit_at (set bm (i / 8) v) j ≡ (if i / 8 == j / 8 then bit v (j % 8) else bit_at bm j)
  written v =
      ap (λ w. bit w (j % 8)) (get_or-set bm (i / 8) (j / 8) v inside)
      ∙ elim (Bool-cases (i / 8 == j / 8)) [ inl h ↦ rw h refl | inr h ↦ rw h refl ]

  pub set_bit-bit : bit_at (set_bit bm i) j ≡ (if i == j then 1 else bit_at bm j)
  set_bit-bit =
      written (bit_or (get_or bm (i / 8) 0) (2 ^ (i % 8))) ∙ elim (Bool-cases (i / 8 == j / 8)) [
        | inl h ↦ rw h (
            bit-or (j % 8) (get_or bm (i / 8) 0) (2 ^ (i % 8))
            ∙ ap (max (bit (get_or bm (i / 8) 0) (j % 8)))
                (bit-one (i % 8) (j % 8) (omega arith) (omega arith))
            ∙ (let t = byte_same h in
                let u = bit-two (j % 8) (get_or bm (j / 8) 0) in
                let w = same_place h in ground arith))
        | inr h ↦ rw (h, other_byte h) refl
      ]

  pub clear_bit-bit : bit_at (clear_bit bm i) j ≡ (if i == j then 0 else bit_at bm j)
  clear_bit-bit =
      written (bit_and (get_or bm (i / 8) 0) (2 ^ 8 - 1 - 2 ^ (i % 8)))
      ∙ elim (Bool-cases (i / 8 == j / 8)) [
        | inl h ↦ rw h (
            bit-and (j % 8) (get_or bm (i / 8) 0) (2 ^ 8 - 1 - 2 ^ (i % 8))
            ∙ ap (min (bit (get_or bm (i / 8) 0) (j % 8)))
                (bit-mask (i % 8) (j % 8) (omega arith) (omega arith))
            ∙ (let t = byte_same h in
                let u = bit-two (j % 8) (get_or bm (j / 8) 0) in
                let w = same_place h in ground arith))
        | inr h ↦ rw (h, other_byte h) refl
      ]
