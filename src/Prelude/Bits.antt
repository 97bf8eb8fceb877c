-- ===== src/Prelude/Bits.antt =====
-- The binary digits of a number, and what `bit_and` and `bit_or` do to them.
use Prim.Native.Nat.pow
use Prim.Native.Nat.{
  ℕ, zero, suc, ◌+◌, ◌-◌, ◌*◌, ◌/◌, ◌%◌, ◌^◌, ◌≤◌, ◌<◌, min, max, digits, bitwise, bit_and, bit_or,
  bit_and-bitwise, bit_or-bitwise,
}
use mathlib.Core.Path.{◌≡◌, refl, ap, ◌∙◌}
use mathlib.Core.Bool.{true}
use native.Mathlib.Omega.{arith}
use nos.Prelude.Tests.{◌==◌, ==_iff, if◌then◌else◌}
use nos.Prelude.Below.{passes_below, passes_below_lem}

-- Operations that go digit by digit from the lowest on, also where the first number has run out.
module _ (rest : ℕ → ℕ) (f : ℕ → ℕ → ℕ)
    (law : (b : ℕ) → rest b ≡ rest (b / 2) * 2 + f 0 (b % 2)) where
  digits-count : (n m a b : ℕ) → a ≤ n → a ≤ m → digits rest f n a b ≡ digits rest f m a b
  digits-count zero zero a b p q = refl
  digits-count zero (suc m) zero b p q = refl
  digits-count (suc n) zero zero b p q = refl
  digits-count (suc n) (suc m) zero b p q = refl
  digits-count zero (suc m) (suc a) b p q = absurd (omega arith)
  digits-count (suc n) zero (suc a) b p q = absurd (omega arith)
  digits-count (suc n) (suc m) (suc a) b p q =
      let shorter = digits-count n m (suc a / 2) (b / 2) (omega arith) (omega arith) in omega arith

  bitwise-lowest :
      (a b : ℕ) → bitwise rest f a b ≡ bitwise rest f (a / 2) (b / 2) * 2 + f (a % 2) (b % 2)
  bitwise-lowest zero b = law b
  bitwise-lowest (suc a) b =
      let half = digits-count a (suc a / 2) (suc a / 2) (b / 2) (omega arith) (omega arith) in
      omega arith

and_lowest : (a b : ℕ) → bit_and a b ≡ bit_and (a / 2) (b / 2) * 2 + min (a % 2) (b % 2)
and_lowest a b = omega (
  arith,
  bit_and-bitwise a b,
  bit_and-bitwise (a / 2) (b / 2),
  bitwise-lowest (λ c. zero) min (λ c. omega arith) a b,
)

or_lowest : (a b : ℕ) → bit_or a b ≡ bit_or (a / 2) (b / 2) * 2 + max (a % 2) (b % 2)
or_lowest a b = omega (
  arith,
  bit_or-bitwise a b,
  bit_or-bitwise (a / 2) (b / 2),
  bitwise-lowest (λ c. c) max (λ c. omega arith) a b,
)

-- The digit at a place.
abbrev pub bit : ℕ → ℕ → ℕ
bit w zero = w % 2
bit w (suc j) = bit (w / 2) j

pub bit-and : (j a b : ℕ) → bit (bit_and a b) j ≡ min (bit a j) (bit b j)
bit-and zero a b = omega (arith, and_lowest a b)
bit-and (suc j) a b =
    let half : bit_and a b / 2 ≡ bit_and (a / 2) (b / 2) = omega (arith, and_lowest a b) in
    ap (λ w. bit w j) half ∙ bit-and j (a / 2) (b / 2)

pub bit-or : (j a b : ℕ) → bit (bit_or a b) j ≡ max (bit a j) (bit b j)
bit-or zero a b = omega (arith, or_lowest a b)
bit-or (suc j) a b =
    let half : bit_or a b / 2 ≡ bit_or (a / 2) (b / 2) = omega (arith, or_lowest a b) in
    ap (λ w. bit w j) half ∙ bit-or j (a / 2) (b / 2)

pub bit-two : (j w : ℕ) → bit w j < 2
bit-two zero w = omega arith
bit-two (suc j) w = bit-two j (w / 2)

and_zero : (n a : ℕ) → a ≤ n → bit_and a 0 ≡ 0
and_zero n zero h = refl
and_zero zero (suc a) h = absurd (omega arith)
and_zero (suc n) (suc a) h =
    omega (arith, and_lowest (suc a) 0, and_zero n (suc a / 2) (omega arith))

-- A mask of one digit tests that digit.
pub and_power : (j w : ℕ) → (bit_and w (2 ^ j) == 0) ≡ (bit w j == 0)
and_power zero w =
    let e : 2 ^ 0 ≡ 1 = pow.zero 2 in
    let v : bit_and w 1 ≡ w % 2 =
      omega (arith, and_lowest w 1, and_zero (w / 2) (w / 2) (omega arith)) in
    ap (λ m. bit_and w m == 0) e ∙ ap (λ m. m == 0) v
and_power (suc j) w =
    let e : 2 ^ suc j ≡ 2 ^ j * 2 = pow.suc 2 j in
    let h : 2 ^ j * 2 / 2 ≡ 2 ^ j = omega arith in
    let v = and_lowest w (2 ^ j * 2) in
    let u = ap (bit_and (w / 2)) h in
    let same : bit_and w (2 ^ suc j) ≡ bit_and (w / 2) (2 ^ j) * 2 =
      ap (bit_and w) e ∙ omega arith in
    ap (λ m. m == 0) same ∙ ground arith ∙ and_power j (w / 2)

-- The digits of one place, of all others, and of all ones, in 32 places.
one_table :
    passes_below (λ j. passes_below (λ k. bit (2 ^ j) k == (if j == k then 1 else 0)) 32) 32 ≡ true
unfolding passes_below
one_table = refl

others_table :
    passes_below
      (λ j. passes_below (λ k. bit (2 ^ 32 - 1 - 2 ^ j) k == (if j == k then 0 else 1)) 32)
      32
    ≡ true
unfolding passes_below
others_table = refl

pub bit-one : (j k : ℕ) → j < 32 → k < 32 → bit (2 ^ j) k ≡ (if j == k then 1 else 0)
bit-one j k a b = (==_iff _ _).0 (
    passes_below_lem (λ k. bit (2 ^ j) k == (if j == k then 1 else 0))
      (passes_below_lem (λ j. passes_below (λ k. bit (2 ^ j) k == (if j == k then 1 else 0)) 32)
        one_table a)
      b)

pub bit-others :
    (j k : ℕ) → j < 32 → k < 32 → bit (2 ^ 32 - 1 - 2 ^ j) k ≡ (if j == k then 0 else 1)
bit-others j k a b = (==_iff _ _).0 (
    passes_below_lem (λ k. bit (2 ^ 32 - 1 - 2 ^ j) k == (if j == k then 0 else 1))
      (passes_below_lem
        (λ j. passes_below (λ k. bit (2 ^ 32 - 1 - 2 ^ j) k == (if j == k then 0 else 1)) 32)
        others_table a)
      b)
