-- ===== src/Prelude/Ints.antt =====
-- C integers. A `uint32_t` is a native number below 2 ^ 32; its wrap-around is written out. An
-- `int` that a function returns is a `ℤ`.
use Prim.Native.Nat.{ℕ, ◌+◌, ◌-◌, ◌%◌, ◌^◌}
use mathlib.Core.Bool.{Bool, true, false}
use nos.Prelude.Tests.{ltb, if◌then◌else◌}

-- `negsuc n` is -(n + 1).
pub data ℤ : Type 0 where
  pos : ℕ → ℤ
  negsuc : ℕ → ℤ

-- The error result of most calls.
abbrev pub minus_one : ℤ
minus_one = negsuc 0

abbrev pub u32_mod : ℕ
u32_mod = 2 ^ 32

abbrev pub add32 : ℕ → ℕ → ℕ
add32 a b = (a + b) % 2 ^ 32

-- For a subtrahend below 2 ^ 32.
abbrev pub sub32 : ℕ → ℕ → ℕ
sub32 a b = (a + 2 ^ 32 - b) % 2 ^ 32

-- `(int)w`
abbrev pub signed32 : ℕ → ℤ
signed32 w = if ltb w (2 ^ 31) then pos w else negsuc (2 ^ 32 - w - 1)

-- `0 < a` and `a < 0`
abbrev pub is_pos : ℤ → Bool
is_pos (pos n) = ltb 0 n
is_pos (negsuc n) = false

abbrev pub is_neg : ℤ → Bool
is_neg (pos n) = false
is_neg (negsuc n) = true
