-- ===== src/Prelude/Below.antt =====
-- A fact about every number below a small bound, decided by running its test on each of them.
use Prim.Native.Nat.{ℕ, zero, suc, ◌<◌}
use mathlib.Core.Path.{◌≡◌}
use mathlib.Core.Bool.{Bool, true, ◌&&◌}
use native.Mathlib.Omega.{arith}

unfoldable pub passes_below : (ℕ → Bool) → ℕ → Bool
passes_below test zero = true
passes_below test (suc m) = passes_below test m && test m

pub passes_below_lem :
    (test : ℕ → Bool) {bound i : ℕ} → passes_below test bound ≡ true → i < bound → test i ≡ true
unfolding passes_below
passes_below_lem test {bound = zero} passed small = absurd (omega arith)
passes_below_lem test {bound = suc m} {i = i} passed small =
    ground (
      arith,
      λ (below : i < m) (rest : passes_below test m ≡ true). passes_below_lem test rest below,
    )
