-- ===== src/Prelude.antt =====
-- The names that the modules of the development share: the libraries', passed on, and those of
-- the children (tests on numbers, lists and stores, machine integers).
mod Tests
mod Lists
mod Options
mod Ints
mod Below
mod Bits
pub use Tests.*
pub use Lists.*
pub use Options.*
pub use Ints.*
unfoldable pub use Below.{passes_below}
pub use Below.{passes_below_lem}
pub use Bits.{bit, bit-and, bit-or, bit-two, bit-one, bit-others, and_power}
pub use Prim.Native.Nat.{ℕ, zero, suc, ◌+◌, ◌-◌, ◌*◌, ◌/◌, ◌%◌, ◌^◌, ◌≤◌, ◌<◌, min, max}
pub use Prim.Native.Nat.{bit_and, bit_or, compare, Ordering}
pub use mathlib.Core.Path.{◌≡◌, refl, sym, ap, ap₂, ◌∙◌, subst}
pub use mathlib.Core.Logic.{◌≢◌, ◌↔◌, ◌⊎◌, inl, inr}
pub use mathlib.Core.Bool.{Bool, true, false, ◌&&◌, ◌||◌, not}
pub use mathlib.Core.Option.{Option, none, some}
pub use mathlib.Core.List.{List, [], ◌∷◌, ◌++◌, map, append-nil, append_assoc}
pub use native.Mathlib.Omega.{arith}
