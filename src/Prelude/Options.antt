-- ===== src/Prelude/Options.antt =====
-- Chains of steps that may fail, as a read out of bounds does.
use Prim.Native.Nat.{ℕ, zero, suc, ◌<◌}
use mathlib.Core.Path.{◌≡◌, refl}
use mathlib.Core.Bool.{Bool, true, false}
use mathlib.Core.Option.{Option, none, some}
use mathlib.Core.List.{List, [], ◌∷◌}
use native.Mathlib.Omega.{arith}
use nos.Prelude.Tests.{if◌then◌else◌}
use nos.Prelude.Lists.{get_elem?, length}

infixl 5 ◌>>=◌
abbrev pub ◌>>=◌ {ℓ κ} : {A : Type ℓ} {B : Type κ} → Option A → (A → Option B) → Option B
none >>= f = none
some a >>= f = f a

-- The steps come to an end without a failure.
abbrev pub Succeeds {ℓ} : {A : Type ℓ} → Option A → Type ℓ
Succeeds {A} m = (a : A) × (m ≡ some a)

pub bind-Succeeds {ℓ κ} :
    {A : Type ℓ} {B : Type κ} (m : Option A) (f : A → Option B)
    → Succeeds m
    → ((a : A) → m ≡ some a → Succeeds (f a))
    → Succeeds (m >>= f)
bind-Succeeds none f (a, e) k = cc
bind-Succeeds (some b) f (a, e) k = k b refl

-- Either branch succeeds, each under its test.
pub if-Succeeds {ℓ} :
    {A : Type ℓ} (b : Bool) (x y : Option A)
    → (b ≡ true → Succeeds x)
    → (b ≡ false → Succeeds y)
    → Succeeds (if b then x else y)
if-Succeeds true x y p q = p refl
if-Succeeds false x y p q = q refl

pub get_elem?-Succeeds {ℓ} :
    {A : Type ℓ} (xs : List A) (i : ℕ) → i < length xs → Succeeds (get_elem? xs i)
get_elem?-Succeeds [] i h = absurd (omega arith)
get_elem?-Succeeds (x ∷ xs) zero h = (x, refl)
get_elem?-Succeeds (x ∷ xs) (suc i) h = get_elem?-Succeeds xs i (omega arith)
