-- ===== src/Base/Bits.antt =====
-- Facts about values below a bound, checked by evaluation.
use Prim.Native.Nat.{ℕ, zero, suc, ◌<◌}
use mathlib.Core.Path.{◌≡◌}
use mathlib.Core.Bool.{Bool, true, false, not, ◌&&◌}
use native.Mathlib.Omega.{arith}

-- The test holds of every number below the bound.
unfoldable pub all_below : ℕ → (ℕ → Bool) → Bool
all_below zero test = true
all_below (suc bound) test = all_below bound test && test bound

pub all_below_sound :
    (bound : ℕ) (test : ℕ → Bool) (value : ℕ)
    → all_below bound test ≡ true
    → value < bound
    → test value ≡ true
unfolding all_below
all_below_sound zero test value all small = absurd (omega arith)
all_below_sound (suc bound) test value all small = ground (arith, all_below_sound bound test value)

-- Equality of the answers of two tests.
abbrev pub same : Bool → Bool → Bool
same true x = x
same false x = not x

pub same_sound : (x y : Bool) → same x y ≡ true → x ≡ y
same_sound true y h = ground arith
same_sound false y h = ground arith
