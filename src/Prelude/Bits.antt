-- ===== src/Prelude/Bits.antt =====
-- A check of all numbers below a bound by evaluation.
use Prim.Native.Nat.{ℕ, zero, suc, ◌<◌}
use mathlib.Core.Path.{◌≡◌}
use mathlib.Core.Bool.{Bool, true, false}
use mpstu_bs.Prelude.Tests.{if◌then◌else◌}
use native.Mathlib.Omega.{arith}

unfoldable pub every_below : ℕ → (ℕ → Bool) → Bool
every_below zero check = true
every_below (suc bound) check = if check bound then every_below bound check else false

-- What the check finds holds of each number below the bound.
pub every_below-holds :
    (bound : ℕ) (check : ℕ → Bool) (i : ℕ)
    → every_below bound check ≡ true
    → i < bound
    → check i ≡ true
unfolding every_below
every_below-holds zero check i found below = absurd (omega arith)
every_below-holds (suc bound) check i found below =
    let before = every_below-holds bound check i in ground arith
