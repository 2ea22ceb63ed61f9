-- ===== src/Base/Bits.antt =====
-- A Boolean test that every number below a bound passes, by evaluation.
use Prim.Native.Nat.{ℕ, zero, suc, ◌<◌}
use mathlib.Core.Path.{◌≡◌}
use mathlib.Core.Bool.{Bool, true, false}
use native.Mathlib.Omega.{arith}
use tcpkali.Base.Tests.{if◌then◌else◌}

unfoldable pub passes_below : (ℕ → Bool) → ℕ → Bool
passes_below test zero = true
passes_below test (suc bound) =
    let others = passes_below test bound in if test bound then others else false

pub test-passes_below :
    (test : ℕ → Bool) (k bound : ℕ) → k < bound → passes_below test bound ≡ true → test k ≡ true
unfolding passes_below
test-passes_below test k zero below e = elim below [ ]
test-passes_below test k (suc bound) below e = ground (arith, test-passes_below test k bound)
