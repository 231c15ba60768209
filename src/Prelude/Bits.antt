-- ===== src/Prelude/Bits.antt =====
-- Facts about the native bit operations, by evaluation over a byte.
use Prim.Native.Nat.{ℕ, zero, suc, ◌<◌}
use mathlib.Core.Path.{◌≡◌}
use mathlib.Core.Bool.{Bool, true, ◌&&◌}
use native.Mathlib.Omega.{arith}

-- A test on all the numbers below a bound.
unfoldable pub passes : (ℕ → Bool) → ℕ → Bool
passes test zero = true
passes test (suc bound) = passes test bound && test bound

pub passes_at :
    (test : ℕ → Bool) (bound : ℕ) {i : ℕ} → i < bound → passes test bound ≡ true → test i ≡ true
unfolding passes
passes_at test zero below all = absurd (omega arith)
passes_at test (suc bound) {i} below all = ground (arith, passes_at test bound {i = i})
