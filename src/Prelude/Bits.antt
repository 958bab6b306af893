-- ===== src/Prelude/Bits.antt =====
-- What holds at each value of a byte holds of every byte: a table that evaluation checks.
use Prim.Native.Nat.{ℕ, zero, suc, ◌<◌}
use mathlib.Core.Path.{◌≡◌}
use mathlib.Core.Bool.{Bool, true, ◌&&◌}
use native.Mathlib.Omega.{arith}

unfoldable pub holds_under : (ℕ → Bool) → ℕ → Bool
holds_under test zero = true
holds_under test (suc k) = holds_under test k && test k

pub holds_under_at : (test : ℕ → Bool) (k b : ℕ) → b < k → holds_under test k ≡ true → test b ≡ true
unfolding holds_under
holds_under_at test zero b small table = absurd (omega arith)
holds_under_at test (suc k) b small table = ground (arith, holds_under_at test k b)
