-- ===== src/Prelude/Tables.antt =====
-- Facts about all numbers below a bound, by looking at each.
use mathlib.Core.Bool.{Bool, true, ◌&&◌}
use mathlib.Core.Path.{◌≡◌}
use Prim.Native.Nat.{ℕ, zero, suc, ◌<◌}
use native.Mathlib.Omega.{arith}

unfoldable pub every : (ℕ → Bool) → ℕ → Bool
every p zero = true
every p (suc n) = every p n && p n

pub at_of_every : (p : ℕ → Bool) (n i : ℕ) → every p n ≡ true → i < n → p i ≡ true
unfolding every
at_of_every p zero i h lt = absurd (omega arith)
at_of_every p (suc n) i h lt = ground (arith, at_of_every p n i)
