-- ===== src/Prelude/Bits.antt =====
-- Facts about bit operations on bytes, by evaluation over all values.
use Prim.Native.Nat.{ℕ, zero, suc, ◌<◌}
use mathlib.Core.Path.{◌≡◌}
use mathlib.Core.Bool.{Bool, true, false}
use native.Mathlib.Omega.{arith}
use sec_search.Prelude.Tests.{if◌then◌else◌}

-- A test that every number below a limit passes.
unfoldable pub every_below : ℕ → (ℕ → Bool) → Bool
every_below zero test = true
every_below (suc limit) test =
    let below = every_below limit test in if test limit then below else false

pub every_below_at :
    (test : ℕ → Bool) (limit k : ℕ) → k < limit → every_below limit test ≡ true → test k ≡ true
unfolding every_below
every_below_at test (suc limit) k h e = ground (arith, every_below_at test limit k)
every_below_at test zero k h e = absurd (omega arith)
