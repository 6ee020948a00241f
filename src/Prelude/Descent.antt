-- ===== src/Prelude/Descent.antt =====
-- Recursion on smaller numbers.
use Prim.Native.Nat.{ℕ, zero, suc, ◌<◌}
use mathlib.Core.WellFounded.{Acc, WellFounded}
use native.Mathlib.Omega.{arith}

acc_below : (bound n : ℕ) → n < bound → Acc ◌<◌ n
acc_below zero n h = absurd (omega arith)
acc_below (suc bound) n h = Acc.intro _ (λ m below. acc_below bound m (omega arith))

unfoldable pub lt_wf : WellFounded ◌<◌
unfolding acc_below
lt_wf = record { apply = λ n. acc_below (suc n) n (omega arith) }
