-- ===== src/Base/Order.antt =====
-- Well-founded recursion over the order of the native numbers.
use Prim.Native.Nat.{ℕ, zero, suc, ◌<◌}
use mathlib.Core.WellFounded.{Acc, WellFounded}
use native.Mathlib.Omega.{arith}

reach_below : (k n : ℕ) → n < k → Acc ◌<◌ n
reach_below zero n h = absurd (omega arith)
reach_below (suc k) n h = Acc.intro n (λ m below. reach_below k m (omega arith))

pub lt_wf : WellFounded ◌<◌
lt_wf = record { apply = λ n. reach_below (suc n) n (omega arith) }
