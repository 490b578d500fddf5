-- ===== src/Base/Below.antt =====
-- Statements about all numbers below a literal bound, by one evaluation.
use Prim.Native.Nat.{ℕ, zero, suc, ◌<◌}
use mathlib.Core.Path.{◌≡◌, refl}
use mathlib.Core.Bool.{Bool, true, false, ◌&&◌}
use native.Mathlib.Omega.{arith}
use native.Mathlib.Decide.{ℕ_discrete}

-- A test of all numbers below a bound.
abbrev pub all_below : ℕ → (ℕ → Bool) → Bool
all_below zero f = true
all_below (suc n) f = f n && all_below n f

both_true : (a b : Bool) → (a && b) ≡ true → (a ≡ true) × (b ≡ true)
both_true true b e = (refl, e)
both_true false b e = absurd (ground arith)

pub all_below-holds : (n : ℕ) (f : ℕ → Bool) (i : ℕ) → all_below n f ≡ true → i < n → f i ≡ true
all_below-holds zero f i h lt = absurd (omega arith)
all_below-holds (suc n) f i h lt = elim (ℕ_discrete i n) [
  | yes e ↦ rw e (both_true (f n) (all_below n f) h).0
  | no ne ↦ all_below-holds n f i (both_true (f n) (all_below n f) h).1 (omega arith)
]
