-- ===== src/Prelude/Bounded.antt =====
-- A test of all numbers below a bound, to settle facts on bytes by computing.
use Prim.Native.Nat.{ℕ, zero, suc, ◌<◌}
use mathlib.Core.Path.{◌≡◌, ap, ◌∙◌}
use mathlib.Core.Logic.{inl, inr}
use mathlib.Core.Bool.{Bool, true, ◌&&◌}
use native.Mathlib.Omega.{arith}
use benmosh_os.Prelude.Tests.{◌==◌, ==_iff, Bool-cases}

abbrev pub all_below : ℕ → (ℕ → Bool) → Bool
all_below zero f = true
all_below (suc n) f = f n && all_below n f

pub all_below-lt : (n : ℕ) (f : ℕ → Bool) → all_below n f ≡ true → (i : ℕ) → i < n → f i ≡ true
all_below-lt zero f h i b = absurd (omega (arith, b))
all_below-lt (suc n) f h i b = elim (Bool-cases (i == n)) [
  | inl e ↦ ap f ((==_iff i n).0 e) ∙ ground (arith, h)
  | inr e ↦ all_below-lt n f (ground (arith, h)) i (ground (arith, b, e))
]
