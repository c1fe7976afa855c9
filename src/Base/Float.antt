-- ===== src/Base/Float.antt =====
-- C's `float`, as far as the firmware uses it: the type and its operations are a parameter. The law
-- is that of IEEE 754 single precision: a sum of whole numbers up to 2 ^ 24 is exact.
use Prim.Native.Nat.{ℕ, ◌+◌, ◌^◌, ◌≤◌}
use mathlib.Core.Path.{◌≡◌}

pub record Floats : Type 1 where
  pub Float : Type 0
  pub of_ℕ : ℕ → Float
  pub minus_one : Float
  pub add : Float → Float → Float
  -- `a / n`, for an unsigned integer `n`
  pub div_count : Float → ℕ → Float
  pub add_exact : (a b : ℕ) → a + b ≤ 2 ^ 24 → add (of_ℕ a) (of_ℕ b) ≡ of_ℕ (a + b)
