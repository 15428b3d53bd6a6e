-- ===== src/Prelude/Float.antt =====
-- Python's `float`, as far as the services compute with it. The language's arithmetic is not the
-- program's code: the operations are an instance argument of the definitions that use them.
use Prim.Native.Nat.{ℕ}
use Prim.Native.String.{String}
use mathlib.Core.Bool.{Bool}

pub record Float (F : Type 0) : Type 0 where
  pub lt : F → F → Bool
  pub le : F → F → Bool
  pub is_zero : F → Bool
  pub of_nat : ℕ → F
  pub add : F → F → F
  pub sub : F → F → F
  pub mul : F → F → F
  pub div : F → F → F
  pub sqrt : F → F
  pub abs : F → F
  -- round(x, 2)
  pub round2 : F → F
  -- (a - b).total_seconds() of two instants
  pub elapsed : ℕ → ℕ → F
  -- f"{x}", f"{x:.1f}" and f"{x:.2f}"
  pub text : F → String
  pub text1 : F → String
  pub text2 : F → String
  -- f"{n}" of an integer
  pub show : ℕ → String
