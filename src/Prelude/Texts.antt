-- ===== src/Prelude/Texts.antt =====
-- Texts that begin differently.
use Prim.Native.Nat.{ℕ, ◌≤◌}
use Prim.Native.Char.{code}
use Prim.Native.String.{String, [], ◌∷◌, ◌++◌}
use Prim.Native.String.append
use mathlib.Core.Path.{◌≡◌, sym, ◌∙◌, ap}
use mathlib.Core.Logic.{◌≢◌}
use native.Mathlib.Omega.{arith}

-- the code point of the first character, or 0
unfoldable pub first_code : String → ℕ
first_code [] = 0
first_code (c ∷ s) = code c

first_code-append : (s t : String) → 1 ≤ first_code s → first_code (s ++ t) ≡ first_code s
unfolding first_code
first_code-append [] t h = omega (arith, h)
first_code-append (c ∷ s) t h = ap first_code (append.cons c s t)

-- texts with prefixes that begin differently
pub append-differ :
    (p q s t : String)
    → 1 ≤ first_code p
    → 1 ≤ first_code q
    → first_code p ≢ first_code q
    → (p ++ s) ≢ (q ++ t)
append-differ p q s t hp hq d e =
    d (sym (first_code-append p s hp) ∙ ap first_code e ∙ first_code-append q t hq)
