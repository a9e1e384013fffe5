-- ===== src/Base/Numbers.antt =====
-- Arithmetic on the native numbers.
use Prim.Native.Nat.{ℕ, ◌*◌, ◌≤◌, ◌<◌}
use mathlib.Core.Path.{◌≡◌}
use native.Mathlib.Nat.{le_of_mul-le-mul_right}
use native.Mathlib.Omega.{arith}

-- Multiples of a positive number are different for different factors.
pub times_injective : (k p q : ℕ) → 0 < k → p * k ≡ q * k → p ≡ q
times_injective k p q pos e =
    let le : p ≤ q = le_of_mul-le-mul_right {m = p} {n = q} {k = k} (omega (arith, e)) pos in
    let ge : q ≤ p = le_of_mul-le-mul_right {m = q} {n = p} {k = k} (omega (arith, e)) pos in
    omega arith
