-- ===== src/Prelude/Rounding.antt =====
-- `Math.round` of a quotient of whole numbers, with its bounds.
use Prim.Native.Nat.{ℕ, ◌+◌, ◌*◌, ◌/◌, ◌≤◌, ◌<◌}
use native.Mathlib.Omega.{arith}

-- `Math.round(n / d)`, d not 0: halves go up.
abbrev pub round_div : ℕ → ℕ → ℕ
round_div n d = (2 * n + d) / (2 * d)

pub round_div-le : (n d : ℕ) → 0 < d → 2 * d * round_div n d ≤ 2 * n + d
round_div-le n d p = grind arith

pub round_div-gt : (n d : ℕ) → 0 < d → 2 * n < 2 * d * round_div n d + d
round_div-gt n d p = grind arith
