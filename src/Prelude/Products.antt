-- ===== src/Prelude/Products.antt =====
-- Order and sums under a factor.
use Prim.Native.Nat.{ℕ, ◌+◌, ◌-◌, ◌*◌, ◌≤◌, ◌<◌}
use mathlib.Core.Path.{◌≡◌, ap, ◌∙◌}
use native.Mathlib.Omega.{arith}

pub sector_le : (ss a b : ℕ) → a < b → a * ss + ss ≤ b * ss
sector_le ss a b h = grind (arith, h)

pub mul_split : (ss a b : ℕ) → b ≤ a → a * ss ≡ (a - b) * ss + b * ss
mul_split ss a b h =
    let whole : a ≡ a - b + b = omega arith in
    let sum : (a - b + b) * ss ≡ (a - b) * ss + b * ss = grind arith in
    ap (λ (t : ℕ). t * ss) whole ∙ sum

pub mul_sum : (ss a b : ℕ) → (a + b) * ss ≡ a * ss + b * ss
mul_sum ss a b = grind arith

pub mul_mono : (ss a b : ℕ) → a ≤ b → a * ss ≤ b * ss
mul_mono ss a b h = omega (arith, mul_split ss b a h)
