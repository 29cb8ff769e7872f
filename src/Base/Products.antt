-- ===== src/Base/Products.antt =====
-- Products, quotients and remainders of natural numbers.
use Prim.Native.Nat.{ℕ, ◌+◌, ◌-◌, ◌*◌, ◌/◌, ◌%◌, ◌≤◌, ◌<◌}
use mathlib.Core.Path.{◌≡◌}
use native.Mathlib.Omega.{arith}

pub mul_mono : (k a b : ℕ) → a ≤ b → k * a ≤ k * b
mul_mono k a b h = grind arith

pub mul-sub : (k a b : ℕ) → b ≤ a → k * (a - b) + k * b ≡ k * a
mul-sub k a b h = grind arith

pub div-mul : (k c : ℕ) → 0 < k → (k * c) / k ≡ c
div-mul k c h = grind arith

pub mod-mul : (k c : ℕ) → (k * c) % k ≡ 0
mod-mul k c = grind arith
