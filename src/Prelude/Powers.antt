-- ===== src/Prelude/Powers.antt =====
-- Powers of two: the back-off of the workers.
use native.Mathlib.Nat.{pow-le-pow_right, one-le-pow}
use Prim.Native.Nat.{ℕ, ◌^◌, ◌≤◌}
use native.Mathlib.Omega.{arith}

pub power-pos : (n : ℕ) → 1 ≤ 2 ^ n
power-pos n = one-le-pow n 2 (omega arith)

pub power_mono : (m n : ℕ) → m ≤ n → 2 ^ m ≤ 2 ^ n
power_mono m n h = pow-le-pow_right (omega arith) h
