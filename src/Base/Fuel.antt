-- ===== src/Base/Fuel.antt =====
-- Fuel that is given in two parts: the part that a run uses up, and what is left.
use Prim.Native.Nat.{ℕ, zero, suc, ◌+◌}
use mathlib.Core.Path.{◌≡◌, refl, ap}
use native.Mathlib.Omega.{arith}

-- `used + left`, which computes at a `used` that is `suc`.
abbrev pub plus : ℕ → ℕ → ℕ
plus zero left = left
plus (suc used) left = suc (plus used left)

pub plus-eq-add : (m k : ℕ) → plus m k ≡ m + k
plus-eq-add zero k = omega arith
plus-eq-add (suc m) k = omega (arith, plus-eq-add m k)

pub plus-suc : (m k : ℕ) → plus m (suc k) ≡ suc (plus m k)
plus-suc zero k = refl
plus-suc (suc m) k = ap suc (plus-suc m k)

pub plus_assoc : (m n k : ℕ) → plus (plus m n) k ≡ plus m (plus n k)
plus_assoc zero n k = refl
plus_assoc (suc m) n k = ap suc (plus_assoc m n k)
