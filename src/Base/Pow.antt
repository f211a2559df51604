-- ===== src/Base/Pow.antt =====
-- Powers of two.
use Prim.Native.Nat.{ℕ, zero, suc, ◌+◌, ◌*◌, ◌/◌, ◌^◌, ◌≤◌, ◌<◌}
use mathlib.Core.Path.{◌≡◌, ap, ◌∙◌}
use mathlib.Core.Logic.{◌≢◌}
use native.Mathlib.Nat.{pow-suc, one-le-pow, pow-le-pow_right, zero-add, suc-add}
use native.Mathlib.Omega.{arith}

pub two_pow_suc : (d : ℕ) → 2 ^ suc d ≡ 2 * 2 ^ d
two_pow_suc d = omega (arith, pow-suc 2 d)

pub two_pow_pos : (d : ℕ) → 0 < 2 ^ d
two_pow_pos d = omega (arith, one-le-pow d 2)

pub two_pow_mono : (d e : ℕ) → d ≤ e → 2 ^ d ≤ 2 ^ e
two_pow_mono d e h = pow-le-pow_right (omega arith) h

pub two_pow_lt : (d e : ℕ) → d < e → 2 ^ d < 2 ^ e
two_pow_lt d e h = omega (arith, two_pow_mono (suc d) e h, two_pow_suc d, two_pow_pos d)

pub two_pow_half : (d : ℕ) → 2 ^ suc d / 2 ≡ 2 ^ d
two_pow_half d = omega (arith, two_pow_suc d)

pub two_pow_add : (d e : ℕ) → 2 ^ (d + e) ≡ 2 ^ d * 2 ^ e
two_pow_add zero e = ap (λ n. 2 ^ n) (zero-add e) ∙ omega arith
two_pow_add (suc d) e =
    ap (λ n. 2 ^ n) (suc-add d e)
    ∙ omega (
      arith,
      two_pow_suc (d + e),
      two_pow_suc d,
      two_pow_add d e,
      ap (λ (n : ℕ). n * 2 ^ e) (two_pow_suc d),
    )

pub two_pow_eq : (d e : ℕ) → d ≡ e → 2 ^ d ≡ 2 ^ e
two_pow_eq d e h = ap (λ n. 2 ^ n) h

pub two_pow_ne : (d e : ℕ) → d < e → 2 ^ d ≢ 2 ^ e
two_pow_ne d e h = omega (arith, two_pow_lt d e h)
