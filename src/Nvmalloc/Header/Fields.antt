-- ===== src/Nvmalloc/Header/Fields.antt =====
-- The size that a header carries is read back, whatever the checksum.
use Prim.Native.Nat.{min, max, digits, bit_and-bitwise, bit_or-bitwise}
use zalloc.Base.{
  ℕ, zero, suc, ◌+◌, ◌-◌, ◌*◌, ◌/◌, ◌%◌, ◌^◌, ◌≤◌, ◌<◌, ◌≡◌, refl, sym, ap, ◌∙◌, bit_or, bit_and,
  bit_xor, arith, two_pow_suc, two_pow_pos,
}
use zalloc.Nvmalloc.Header.{
  checksum_mask, size_mask, negate, crc_compute, crc_get_size, xor_compute, xor_get_size,
  xor_rounds,
}

-- The digits of a number with fuel to spare.
digits_enough :
    (z : ℕ → ℕ) (f : ℕ → ℕ → ℕ) (n m a b : ℕ) → a ≤ n → a ≤ m → digits z f n a b ≡ digits z f m a b
digits_enough z f zero zero zero b p q = refl
digits_enough z f zero zero (suc a) b p q = absurd (omega arith)
digits_enough z f zero (suc m) zero b p q = refl
digits_enough z f zero (suc m) (suc a) b p q = absurd (omega arith)
digits_enough z f (suc n) zero zero b p q = refl
digits_enough z f (suc n) zero (suc a) b p q = absurd (omega arith)
digits_enough z f (suc n) (suc m) zero b p q = refl
digits_enough z f (suc n) (suc m) (suc a) b p q =
    ap (λ x. x * 2 + f (suc a % 2) (b % 2))
      (digits_enough z f n m (suc a / 2) (b / 2) (omega arith) (omega arith))

bit_and-half : (a b : ℕ) → bit_and a b ≡ bit_and (a / 2) (b / 2) * 2 + min (a % 2) (b % 2)
bit_and-half zero b = omega (arith, bit_and-bitwise 0 b, bit_and-bitwise 0 (b / 2))
bit_and-half (suc a) b = omega (
  arith,
  bit_and-bitwise (suc a) b,
  bit_and-bitwise (suc a / 2) (b / 2),
  digits_enough (λ b. zero) min a (suc a / 2) (suc a / 2) (b / 2) (omega arith) (omega arith),
)

bit_or-half : (a b : ℕ) → bit_or a b ≡ bit_or (a / 2) (b / 2) * 2 + max (a % 2) (b % 2)
bit_or-half zero b = omega (arith, bit_or-bitwise 0 b, bit_or-bitwise 0 (b / 2))
bit_or-half (suc a) b = omega (
  arith,
  bit_or-bitwise (suc a) b,
  bit_or-bitwise (suc a / 2) (b / 2),
  digits_enough (λ b. b) max a (suc a / 2) (suc a / 2) (b / 2) (omega arith) (omega arith),
)

-- `hi * 2 ^ k + lo` halves into fields again.
half_low : (k hi lo : ℕ) → (hi * 2 ^ suc k + lo) / 2 ≡ hi * 2 ^ k + lo / 2
half_low k hi lo = omega (arith, ap (λ (t : ℕ). hi * t) (two_pow_suc k))

half_bit : (k hi lo : ℕ) → (hi * 2 ^ suc k + lo) % 2 ≡ lo % 2
half_bit k hi lo = omega (arith, ap (λ (t : ℕ). hi * t) (two_pow_suc k))

half_mul : (k q : ℕ) → q * 2 ^ suc k / 2 ≡ q * 2 ^ k
half_mul k q = omega (arith, ap (λ (t : ℕ). q * t) (two_pow_suc k))

half_mul_bit : (k q : ℕ) → q * 2 ^ suc k % 2 ≡ 0
half_mul_bit k q = omega (arith, ap (λ (t : ℕ). q * t) (two_pow_suc k))

bit_or-high :
    (k hi lo q : ℕ) → lo < 2 ^ k → bit_or (hi * 2 ^ k + lo) (q * 2 ^ k) ≡ bit_or hi q * 2 ^ k + lo
bit_or-high zero hi lo q h =
    let none : lo ≡ 0 = omega arith in
    let left : hi * 1 + lo ≡ hi = omega arith in
    let right : q * 1 ≡ q = omega arith in rw (left, right) (omega arith)
bit_or-high (suc k) hi lo q h =
    bit_or-half (hi * 2 ^ suc k + lo) (q * 2 ^ suc k)
    ∙ rw (half_low k hi lo, half_bit k hi lo, half_mul k q, half_mul_bit k q)
        (rw (bit_or-high k hi (lo / 2) q (omega (arith, two_pow_suc k)))
          (omega (arith, ap (λ (t : ℕ). bit_or hi q * t) (two_pow_suc k))))

bit_and-high :
    (k hi lo q : ℕ) → lo < 2 ^ k → bit_and (hi * 2 ^ k + lo) (q * 2 ^ k) ≡ bit_and hi q * 2 ^ k
bit_and-high zero hi lo q h =
    let none : lo ≡ 0 = omega arith in
    let left : hi * 1 + lo ≡ hi = omega arith in
    let right : q * 1 ≡ q = omega arith in rw (left, right) (omega arith)
bit_and-high (suc k) hi lo q h =
    bit_and-half (hi * 2 ^ suc k + lo) (q * 2 ^ suc k)
    ∙ rw (half_low k hi lo, half_bit k hi lo, half_mul k q, half_mul_bit k q)
        (rw (bit_and-high k hi (lo / 2) q (omega (arith, two_pow_suc k)))
          (omega (arith, ap (λ (t : ℕ). bit_and hi q * t) (two_pow_suc k))))

bit_and-ones :
    (k hi lo q : ℕ)
    → lo < 2 ^ k
    → bit_and (hi * 2 ^ k + lo) (q * 2 ^ k + (2 ^ k - 1)) ≡ bit_and hi q * 2 ^ k + lo
bit_and-ones zero hi lo q h =
    let none : lo ≡ 0 = omega arith in
    let left : hi * 1 + lo ≡ hi = omega arith in
    let right : q * 1 + 0 ≡ q = omega arith in rw (left, right) (omega arith)
bit_and-ones (suc k) hi lo q h =
    let ones : (2 ^ suc k - 1) / 2 ≡ 2 ^ k - 1 = omega (arith, two_pow_suc k, two_pow_pos k) in
    let odd : (2 ^ suc k - 1) % 2 ≡ 1 = omega (arith, two_pow_suc k, two_pow_pos k) in
    bit_and-half (hi * 2 ^ suc k + lo) (q * 2 ^ suc k + (2 ^ suc k - 1))
    ∙ rw
        (
          half_low k hi lo,
          half_bit k hi lo,
          half_low k q (2 ^ suc k - 1),
          half_bit k q (2 ^ suc k - 1),
          ones,
          odd,
        )
        (rw (bit_and-ones k hi (lo / 2) q (omega (arith, two_pow_suc k)))
          (omega (arith, ap (λ (t : ℕ). bit_and hi q * t) (two_pow_suc k))))

bit_and-le : (n a b : ℕ) → a ≤ n → bit_and a b ≤ b
bit_and-le n zero b h = omega (arith, bit_and-bitwise 0 b)
bit_and-le zero (suc a) b h = absurd (omega arith)
bit_and-le (suc n) (suc a) b h =
    omega (arith, bit_and-half (suc a) b, bit_and-le n (suc a / 2) (b / 2) (omega arith))

zero-bit_or : (q : ℕ) → bit_or 0 q ≡ q
zero-bit_or q = bit_or-bitwise 0 q

-- A header is its size, and the checksum above it.
sealed :
    (chk size : ℕ)
    → size < 2 ^ 32
    → (q : ℕ) × (bit_or size (bit_and chk checksum_mask) ≡ q * 2 ^ 32 + size) × (q < 2 ^ 24)
sealed chk size h =
    let sum = bit_and-high 48 (chk / 2 ^ 48) (chk % 2 ^ 48) 255 (omega arith) in
    let split : chk / 2 ^ 48 * 2 ^ 48 + chk % 2 ^ 48 ≡ chk = omega arith in
    let low = bit_and-le (chk / 2 ^ 48) (chk / 2 ^ 48) 255 (omega arith) in
    let byte : ℕ = bit_and (chk / 2 ^ 48) 255 in
    let masked : bit_and chk checksum_mask ≡ byte * 2 ^ 16 * 2 ^ 32 =
      ap (λ x. bit_and x checksum_mask) (sym split) ∙ sum ∙ wide byte in
    (
      byte * 2 ^ 16,
      ap (bit_or size) masked
          ∙ ap (λ x. bit_or x (byte * 2 ^ 16 * 2 ^ 32)) (bare size)
          ∙ bit_or-high 32 0 size (byte * 2 ^ 16) h
          ∙ ap (λ x. x * 2 ^ 32 + size) (zero-bit_or (byte * 2 ^ 16)),
      omega (arith, low),
    )
  where
    bare : (s : ℕ) → s ≡ 0 * 2 ^ 32 + s
    bare s = omega arith

    wide : (b : ℕ) → b * 2 ^ 48 ≡ b * 2 ^ 16 * 2 ^ 32
    wide b = omega arith

size_read : (q size : ℕ) → size < 2 ^ 32 → bit_and (q * 2 ^ 32 + size) size_mask % 2 ^ 32 ≡ size
size_read q size h =
    ap (λ x. x % 2 ^ 32) (bit_and-ones 32 q size 0xFF00FFFF h) ∙ rest (bit_and q 0xFF00FFFF)
  where
    rest : (x : ℕ) → (x * 2 ^ 32 + size) % 2 ^ 32 ≡ size
    rest x = omega arith

pub negate_twice : (x : ℕ) → 0 < x → x < 2 ^ 64 → negate (negate x) ≡ x
negate_twice x pos top = omega arith

-- A header `v` of a block of `size` bytes: the sizes that the code reads from it and from its
-- negation, and their signs.
pub record Carries (size v : ℕ) (get_size : ℕ → ℕ) : Type 0 where
  pub read : get_size v ≡ size
  pub back : negate (negate v) ≡ v
  pub positive : 0 < v
  pub below : v < 2 ^ 63
  pub negative : 2 ^ 63 ≤ negate v

carries :
    (get_size : ℕ → ℕ) (v q size : ℕ)
    → v ≡ q * 2 ^ 32 + size
    → q < 2 ^ 24
    → 0 < size
    → size < 2 ^ 32
    → get_size v ≡ size
    → Carries size v get_size
carries get_size v q size e h pos small got = record {
  read = got;
  back = negate_twice v (omega arith) (omega arith);
  positive = omega arith;
  below = omega arith;
  negative = omega arith;
}

-- Whatever the checksum instruction gives, a header of a block of 1 to 2^32 - 1 bytes is positive,
-- its negation is negative and turns back into it, and the size is read back from it; so it is
-- for both kinds of checksum.
pub crc_compute-Carries :
    (crc : ℕ → ℕ → ℕ) (location size : ℕ)
    → 0 < size
    → size < 2 ^ 32
    → Carries size (crc_compute crc location size) crc_get_size
      × Carries size (xor_compute location size) xor_get_size
unfolding crc_compute crc_get_size xor_compute xor_get_size
crc_compute-Carries crc location size pos small =
    let (q, e, h) = sealed (crc (location % 2 ^ 32) size * 2 ^ 32 % 2 ^ 64) size small in
    let (q', e', h') =
      sealed (xor_rounds 6 (xor_start location size) (xor_start location size * 2 ^ 8 % 2 ^ 64))
        size small in
    (
      carries crc_get_size _ q size e h pos small
          (ap (λ x. bit_and x size_mask % 2 ^ 32) e ∙ size_read q size small),
      carries xor_get_size _ q' size e' h' pos small
          (ap (λ x. bit_and x size_mask % 2 ^ 32) e' ∙ size_read q' size small),
    )
  where
    xor_start : ℕ → ℕ → ℕ
    xor_start location size = bit_and (bit_xor location size) 0x00FFFFFFFFFFFFFF
