-- ===== src/Buddy/Size.antt =====
-- inc/buddy/buddy.c: from a request in bytes to a power of two of pages.
pub mod Rounding
use zalloc.Base.{
  ℕ, zero, suc, ◌+◌, ◌-◌, ◌*◌, ◌/◌, ◌%◌, ◌^◌, Bool, bit_and, bit_or, ltb, ◌==◌, if◌then◌else◌,
}

abbrev pub page_size : ℕ
page_size = 4096

-- `!(x & (x - 1))` on a `uint32_t`: a wider argument loses its high bits.
unfoldable pub is_pow_of_2 : ℕ → Bool
is_pow_of_2 x = let w = x % 2 ^ 32 in bit_and w ((w + 2 ^ 32 - 1) % 2 ^ 32) == 0

-- `x |= x >> k`
abbrev pub smear : ℕ → ℕ → ℕ
smear k x = bit_or x (x / 2 ^ k)

unfoldable pub next_pow_of_2 : ℕ → ℕ
next_pow_of_2 x =
    if is_pow_of_2 x then x else (smear 16 (smear 8 (smear 4 (smear 2 (smear 1 x)))) + 1) % 2 ^ 64

-- The distance between neighbouring `float` values at the magnitude of `s`: a `float` has 24
-- significant bits. Forty doublings reach every 64-bit value.
unfoldable pub float_unit : ℕ → ℕ → ℕ → ℕ
float_unit zero u s = u
float_unit (suc k) u s = if ltb s (2 ^ 24 * u) then u else float_unit k (2 * u) s

-- The multiple of `u` nearest to `s`, ties to the even one.
unfoldable pub round_even : ℕ → ℕ → ℕ
round_even u s =
    let q = s / u in
    let r = s % u in
    if ltb (2 * r) u
    then q * u
    else if ltb u (2 * r)
    then (q + 1) * u
    else if q % 2 == 0
    then q * u
    else (q + 1) * u

-- `(float) s` for a `uint64_t`, as IEEE 754 rounds it
unfoldable pub to_float : ℕ → ℕ
unfolding float_unit round_even
to_float s = round_even (float_unit 40 1 s) s

-- `ceil((float) s / PAGE_SIZE)`: the division by a power of two is exact
unfoldable pub ceil_pages : ℕ → ℕ
unfolding to_float
ceil_pages s = (to_float s + (page_size - 1)) / page_size

-- The number of pages that `buddy_alloc` takes for `s` bytes.
unfoldable pub block_pages : ℕ → ℕ
unfolding ceil_pages next_pow_of_2 is_pow_of_2
block_pages s = let size = next_pow_of_2 (ceil_pages s) in if size == 0 then 1 else size
