-- ===== src/Buddy/Size/Rounding.antt =====
-- How the rounding to `float` changes the number of pages.
use native.Mathlib.Nat.{mul-le-mul_left}
use zalloc.Base.{
  ℕ, zero, suc, ◌+◌, ◌-◌, ◌*◌, ◌/◌, ◌%◌, ◌^◌, ◌≤◌, ◌<◌, ◌≡◌, refl, ap, ◌∙◌, arith, false, ◌==◌,
  plus, plus-eq-add, two_pow_suc, two_pow_pos, two_pow_add,
}
use zalloc.Buddy.Size.{
  page_size, float_unit, round_even, to_float, ceil_pages, next_pow_of_2, is_pow_of_2, block_pages,
}

float_unit_stop : (k u s : ℕ) → s < 2 ^ 24 * u → float_unit (suc k) u s ≡ u
unfolding float_unit
float_unit_stop k u s h = ground arith

float_unit_more : (k u s : ℕ) → 2 ^ 24 * u ≤ s → float_unit (suc k) u s ≡ float_unit k (2 * u) s
unfolding float_unit
float_unit_more k u s h = ground arith

-- Below 2^24 bytes `ceil((float) s / PAGE_SIZE)` is the exact number of pages, rounded up.
pub ceil_pages-exact : (s : ℕ) → s < 2 ^ 24 → ceil_pages s ≡ (s + 4095) / 4096
unfolding ceil_pages to_float round_even
ceil_pages-exact s h = rw (float_unit_stop 39 1 s (omega arith)) (ground arith)

round_even_down : (u s q : ℕ) → s / u ≡ q → 2 * (s % u) ≤ u → q % 2 ≡ 0 → round_even u s ≡ q * u
unfolding round_even
round_even_down u s q e h even = rw e (ground arith)

-- The doublings stop at the unit of the `float` values from 2^24 * u * 2^j on.
unit_at :
    (j k u s : ℕ)
    → 2 ^ 24 * (u * 2 ^ j) ≤ s
    → s < 2 * (2 ^ 24 * (u * 2 ^ j))
    → float_unit (plus (suc j) (suc k)) u s ≡ u * 2 ^ suc j
unit_at zero k u s low high =
    float_unit_more (suc k) u s (omega arith)
    ∙ float_unit_stop k (2 * u) s (omega arith)
    ∙ omega arith
unit_at (suc j) k u s low high =
    let twice = ap (λ (n : ℕ). u * n) (two_pow_suc j) in
    let least : u * 1 ≤ u * 2 ^ j = mul-le-mul_left u (two_pow_pos j) in
    float_unit_more (plus (suc j) (suc k)) u s (omega arith)
    ∙ unit_at j k (2 * u) s (omega arith) (omega arith)
    ∙ omega (arith, ap (λ (n : ℕ). u * n) (two_pow_suc (suc j)))

div_of : (q u r s : ℕ) → s ≡ q * u + r → r < u → s / u ≡ q
div_of q u r s e h = grind arith

module _ (j r : ℕ) (small : j < 7) (pos : 0 < r) (near : r ≤ 2 ^ j) where
  abbrev request : ℕ
  request = 2 ^ (24 + j) + r

  request_lem : request ≡ 2 ^ 23 * 2 ^ suc j + r
  request_lem = omega (arith, two_pow_add 24 j, two_pow_suc j)

  request_unit : float_unit 40 1 request ≡ 2 ^ suc j
  request_unit =
      let fuel : 40 ≡ plus (suc j) (suc (38 - j)) =
        omega (arith, plus-eq-add (suc j) (suc (38 - j))) in
      ap (λ k. float_unit k 1 request) fuel
      ∙ unit_at j (38 - j) 1 request (omega (arith, two_pow_add 24 j))
          (omega (arith, two_pow_add 24 j, two_pow_pos j))
      ∙ omega arith

  request-float : to_float request ≡ 2 ^ 23 * 2 ^ suc j
  unfolding to_float
  request-float = rw request_unit (
      round_even_down (2 ^ suc j) request (2 ^ 23) quotient
        (omega
          (arith, request_lem, two_pow_suc j, quotient, ap (λ (n : ℕ). 2 ^ suc j * n) quotient))
        refl)
    where
      quotient : request / 2 ^ suc j ≡ 2 ^ 23
      quotient = div_of (2 ^ 23) (2 ^ suc j) r request request_lem (omega (arith, two_pow_suc j))

  request-pages : ceil_pages request ≡ 2 ^ 12 * 2 ^ j
  unfolding ceil_pages
  request-pages = rw request-float (omega (arith, two_pow_suc j))

power_kept : (j : ℕ) → j < 7 → next_pow_of_2 (2 ^ 12 * 2 ^ j) ≡ 2 ^ 12 * 2 ^ j
unfolding next_pow_of_2 is_pow_of_2
power_kept zero h = refl
power_kept (suc zero) h = refl
power_kept (suc (suc zero)) h = refl
power_kept (suc (suc (suc zero))) h = refl
power_kept (suc (suc (suc (suc zero)))) h = refl
power_kept (suc (suc (suc (suc (suc zero))))) h = refl
power_kept (suc (suc (suc (suc (suc (suc zero)))))) h = refl
power_kept (suc (suc (suc (suc (suc (suc (suc j))))))) h = absurd (omega arith)

-- For j below 7, a request of 1 to 2^j bytes more than 2^(24 + j) gets a block of 2^(24 + j) bytes.
pub block_pages-short :
    (j r : ℕ)
    → j < 7
    → 0 < r
    → r ≤ 2 ^ j
    → block_pages (2 ^ (24 + j) + r) * page_size ≡ 2 ^ (24 + j)
unfolding block_pages
block_pages-short j r small pos near =
    let least = two_pow_pos j in
    rw (request-pages j r small pos near, power_kept j small)
      (let some_pages : (2 ^ 12 * 2 ^ j == 0) ≡ false = ground arith in
        rw some_pages (omega (arith, two_pow_add 24 j)))
