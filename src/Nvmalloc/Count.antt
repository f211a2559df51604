-- ===== src/Nvmalloc/Count.antt =====
-- What `isFreeForward` and `isFreeBackward` count: the clear bits from a unit on, and before it.
use zalloc.Base.{
  ℕ, zero, suc, ◌+◌, ◌*◌, ◌/◌, ◌%◌, ◌^◌, ◌≤◌, ◌<◌, ◌≡◌, refl, sym, ap, ◌∙◌, true, false, ◌⊎◌, Run,
  ok, arith, ltb, Bool-cases, inl, inr,
}
use zalloc.Nvmalloc.Marks.{is_clear, IsBitmap, next_index-suc, next_mask-suc}
use zalloc.Nvmalloc.{Bitmap, base_size, forward, is_free_forward}

-- The outcome `n + count` where `count` units from `u` on are clear, up to a set bit or the end.
pub record Ahead (bm : Bitmap) (end u n : ℕ) (r : Run ℕ) : Type 0 where
  pub count : ℕ
  pub result : r ≡ ok (n + count)
  pub free : (i : ℕ) → i < count → is_clear bm (u + i) ≡ true
  pub within : (count ≡ 0) ⊎ (base_size * (u + count) < end + base_size)
  pub stop : (end ≤ base_size * (u + count)) ⊎ (is_clear bm (u + count) ≡ false)

none-Ahead :
    (bm : Bitmap) (end u n : ℕ) (r : Run ℕ)
    → r ≡ ok n
    → (end ≤ base_size * u) ⊎ (is_clear bm u ≡ false)
    → Ahead bm end u n r
none-Ahead bm end u n r e why = record {
  count = 0;
  result = e ∙ ap ok (n_zero n);
  free = λ i h. absurd (omega arith);
  within = inl refl;
  stop = at (u_zero u) why;
}
  where
    n_zero : (n : ℕ) → n ≡ n + 0
    n_zero n = omega arith

    u_zero : (u : ℕ) → u + 0 ≡ u
    u_zero u = omega arith

    at :
        {x : ℕ}
        → x ≡ u
        → (end ≤ base_size * u) ⊎ (is_clear bm u ≡ false)
        → (end ≤ base_size * x) ⊎ (is_clear bm x ≡ false)
    at e w = rw e w

one-Ahead :
    (bm : Bitmap) (end u n : ℕ) (r r' : Run ℕ)
    → r ≡ r'
    → base_size * u < end
    → is_clear bm u ≡ true
    → Ahead bm end (suc u) (n + 1) r'
    → Ahead bm end u n r
one-Ahead bm end u n r r' e lt here rest = record {
  count = suc rest.count;
  result = e ∙ rest.result ∙ ap ok (shift n rest.count);
  free = first;
  within = low rest.within;
  stop = rw (sym (shift u rest.count)) at_stop;
}
  where
    shift : (a b : ℕ) → a + 1 + b ≡ a + suc b
    shift a b = omega arith

    next : (u b : ℕ) → suc u + b ≡ u + 1 + b
    next u b = omega arith

    low :
        (rest.count ≡ 0) ⊎ (base_size * (suc u + rest.count) < end + base_size)
        → (suc rest.count ≡ 0) ⊎ (base_size * (u + suc rest.count) < end + base_size)
    low (inl none) = inr (omega (arith, lt))
    low (inr more) = inr (omega arith)

    at_stop : (end ≤ base_size * (u + 1 + rest.count)) ⊎ (is_clear bm (u + 1 + rest.count) ≡ false)
    at_stop = rw (sym (next u rest.count)) rest.stop

    first : (i : ℕ) → i < suc rest.count → is_clear bm (u + i) ≡ true
    first zero h = let same : u + 0 ≡ u = omega arith in rw same here
    first (suc i) h =
        let same : u + suc i ≡ suc u + i = omega arith in rw same (rest.free i (omega arith))

forward-step :
    (k : ℕ) (bm : Bitmap) (end n u : ℕ)
    → IsBitmap bm
    → end ≤ bm.size * 512
    → end < 2 ^ 37
    → n ≤ u
    → (base_size * u < end
        → Ahead bm end
            (suc u)
            (n + 1)
            (forward k bm end (n + 1) (base_size * suc u) (suc u / 8) (2 ^ (suc u % 8))))
    → Ahead bm end u n (forward (suc k) bm end n (base_size * u) (u / 8) (2 ^ (u % 8)))
unfolding forward
forward-step k bm end n u valid room top low rest = elim (Bool-cases (ltb (base_size * u) end)) [
  | inr past ↦ none-Ahead bm end u n _ (rw past refl) (inl (ground arith))
  | inl within ↦
      let lt : base_size * u < end = ground arith in
      let byte : ltb (u / 8) bm.size ≡ true = ground arith in
      elim (Bool-cases (is_clear bm u)) [
        | inr set ↦ none-Ahead bm end u n _ (rw (within, byte, set) refl) (inr set)
        | inl free ↦
            let count : (n + 1) % 2 ^ 32 ≡ n + 1 = omega arith in
            let place : (base_size * u + base_size) % 2 ^ 64 ≡ base_size * suc u = omega arith in
            let index = next_index-suc u (omega arith) in
            one-Ahead bm end u n _ _
              (rw (within, byte, free, count, place, index, next_mask-suc u) refl) lt free (rest lt)
      ]
]

forward-Ahead :
    (k : ℕ) (bm : Bitmap) (end n u : ℕ)
    → IsBitmap bm
    → end ≤ bm.size * 512
    → end < 2 ^ 37
    → n ≤ u
    → end ≤ base_size * (u + k)
    → Ahead bm end u n (forward (suc k) bm end n (base_size * u) (u / 8) (2 ^ (u % 8)))
forward-Ahead zero bm end n u valid room top low enough =
    forward-step zero bm end n u valid room top low (λ lt. absurd (omega arith))
forward-Ahead (suc k) bm end n u valid room top low enough =
    forward-step (suc k) bm end n u valid room top low
      (λ lt. forward-Ahead k bm end (n + 1) (suc u) valid room top (omega arith) (omega arith))

unit_of : (u : ℕ) → base_size * u / base_size ≡ u
unit_of u = omega arith

first_index-unit : (u : ℕ) → u < 2 ^ 34 → u / 8 % 2 ^ 32 ≡ u / 8
first_index-unit u h = omega arith

-- From a unit below 2^34 on, where the bitmap covers the bytes up to `end` and these are fewer than
-- 2^37, `isFreeForward` gives the number of clear bits up to a set bit or the end, and counts no
-- unit past the end.
pub is_free_forward-Ahead :
    (bm : Bitmap) (end u : ℕ)
    → IsBitmap bm
    → end ≤ bm.size * 512
    → end < 2 ^ 37
    → u < 2 ^ 34
    → Ahead bm end u 0 (is_free_forward bm end (base_size * u))
unfolding is_free_forward
is_free_forward-Ahead bm end u valid room top low =
    let rounds : end / base_size + 2 ≡ suc (end / base_size + 1) = omega arith in
    rw (unit_of u, first_index-unit u low, rounds)
      (forward-Ahead (end / base_size + 1) bm end 0 u valid room top (omega arith) (omega arith))
