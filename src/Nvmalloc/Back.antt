-- ===== src/Nvmalloc/Back.antt =====
-- What `isFreeBackward` counts: the clear bits before a unit.
use zalloc.Base.{
  ℕ, zero, suc, ◌+◌, ◌-◌, ◌*◌, ◌/◌, ◌%◌, ◌^◌, ◌≤◌, ◌<◌, ◌≡◌, refl, ap, ◌∙◌, true, false, ◌&&◌, ◌⊎◌,
  Run, ok, arith, ltb, ◌==◌, Bool-cases, inl, inr, two_pow_half,
}
use zalloc.Nvmalloc.Bits.{first_bit}
use zalloc.Nvmalloc.Marks.{is_clear, IsBitmap}
use zalloc.Nvmalloc.{Bitmap, base_size, prev_index, prev_mask, backward, is_free_backward}

-- The outcome `n + count` where `count` units down from `w` are clear, up to a set bit or the start.
pub record Behind (bm : Bitmap) (w n : ℕ) (r : Run ℕ) : Type 0 where
  pub count : ℕ
  pub result : r ≡ ok (n + count)
  pub within : count ≤ suc w
  pub free : (i : ℕ) → i < count → is_clear bm (w - i) ≡ true
  pub stop : (count ≡ suc w) ⊎ (is_clear bm (w - count) ≡ false)

prev_index-suc : (w : ℕ) → prev_index (suc w / 8) (2 ^ (suc w % 8)) ≡ w / 8
prev_index-suc w = rw (first_bit (suc w % 8) (omega arith)) (ground arith)

prev_mask-suc : (w : ℕ) → prev_mask (2 ^ (suc w % 8)) ≡ 2 ^ (w % 8)
prev_mask-suc w = rw (first_bit (suc w % 8) (omega arith)) (elim (Bool-cases (suc w % 8 == 0)) [
  | inl first ↦ let last : w % 8 ≡ 7 = ground arith in rw (first, last) refl
  | inr more ↦
      let same : suc w % 8 ≡ suc (w % 8) = ground arith in rw (more, same) (two_pow_half (w % 8))
])

at_start : (w : ℕ) → (2 ^ (w % 8) == 1 && w / 8 == 0) ≡ (w == 0)
at_start w = rw (first_bit (w % 8) (omega arith)) (ground arith)

not_first : (w : ℕ) → (suc w == 0) ≡ false
not_first w = ground arith

none-Behind :
    (bm : Bitmap) (w n : ℕ) (r : Run ℕ) → r ≡ ok n → is_clear bm w ≡ false → Behind bm w n r
none-Behind bm w n r e set = record {
  count = 0;
  result = e ∙ ap ok (n_zero n);
  within = omega arith;
  free = λ i h. absurd (omega arith);
  stop = inr (let same : w - 0 ≡ w = omega arith in rw same set);
}
  where
    n_zero : (n : ℕ) → n ≡ n + 0
    n_zero n = omega arith

one-Behind :
    (bm : Bitmap) (n : ℕ) (r : Run ℕ) → r ≡ ok (n + 1) → is_clear bm 0 ≡ true → Behind bm 0 n r
one-Behind bm n r e here = record {
  count = 1;
  result = e;
  within = omega arith;
  free = λ i h. (let same : 0 - i ≡ 0 = omega arith in rw same here);
  stop = inl refl;
}

more-Behind :
    (bm : Bitmap) (w n : ℕ) (r r' : Run ℕ)
    → r ≡ r'
    → is_clear bm (suc w) ≡ true
    → Behind bm w (n + 1) r'
    → Behind bm (suc w) n r
more-Behind bm w n r r' e here rest = record {
  count = suc rest.count;
  result = e ∙ rest.result ∙ ap ok (shift n rest.count);
  within = omega (arith, rest.within);
  free = λ i. first i;
  stop = end rest.stop;
}
  where
    shift : (a b : ℕ) → a + 1 + b ≡ a + suc b
    shift a b = omega arith

    down : (w i : ℕ) → suc w - suc i ≡ w - i
    down w i = omega arith

    first : (i : ℕ) → i < suc rest.count → is_clear bm (suc w - i) ≡ true
    first zero h = let same : suc w - 0 ≡ suc w = omega arith in rw same here
    first (suc i) h = rw (down w i) (rest.free i (omega arith))

    end :
        (rest.count ≡ suc w) ⊎ (is_clear bm (w - rest.count) ≡ false)
        → (suc rest.count ≡ suc (suc w)) ⊎ (is_clear bm (suc w - suc rest.count) ≡ false)
    end (inl all) = inl (ap suc all)
    end (inr set) = inr (rw (down w rest.count) set)

backward-Behind :
    (k : ℕ) (bm : Bitmap) (n w : ℕ)
    → IsBitmap bm
    → w < bm.size * 8
    → n + w < 2 ^ 32 - 1
    → w ≤ k
    → Behind bm w n (backward (suc k) bm n (w / 8) (2 ^ (w % 8)))
unfolding backward
backward-Behind k bm n zero valid inside small enough =
    let byte : ltb 0 bm.size ≡ true = ground arith in
    let count : (n + 1) % 2 ^ 32 ≡ n + 1 = omega arith in
    elim (Bool-cases (is_clear bm 0)) [
      | inr set ↦ none-Behind bm 0 n _ (rw (byte, set) refl) set
      | inl free ↦ one-Behind bm n _ (rw (byte, free, count) refl) free
    ]
backward-Behind zero bm n (suc w) valid inside small enough = absurd (omega arith)
backward-Behind (suc k) bm n (suc w) valid inside small enough =
    let byte : ltb (suc w / 8) bm.size ≡ true = ground arith in
    let sign : ltb (suc w / 8) (2 ^ 31) ≡ true = (let h = valid.small in ground arith) in
    let count : (n + 1) % 2 ^ 32 ≡ n + 1 = omega arith in
    elim (Bool-cases (is_clear bm (suc w))) [
      | inr set ↦ none-Behind bm (suc w) n _ (rw (sign, byte, set) refl) set
      | inl free ↦
          more-Behind bm w n _ _
            (rw
              (
                sign,
                byte,
                free,
                at_start (suc w),
                not_first w,
                count,
                prev_index-suc w,
                prev_mask-suc w,
              )
              refl)
            free (backward-Behind k bm (n + 1) w valid (omega arith) (omega arith) (omega arith))
    ]

unit_of : (u : ℕ) → base_size * u / base_size ≡ u
unit_of u = omega arith

index_unit : (u : ℕ) → u < 2 ^ 32 → u / 8 % 2 ^ 32 ≡ u / 8
index_unit u h = omega arith

-- At a unit other than the first, within the bitmap, below 2^32 - 1 and not past the end of the
-- used zone, `isFreeBackward` gives the number of clear bits before it, down to a set bit or the
-- start.
pub is_free_backward-Behind :
    (bm : Bitmap) (end w : ℕ)
    → IsBitmap bm
    → base_size * suc w ≤ end
    → w < bm.size * 8
    → w < 2 ^ 32 - 1
    → Behind bm w 0 (is_free_backward bm end (base_size * suc w))
unfolding is_free_backward
is_free_backward-Behind bm end w valid low inside small =
    let before : ltb end (base_size * suc w) ≡ false = ground arith in
    let rounds : suc w + 1 ≡ suc (suc w) = omega arith in
    rw
      (
        before,
        unit_of (suc w),
        index_unit (suc w) (omega arith),
        at_start (suc w),
        not_first w,
        prev_index-suc w,
        prev_mask-suc w,
        rounds,
      )
      (backward-Behind (suc w) bm 0 w valid inside (omega arith) (omega arith))

-- At the first unit, and past the end of the used zone, the code counts nothing.
pub is_free_backward-none :
    (bm : Bitmap) (end u : ℕ)
    → (end < base_size * u) ⊎ (u ≡ 0)
    → is_free_backward bm end (base_size * u) ≡ ok 0
unfolding is_free_backward
is_free_backward-none bm end u (inl past) =
    let over : ltb end (base_size * u) ≡ true = ground arith in rw over refl
is_free_backward-none bm end u (inr first) = rw first (start end)
  where
    start : (end : ℕ) → is_free_backward bm end 0 ≡ ok 0
    start end = elim (Bool-cases (ltb end 0)) [ inl e ↦ rw e refl | inr e ↦ rw e refl ]
