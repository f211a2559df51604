-- ===== src/Nvmalloc/Marks.antt =====
-- What `makeOne` and `makeZero` do to the bitmap: they set the bits of a range of units.
use zalloc.Base.{
  ℕ, zero, suc, ◌+◌, ◌*◌, ◌/◌, ◌%◌, ◌^◌, ◌≤◌, ◌<◌, ◌≡◌, refl, sym, ap, ◌∙◌, Bool, true, false, ◌&&◌,
  Run, ok, arith, ltb, leb, ◌==◌, if◌then◌else◌, Bool-cases, ==_true, inl, inr,
}
use zalloc.Nvmalloc.Bits.{
  clear, Paints, set_bit, clear_bit, set_bit-Paints, clear_bit-Paints, last_bit,
}
use zalloc.Nvmalloc.{
  Bitmap, base_size, first_index, next_index, next_mask, paint, make_one, make_zero,
}

-- Whether a unit's bit is clear.
abbrev pub is_clear : Bitmap → ℕ → Bool
is_clear bm u = clear (bm.bytes (u / 8)) (u % 8)

-- The elements are bytes, and an `int32_t` holds every index.
pub record IsBitmap (bm : Bitmap) : Type 0 where
  pub narrow : (i : ℕ) → bm.bytes i < 256
  pub small : bm.size < 2 ^ 31

-- The index and the mask of the next unit.
pub next_index-suc : (u : ℕ) → u / 8 < 2 ^ 31 → next_index (u / 8) (2 ^ (u % 8)) ≡ suc u / 8
next_index-suc u h = rw (last_bit (u % 8) (omega arith)) (ground arith)

mask_suc : (j : ℕ) → 2 ^ j * 2 ≡ 2 ^ suc j
mask_suc j = omega arith

pub next_mask-suc : (u : ℕ) → next_mask (2 ^ (u % 8)) ≡ 2 ^ (suc u % 8)
next_mask-suc u = rw (last_bit (u % 8) (omega arith)) (elim (Bool-cases (u % 8 == 7)) [
  | inl last ↦ let first : suc u % 8 ≡ 0 = ground arith in rw (last, first) refl
  | inr more ↦
      let same : suc u % 8 ≡ suc (u % 8) = ground arith in rw (more, same) (mask_suc (u % 8))
])

-- The outcome of a call that gives the `n` units from `u` on the bit `v`.
pub record Painted (v : Bool) (bm : Bitmap) (u n : ℕ) (r : Run Bitmap) : Type 0 where
  pub after : Bitmap
  pub result : r ≡ ok after
  pub valid : IsBitmap after
  pub size : after.size ≡ bm.size
  pub bits : (x : ℕ) → is_clear after x ≡ (if leb u x && ltb x (u + n) then v else is_clear bm x)

range_suc :
    (u n x : ℕ) (v c : Bool)
    → (if leb (suc u) x && ltb x (suc u + n) then v else if u == x then v else c)
      ≡ (if leb u x && ltb x (u + suc n) then v else c)
range_suc u n x v c = ground arith

no_range : (u x : ℕ) (v c : Bool) → (if leb u x && ltb x (u + 0) then v else c) ≡ c
no_range u x v c = ground arith

module _ (op : ℕ → ℕ → ℕ) (v : Bool) (paints : Paints op v) (bm : Bitmap) (valid : IsBitmap bm)
    (u : ℕ) where
  -- The bitmap after one step at unit `u`.
  abbrev dot : Bitmap
  dot = record bm {
    bytes = λ j. if u / 8 == j then op (bm.bytes (u / 8)) (2 ^ (u % 8)) else bm.bytes j;
  }

  dot-IsBitmap : IsBitmap dot
  dot-IsBitmap = record {
    narrow = λ i. elim (Bool-cases (u / 8 == i)) [
      | inl same ↦
          rw same (paints.narrow (bm.bytes (u / 8)) (u % 8) (valid.narrow (u / 8)) (omega arith))
      | inr apart ↦ rw apart (valid.narrow i)
    ];
    small = valid.small;
  }

  same_bit : (x : ℕ) → u / 8 ≡ x / 8 → (u % 8 == x % 8) ≡ (u == x)
  same_bit x h = ground arith

  other : (x : ℕ) → (u / 8 == x / 8) ≡ false → (u == x) ≡ false
  other x h = ground arith

  dot-clear : (x : ℕ) → is_clear dot x ≡ (if u == x then v else is_clear bm x)
  dot-clear x = elim (Bool-cases (u / 8 == x / 8)) [
    | inl same ↦
        let at = ==_true (u / 8) (x / 8) same in
        rw same (
          paints.bit (bm.bytes (u / 8)) (u % 8) (x % 8) (valid.narrow (u / 8)) (omega arith)
            (omega arith)
          ∙ ap (λ c. if c then v else clear (bm.bytes (u / 8)) (x % 8)) (same_bit x at)
          ∙ ap (λ i. if u == x then v else clear (bm.bytes i) (x % 8)) at)
    | inr apart ↦ rw (apart, other x apart) refl
  ]

-- The loop from unit `u` on.
paint-Painted :
    (op : ℕ → ℕ → ℕ) (v : Bool) (paints : Paints op v) (n : ℕ) (bm : Bitmap) (u : ℕ)
    → IsBitmap bm
    → u + n ≤ bm.size * 8
    → Painted v bm u n (paint op n bm (u / 8) (2 ^ (u % 8)))
unfolding paint
paint-Painted op v paints zero bm u valid inside = record {
  after = bm;
  result = refl;
  valid = valid;
  size = refl;
  bits = λ x. sym (no_range u x v (is_clear bm x));
}
paint-Painted op v paints (suc n) bm u valid inside =
    let bm' = dot op v paints bm valid u in
    let low : u / 8 < 2 ^ 31 = omega (arith, valid.small) in
    let here : ltb (u / 8) bm.size ≡ true = ground arith in
    let rest =
      paint-Painted op v paints n bm' (suc u) (dot-IsBitmap op v paints bm valid u) (omega arith) in
    record {
      after = rest.after;
      result = rw (here, next_index-suc u low, next_mask-suc u) rest.result;
      valid = rest.valid;
      size = rest.size;
      bits = λ x.
          rest.bits x
          ∙ ap (λ c. if leb (suc u) x && ltb x (suc u + n) then v else c)
              (dot-clear op v paints bm valid u x)
          ∙ range_suc u n x v (is_clear bm x);
    }

module _ (bm : Bitmap) (location n : ℕ) (valid : IsBitmap bm)
    (inside : location / base_size + n ≤ bm.size * 8) (some_units : 0 < n) where
  first_index-unit : first_index location ≡ location / base_size / 8
  first_index-unit = omega (arith, inside, valid.small, some_units)

  -- On a range of one unit or more within the bitmap, `makeOne` sets the bits of the units of the
  -- range and leaves all others.
  pub make_one-Painted : Painted false bm (location / base_size) n (make_one bm location n)
  unfolding make_one
  make_one-Painted =
      rw first_index-unit
        (paint-Painted set_bit false set_bit-Paints n bm (location / base_size) valid inside)

  -- On a range of one unit or more within the bitmap, `makeZero` clears the bits of the units of
  -- the range and leaves all others.
  pub make_zero-Painted : Painted true bm (location / base_size) n (make_zero bm location n)
  unfolding make_zero
  make_zero-Painted =
      rw first_index-unit
        (paint-Painted clear_bit true clear_bit-Paints n bm (location / base_size) valid inside)
