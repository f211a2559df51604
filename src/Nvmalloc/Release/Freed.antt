-- ===== src/Nvmalloc/Release/Freed.antt =====
-- `extendFreeLocation`: the bits of the block are cleared, and the free units around it counted.
use mathlib.Core.Path.{subst}
use zalloc.Base.{
  ℕ, suc, ◌+◌, ◌-◌, ◌*◌, ◌/◌, ◌%◌, ◌^◌, ◌≤◌, ◌<◌, ◌≡◌, refl, ap, ◌∙◌, true, false, ◌&&◌, ◌⊎◌, inl,
  inr, Run, ok, ltb, leb, if◌then◌else◌, arith, Bool-cases,
}
use zalloc.Nvmalloc.{base_size, Bitmap, make_zero, is_free_forward, is_free_backward}
use zalloc.Nvmalloc.Free.{Nvm}
use zalloc.Nvmalloc.Heap.{extend_free_location}
use zalloc.Nvmalloc.Marks.{is_clear, IsBitmap, Painted, make_zero-Painted}
use zalloc.Nvmalloc.Count.{Ahead, is_free_forward-Ahead}
use zalloc.Nvmalloc.Search.{Covers, is_free_backward-Before}
use zalloc.Nvmalloc.Search.Lists.{ahead_le}

-- `ahead` clear units from `u` on, which hold the block, and `back` before it, up to edges.
pub record Freed (st : Nvm) (q u n : ℕ) (r : Run (ℕ × ℕ × Nvm)) : Type 0 where
  pub bitmap : Bitmap
  pub ahead : ℕ
  pub back : ℕ
  pub result : r ≡ ok (base_size * ahead, base_size * (ahead + back), record st { bitmap = bitmap })
  pub valid : IsBitmap bitmap
  pub same_room : bitmap.size ≡ st.bitmap.size
  pub bits :
      (x : ℕ)
      → is_clear bitmap x ≡ (if leb u x && ltb x (u + n) then true else is_clear st.bitmap x)
  pub within : u + ahead ≤ q
  pub holds : n ≤ ahead
  pub clear_ahead : (i : ℕ) → i < ahead → is_clear bitmap (u + i) ≡ true
  pub last : (u + ahead ≡ q) ⊎ (is_clear bitmap (u + ahead) ≡ false)
  pub low : back ≤ u
  pub clear_back : (x : ℕ) → u - back ≤ x → x < u → is_clear bitmap x ≡ true
  pub first : (u - back ≡ 0) ⊎ ((y : ℕ) × (suc y ≡ u - back) × (is_clear bitmap y ≡ false))

extend_free_location-ok :
    (crc : ℕ → ℕ → ℕ) (st : Nvm) (location size f b : ℕ) (bitmap : Bitmap)
    → make_zero st.bitmap location (size / base_size) ≡ ok bitmap
    → is_free_forward bitmap st.zone location ≡ ok f
    → is_free_backward bitmap st.zone location ≡ ok b
    → f + b < 2 ^ 26
    → extend_free_location crc st location size
      ≡ ok (base_size * f, base_size * (f + b), record st { bitmap = bitmap })
unfolding extend_free_location
extend_free_location-ok crc st location size f b bitmap cleared ahead back low =
    let few : f * base_size % 2 ^ 32 ≡ base_size * f = omega arith in
    let all : (base_size * f + b * base_size % 2 ^ 32) % 2 ^ 32 ≡ base_size * (f + b) =
      omega arith in
    rw (cleared, ahead, back, few, all) refl

module _ (crc : ℕ → ℕ → ℕ) (st : Nvm) (q u n : ℕ) (covers : Covers st.bitmap q)
    (zone : st.zone ≡ base_size * q) (pos : 0 < n) (fits : u + n ≤ q) where
  cleared : Painted true st.bitmap u n (make_zero st.bitmap (base_size * u) n)
  cleared =
      let at : base_size * u / base_size ≡ u = omega arith in
      subst (λ x. Painted true st.bitmap x n (make_zero st.bitmap (base_size * u) n)) at
        (make_zero-Painted st.bitmap (base_size * u) n covers.bitmap (omega (arith, covers.room))
          pos)

  pub extend_free_location-Freed :
      Freed st q u n (extend_free_location crc st (base_size * u) (base_size * n))
  extend_free_location-Freed =
      let c = cleared in
      let covers' : Covers c.after q = record {
        bitmap = c.valid;
        room = omega (arith, covers.room, c.size);
        small = covers.small;
      } in
      let ahead : Ahead c.after (base_size * q) u 0
          (is_free_forward c.after (base_size * q) (base_size * u)) =
        is_free_forward-Ahead c.after (base_size * q) u c.valid (omega (arith, covers'.room))
          (omega (arith, covers.small)) (omega arith) in
      let back = is_free_backward-Before c.after q covers' u (omega arith) in
      let inside = ahead_le ahead.count q u (omega arith) ahead.within in
      let count : base_size * n / base_size ≡ n = omega arith in
      record {
        bitmap = c.after;
        ahead = ahead.count;
        back = back.count;
        result =
            extend_free_location-ok crc st (base_size * u) (base_size * n) ahead.count back.count
              c.after (ap (make_zero st.bitmap (base_size * u)) count ∙ c.result)
              (ap (λ z. is_free_forward c.after z (base_size * u)) zone
                ∙ (ahead.result ∙ ap ok (zero_add ahead.count)))
              (ap (λ z. is_free_backward c.after z (base_size * u)) zone ∙ back.result)
              (omega (arith, covers.small, inside, back.within));
        valid = c.valid;
        same_room = c.size;
        bits = c.bits;
        within = inside;
        holds = elim (Bool-cases (ltb ahead.count n)) [
          | inr enough ↦ ground arith
          | inl short ↦ elim ahead.stop [
            | inl end ↦ omega (arith, end)
            | inr set ↦
                let inner : (leb u (u + ahead.count) && ltb (u + ahead.count) (u + n)) ≡ true =
                  ground arith in
                let free : is_clear c.after (u + ahead.count) ≡ true =
                  rw (c.bits (u + ahead.count), inner) refl in
                absurd (cc (set, free))
          ]
        ];
        clear_ahead = ahead.free;
        last = elim ahead.stop [ inl end ↦ inl (omega (arith, end, inside)) | inr set ↦ inr set ];
        low = back.within;
        clear_back = back.clear;
        first = back.first;
      }
    where
      zero_add : (x : ℕ) → 0 + x ≡ x
      zero_add x = omega arith
