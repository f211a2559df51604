-- ===== src/Nvmalloc/Search.antt =====
-- What the search of the free lists finds: a run of free units between edges, large enough.
pub mod Lists
pub mod Rounds
use zalloc.Base.{
  ℕ, zero, suc, ◌+◌, ◌-◌, ◌*◌, ◌%◌, ◌^◌, ◌≤◌, ◌<◌, ◌≡◌, refl, sym, ap, ◌∙◌, Bool, true, false, ◌⊎◌,
  inl, inr, List, [], ◌∷◌, Option, none, some, Run, ok, ◌>>=◌, ltb, leb, ◌==◌, if◌then◌else◌, arith,
  Bool-cases,
}
use zalloc.Nvmalloc.{base_size, Bitmap, is_free_forward, is_free_backward}
use zalloc.Nvmalloc.Marks.{is_clear, IsBitmap}
use zalloc.Nvmalloc.Count.{Ahead, is_free_forward-Ahead}
use zalloc.Nvmalloc.Back.{Behind, is_free_backward-Behind, is_free_backward-none}
use zalloc.Nvmalloc.Tiles.Edges.{RunAt}

-- A bitmap that covers a zone of `q` units, which lie below 2^32 bytes.
pub record Covers (bm : Bitmap) (q : ℕ) : Type 0 where
  pub bitmap : IsBitmap bm
  pub room : q ≤ bm.size * 8
  pub small : q < 2 ^ 26

-- The free units before a unit of the zone, up to an edge.
pub record Before (bm : Bitmap) (u : ℕ) (r : Run ℕ) : Type 0 where
  pub count : ℕ
  pub result : r ≡ ok count
  pub within : count ≤ u
  pub clear : (x : ℕ) → u - count ≤ x → x < u → is_clear bm x ≡ true
  pub first : (u - count ≡ 0) ⊎ ((y : ℕ) × (suc y ≡ u - count) × (is_clear bm y ≡ false))

module _ (bm : Bitmap) (q : ℕ) (covers : Covers bm q) where
  pub is_free_backward-Before :
      (u : ℕ) → u ≤ q → Before bm u (is_free_backward bm (base_size * q) (base_size * u))
  is_free_backward-Before zero h = record {
    count = 0;
    result = is_free_backward-none bm (base_size * q) 0 (inr refl);
    within = omega arith;
    clear = λ x low high. absurd (omega arith);
    first = inl refl;
  }
  is_free_backward-Before (suc w) h =
      let back =
        is_free_backward-Behind bm (base_size * q) w covers.bitmap (omega arith)
          (omega (arith, covers.room)) (omega (arith, covers.small)) in
      record {
        count = back.count;
        result = back.result ∙ ap ok (zero_add back.count);
        within = back.within;
        clear = λ x low high.
            (let at : w - (w - x) ≡ x = omega arith in
              rw at at (back.free (w - x) (omega (arith, back.within))));
        first = elim back.stop [
          | inl all ↦ inl (omega (arith, all))
          | inr set ↦ start back.count back.within set
        ];
      }
    where
      zero_add : (n : ℕ) → 0 + n ≡ n
      zero_add n = omega arith

      start :
          (c : ℕ)
          → c ≤ suc w
          → is_clear bm (w - c) ≡ false
          → (suc w - c ≡ 0) ⊎ ((y : ℕ) × (suc y ≡ suc w - c) × (is_clear bm y ≡ false))
      start c le set = elim (Bool-cases (leb c w)) [
        | inl low ↦ inr (w - c, (ground arith), set)
        | inr high ↦ inl (ground arith)
      ]

  -- The run around a unit of the zone, where it has a unit.
  pub around :
      (u : ℕ)
      → u ≤ q
      → (ahead : Ahead bm (base_size * q) u 0 (is_free_forward bm (base_size * q) (base_size * u)))
      → (back : Before bm u (is_free_backward bm (base_size * q) (base_size * u)))
      → 0 < ahead.count + back.count
      → RunAt (is_clear bm) q (u - back.count) (u + ahead.count)
  around u h ahead back pos = record {
    some_units = omega (arith, back.within);
    inside = elim ahead.within [ inl e ↦ omega (arith, e) | inr low ↦ omega arith ];
    clear = λ x low high. elim (Bool-cases (ltb x u)) [
      | inl before ↦ back.clear x low (ground arith)
      | inr after ↦
          let at : u + (x - u) ≡ x = ground arith in rw at at (ahead.free (x - u) (ground arith))
    ];
    first = back.first;
    last = elim ahead.stop [
      | inl end ↦ elim ahead.within [ inl e ↦ inl (omega (arith, e)) | inr low ↦ inl (omega arith) ]
      | inr set ↦ inr set
    ];
  }
