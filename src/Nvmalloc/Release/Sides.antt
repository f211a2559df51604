-- ===== src/Nvmalloc/Release/Sides.antt =====
-- The rows of blocks on both sides of a run of free units, and the row with the run in one block.
use zalloc.Base.{
  ℕ, ◌+◌, ◌-◌, ◌*◌, ◌≤◌, ◌<◌, ◌≡◌, refl, false, ◌&&◌, ◌⊎◌, inl, inr, List, ◌∷◌, ◌++◌, Run, ◌>>=◌,
  ltb, leb, arith,
}
use zalloc.Nvmalloc.{base_size}
use zalloc.Nvmalloc.Header.{negate, crc_compute}
use zalloc.Nvmalloc.Free.{Nvm, put}
use zalloc.Nvmalloc.Release.Words.{put_own, put_other}
use zalloc.Nvmalloc.Heap.{extend_free_location, insert_free_location}
use zalloc.Nvmalloc.Marks.{is_clear}
use zalloc.Nvmalloc.Tiles.{
  Tile, held, vacant, total, total-append, Tiles, Tiles-append, Tiles-split, Tiles-same,
}
use zalloc.Nvmalloc.Tiles.Edges.{AllVacant, Tiles-AllVacant}
use zalloc.Nvmalloc.Tiles.Closed.{IsClosed, Tiles-IsClosed}
use zalloc.Nvmalloc.Block.{IsLaidOut, IsLaidOut-Covers}
use zalloc.Nvmalloc.Release.Freed.{Freed, extend_free_location-Freed}
use zalloc.Nvmalloc.Release.Halves.{Halves, Halves-back, Halves-ahead}

module _ (crc : ℕ → ℕ → ℕ) (st : Nvm) (before : List Tile) (n : ℕ) (after : List Tile)
    (laid : IsLaidOut crc st (before ++ (held n ∷ after))) where
  abbrev pub FreedHere : Type 0
  FreedHere =
      Freed st (total (before ++ (held n ∷ after))) (total before) n
        (extend_free_location crc st (base_size * total before) (base_size * n))

  abbrev pub HalvesBefore : FreedHere → Type 0
  HalvesBefore f =
      Halves crc (is_clear f.bitmap) st.word 0 (total before - f.back) (total before) before

  abbrev pub HalvesAfter : FreedHere → Type 0
  HalvesAfter f =
      Halves crc (is_clear f.bitmap) st.word (total before + n) (total before + f.ahead)
        (total (before ++ (held n ∷ after))) after

  size_of : total (before ++ (held n ∷ after)) ≡ total before + (n + total after)
  unfolding total
  size_of = total-append before (held n ∷ after)

  pub positive : 0 < n
  positive = (Tiles-split crc (is_clear st.bitmap) st.word 0 before (held n ∷ after) laid.tiles).1.0

  -- The row before the block, and the row after it.
  sides :
      Tiles crc (is_clear st.bitmap) st.word 0 before
      × Tiles crc (is_clear st.bitmap) st.word (total before + n) after
  sides =
      let (tb, (pos, clear, head, rest)) =
        Tiles-split crc (is_clear st.bitmap) st.word 0 before (held n ∷ after) laid.tiles in
      (tb, (let from : 0 + total before + n ≡ total before + n = omega arith in rw from at rest))

  pub freed :
      Freed st
        (total (before ++ (held n ∷ after)))
        (total before)
        n
        (extend_free_location crc st (base_size * total before) (base_size * n))
  freed =
      extend_free_location-Freed crc st (total (before ++ (held n ∷ after))) (total before) n
        (IsLaidOut-Covers crc st (before ++ (held n ∷ after)) laid) laid.zone positive
        (omega (arith, size_of))

  -- Once the bits of the block are cleared, the rows on its sides stay as they are.
  pub sides_after : (f : FreedHere) → HalvesBefore f × HalvesAfter f
  sides_after f =
      let (tb, ta) = sides in
      (
        Halves-back crc (is_clear f.bitmap) st.word (total before) f.back before
            (Tiles-same crc (is_clear st.bitmap) (is_clear f.bitmap) st.word st.word 0 before
              (λ x low high. untouched x (inl (omega arith))) (λ x low high. refl) tb)
            refl f.low f.clear_back f.first,
        Halves-ahead crc (is_clear f.bitmap) st.word (total before + n) (total before + f.ahead)
            (total (before ++ (held n ∷ after))) after
            (Tiles-same crc (is_clear st.bitmap) (is_clear f.bitmap) st.word st.word
              (total before + n) after (λ x low high. untouched x (inr (omega arith)))
              (λ x low high. refl) ta)
            (omega (arith, size_of)) (omega (arith, f.holds)) f.within
            (λ x low high.
              (let at : total before + (x - total before) ≡ x = omega arith in
                rw at at (f.clear_ahead (x - total before) (omega arith))))
            f.last,
      )
    where
      untouched :
          (x : ℕ)
          → (x < total before) ⊎ (total before + n ≤ x)
          → is_clear f.bitmap x ≡ is_clear st.bitmap x
      untouched x h =
          let outside : (leb (total before) x && ltb x (total before + n)) ≡ false = ground arith in
          rw (f.bits x, outside) refl

  pub both :
      (f : FreedHere) {r : Run Nvm}
      → insert_free_location crc
          (record st { bitmap = f.bitmap })
          (base_size * total before)
          (base_size * f.ahead)
          (base_size * (f.ahead + f.back))
        ≡ r
      → (extend_free_location crc st (base_size * total before) (base_size * n)
          >>= λ (size, whole, st).
              insert_free_location crc st (base_size * total before) size whole)
        ≡ r
  both f e = rw f.result e

  pub free_before : (f : FreedHere) (b : HalvesBefore f) → AllVacant b.rest
  free_before f b =
      Tiles-AllVacant crc (is_clear f.bitmap) st.word (total before - f.back) b.rest b.tiles_rest
        (λ x low high. f.clear_back x low (omega (arith, b.end)))

  pub free_after : (f : FreedHere) (a : HalvesAfter f) → AllVacant a.first
  free_after f a =
      Tiles-AllVacant crc (is_clear f.bitmap) st.word (total before + n) a.first a.tiles_first
        (λ x low high.
          (let at : total before + (x - total before) ≡ x = omega arith in
            rw at at (f.clear_ahead (x - total before) (omega (arith, a.start)))))

  pub same_total :
      (f : FreedHere) (b : HalvesBefore f) (a : HalvesAfter f)
      → total (b.first ++ (b.rest ++ (vacant (n + total a.first) ∷ a.rest)))
        ≡ total (before ++ (held n ∷ after))
  unfolding total
  same_total f b a = omega (
    arith,
    total-append b.first (b.rest ++ (vacant (n + total a.first) ∷ a.rest)),
    total-append b.rest (vacant (n + total a.first) ∷ a.rest),
    b.start,
    b.end,
    a.start,
    a.end,
    f.low,
  )

  pub listed-Tiles :
      (f : FreedHere) (b : HalvesBefore f) (a : HalvesAfter f)
      → Tiles crc
          (is_clear f.bitmap)
          (put st.word
            (base_size * total before)
            (negate (crc_compute crc (base_size * total before) (base_size * f.ahead))))
          0
          (b.first ++ (b.rest ++ (vacant (n + total a.first) ∷ a.rest)))
  listed-Tiles f b a =
      let seal = negate (crc_compute crc (base_size * total before) (base_size * f.ahead)) in
      let word = put st.word (base_size * total before) seal in
      let grown : n + total a.first ≡ f.ahead = omega (arith, a.start) in
      let front =
        Tiles-same crc (is_clear f.bitmap) (is_clear f.bitmap) st.word word 0 b.first
          (λ x low high. refl)
          (λ x low high.
            put_other st.word (total before) seal x (inl (omega (arith, b.start, b.end))))
          b.tiles_first in
      let middle =
        Tiles-same crc (is_clear f.bitmap) (is_clear f.bitmap) st.word word (total before - f.back)
          b.rest (λ x low high. refl)
          (λ x low high. put_other st.word (total before) seal x (inl (omega (arith, b.end))))
          b.tiles_rest in
      let back =
        Tiles-same crc (is_clear f.bitmap) (is_clear f.bitmap) st.word word (total before + f.ahead)
          a.rest (λ x low high. refl)
          (λ x low high.
            put_other st.word (total before) seal x (inr (omega (arith, positive, f.holds))))
          a.tiles_rest in
      Tiles-append crc (is_clear f.bitmap) word 0 b.first
        (b.rest ++ (vacant (n + total a.first) ∷ a.rest)) front
        (rw b.start (
          Tiles-append crc (is_clear f.bitmap) word (total before - f.back) b.rest
            (vacant (n + total a.first) ∷ a.rest) middle
            (rw (b.end, grown)
              (
                omega (arith, positive, f.holds),
                (λ x low high.
                    (let at : total before + (x - total before) ≡ x = omega arith in
                      rw at at (f.clear_ahead (x - total before) (omega arith)))),
                put_own st.word (base_size * total before) seal,
                back,
              ))))

  -- The row before the run ends in a block that is not free.
  pub before-IsClosed : (f : FreedHere) (b : HalvesBefore f) → IsClosed b.first
  before-IsClosed f b =
      Tiles-IsClosed crc (is_clear f.bitmap) st.word 0 (total before - f.back) b.first b.tiles_first
        b.start f.first
