-- ===== src/Nvmalloc/Release/Halves.antt =====
-- The rows before and after a block, each cut where the run of free units around the block ends.
use zalloc.Base.{
  ℕ, suc, ◌+◌, ◌-◌, ◌≤◌, ◌<◌, ◌≡◌, refl, ap, ◌∙◌, Bool, true, false, ◌⊎◌, inl, inr, List, [], ◌∷◌,
  ◌++◌, ◌==◌, arith, Bool-cases,
}
use zalloc.Nvmalloc.Tiles.{Tile, total, total-append, Tiles, Tiles-split}
use zalloc.Nvmalloc.Tiles.Edges.{IsEdge, Tiles-Cut}

-- A row from `p` to the start of a run at `s`, and its free blocks from there to `u`.
pub record Halves (crc : ℕ → ℕ → ℕ) (bits : ℕ → Bool) (word : ℕ → ℕ) (p s u : ℕ) (l : List Tile)
    : Type 0 where
  pub first : List Tile
  pub rest : List Tile
  pub whole : l ≡ first ++ rest
  pub start : p + total first ≡ s
  pub end : s + total rest ≡ u
  pub tiles_first : Tiles crc bits word p first
  pub tiles_rest : Tiles crc bits word s rest

module _ (crc : ℕ → ℕ → ℕ) (bits : ℕ → Bool) (word : ℕ → ℕ) where
  halves :
      (p s u : ℕ) (l : List Tile)
      → Tiles crc bits word p l
      → p + total l ≡ u
      → p ≤ s
      → s ≤ u
      → IsEdge bits p u s
      → Halves crc bits word p s u l
  halves p s u l t size low high edge =
      let c = Tiles-Cut crc bits word p s l t low (omega (arith, size)) (rw size edge) in
      let (tf, tr) = Tiles-split crc bits word p c.before c.after (rw c.whole at t) in
      record {
        first = c.before;
        rest = c.after;
        whole = c.whole;
        start = c.at;
        end = omega (arith, c.at, size, ap total c.whole ∙ total-append c.before c.after);
        tiles_first = tf;
        tiles_rest = rw c.at at tr;
      }

  -- Before the block: the run goes back by `b` units.
  pub Halves-back :
      (u b : ℕ) (l : List Tile)
      → Tiles crc bits word 0 l
      → total l ≡ u
      → b ≤ u
      → ((x : ℕ) → u - b ≤ x → x < u → bits x ≡ true)
      → (u - b ≡ 0) ⊎ ((y : ℕ) × (suc y ≡ u - b) × (bits y ≡ false))
      → Halves crc bits word 0 (u - b) u l
  Halves-back u b l t size low clear first =
      halves 0 (u - b) u l t (omega (arith, size)) (omega arith) (omega arith) (elim first [
        | inl none_before ↦ inl none_before
        | inr (y, at, set) ↦ elim (Bool-cases (b == 0)) [
          | inl none_free ↦ inr (inl (ground arith))
          | inr some_free ↦
              let lt : u - b < u = ground arith in
              inr (inr (y, at, λ same. cc (set, same, clear (u - b) (omega arith) lt)))
        ]
      ])

  -- After the block, which ends at `p`: the run goes on up to `e`.
  pub Halves-ahead :
      (p e q : ℕ) (l : List Tile)
      → Tiles crc bits word p l
      → p + total l ≡ q
      → p ≤ e
      → e ≤ q
      → ((x : ℕ) → p ≤ x → x < e → bits x ≡ true)
      → (e ≡ q) ⊎ (bits e ≡ false)
      → Halves crc bits word p e q l
  Halves-ahead p e q l t size low high clear last = halves p e q l t size low high (elim last [
    | inl end ↦ inr (inl end)
    | inr set ↦ elim (Bool-cases (e == p)) [
      | inl none_free ↦ inl (ground arith)
      | inr some_free ↦
          let lt : p < e = ground arith in
          inr (
            inr (
              e - 1,
              omega arith,
              λ same. cc (set, same, clear (e - 1) (omega arith) (omega arith)),
            ))
    ]
  ])

  pub Tiles-empty : (p : ℕ) (l : List Tile) → Tiles crc bits word p l → total l ≡ 0 → l ≡ []
  unfolding total
  Tiles-empty p [] t none_left = refl
  Tiles-empty p (s ∷ l) (pos, clear, head, rest) none_left = absurd (omega (arith, pos))
