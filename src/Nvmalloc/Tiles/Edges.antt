-- ===== src/Nvmalloc/Tiles/Edges.antt =====
-- A row of blocks is cut at an edge of the bitmap, and a run of clear bits between edges is a row of
-- free blocks.
use zalloc.Base.{
  ℕ, suc, ◌+◌, ◌-◌, ◌≤◌, ◌<◌, ◌≡◌, ◌≢◌, refl, sym, ap, ◌∙◌, Bool, true, false, ◌⊎◌, inl, inr, List,
  [], ◌∷◌, ◌++◌, ltb, ◌==◌, arith, Bool-cases, ==_true,
}
use zalloc.Nvmalloc.Tiles.{Tile, live, held, vacant, units, total, total-append, Tiles, Tiles-split}

-- The ends of a row from `p` to `q`, and every place where the bits change.
abbrev pub IsEdge : (ℕ → Bool) → ℕ → ℕ → ℕ → Type 0
IsEdge bits p q x = (x ≡ p) ⊎ ((x ≡ q) ⊎ ((y : ℕ) × (suc y ≡ x) × (bits y ≢ bits x)))

-- A row in two parts that meet at `x`.
pub record Cut (p x : ℕ) (l : List Tile) : Type 0 where
  pub before : List Tile
  pub after : List Tile
  pub whole : l ≡ before ++ after
  pub at : p + total before ≡ x

pub data AllVacant : List Tile → Type 0 where
  done : AllVacant []
  more : {n : ℕ} {l : List Tile} → AllVacant l → AllVacant (vacant n ∷ l)

-- A run of clear bits from `s` to `e` that does not go on before or after.
pub record RunAt (bits : ℕ → Bool) (q s e : ℕ) : Type 0 where
  pub some_units : s < e
  pub inside : e ≤ q
  pub clear : (x : ℕ) → s ≤ x → x < e → bits x ≡ true
  pub first : (s ≡ 0) ⊎ ((y : ℕ) × (suc y ≡ s) × (bits y ≡ false))
  pub last : (e ≡ q) ⊎ (bits e ≡ false)

module _ (crc : ℕ → ℕ → ℕ) (bits : ℕ → Bool) (word : ℕ → ℕ) where
  Cut-here : (p x : ℕ) (l : List Tile) → x ≡ p → Cut p x l
  unfolding total
  Cut-here p x l e = record { before = []; after = l; whole = refl; at = omega arith }

  Cut-later : (p x : ℕ) (s : Tile) (l : List Tile) → Cut (p + units s) x l → Cut p x (s ∷ l)
  unfolding total
  Cut-later p x s l c = record {
    before = s ∷ c.before;
    after = c.after;
    whole = ap (◌∷◌ s) c.whole;
    at = omega (arith, c.at);
  }

  pub Tiles-Cut :
      (p x : ℕ) (l : List Tile)
      → Tiles crc bits word p l
      → p ≤ x
      → x ≤ p + total l
      → IsEdge bits p (p + total l) x
      → Cut p x l
  unfolding total
  Tiles-Cut p x [] t low high edge = Cut-here p x [] (omega arith)
  Tiles-Cut p x (s ∷ l) (pos, same, head, rest) low high edge = elim (Bool-cases (x == p)) [
    | inl first ↦ Cut-here p x (s ∷ l) (==_true x p first)
    | inr later ↦
        let apart : p < x = ground arith in
        elim (Bool-cases (ltb x (p + units s))) [
          | inl inside ↦
              let lt : x < p + units s = ground arith in
              elim edge [
                | inl e ↦ absurd (omega arith)
                | inr (inl e) ↦ absurd (omega arith)
                | inr (inr (y, e, ne)) ↦
                    absurd (ne (same y (omega arith) (omega arith) ∙ sym (same x low lt)))
              ]
          | inr past ↦
              let ge : p + units s ≤ x = ground arith in
              Cut-later p x s l (
                Tiles-Cut (p + units s) x l rest ge (omega arith) (elim edge [
                  | inl e ↦ absurd (omega arith)
                  | inr (inl e) ↦ inr (inl (omega arith))
                  | inr (inr w) ↦ inr (inr w)
                ]))
        ]
  ]

  pub Tiles-AllVacant :
      (p : ℕ) (l : List Tile)
      → Tiles crc bits word p l
      → ((x : ℕ) → p ≤ x → x < p + total l → bits x ≡ true)
      → AllVacant l
  unfolding total
  Tiles-AllVacant p [] t clear = done
  Tiles-AllVacant p (live n ∷ l) (pos, same, head, rest) clear =
      absurd (cc (clear p (omega arith) (omega arith), same p (omega arith) (omega arith)))
  Tiles-AllVacant p (held n ∷ l) (pos, same, head, rest) clear =
      absurd (cc (clear p (omega arith) (omega arith), same p (omega arith) (omega arith)))
  Tiles-AllVacant p (vacant n ∷ l) (pos, same, head, rest) clear =
      more (Tiles-AllVacant (p + n) l rest (λ x low high. clear x (omega arith) (omega arith)))

  -- The row before a run, the free blocks of the run, and the row after it.
  pub record Parts (s e : ℕ) (l : List Tile) : Type 0 where
    pub before : List Tile
    pub free : List Tile
    pub after : List Tile
    pub whole : l ≡ before ++ (free ++ after)
    pub start : total before ≡ s
    pub end : s + total free ≡ e
    pub all_free : AllVacant free
    pub tiles_before : Tiles crc bits word 0 before
    pub tiles_free : Tiles crc bits word s free
    pub tiles_after : Tiles crc bits word e after

  first-IsEdge : (q s e : ℕ) → RunAt bits q s e → IsEdge bits 0 q s
  first-IsEdge q s e run = elim run.first [
    | inl none ↦ inl none
    | inr (y, at, set) ↦
        inr (inr (y, at, λ same. cc (set, same, run.clear s (omega arith) run.some_units)))
  ]

  last-IsEdge : (q s e : ℕ) → RunAt bits q s e → IsEdge bits s q e
  last-IsEdge q s e run = elim run.last [
    | inl all ↦ inr (inl all)
    | inr set ↦
        let lt : s < e = run.some_units in
        inr (
          inr (
            e - 1,
            omega arith,
            λ same. cc (set, same, run.clear (e - 1) (omega arith) (omega arith)),
          ))
  ]

  -- A run between edges is a row of free blocks.
  pub Tiles-Parts :
      (s e : ℕ) (l : List Tile) → Tiles crc bits word 0 l → RunAt bits (total l) s e → Parts s e l
  Tiles-Parts s e l t run =
      let c =
        Tiles-Cut 0 s l t (omega arith) (omega (arith, run.some_units, run.inside))
          (first_edge_at (first-IsEdge (total l) s e run)) in
      let (tb, ta) = Tiles-split crc bits word 0 c.before c.after (rw c.whole at t) in
      let ta' : Tiles crc bits word s c.after = rw c.at at ta in
      let size : total l ≡ total c.before + total c.after =
        ap total c.whole ∙ total-append c.before c.after in
      let end : s + total c.after ≡ total l = omega (arith, c.at, size) in
      let d =
        Tiles-Cut s e c.after ta' (omega (arith, run.some_units)) (omega (arith, run.inside, end))
          (rw end (last-IsEdge (total l) s e run)) in
      let (tf, tl) = Tiles-split crc bits word s d.before d.after (rw d.whole at ta') in
      record {
        before = c.before;
        free = d.before;
        after = d.after;
        whole = c.whole ∙ ap (◌++◌ c.before) d.whole;
        start = omega (arith, c.at);
        end = d.at;
        all_free =
            Tiles-AllVacant s d.before tf (λ x low high. run.clear x low (omega (arith, d.at)));
        tiles_before = tb;
        tiles_free = tf;
        tiles_after = rw d.at at tl;
      }
    where
      first_edge_at : IsEdge bits 0 (total l) s → IsEdge bits 0 (0 + total l) s
      first_edge_at w = let same : 0 + total l ≡ total l = omega arith in rw same w
