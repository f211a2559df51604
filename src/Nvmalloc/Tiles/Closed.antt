-- ===== src/Nvmalloc/Tiles/Closed.antt =====
-- Rows that do not end in a free block.
use zalloc.Base.{
  ℕ, suc, ◌+◌, ◌<◌, ◌≡◌, refl, sym, ◌∙◌, Bool, false, ◌⊎◌, inl, inr, List, [], ◌∷◌, ◌++◌, arith,
}
use zalloc.Nvmalloc.Tiles.{Tile, live, held, vacant, units, is_vacant, total, Tiles}
use zalloc.Nvmalloc.Tiles.Edges.{AllVacant, more}

abbrev pub IsClosed : List Tile → Type 0
IsClosed [] = Unit
IsClosed (t ∷ []) = is_vacant t ≡ false
IsClosed (t ∷ (t' ∷ l)) = IsClosed (t' ∷ l)

pub IsClosed-cons : (t : Tile) (l : List Tile) → 0 < total l → IsClosed l → IsClosed (t ∷ l)
unfolding total
IsClosed-cons t [] some_left c = absurd (omega arith)
IsClosed-cons t (t' ∷ l) some_left c = c

pub IsClosed-append : (a b : List Tile) → 0 < total b → IsClosed b → IsClosed (a ++ b)
unfolding total
IsClosed-append [] b some_left c = c
IsClosed-append (t ∷ []) b some_left c = IsClosed-cons t b some_left c
IsClosed-append (t ∷ (t' ∷ a)) b some_left c = IsClosed-append (t' ∷ a) b some_left c

pub IsClosed-append_cons :
    (a : List Tile) (t : Tile) (b : List Tile) → IsClosed (t ∷ b) → IsClosed (a ++ (t ∷ b))
IsClosed-append_cons [] t b c = c
IsClosed-append_cons (x ∷ []) t b c = c
IsClosed-append_cons (x ∷ (x' ∷ a)) t b c = IsClosed-append_cons (x' ∷ a) t b c

-- A part at the end of a row.
pub IsClosed-rest : (a b : List Tile) → IsClosed (a ++ b) → IsClosed b
IsClosed-rest [] b c = c
IsClosed-rest (t ∷ []) [] c = tt
IsClosed-rest (t ∷ []) (t' ∷ b) c = c
IsClosed-rest (t ∷ (t' ∷ a)) b c = IsClosed-rest (t' ∷ a) b c

-- Another last block that is not free, or another block before the last.
pub IsClosed-swap :
    (t t' : Tile) (l : List Tile) → is_vacant t' ≡ false → IsClosed (t ∷ l) → IsClosed (t' ∷ l)
IsClosed-swap t t' [] taken c = taken
IsClosed-swap t t' (x ∷ l) taken c = c

pub AllVacant-IsClosed : (l : List Tile) → AllVacant l → IsClosed l → l ≡ []
AllVacant-IsClosed [] v c = refl
AllVacant-IsClosed (live n ∷ l) v c = elim v [ ]
AllVacant-IsClosed (held n ∷ l) v c = elim v [ ]
AllVacant-IsClosed (vacant n ∷ []) (more v) c = absurd (cc c)
AllVacant-IsClosed (vacant n ∷ (t ∷ l)) (more v) c = absurd (cc (AllVacant-IsClosed (t ∷ l) v c))

-- A row whose last bit is set, or without units.
pub Tiles-IsClosed :
    (crc : ℕ → ℕ → ℕ) (bits : ℕ → Bool) (word : ℕ → ℕ) (p e : ℕ) (l : List Tile)
    → Tiles crc bits word p l
    → p + total l ≡ e
    → (e ≡ p) ⊎ ((y : ℕ) × (suc y ≡ e) × (bits y ≡ false))
    → IsClosed l
unfolding total
Tiles-IsClosed crc bits word p e [] t size edge = tt
Tiles-IsClosed crc bits word p e (s ∷ []) (pos, clear, head, rest) size (inl none_left) =
    absurd (omega (arith, pos))
Tiles-IsClosed crc bits word p e (s ∷ []) (pos, clear, head, rest) size (inr (y, at, set)) =
    sym (clear y (omega (arith, pos)) (omega arith)) ∙ set
Tiles-IsClosed crc bits word p e (s ∷ (s' ∷ l)) (pos, clear, head, rest) size edge =
    Tiles-IsClosed crc bits word (p + units s) e (s' ∷ l) rest (omega arith)
      (elim edge [ inl none_left ↦ absurd (omega (arith, pos)) | inr last ↦ inr last ])
