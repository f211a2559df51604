-- ===== src/Nvmalloc/Tiles.antt =====
-- What the bitmap and the headers of inc/nvmalloc/nvmalloc.c stand for: the used zone is a row of
-- blocks, each in use, waiting, or free.
pub mod Edges
pub mod Closed
use zalloc.Base.{
  ℕ, zero, suc, ◌+◌, ◌-◌, ◌*◌, ◌^◌, ◌≤◌, ◌<◌, ◌≡◌, refl, sym, ap, ◌∙◌, Bool, true, false, List, [],
  ◌∷◌, ◌++◌, Option, none, some, ◌==◌, if◌then◌else◌, arith,
}
use zalloc.Nvmalloc.{base_size}
use zalloc.Nvmalloc.Header.{negate, crc_compute}

-- A block of so many units.
pub data Tile : Type 0 where
  live held vacant : ℕ → Tile

abbrev pub units : Tile → ℕ
units (live n) = n
units (held n) = n
units (vacant n) = n

abbrev pub is_vacant : Tile → Bool
is_vacant (live n) = false
is_vacant (held n) = false
is_vacant (vacant n) = true

unfoldable pub total : List Tile → ℕ
total [] = 0
total (s ∷ l) = units s + total l

module _ (crc : ℕ → ℕ → ℕ) where
  -- The header of a block at unit `p`.
  abbrev pub header : ℕ → Tile → ℕ
  header p (live n) = crc_compute crc (base_size * p) (base_size * n)
  header p (held n) = negate (crc_compute crc (base_size * p) (base_size * n + 1))
  header p (vacant n) = negate (crc_compute crc (base_size * p) (base_size * n))

  -- From unit `p` on the blocks of the list follow each other: `bits` are the clear bits of the
  -- bitmap, `word` the headers.
  abbrev pub Tiles : (ℕ → Bool) → (ℕ → ℕ) → ℕ → List Tile → Type 0
  Tiles bits word p [] = Unit
  Tiles bits word p (s ∷ l) =
      (0 < units s)
      × ((x : ℕ) → p ≤ x → x < p + units s → bits x ≡ is_vacant s)
      × (word (base_size * p) ≡ header p s)
      × Tiles bits word (p + units s) l

  pub Tiles-append :
      (bits : ℕ → Bool) (word : ℕ → ℕ) (p : ℕ) (a b : List Tile)
      → Tiles bits word p a
      → Tiles bits word (p + total a) b
      → Tiles bits word p (a ++ b)
  unfolding total
  Tiles-append bits word p [] b ta tb = let same : p + 0 ≡ p = omega arith in rw same at tb
  Tiles-append bits word p (s ∷ a) b (pos, clear, head, rest) tb =
      (pos, clear, head, Tiles-append bits word (p + units s) a b rest (rw (assoc (units s)) at tb))
    where
      assoc : (u : ℕ) → p + (u + total a) ≡ p + u + total a
      assoc u = omega arith

  pub Tiles-split :
      (bits : ℕ → Bool) (word : ℕ → ℕ) (p : ℕ) (a b : List Tile)
      → Tiles bits word p (a ++ b)
      → Tiles bits word p a × Tiles bits word (p + total a) b
  unfolding total
  Tiles-split bits word p [] b t = (tt, let same : p ≡ p + 0 = omega arith in rw same at t)
  Tiles-split bits word p (s ∷ a) b (pos, clear, head, rest) =
      let (ta, tb) = Tiles-split bits word (p + units s) a b rest in
      ((pos, clear, head, ta), rw (assoc (units s)) at tb)
    where
      assoc : (u : ℕ) → p + u + total a ≡ p + (u + total a)
      assoc u = omega arith

  -- Only the units of the blocks matter.
  pub Tiles-same :
      (bits bits' : ℕ → Bool) (word word' : ℕ → ℕ) (p : ℕ) (l : List Tile)
      → ((x : ℕ) → p ≤ x → x < p + total l → bits' x ≡ bits x)
      → ((x : ℕ) → p ≤ x → x < p + total l → word' (base_size * x) ≡ word (base_size * x))
      → Tiles bits word p l
      → Tiles bits' word' p l
  unfolding total
  Tiles-same bits bits' word word' p [] sb sw t = tt
  Tiles-same bits bits' word word' p (s ∷ l) sb sw (pos, clear, head, rest) = (
    pos,
    λ x low high. sb x low (omega arith) ∙ clear x low high,
    sw p (omega arith) (omega arith) ∙ head,
    Tiles-same bits bits' word word' (p + units s) l
        (λ x low high. sb x (omega arith) (omega arith))
        (λ x low high. sw x (omega arith) (omega arith)) rest,
  )

pub total-append : (a b : List Tile) → total (a ++ b) ≡ total a + total b
unfolding total
total-append [] b = zero_add (total b)
  where
    zero_add : (n : ℕ) → n ≡ 0 + n
    zero_add n = omega arith
total-append (s ∷ a) b = omega (arith, total-append a b)
