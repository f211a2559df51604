-- ===== src/Nvmalloc/Release/Outcome.antt =====
-- The outcome of a release on a row of blocks.
use zalloc.Base.{ℕ, ◌+◌, ◌<◌, ◌≡◌, ◌⊎◌, List, [], ◌∷◌, ◌++◌, Run, ok}
use zalloc.Nvmalloc.{Bitmap}
use zalloc.Nvmalloc.Free.{Nvm}
use zalloc.Nvmalloc.Tiles.{Tile, vacant, total}
use zalloc.Nvmalloc.Tiles.Edges.{AllVacant}
use zalloc.Nvmalloc.Tiles.Closed.{IsClosed}
use zalloc.Nvmalloc.Block.{IsLaidOut}

-- The blocks of `inner` and `inner'` are free and lie next to the released block of `n` units. They
-- leave the row with it, where the zone is reached; otherwise it grows by those after it.
pub record Released (crc : ℕ → ℕ → ℕ) (st : Nvm) (before : List Tile) (n : ℕ) (after : List Tile)
    (r : Run Nvm) : Type 0 where
  pub zone : ℕ
  pub bitmap : Bitmap
  pub lists : ℕ → List ℕ
  pub word : ℕ → ℕ
  pub outer : List Tile
  pub inner : List Tile
  pub inner' : List Tile
  pub outer' : List Tile
  pub row : List Tile
  pub result : r ≡ ok (record st { zone = zone; bitmap = bitmap; lists = lists; word = word })
  pub before_is : before ≡ outer ++ inner
  pub after_is : after ≡ inner' ++ outer'
  pub free : AllVacant inner
  pub free' : AllVacant inner'
  pub row_is :
      ((row ≡ outer) × (outer' ≡ []))
      ⊎ ((row ≡ outer ++ (inner ++ (vacant (n + total inner') ∷ outer'))) × (0 < total outer'))
  pub closed : IsClosed outer
  pub laid_out :
      IsLaidOut crc (record st { zone = zone; bitmap = bitmap; lists = lists; word = word }) row
