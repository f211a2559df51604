-- ===== src/Nvmalloc/Block/Outcome.antt =====
-- The outcomes of `getFreeLocation` on a row of blocks.
use zalloc.Base.{
  ℕ, ◌+◌, ◌*◌, ◌<◌, ◌≡◌, ap, ◌∙◌, Bool, false, ◌⊎◌, List, [], ◌∷◌, ◌++◌, Option, none, some, Run,
  ok,
}
use zalloc.Nvmalloc.{base_size, Bitmap}
use zalloc.Nvmalloc.Header.{crc_compute}
use zalloc.Nvmalloc.Free.{Nvm, put}
use zalloc.Nvmalloc.Tiles.{Tile, live, total, total-append}
use zalloc.Nvmalloc.Tiles.Edges.{AllVacant}
use zalloc.Nvmalloc.Block.{IsLaidOut}

-- The new block has `k` units from `unit` on. It and the free blocks of `rest` take the place of the
-- free blocks of `gone`, or it lies past all blocks. The row has it once its header is written.
pub record Given (crc : ℕ → ℕ → ℕ) (st : Nvm) (l : List Tile) (k : ℕ) (r : Run (Option ℕ × Nvm))
    : Type 0 where
  pub unit : ℕ
  pub zone : ℕ
  pub top : ℕ
  pub pages : ℕ
  pub bitmap : Bitmap
  pub lists : ℕ → List ℕ
  pub word : ℕ → ℕ
  pub before : List Tile
  pub gone : List Tile
  pub rest : List Tile
  pub after : List Tile
  pub result :
      r
      ≡ ok (
        some (base_size * unit),
        record st {
          zone = zone;
          top = top;
          pages = pages;
          bitmap = bitmap;
          lists = lists;
          word = word;
        },
      )
  pub whole : l ≡ before ++ (gone ++ after)
  pub free : AllVacant gone
  pub left : AllVacant rest
  pub size : (total gone ≡ k + total rest) ⊎ ((gone ≡ []) × (rest ≡ []) × (after ≡ []))
  pub start : total before ≡ unit
  pub laid_out :
      IsLaidOut crc
        (record st {
          zone = zone;
          top = top;
          pages = pages;
          bitmap = bitmap;
          lists = lists;
          word = put word (base_size * unit) (crc_compute crc (base_size * unit) (base_size * k));
        })
        (before ++ (live k ∷ (rest ++ after)))

-- There is no memory: the row stays.
pub record Refused (crc : ℕ → ℕ → ℕ) (mapped : Bool) (st : Nvm) (l : List Tile) (k : ℕ)
    (r : Run (Option ℕ × Nvm)) : Type 0 where
  pub lists : ℕ → List ℕ
  pub unmapped : mapped ≡ false
  pub short : st.top < st.zone + base_size * k
  pub result : r ≡ ok (none, record st { lists = lists })
  pub laid_out : IsLaidOut crc (record st { lists = lists }) l

pub total-row :
    (before gone after : List Tile)
    → total (before ++ (gone ++ after)) ≡ total before + (total gone + total after)
total-row before gone after =
    total-append before (gone ++ after) ∙ ap (◌+◌ (total before)) (total-append gone after)

pub total-new :
    (before rest after : List Tile) (k : ℕ)
    → total (before ++ (live k ∷ (rest ++ after))) ≡ total before + (k + (total rest + total after))
unfolding total
total-new before rest after k =
    total-append before (live k ∷ (rest ++ after))
    ∙ ap (λ n. total before + (k + n)) (total-append rest after)
