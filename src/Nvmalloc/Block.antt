-- ===== src/Nvmalloc/Block.antt =====
-- The state of inc/nvmalloc/nvmalloc.c whose used zone is a row of blocks, and a new block in it.
pub mod Grow
pub mod Outcome
pub mod Steps
pub mod Reuse
pub mod Given
mod Tests
use zalloc.Base.{
  ℕ, zero, suc, ◌+◌, ◌-◌, ◌*◌, ◌/◌, ◌%◌, ◌^◌, ◌≤◌, ◌<◌, ◌≡◌, refl, sym, ap, ◌∙◌, Bool, true, false,
  ◌&&◌, List, [], ◌∷◌, ◌++◌, ◌⊎◌, inl, inr, ltb, leb, ◌==◌, if◌then◌else◌, arith, Bool-cases,
}
use zalloc.Nvmalloc.{base_size, nr_sizes, get_best_fit}
use zalloc.Nvmalloc.Fit.{get_best_fit-least}
use zalloc.Nvmalloc.Header.{crc_compute}
use zalloc.Nvmalloc.Free.{Nvm, put, actual_size}
use zalloc.Nvmalloc.Marks.{is_clear, IsBitmap}
use zalloc.Nvmalloc.Search.{Covers}
use zalloc.Nvmalloc.Search.Lists.{Places}
use zalloc.Nvmalloc.Tiles.{Tile, live, units, total, Tiles, Tiles-append, Tiles-same}

-- The blocks of the list lie from the start of the memory to the zone, and the bitmap has a bit for
-- each unit of the memory.
pub record IsLaidOut (crc : ℕ → ℕ → ℕ) (st : Nvm) (l : List Tile) : Type 0 where
  pub bitmap : IsBitmap st.bitmap
  pub aligned : st.top ≡ base_size * (st.bitmap.size * 8)
  pub zone : st.zone ≡ base_size * total l
  pub within : st.zone ≤ st.top
  pub small : st.top < 2 ^ 32
  pub tiles : Tiles crc (is_clear st.bitmap) st.word 0 l
  pub places : (i : ℕ) → Places (st.lists i)

pub IsLaidOut-Covers :
    (crc : ℕ → ℕ → ℕ) (st : Nvm) (l : List Tile) → IsLaidOut crc st l → Covers st.bitmap (total l)
IsLaidOut-Covers crc st l laid =
    let low : base_size * total l < 2 ^ 32 = omega (arith, laid.zone, laid.within, laid.small) in
    record {
      bitmap = laid.bitmap;
      room = omega (arith, laid.aligned, laid.zone, laid.within);
      small = omega arith;
    }

-- The units that a block of so many bytes takes.
abbrev pub units_for : ℕ → ℕ
units_for size = (size + 63) / 64

actual_size-large :
    (size : ℕ)
    → ltb (nr_sizes * base_size) size ≡ true
    → size + 64 ≤ 2 ^ 32
    → actual_size size ≡ base_size * units_for size
unfolding get_best_fit
actual_size-large size large low = rw large (elim (Bool-cases (size % 64 == 0)) [
  | inl whole ↦ let none_over : size % 64 ≡ 0 = ground arith in rw whole (omega arith)
  | inr part ↦ let some_over : 0 < size % 64 = ground arith in rw part (omega arith)
])

pub actual_size-units_for :
    (size : ℕ) → 0 < size → size + 64 ≤ 2 ^ 32 → actual_size size ≡ base_size * units_for size
actual_size-units_for size pos low = elim (Bool-cases (ltb (nr_sizes * base_size) size)) [
  | inl large ↦ actual_size-large size large low
  | inr fits ↦
      let le : size ≤ nr_sizes * base_size = ground arith in
      let (few, holds, least) = get_best_fit-least size pos le in
      let under : ltb (get_best_fit size) nr_sizes ≡ true = ground arith in
      let same : (get_best_fit size + 1) * base_size ≡ base_size * units_for size =
        nearest (get_best_fit size) size holds least in
      rw under same
]
  where
    nearest :
        (i size : ℕ)
        → size ≤ base_size * (i + 1)
        → base_size * i < size
        → (i + 1) * base_size ≡ base_size * units_for size
    nearest i size holds least = omega arith

module _ (crc : ℕ → ℕ → ℕ) (bits bits' : ℕ → Bool) (word : ℕ → ℕ) (at k : ℕ)
    (painted : (x : ℕ) → bits' x ≡ (if leb at x && ltb x (at + k) then false else bits x))
    (pos : 0 < k) where
  -- The headers once the new block has its own.
  abbrev pub sealed : ℕ → ℕ
  sealed = put word (base_size * at) (crc_compute crc (base_size * at) (base_size * k))

  untouched : (x : ℕ) → (x < at) ⊎ (at + k ≤ x) → bits' x ≡ bits x
  untouched x h =
      let outside : (leb at x && ltb x (at + k)) ≡ false = ground arith in
      rw (painted x, outside) refl

  apart : (x : ℕ) → (x < at) ⊎ (at + k ≤ x) → sealed (base_size * x) ≡ word (base_size * x)
  apart x h = let other : (base_size * at == base_size * x) ≡ false = ground arith in rw other refl

  own : sealed (base_size * at) ≡ crc_compute crc (base_size * at) (base_size * k)
  own = let same : (base_size * at == base_size * at) ≡ true = ground arith in rw same refl

  taken : (x : ℕ) → at ≤ x → x < at + k → bits' x ≡ false
  taken x low high =
      let inside : (leb at x && ltb x (at + k)) ≡ true = ground arith in rw (painted x, inside) refl

  -- The row with the new block.
  pub settle :
      (before rest : List Tile)
      → total before ≡ at
      → Tiles crc bits word 0 before
      → Tiles crc bits word (at + k) rest
      → Tiles crc bits' sealed 0 (before ++ (live k ∷ rest))
  settle before rest start tb tr =
      let tb' =
        Tiles-same crc bits bits' word sealed 0 before
          (λ x low high. untouched x (inl (omega (arith, start))))
          (λ x low high. apart x (inl (omega (arith, start)))) tb in
      let tr' =
        Tiles-same crc bits bits' word sealed (at + k) rest (λ x low high. untouched x (inr low))
          (λ x low high. apart x (inr low)) tr in
      let from : 0 + total before ≡ at = omega (arith, start) in
      Tiles-append crc bits' sealed 0 before (live k ∷ rest) tb' (rw from (pos, taken, own, tr'))
