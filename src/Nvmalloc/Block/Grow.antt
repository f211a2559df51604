-- ===== src/Nvmalloc/Block/Grow.antt =====
-- `getMoreMemory`: the pages that it asks for are enough, and the row of blocks stays.
use zalloc.Base.{
  ℕ, zero, suc, ◌+◌, ◌*◌, ◌/◌, ◌%◌, ◌^◌, ◌≤◌, ◌<◌, ◌≡◌, refl, Bool, true, false, ◌⊎◌, inl, inr,
  List, Option, none, some, Run, ok, ltb, if◌then◌else◌, arith, Bool-cases,
}
use zalloc.Nvmalloc.{base_size, Bitmap}
use zalloc.Nvmalloc.Free.{Nvm, page_bytes, new_alloc_pages, more_pages, get_more_memory}
use zalloc.Nvmalloc.Marks.{is_clear}
use zalloc.Nvmalloc.Tiles.{Tile, total, Tiles-same}
use zalloc.Nvmalloc.Block.{IsLaidOut}

-- The outcome of the loop: pages that hold the size, and no page more but for the first `n`.
record Pages (size n : ℕ) (r : Run ℕ) : Type 0 where
  pub count : ℕ
  pub result : r ≡ ok count
  pub enough : size ≤ count * page_bytes
  pub least : (count ≡ n) ⊎ (count * page_bytes < size + page_bytes)

no_wrap :
    (size n : ℕ)
    → (n ≡ new_alloc_pages) ⊎ (n * page_bytes < size + page_bytes)
    → size + 2 ^ 23 < 2 ^ 32
    → n * page_bytes % 2 ^ 32 ≡ n * page_bytes
no_wrap size n (inl e) small = omega arith
no_wrap size n (inr h) small = omega arith

more_pages-Pages :
    (fuel size n : ℕ)
    → size ≤ (n + fuel) * page_bytes
    → (n ≡ new_alloc_pages) ⊎ (n * page_bytes < size + page_bytes)
    → size + 2 ^ 23 < 2 ^ 32
    → Pages size new_alloc_pages (more_pages (suc fuel) size n)
unfolding more_pages
more_pages-Pages zero size n enough low small =
    let holds : ltb (n * page_bytes) size ≡ false = ground arith in
    rw (no_wrap size n low small, holds)
      (record { count = n; result = refl; enough = omega arith; least = low })
more_pages-Pages (suc fuel) size n enough low small =
    rw (no_wrap size n low small) (elim (Bool-cases (ltb (n * page_bytes) size)) [
      | inr holds ↦ record { count = n; result = rw holds refl; enough = ground arith; least = low }
      | inl short ↦
          let lt : n * page_bytes < size = ground arith in
          rw short (more_pages-Pages fuel size (n + 1) (omega arith) (inr (omega arith)) small)
    ])

-- The outcome of a call that gives memory: `bytes` more, and the same row of blocks.
pub record More (crc : ℕ → ℕ → ℕ) (st : Nvm) (l : List Tile) (size : ℕ) (r : Run (Option Nvm))
    : Type 0 where
  pub bytes : ℕ
  pub pages : ℕ
  pub bitmap : Bitmap
  pub result : r ≡ ok (some (record st { top = st.top + bytes; pages = pages; bitmap = bitmap }))
  pub enough : size ≤ bytes
  pub laid_out :
      IsLaidOut crc (record st { top = st.top + bytes; pages = pages; bitmap = bitmap }) l

pub get_more_memory-More :
    (crc : ℕ → ℕ → ℕ) (st : Nvm) (l : List Tile) (size : ℕ)
    → IsLaidOut crc st l
    → st.top + size + 2 ^ 23 < 2 ^ 32
    → More crc st l size (get_more_memory true true st size)
unfolding get_more_memory
get_more_memory-More crc st l size laid small =
    let fuel : size / page_bytes + 2 ≡ suc (size / page_bytes + 1) = omega arith in
    let p =
      more_pages-Pages (size / page_bytes + 1) size new_alloc_pages (omega arith) (inl refl)
        (omega arith) in
    let n = p.count in
    let top : p.count * page_bytes ≤ size + 2 ^ 22 + page_bytes = elim p.least [
      | inl e ↦ omega (arith, e)
      | inr h ↦ omega arith
    ] in
    let bytes : p.count * page_bytes % 2 ^ 32 ≡ p.count * page_bytes = omega arith in
    let bitmap : Bitmap = record {
      size = st.bitmap.size + p.count * page_bytes / base_size / 8;
      bytes = λ i. if ltb i st.bitmap.size then st.bitmap.bytes i else 0;
    } in
    record {
      bytes = p.count * page_bytes;
      pages = (st.pages + p.count) % 2 ^ 32;
      bitmap = bitmap;
      result = rw (fuel, p.result, bytes) refl;
      enough = p.enough;
      laid_out = record {
        bitmap = record {
          narrow = λ i. elim (Bool-cases (ltb i st.bitmap.size)) [
            | inl old ↦ rw old (laid.bitmap.narrow i)
            | inr new ↦ rw new (omega arith)
          ];
          small = omega (arith, laid.aligned);
        };
        aligned = omega (arith, laid.aligned);
        zone = laid.zone;
        within = omega (arith, laid.within);
        small = omega arith;
        tiles =
            Tiles-same crc (is_clear st.bitmap) (is_clear bitmap) st.word st.word 0 l
              (λ x low high.
                (let old : ltb (x / 8) st.bitmap.size ≡ true =
                    inside x (total l) st.bitmap.size high
                      (omega (arith, laid.zone, laid.within, laid.aligned)) in
                  rw old refl))
              (λ x low high. refl) laid.tiles;
        places = laid.places;
      };
    }
  where
    inside : (x t size : ℕ) → x < 0 + t → t ≤ size * 8 → ltb (x / 8) size ≡ true
    inside x t size low le = ground arith

-- Without memory nothing changes.
pub get_more_memory-none :
    (got : Bool) (st : Nvm) (size : ℕ)
    → size + 2 ^ 23 < 2 ^ 32
    → get_more_memory false got st size ≡ ok none
unfolding get_more_memory
get_more_memory-none got st size small =
    let fuel : size / page_bytes + 2 ≡ suc (size / page_bytes + 1) = omega arith in
    let p =
      more_pages-Pages (size / page_bytes + 1) size new_alloc_pages (omega arith) (inl refl)
        small in
    rw (fuel, p.result) refl
