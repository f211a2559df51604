-- ===== src/Nvmalloc/Block/Given.antt =====
-- `getFreeLocation` on a row of blocks: where the new block lies, and what becomes of the row.
use mathlib.Core.Path.{subst}
use zalloc.Base.{
  ℕ, ◌+◌, ◌*◌, ◌^◌, ◌≤◌, ◌<◌, ◌≡◌, refl, sym, ap, ◌∙◌, Bool, true, ◌⊎◌, inl, inr, List, [], ◌∷◌,
  ◌++◌, none, some, ok, ltb, arith, Bool-cases, Option-cases,
}
use zalloc.Nvmalloc.{base_size, Bitmap, get_best_fit}
use zalloc.Nvmalloc.Free.{Nvm, find_run}
use zalloc.Nvmalloc.Heap.{extend_zone, get_free_location}
use zalloc.Nvmalloc.Marks.{is_clear}
use zalloc.Nvmalloc.Search.Lists.{Places, FitsOption}
use zalloc.Nvmalloc.Search.Rounds.{find_run-Found, rounds-le}
use zalloc.Nvmalloc.Tiles.{Tile, total}
use zalloc.Nvmalloc.Tiles.Edges.{done}
use zalloc.Nvmalloc.Block.{IsLaidOut, IsLaidOut-Covers, units_for, settle}
use zalloc.Nvmalloc.Block.Grow.{get_more_memory-More, get_more_memory-none}
use zalloc.Nvmalloc.Block.Outcome.{Given, Refused, total-new}
use zalloc.Nvmalloc.Block.Steps.{
  get_free_location-zone, get_free_location-none, extend_zone-room, extend_zone-more,
  extend_zone-none,
}
use zalloc.Nvmalloc.Block.Reuse.{some_units, same_size, low_index, made, run-Given}

module _ (crc : ℕ → ℕ → ℕ) (mapped : Bool) (st : Nvm) (l : List Tile) (size : ℕ)
    (laid : IsLaidOut crc st l) (pos : 0 < size) (small : st.top + size + 2 ^ 24 < 2 ^ 32) where
  -- The block past all others, in memory that may have grown.
  zone-Given :
      (lists : ℕ → List ℕ) (top pages : ℕ) (bitmap : Bitmap)
      → find_run 132 st (base_size * units_for size) (get_best_fit size)
        ≡ ok (record st { lists = lists }, none)
      → IsLaidOut crc (record st { lists = lists; top = top; pages = pages; bitmap = bitmap }) l
      → st.zone + base_size * units_for size ≤ top
      → extend_zone crc mapped true (record st { lists = lists }) (base_size * units_for size)
        ≡ ok (
          some st.zone,
          record st {
            lists = lists;
            top = top;
            pages = pages;
            bitmap = bitmap;
            zone = st.zone + base_size * units_for size;
          },
        )
      → Given crc st l (units_for size) (get_free_location crc mapped true st size)
  zone-Given lists top pages bitmap found now room extended =
      let st' : Nvm = record st { lists = lists } in
      let painted =
        made crc mapped st l size laid pos small bitmap (total l) now.bitmap
          (omega (arith, laid.zone, room, now.aligned)) in
      let new = total-new l [] [] (units_for size) in
      record {
        unit = total l;
        zone = st.zone + base_size * units_for size;
        top = top;
        pages = pages;
        bitmap = painted.after;
        lists = lists;
        word = st.word;
        before = l;
        gone = [];
        rest = [];
        after = [];
        result =
            get_free_location-zone crc mapped true st size
              (low_index crc mapped st l size laid pos small) st'
              (record st {
                lists = lists;
                top = top;
                pages = pages;
                bitmap = bitmap;
                zone = st.zone + base_size * units_for size;
              })
              (base_size * total l) painted.after
              (ap (λ n. find_run 132 st n (get_best_fit size))
                  (same_size crc mapped st l size laid pos small)
                ∙ found)
              (ap (extend_zone crc mapped true st') (same_size crc mapped st l size laid pos small)
                ∙ (extended
                    ∙ ap
                        (λ x. ok (
                          some x,
                          record st {
                            lists = lists;
                            top = top;
                            pages = pages;
                            bitmap = bitmap;
                            zone = st.zone + base_size * units_for size;
                          },
                        ))
                        laid.zone))
              painted.result;
        whole = sym (append_nil l);
        free = done;
        left = done;
        size = inr (refl, refl, refl);
        start = refl;
        laid_out = record {
          bitmap = painted.valid;
          aligned = omega (arith, now.aligned, painted.size);
          zone = omega (arith, laid.zone, new, none_total);
          within = room;
          small = now.small;
          tiles =
              settle crc (is_clear bitmap) (is_clear painted.after) st.word (total l)
                (units_for size) painted.bits (some_units crc mapped st l size laid pos small) l []
                refl now.tiles tt;
          places = now.places;
        };
      }
    where
      append_nil : (l : List Tile) → l ++ [] ≡ l
      append_nil [] = refl
      append_nil (t ∷ l) = ap (◌∷◌ t) (append_nil l)

      none_total : total [] ≡ 0
      none_total = unfold total in refl

  -- What follows a search that finds nothing.
  none-Given :
      (lists : ℕ → List ℕ)
      → find_run 132 st (base_size * units_for size) (get_best_fit size)
        ≡ ok (record st { lists = lists }, none)
      → ((i : ℕ) → Places (lists i))
      → Given crc st l (units_for size) (get_free_location crc mapped true st size)
        ⊎ Refused crc mapped st l (units_for size) (get_free_location crc mapped true st size)
  none-Given lists found places =
      let st' : Nvm = record st { lists = lists } in
      let laid' : IsLaidOut crc (record st { lists = lists }) l = record {
        bitmap = laid.bitmap;
        aligned = laid.aligned;
        zone = laid.zone;
        within = laid.within;
        small = laid.small;
        tiles = laid.tiles;
        places = places;
      } in
      elim (Bool-cases (ltb st.top (st.zone + base_size * units_for size))) [
        | inr holds ↦ inl (
            zone-Given lists st.top st.pages st.bitmap found laid' (ground arith)
              (extend_zone-room crc st' (base_size * units_for size) mapped true holds))
        | inl short ↦ elim (Bool-cases mapped) [
          | inl gives ↦
              let more =
                get_more_memory-More crc st' l (base_size * units_for size) laid' (omega arith) in
              let grown : Nvm = record st' {
                top = st.top + more.bytes;
                pages = more.pages;
                bitmap = more.bitmap;
              } in
              inl (
                zone-Given lists (st.top + more.bytes) more.pages more.bitmap found more.laid_out
                  (omega (arith, laid.within, more.enough))
                  (extend_zone-more crc st' (base_size * units_for size) mapped true grown short
                    (rw gives more.result)))
          | inr refused ↦ inr (record {
            lists = lists;
            unmapped = refused;
            short = ground arith;
            result =
                get_free_location-none crc mapped true st size
                  (low_index crc mapped st l size laid pos small) st' st'
                  (ap (λ n. find_run 132 st n (get_best_fit size))
                      (same_size crc mapped st l size laid pos small)
                    ∙ found)
                  (ap (extend_zone crc mapped true st')
                      (same_size crc mapped st l size laid pos small)
                    ∙ extend_zone-none crc st' (base_size * units_for size) mapped true short (
                        rw refused (
                          get_more_memory-none true st' (base_size * units_for size)
                            (omega arith))));
            laid_out = laid';
          })
        ]
      ]

  -- On a row of blocks, `getFreeLocation` ends without a fault for a size that is not 0, where the
  -- memory, the size and 2^24 bytes are less than 2^32 together and `realloc` gives the bitmap. Either it gives the place of
  -- a block of as many units as the size takes, where free blocks were or past all blocks, the other
  -- blocks and what is left of the free ones staying a row with it once its header is written, or
  -- `mmap` gives nothing, the memory is too short, and the row stays.
  pub get_free_location-Given :
      Given crc st l (units_for size) (get_free_location crc mapped true st size)
      ⊎ Refused crc mapped st l (units_for size) (get_free_location crc mapped true st size)
  get_free_location-Given =
      let f =
        find_run-Found 132 st (total l) (units_for size) (get_best_fit size)
          (IsLaidOut-Covers crc st l laid) laid.zone
          (some_units crc mapped st l size laid pos small) laid.places
          (omega (arith, rounds-le (get_best_fit size) (st.lists (get_best_fit size)))) in
      elim (Option-cases f.found) [
        | inl e ↦
            none-Given f.lists (f.result ∙ ap (λ x. ok (record st { lists = f.lists }, x)) e)
              f.places
        | inr (run, e) ↦ inl (
            run-Given crc mapped st l size laid pos small f.lists run
              (f.result ∙ ap (λ x. ok (record st { lists = f.lists }, x)) e) f.places
              (subst (FitsOption (is_clear st.bitmap) (total l) (units_for size)) e f.fits))
      ]
