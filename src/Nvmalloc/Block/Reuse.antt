-- ===== src/Nvmalloc/Block/Reuse.antt =====
-- `getFreeLocation` where a run of free blocks is long enough.
use mathlib.Core.Path.{subst}
use zalloc.Base.{
  ℕ, ◌+◌, ◌-◌, ◌*◌, ◌/◌, ◌^◌, ◌≤◌, ◌<◌, ◌≡◌, refl, sym, ap, ◌∙◌, Bool, true, false, inl, inr, List,
  ◌++◌, some, ok, ltb, arith,
}
use zalloc.Nvmalloc.{base_size, Bitmap, get_best_fit, make_one}
use zalloc.Nvmalloc.Fit.{get_best_fit-le}
use zalloc.Nvmalloc.Free.{Nvm, find_run, actual_size}
use zalloc.Nvmalloc.Heap.{use_run, get_free_location}
use zalloc.Nvmalloc.Marks.{is_clear, IsBitmap, Painted, make_one-Painted}
use zalloc.Nvmalloc.Search.Lists.{Places, Fits}
use zalloc.Nvmalloc.Take.Carve.{use_run-Taken}
use zalloc.Nvmalloc.Tiles.{Tile, total, Tiles-append, Tiles-same}
use zalloc.Nvmalloc.Tiles.Edges.{Tiles-Parts}
use zalloc.Nvmalloc.Block.{IsLaidOut, units_for, actual_size-units_for, settle}
use zalloc.Nvmalloc.Block.Outcome.{Given, total-row, total-new}
use zalloc.Nvmalloc.Block.Steps.{get_free_location-run}

module _ (crc : ℕ → ℕ → ℕ) (mapped : Bool) (st : Nvm) (l : List Tile) (size : ℕ)
    (laid : IsLaidOut crc st l) (pos : 0 < size) (small : st.top + size + 2 ^ 24 < 2 ^ 32) where
  pub some_units : 0 < units_for size
  some_units = omega arith

  pub same_size : actual_size size ≡ base_size * units_for size
  same_size = actual_size-units_for size pos (omega arith)

  pub low_index : ltb (get_best_fit size) (2 ^ 31) ≡ true
  low_index = let le = get_best_fit-le size pos in ground arith

  -- The bits of the new block are set.
  pub made :
      (bitmap : Bitmap) (u : ℕ)
      → IsBitmap bitmap
      → u + units_for size ≤ bitmap.size * 8
      → Painted false bitmap u
          (units_for size)
          (make_one bitmap (base_size * u) (actual_size size / base_size))
  made bitmap u valid room =
      let at : base_size * u / base_size ≡ u = omega arith in
      let count : base_size * units_for size / base_size ≡ units_for size = omega arith in
      rw (same_size, count)
        (subst
          (λ x.
            Painted false bitmap x (units_for size)
              (make_one bitmap (base_size * u) (units_for size)))
          at
          (make_one-Painted bitmap (base_size * u) (units_for size) valid (omega arith) some_units))

  pub run-Given :
      (lists : ℕ → List ℕ) (run : ℕ × ℕ)
      → find_run 132 st (base_size * units_for size) (get_best_fit size)
        ≡ ok (record st { lists = lists }, some run)
      → ((i : ℕ) → Places (lists i))
      → Fits (is_clear st.bitmap) (total l) (units_for size) run
      → Given crc st l (units_for size) (get_free_location crc mapped true st size)
  run-Given lists run found places fits =
      let s = fits.from_unit in
      let e = fits.to_unit in
      let k = units_for size in
      let st' : Nvm = record st { lists = lists } in
      let in_zone : e ≤ total l = fits.run_at.inside in
      let enough : units_for size ≤ e - s = fits.enough in
      let parts = Tiles-Parts crc (is_clear st.bitmap) st.word s e l laid.tiles fits.run_at in
      let taken =
        use_run-Taken crc st' (is_clear st.bitmap) s e (units_for size) parts.free parts.all_free
          parts.tiles_free parts.end fits.run_at.clear some_units fits.enough
          (omega (arith, laid.zone, laid.within)) (omega (arith, laid.zone, laid.within)) places in
      let painted =
        made st.bitmap s laid.bitmap (omega (arith, laid.zone, laid.within, laid.aligned)) in
      let old : total l ≡ total parts.before + (total parts.free + total parts.after) =
        ap total parts.whole ∙ total-row parts.before parts.free parts.after in
      let new = total-new parts.before taken.rest parts.after (units_for size) in
      let sums : units_for size + total taken.rest ≡ total parts.free =
        omega (arith, taken.size, parts.end) in
      let tail =
        Tiles-append crc (is_clear st.bitmap) taken.word (s + units_for size) taken.rest parts.after
          taken.tiles
          (rw taken.size (
            Tiles-same crc (is_clear st.bitmap) (is_clear st.bitmap) st.word taken.word e
              parts.after (λ x low high. refl) (λ x low high. taken.same x (inr low))
              parts.tiles_after)) in
      let front =
        Tiles-same crc (is_clear st.bitmap) (is_clear st.bitmap) st.word taken.word 0 parts.before
          (λ x low high. refl) (λ x low high. taken.same x (inl (omega (arith, parts.start))))
          parts.tiles_before in
      record {
        unit = s;
        zone = st.zone;
        top = st.top;
        pages = st.pages;
        bitmap = painted.after;
        lists = taken.lists;
        word = taken.word;
        before = parts.before;
        gone = parts.free;
        rest = taken.rest;
        after = parts.after;
        result =
            get_free_location-run crc mapped true st size low_index st'
              (record st { word = taken.word; lists = taken.lists }) run (base_size * s)
              painted.after (ap (λ n. find_run 132 st n (get_best_fit size)) same_size ∙ found)
              (ap (λ n. use_run crc st' n run.0 run.1) same_size
                ∙ (ap (λ x. use_run crc st' (base_size * units_for size) x run.1) fits.location
                    ∙ (ap (use_run crc st' (base_size * units_for size) (base_size * s)) fits.space
                        ∙ taken.result)))
              painted.result;
        whole = parts.whole;
        free = parts.all_free;
        left = taken.all_free;
        size = inl (sym sums);
        start = parts.start;
        laid_out = record {
          bitmap = painted.valid;
          aligned = omega (arith, laid.aligned, painted.size);
          zone = omega (arith, laid.zone, old, new, sums);
          within = laid.within;
          small = laid.small;
          tiles =
              settle crc (is_clear st.bitmap) (is_clear painted.after) taken.word s (units_for size)
                painted.bits some_units parts.before (taken.rest ++ parts.after) parts.start front
                tail;
          places = taken.places;
        };
      }
