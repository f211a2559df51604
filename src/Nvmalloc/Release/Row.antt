-- ===== src/Nvmalloc/Release/Row.antt =====
-- The two calls together: the row of blocks once a block is released.
use zalloc.Base.{
  ℕ, ◌+◌, ◌-◌, ◌*◌, ◌≤◌, ◌<◌, ◌≡◌, refl, sym, ap, ◌∙◌, inl, inr, List, ◌∷◌, ◌++◌, ◌>>=◌, ltb, arith,
  Bool-cases,
}
use zalloc.Nvmalloc.{base_size}
use zalloc.Nvmalloc.Header.{negate, crc_compute}
use zalloc.Nvmalloc.Free.{Nvm, put}
use zalloc.Nvmalloc.Release.Words.{put_other}
use zalloc.Nvmalloc.Heap.{extend_free_location, insert_free_location}
use zalloc.Nvmalloc.Marks.{is_clear}
use zalloc.Nvmalloc.Tiles.{Tile, held, vacant, total, Tiles-same}
use zalloc.Nvmalloc.Block.{IsLaidOut, IsLaidOut-Covers}
use zalloc.Nvmalloc.Release.Halves.{Tiles-empty}
use zalloc.Nvmalloc.Release.Insert.{insert_free_location-zone, insert_free_location-Listed}
use zalloc.Nvmalloc.Release.Outcome.{Released}
use zalloc.Nvmalloc.Release.Sides.{
  FreedHere, positive, freed, sides_after, both, free_before, free_after, same_total, listed-Tiles,
  before-IsClosed,
}

module _ (crc : ℕ → ℕ → ℕ) (st : Nvm) (before : List Tile) (n : ℕ) (after : List Tile)
    (laid : IsLaidOut crc st (before ++ (held n ∷ after))) where
  abbrev ReleasedHere : Type 0
  ReleasedHere = Released crc st before n after (
      extend_free_location crc st (base_size * total before) (base_size * n)
      >>= λ (size, whole, st). insert_free_location crc st (base_size * total before) size whole)

  released_zone :
      (f : FreedHere crc st before n after laid)
      → total before + f.ahead ≡ total (before ++ (held n ∷ after))
      → ReleasedHere
  released_zone f end =
      let (b, a) = sides_after crc st before n after laid f in
      let u = total before in
      let word = put st.word (base_size * total before) 0 in
      record {
        zone = base_size * (total before - f.back);
        bitmap = f.bitmap;
        lists = st.lists;
        word = word;
        outer = b.first;
        inner = b.rest;
        inner' = a.first;
        outer' = a.rest;
        row = b.first;
        result = both crc st before n after laid f (
            insert_free_location-zone crc (record st { bitmap = f.bitmap }) (total before) f.ahead
              f.back (laid.zone ∙ ap (◌*◌ base_size) (sym end))
              (omega (arith, f.holds, positive crc st before n after laid)) f.low
              (omega (arith, laid.zone, laid.within, end)));
        before_is = b.whole;
        after_is = a.whole;
        free = free_before crc st before n after laid f b;
        free' = free_after crc st before n after laid f a;
        row_is = inl (
          refl,
          Tiles-empty crc (is_clear f.bitmap) st.word (total before + f.ahead) a.rest a.tiles_rest
              (omega (arith, a.end, end)),
        );
        closed = before-IsClosed crc st before n after laid f b;
        laid_out = record {
          bitmap = f.valid;
          aligned = omega (arith, laid.aligned, f.same_room);
          zone = omega (arith, b.start);
          within = omega (arith, laid.within, laid.zone, end);
          small = laid.small;
          tiles =
              Tiles-same crc (is_clear f.bitmap) (is_clear f.bitmap) st.word word 0 b.first
                (λ x low high. refl)
                (λ x low high.
                  put_other st.word (total before) 0 x (inl (omega (arith, b.start, b.end))))
                b.tiles_first;
          places = laid.places;
        };
      }

  released_listed :
      (f : FreedHere crc st before n after laid)
      → total before + f.ahead < total (before ++ (held n ∷ after))
      → ReleasedHere
  released_listed f short =
      let (b, a) = sides_after crc st before n after laid f in
      let seal = negate (crc_compute crc (base_size * total before) (base_size * f.ahead)) in
      let word = put st.word (base_size * total before) seal in
      let covers = IsLaidOut-Covers crc st (before ++ (held n ∷ after)) laid in
      let ins =
        insert_free_location-Listed crc (record st { bitmap = f.bitmap }) (total before) f.ahead
          f.back (omega (arith, laid.zone))
          (omega (arith, f.holds, positive crc st before n after laid)) f.low
          (omega (arith, covers.small)) (omega (arith, laid.zone, laid.within)) laid.places in
      let grown : n + total a.first ≡ f.ahead = omega (arith, a.start) in
      let next : total before + (n + total a.first) ≡ total before + f.ahead =
        omega (arith, grown) in
      record {
        zone = st.zone;
        bitmap = f.bitmap;
        lists = ins.lists;
        word = word;
        outer = b.first;
        inner = b.rest;
        inner' = a.first;
        outer' = a.rest;
        row = b.first ++ (b.rest ++ (vacant (n + total a.first) ∷ a.rest));
        result = both crc st before n after laid f ins.result;
        before_is = b.whole;
        after_is = a.whole;
        free = free_before crc st before n after laid f b;
        free' = free_after crc st before n after laid f a;
        row_is = inr (refl, omega (arith, a.end, short));
        closed = before-IsClosed crc st before n after laid f b;
        laid_out = record {
          bitmap = f.valid;
          aligned = omega (arith, laid.aligned, f.same_room);
          zone = laid.zone ∙ ap (◌*◌ base_size) (sym (same_total crc st before n after laid f b a));
          within = laid.within;
          small = laid.small;
          tiles = listed-Tiles crc st before n after laid f b a;
          places = ins.places;
        };
      }

  -- Where a waiting block of `n` units follows the row `before`, `extendFreeLocation` and
  -- `insertFreeLocation` at it end without a fault and leave a row of blocks: all free blocks next
  -- to it leave the row with it where they reach the zone, and otherwise it is free, grown by the
  -- free blocks after it. No other block changes.
  pub extend_free_location-Released : Released crc st before n after (
      extend_free_location crc st (base_size * total before) (base_size * n)
      >>= λ (size, whole, st). insert_free_location crc st (base_size * total before) size whole)
  extend_free_location-Released =
      elim (Bool-cases (
        ltb (total before + (freed crc st before n after laid).ahead)
          (total (before ++ (held n ∷ after))))) [
            | inl short ↦ released_listed (freed crc st before n after laid) (ground arith)
            | inr reached ↦
                let ge : total (before ++ (held n ∷ after))
                    ≤ total before + (freed crc st before n after laid).ahead =
                  ground arith in
                released_zone (freed crc st before n after laid)
                  (omega (arith, (freed crc st before n after laid).within))
          ]
