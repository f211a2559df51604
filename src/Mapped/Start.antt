-- ===== src/Mapped/Start.antt =====
-- `init_` of inc/buddy_alloc.c, where it succeeds and where the map fails, and the calls that get
-- no memory.
use zalloc.Base.{
  ℕ, ◌+◌, ◌-◌, ◌*◌, ◌%◌, ◌^◌, ◌≤◌, ◌<◌, ◌≡◌, ◌≢◌, refl, ap, ◌∙◌, Bool, true, false, some, Run, ok,
  ◌>>=◌, arith, ltb, ◌==◌,
}
use zalloc.Buddy.Size.{page_size, block_pages}
use zalloc.Buddy.State.{Buddy, minus_one}
use zalloc.Buddy.Tree.{Block, unused, place}
use zalloc.Buddy.Create.{buddy_new}
use zalloc.Buddy.Create.Correct.{IsServed, Created, buddy_new-Created}
use zalloc.Buddy.Alloc.{buddy_alloc}
use zalloc.Buddy.Alloc.Correct.{Allocated, buddy_alloc-place}
use zalloc.Buddy.Alloc.Overrun.{buddy_alloc-too_large}
use zalloc.Mapped.{
  map_failed, World, Mapped, map_file, init_, xmalloc_on, buddy_xmalloc, xfree_on, buddy_xfree,
  deinit,
}
use zalloc.Mapped.Service.{Ready, init_-ready, ltb-zero}

-- The file that `open` and `fstat` give is large enough.
pub record HasFile (w : World) : Type 0 where
  pub opened : w.opened ≢ 0
  pub size : 2 ^ 31 ≤ w.st_size

map_file-failed :
    (w : World) (st : Mapped)
    → w.mapped ≡ map_failed
    → map_file w st ≡ record st { memblock = map_failed }
unfolding map_file
map_file-failed w st failed = rw failed refl

map_file-mapped :
    (w : World) (st : Mapped)
    → w.mapped + 2 ^ 31 < 2 ^ 64
    → map_file w st
      ≡ record st { memblock = w.mapped; registered = st.registered + 1; is_init = true }
unfolding map_file
map_file-mapped w st fits =
    let mapped : (w.mapped == map_failed) ≡ false = ground arith in rw mapped refl

first_page : (n : ℕ) → (map_failed + page_size * (0 * n)) % 2 ^ 64 ≡ map_failed
first_page n = omega arith

-- What is done once `init_` has given `st`.
xmalloc_on-place :
    (st : Mapped) (b : Buddy) (t : Block) (s o fuel : ℕ)
    → (done : Allocated b o t (buddy_alloc fuel b s))
    → xmalloc_on fuel st (some b) s
      ≡ ok ((st.memblock + page_size * o) % 2 ^ 64, record st { buddy = some done.after })
unfolding xmalloc_on
xmalloc_on-place st b t s o fuel done = rw (done.result, ltb-zero (page_size * o)) refl

module _ (lib : Bool) (w : World) (st : Mapped) (fresh : st.is_init ≡ false) (file : HasFile w)
    (served : IsServed lib w.got 31) where
  made : Created 31 (buddy_new lib w.got w.old 31)
  made = buddy_new-Created w.got w.old 31 (omega arith) (omega arith) lib served

  init_-map_file :
      init_ lib w st ≡ ok (map_file w (record st { buddy = some made.buddy; fd = w.opened }))
  unfolding init_
  init_-map_file =
      let no : (w.opened == 0) ≡ false = (let h = file.opened in ground arith) in
      let fits : ltb w.st_size (2 ^ 31) ≡ false = (let h = file.size in ground arith) in
      rw (fresh, made.result, no, fits) refl

  -- The outcome of the first call: the region is one free block.
  pub record Started (r : Run Mapped) : Type 0 where
    pub after : Mapped
    pub result : r ≡ ok after
    pub prepared : Ready after unused
    pub base : after.memblock ≡ w.mapped
    pub once : after.registered ≡ st.registered + 1

  -- Where the file is large enough, the level is served and `mmap` gives memory, `init_` maps the
  -- file as one free block and registers the handler once.
  pub init_-Started : 0 < w.mapped → w.mapped + 2 ^ 31 < 2 ^ 64 → Started (init_ lib w st)
  init_-Started pos fits =
      let st' = record st { buddy = some made.buddy; fd = w.opened } in
      record {
        after = record st' { memblock = w.mapped; registered = st.registered + 1; is_init = true };
        result = init_-map_file ∙ ap ok (map_file-mapped w st' fits);
        prepared = record {
          init = refl;
          alloc = made.buddy;
          held = refl;
          valid = made.valid;
          height = made.height;
          base = pos;
          fits = fits;
        };
        base = refl;
        once = refl;
      }

  pub record Bogus (r : Run (ℕ × Mapped)) : Type 0 where
    pub after : Mapped
    pub result : r ≡ ok (map_failed, after)
    pub unready : after.is_init ≡ false

  first_place : (k s : ℕ) → (t : Block) × (place k s unused ≡ some (0, t))
  unfolding place
  first_place k s = (_, refl)

  -- Where `mmap` fails, each request that fits the region gets the address MAP_FAILED.
  pub buddy_xmalloc-map_failed :
      (s k e fuel : ℕ)
      → w.mapped ≡ map_failed
      → block_pages s ≡ 2 ^ e
      → 19 ≡ k + e
      → 3 * 2 ^ k ≤ fuel
      → Bogus (buddy_xmalloc lib w fuel st s)
  unfolding buddy_xmalloc
  buddy_xmalloc-map_failed s k e fuel failed size height enough =
      let (t, placed) = first_place k s in
      let done =
        buddy_alloc-place made.buddy unused s k e fuel made.valid size (made.height ∙ height) enough
          placed in
      let st' = record st { buddy = some made.buddy; fd = w.opened } in
      let start = record st' { memblock = map_failed } in
      record {
        after = record start { buddy = some done.after };
        result =
            ap (λ r. r >>= λ st. xmalloc_on fuel st st.buddy s)
              (init_-map_file ∙ ap ok (map_file-failed w st' failed))
            ∙ xmalloc_on-place start made.buddy t s (0 * 2 ^ e) fuel done
            ∙ ap (λ p. ok (p, record start { buddy = some done.after })) (first_page (2 ^ e));
        unready = fresh;
      }

-- On a mapped file a request larger than the region gets the address before the map, not NULL.
pub buddy_xmalloc-too_large :
    (lib : Bool) (w : World) (st : Mapped) (t : Block) (ready : Ready st t) (s fuel : ℕ)
    → 2 ^ 19 < block_pages s
    → buddy_xmalloc lib w fuel st s ≡ ok (st.memblock - 1, record st { buddy = some ready.alloc })
unfolding buddy_xmalloc xmalloc_on
buddy_xmalloc-too_large lib w st t ready s fuel over =
    let over' : 2 ^ ready.alloc.level < block_pages s = rw ready.height over in
    let low : ready.alloc.level < 31 = omega (arith, ready.height) in
    let before : (st.memblock + minus_one) % 2 ^ 64 ≡ st.memblock - 1 =
      omega (arith, ready.base, ready.fits) in
    rw
      (
        init_-ready lib w st ready.init,
        ready.held,
        buddy_alloc-too_large ready.alloc s fuel low over',
        before,
      )
      refl

-- After the destructor of a mapped file, `buddy_xmalloc` gives NULL and `buddy_xfree` does nothing,
-- and running it again changes nothing.
pub deinit-xmalloc :
    (lib : Bool) (w : World) (st : Mapped) (fuel s ptr : ℕ)
    → st.is_init ≡ true
    → st.is_deinit ≡ false
    → (buddy_xmalloc lib w fuel (deinit st) s ≡ ok (0, deinit st))
      × (buddy_xfree lib w (deinit st) ptr ≡ ok (deinit st))
      × (deinit (deinit st) ≡ deinit st)
unfolding buddy_xmalloc buddy_xfree deinit xmalloc_on xfree_on
deinit-xmalloc lib w st fuel s ptr init alive =
    let kept : (deinit st).is_init ≡ true = rw (alive, init) refl in
    (rw (alive, init) refl, rw (alive, init) refl, rw alive refl)
