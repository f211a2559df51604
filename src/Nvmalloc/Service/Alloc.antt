-- ===== src/Nvmalloc/Service/Alloc.antt =====
-- `nvmalloc`: a block in use is added, and then the first waiting block may become free.
use mathlib.Core.Path.{subst, sym}
use zalloc.Base.{
  ℕ, ◌+◌, ◌*◌, ◌%◌, ◌^◌, ◌<◌, ◌≡◌, refl, ap, ◌∙◌, Bool, true, false, ◌⊎◌, inl, inr, List, [], ◌∷◌,
  ◌++◌, Option, none, some, Run, ok, leb, arith,
}
use zalloc.Nvmalloc.{base_size}
use zalloc.Nvmalloc.Header.{crc_compute}
use zalloc.Nvmalloc.Free.{Nvm, put, set_word, actual_size}
use zalloc.Nvmalloc.Heap.{header_size, get_free_location, increment_time, nvmalloc}
use zalloc.Nvmalloc.Tiles.{Tile, live, total}
use zalloc.Nvmalloc.Tiles.Closed.{IsClosed, IsClosed-append_cons, IsClosed-rest, AllVacant-IsClosed}
use zalloc.Nvmalloc.Search.Rounds.{List-cases}
use zalloc.Nvmalloc.Block.{units_for, actual_size-units_for}
use zalloc.Nvmalloc.Block.Outcome.{Given, total-new}
use zalloc.Nvmalloc.Block.Given.{get_free_location-Given}
use zalloc.Nvmalloc.Blocks.{
  blocks, Gains, blocks-append, blocks-skip, waits, waits-append, waits-live,
}
use zalloc.Nvmalloc.Service.{IsHeap, Wakes}
use zalloc.Nvmalloc.Service.Wake.{IsDue, increment_time-Woken}

-- A new block of `k` units, 8 bytes of which are the header.
pub record Allocated (crc : ℕ → ℕ → ℕ) (wait : ℕ) (due : Type 0) (old : List (ℕ × Tile))
    (queue : List ℕ) (k : ℕ) (r : Run (Option ℕ × Nvm)) : Type 0 where
  pub unit : ℕ
  pub state : Nvm
  pub row : List Tile
  pub left : List ℕ
  pub between : List (ℕ × Tile)
  pub result : r ≡ ok (some (base_size * unit + header_size), state)
  pub gains : Gains old between (unit, live k)
  pub wakes : Wakes between (blocks 0 row) queue left
  pub heap : IsHeap crc state row left
  pub wait_kept : state.wait ≡ wait
  pub progress : due → (queue ≡ []) ⊎ ((u : ℕ) × (queue ≡ u ∷ left))

-- No memory, and no other change.
pub record Denied (crc : ℕ → ℕ → ℕ) (wait : ℕ) (mapped : Bool) (l : List Tile) (queue : List ℕ)
    (r : Run (Option ℕ × Nvm)) : Type 0 where
  pub state : Nvm
  pub unmapped : mapped ≡ false
  pub result : r ≡ ok (none, state)
  pub heap : IsHeap crc state l queue
  pub wait_kept : state.wait ≡ wait

Given-Gains :
    (crc : ℕ → ℕ → ℕ) (st : Nvm) (l : List Tile) (k : ℕ) (r : Run (Option ℕ × Nvm))
    → (g : Given crc st l k r)
    → Gains (blocks 0 l) (blocks 0 (g.before ++ (live k ∷ (g.rest ++ g.after)))) (g.unit, live k)
unfolding blocks
Given-Gains crc st l k r g = record {
  front = blocks 0 g.before;
  back = blocks (g.unit + k + total g.rest) g.after;
  without =
      ap (blocks 0) g.whole
      ∙ (blocks-append 0 g.before (g.gone ++ g.after)
          ∙ ap (◌++◌ (blocks 0 g.before))
              (blocks-skip (0 + total g.before) g.gone g.after g.free ∙ after_same));
  within =
      blocks-append 0 g.before (live k ∷ (g.rest ++ g.after))
      ∙ ap (◌++◌ (blocks 0 g.before)) (
          ap (λ p. blocks p (live k ∷ (g.rest ++ g.after))) from
          ∙ ap (◌∷◌ (g.unit, live k)) (blocks-skip (g.unit + k) g.rest g.after g.left));
}
  where
    from : 0 + total g.before ≡ g.unit
    from = omega (arith, g.start)

    after_same :
        blocks (0 + total g.before + total g.gone) g.after
        ≡ blocks (g.unit + k + total g.rest) g.after
    after_same = elim g.size [
      | inl same ↦
          (let place : 0 + total g.before + total g.gone ≡ g.unit + k + total g.rest =
              omega (arith, g.start, same) in
            ap (λ p. blocks p g.after) place)
      | inr (none_gone, none_left, none_after) ↦ rw none_after refl
    ]

-- The row still does not end in a free block.
Given-IsClosed :
    (crc : ℕ → ℕ → ℕ) (st : Nvm) (l : List Tile) (k : ℕ) (r : Run (Option ℕ × Nvm))
    → (g : Given crc st l k r) → 0 < k
    → IsClosed l
    → IsClosed (g.before ++ (live k ∷ (g.rest ++ g.after)))
unfolding total
Given-IsClosed crc st l k r g pos closed = elim g.size [
  | inr (none_gone, none_left, none_after) ↦
      subst (λ a. IsClosed (g.before ++ (live k ∷ (g.rest ++ a)))) (sym none_after)
        (subst (λ a. IsClosed (g.before ++ (live k ∷ (a ++ [])))) (sym none_left)
          (IsClosed-append_cons g.before (live k) [] refl))
  | inl same ↦
      let tail = IsClosed-rest g.before (g.gone ++ g.after) (subst IsClosed g.whole closed) in
      elim (List-cases g.after) [
        | inl none_after ↦
            let none_gone : g.gone ≡ [] = AllVacant-IsClosed g.gone g.free (
              subst IsClosed (append_nil g.gone)
                (subst (λ a. IsClosed (g.gone ++ a)) none_after tail)) in
            absurd (omega (arith, same, ap total none_gone))
        | inr (x, xs, some_after) ↦
            subst (λ a. IsClosed (g.before ++ (live k ∷ (g.rest ++ a)))) (sym some_after)
              (IsClosed-append_cons g.before (live k) (g.rest ++ (x ∷ xs)) (
                IsClosed-append_cons (live k ∷ g.rest) x xs
                  (subst IsClosed some_after (IsClosed-rest g.gone g.after tail))))
      ]
]
  where
    append_nil : (a : List Tile) → a ++ [] ≡ a
    append_nil [] = refl
    append_nil (t ∷ a) = ap (◌∷◌ t) (append_nil a)

module _ (crc : ℕ → ℕ → ℕ) (mapped got : Bool) (now : ℕ) (st : Nvm) (size whole : ℕ)
    (is : (size + header_size) % 2 ^ 32 ≡ whole) where
  nvmalloc-some :
      (location need : ℕ) (st' st'' st3 : Nvm)
      → get_free_location crc mapped got st whole ≡ ok (some location, st')
      → actual_size whole ≡ need
      → set_word st' location (crc_compute crc location need) ≡ ok st''
      → increment_time crc now st'' ≡ ok st3
      → nvmalloc crc mapped got now st size ≡ ok (some (location + header_size), st3)
  unfolding nvmalloc
  nvmalloc-some location need st' st'' st3 found same seal woken =
      let size_same : actual_size ((size + header_size) % 2 ^ 32) ≡ need =
        ap actual_size is ∙ same in
      let found_same : get_free_location crc mapped got st ((size + header_size) % 2 ^ 32)
          ≡ ok (some location, st') =
        ap (get_free_location crc mapped got st) is ∙ found in
      let sealed : set_word st' location
            (crc_compute crc location (actual_size ((size + header_size) % 2 ^ 32)))
          ≡ ok st'' =
        ap (λ n. set_word st' location (crc_compute crc location n)) size_same ∙ seal in
      rw (found_same, sealed, woken) refl

  nvmalloc-none :
      (st' : Nvm)
      → get_free_location crc mapped got st whole ≡ ok (none, st')
      → nvmalloc crc mapped got now st size ≡ ok (none, st')
  unfolding nvmalloc
  nvmalloc-none st' found = rw (is, found) refl

-- A block in use does not wait.
same_waits :
    (old new : List (ℕ × Tile)) (u k x : ℕ) → Gains old new (u, live k) → waits x old ≡ waits x new
same_waits old new u k x g =
    let one = waits-append x g.front ((u, live k) ∷ g.back) in
    let without = waits-append x g.front g.back in
    omega
      (arith, ap (waits x) g.within, ap (waits x) g.without, one, without, waits-live x u k g.back)

module _ (crc : ℕ → ℕ → ℕ) (mapped : Bool) (now : ℕ) (st : Nvm) (l : List Tile) (queue : List ℕ)
    (size : ℕ) (heap : IsHeap crc st l queue)
    (small : st.top + size + 2 ^ 24 + header_size < 2 ^ 32) where
  allocated :
      (g : Given crc st l
        (units_for (size + header_size))
        (get_free_location crc mapped true st (size + header_size)))
      → Allocated crc st.wait
          (IsDue crc now st)
          (blocks 0 l)
          queue
          (units_for (size + header_size))
          (nvmalloc crc mapped true now st size)
  unfolding total
  allocated g =
      let k = units_for (size + header_size) in
      let st' : Nvm = record st {
        zone = g.zone;
        top = g.top;
        pages = g.pages;
        bitmap = g.bitmap;
        lists = g.lists;
        word = g.word;
      } in
      let st'' : Nvm = record st' {
        word =
            put g.word (base_size * g.unit)
              (crc_compute crc (base_size * g.unit) (base_size * units_for (size + header_size)));
      } in
      let gains = Given-Gains crc st l (units_for (size + header_size)) _ g in
      let sizes = total-new g.before g.rest g.after (units_for (size + header_size)) in
      let inside : leb (base_size * g.unit + 8) g.top ≡ true =
        ground (arith, sizes, g.start, g.laid_out.zone, g.laid_out.within) in
      let woken =
        increment_time-Woken crc now st''
          (g.before ++ (live (units_for (size + header_size)) ∷ (g.rest ++ g.after))) queue
          (record {
            laid_out = g.laid_out;
            linked = heap.linked;
            waiting = λ x.
                heap.waiting x
                ∙ same_waits (blocks 0 l)
                    (blocks 0
                      (g.before ++ (live (units_for (size + header_size)) ∷ (g.rest ++ g.after))))
                    g.unit (units_for (size + header_size)) x gains;
            closed =
                Given-IsClosed crc st l (units_for (size + header_size)) _ g (omega arith)
                  heap.closed;
          }) in
      record {
        unit = g.unit;
        state = woken.state;
        row = woken.row;
        left = woken.left;
        between =
            blocks 0 (g.before ++ (live (units_for (size + header_size)) ∷ (g.rest ++ g.after)));
        result =
            nvmalloc-some crc mapped true now st size (size + header_size) (omega arith)
              (base_size * g.unit) (base_size * units_for (size + header_size)) st' st'' woken.state
              g.result (actual_size-units_for (size + header_size) (omega arith) (omega arith))
              (rw inside refl) woken.result;
        gains = gains;
        wakes = woken.wakes;
        heap = woken.heap;
        wait_kept = woken.wait_kept;
        progress = woken.progress;
      }

  -- On a heap whose memory, with the size and 2^24 + 8 bytes, is less than 2^32 bytes, where `realloc`
  -- gives the bitmap, `nvmalloc` ends without a fault. Either it gives the address 8 bytes after the
  -- start of a new block whose units hold the size and the header, all other blocks stay, but perhaps
  -- the first that waits becomes free, and does so where its time has come, and the state is a heap of
  -- the blocks that are left; or `mmap` gives nothing, the result is NULL, and the heap keeps its
  -- blocks.
  pub nvmalloc-Allocated :
      Allocated crc st.wait
        (IsDue crc now st)
        (blocks 0 l)
        queue
        (units_for (size + header_size))
        (nvmalloc crc mapped true now st size)
      ⊎ Denied crc st.wait mapped l queue (nvmalloc crc mapped true now st size)
  nvmalloc-Allocated =
      elim (get_free_location-Given crc mapped st l (size + header_size) heap.laid_out (omega arith)
        (omega arith)) [
          | inl g ↦ inl (allocated g)
          | inr d ↦ inr (record {
            state = record st { lists = d.lists };
            unmapped = d.unmapped;
            result =
                nvmalloc-none crc mapped true now st size (size + header_size) (omega arith)
                  (record st { lists = d.lists }) d.result;
            heap = record {
              laid_out = d.laid_out;
              linked = heap.linked;
              waiting = heap.waiting;
              closed = heap.closed;
            };
            wait_kept = refl;
          })
        ]
