-- ===== src/Nvmalloc/Service/Wake.antt =====
-- `incrementTime`: the first waiting block becomes free once its time has come.
use mathlib.Core.Path.{subst}
use zalloc.Base.{
  ℕ, ◌+◌, ◌*◌, ◌%◌, ◌^◌, ◌≤◌, ◌≡◌, refl, sym, ap, true, false, ◌⊎◌, inl, inr, List, [], ◌∷◌, ◌++◌,
  Run, ok, leb, ◌==◌, arith, Bool-cases,
}
use zalloc.Nvmalloc.{base_size}
use zalloc.Nvmalloc.Header.{negate, crc_compute}
use zalloc.Nvmalloc.Free.{nil, Nvm}
use zalloc.Nvmalloc.Heap.{increment_time}
use zalloc.Nvmalloc.Marks.{is_clear}
use zalloc.Nvmalloc.Tiles.{Tile, held, total, total-append, Tiles-split}
use zalloc.Nvmalloc.Release.Row.{extend_free_location-Released}
use zalloc.Nvmalloc.Blocks.{
  blocks, Gains, times, waits, waits-append, waits-held, waits-le, waits-HeldAt,
}
use zalloc.Nvmalloc.Service.{IsHeap, Wakes}
use zalloc.Nvmalloc.Service.First.{
  Released-Gains, Released-IsClosed, increment_time-due, drop_first, waiting_size, with_links,
}

-- The outcome: a heap whose blocks are those before, but perhaps for the first that waited, which is
-- free now exactly where its time has come.
pub record Woken (crc : ℕ → ℕ → ℕ) (wait : ℕ) (due : Type 0) (old : List (ℕ × Tile))
    (queue : List ℕ) (r : Run Nvm) : Type 0 where
  pub state : Nvm
  pub row : List Tile
  pub left : List ℕ
  pub result : r ≡ ok state
  pub heap : IsHeap crc state row left
  pub wakes : Wakes old (blocks 0 row) queue left
  pub wait_kept : state.wait ≡ wait
  pub progress : due → (queue ≡ []) ⊎ ((u : ℕ) × (queue ≡ u ∷ left))
  pub early : ¬ due → (left ≡ queue) × (blocks 0 row ≡ old)

module _ (crc : ℕ → ℕ → ℕ) (now : ℕ) (st : Nvm) where
  abbrev pub IsDue : Type 0
  IsDue = leb ((st.time st.head + st.wait) % 2 ^ 64) now ≡ true

  -- The first block that waits has `n` units after the row `before`.
  Woken-here :
      (before : List Tile) (n : ℕ) (after : List Tile) (rest : List ℕ)
      → IsHeap crc st (before ++ (held n ∷ after)) (total before ∷ rest)
      → leb ((st.time st.head + st.wait) % 2 ^ 64) now ≡ true
      → Woken crc st.wait IsDue
          (blocks 0 (before ++ (held n ∷ after)))
          (total before ∷ rest)
          (increment_time crc now st)
  unfolding times total
  Woken-here before n after rest heap due =
      let laid = heap.laid_out in
      let once : (x : ℕ) → times x (total before ∷ rest) ≤ 1 = λ x. omega (
        arith,
        heap.waiting x,
        waits-le crc (is_clear st.bitmap) st.word x 0 (before ++ (held n ∷ after)) laid.tiles,
      ) in
      let d = drop_first st (total before) rest heap.linked once in
      let at : st.head ≡ base_size * total before = heap.linked.0 in
      let st' : Nvm = record st { head = d.head; tail = d.tail } in
      let sizes = total-append before (held n ∷ after) in
      let (tb, (pos, clear, head, tr)) =
        Tiles-split crc (is_clear st.bitmap) st.word 0 before (held n ∷ after) laid.tiles in
      let release =
        extend_free_location-Released crc st' before n after
          (with_links crc st (before ++ (held n ∷ after)) d.head d.tail laid) in
      let gains = Released-Gains crc st' before n after _ release in
      let from : 0 + total before ≡ total before = omega arith in
      let inside : leb (base_size * total before + 8) st.top ≡ true =
        ground (arith, sizes, laid.zone, laid.within, pos) in
      let some_wait : (st.head == nil) ≡ false =
        ground (arith, at, sizes, laid.zone, laid.within, laid.small) in
      let state : Nvm = record st' {
        zone = release.zone;
        bitmap = release.bitmap;
        lists = release.lists;
        word = release.word;
      } in
      record {
        state = state;
        row = release.row;
        left = rest;
        result =
            increment_time-due crc now n
              (negate (crc_compute crc (base_size * total before) (base_size * n + 1)))
              (base_size * total before) st st' state at some_wait due
              (rw inside (ap ok (rw from at head)))
              (waiting_size crc (base_size * total before) n
                (omega (arith, sizes, laid.zone, laid.within, laid.small)))
              d.result release.result;
        heap = record {
          laid_out = release.laid_out;
          linked = d.linked;
          waiting =
              fewer rest (blocks 0 (before ++ (held n ∷ after))) heap.waiting (blocks 0 release.row)
                gains;
          closed = Released-IsClosed crc st' before n after _ release heap.closed;
        };
        wakes = inr (total before, n, refl, gains);
        wait_kept = refl;
        progress = λ h. inr (total before, refl);
        early = λ no. absurd (no due);
      }
    where
      fewer :
          (rest : List ℕ) (old : List (ℕ × Tile))
          → ((x : ℕ) → times x (total before ∷ rest) ≡ waits x old)
          → (new : List (ℕ × Tile)) → Gains new old (total before, held n)
          → (x : ℕ) → times x rest ≡ waits x new
      fewer rest old same new gains x =
          let one = waits-append x gains.front ((total before, held n) ∷ gains.back) in
          let none_more = waits-append x gains.front gains.back in
          omega (
            arith,
            same x,
            ap (waits x) gains.within,
            ap (waits x) gains.without,
            one,
            none_more,
            waits-held x (total before) n gains.back,
          )

  Woken-first :
      (l : List Tile) (u : ℕ) (rest : List ℕ)
      → IsHeap crc st l (u ∷ rest)
      → leb ((st.time st.head + st.wait) % 2 ^ 64) now ≡ true
      → Woken crc st.wait IsDue (blocks 0 l) (u ∷ rest) (increment_time crc now st)
  unfolding times
  Woken-first l u rest heap due =
      let same : (u == u) ≡ true = ground arith in
      let counted : times u (u ∷ rest) ≡ 1 + times u rest = rw same refl in
      let here = waits-HeldAt u 0 l (omega (arith, heap.waiting u, counted)) in
      let start : u ≡ total here.before = omega (arith, here.at) in
      subst (λ t. Woken crc st.wait IsDue (blocks 0 t) (u ∷ rest) (increment_time crc now st))
        (sym here.whole)
        (subst
          (λ v.
            Woken crc st.wait IsDue (blocks 0 (here.before ++ (held here.size ∷ here.after)))
              (v ∷ rest) (increment_time crc now st))
          (sym start)
          (Woken-here here.before here.size here.after rest
            (subst (λ v. IsHeap crc st (here.before ++ (held here.size ∷ here.after)) (v ∷ rest))
              start (subst (λ t. IsHeap crc st t (u ∷ rest)) here.whole heap))
            due))

  -- On a heap, `incrementTime` ends without a fault and leaves a heap with the same blocks in use
  -- and waiting, but for the first that waited: it has become free where its time has come, and only
  -- there.
  pub increment_time-Woken :
      (l : List Tile) (queue : List ℕ)
      → IsHeap crc st l queue
      → Woken crc st.wait IsDue (blocks 0 l) queue (increment_time crc now st)
  unfolding increment_time
  increment_time-Woken l [] heap =
      let none_wait : (st.head == nil) ≡ true = ground (arith, heap.linked.0) in
      record {
        state = st;
        row = l;
        left = [];
        result = rw none_wait refl;
        heap = heap;
        wakes = inl (refl, refl);
        wait_kept = refl;
        progress = λ h. inl refl;
        early = λ no. (refl, refl);
      }
  increment_time-Woken l (u ∷ rest) heap =
      elim (Bool-cases (leb ((st.time st.head + st.wait) % 2 ^ 64) now)) [
        | inl due ↦ Woken-first l u rest heap due
        | inr early ↦ record {
          state = st;
          row = l;
          left = u ∷ rest;
          result = elim (Bool-cases (st.head == nil)) [
            | inl none_wait ↦ rw none_wait refl
            | inr some_wait ↦ rw (some_wait, early) refl
          ];
          heap = heap;
          wakes = inl (refl, refl);
          wait_kept = refl;
          progress = λ h. cc (h, early);
          early = λ no. (refl, refl);
        }
      ]
