-- ===== src/Nvmalloc/Service/Free.antt =====
-- `nvfree`: a block in use waits from now on, and then the first waiting block may become free.
use zalloc.Base.{
  ℕ, ◌+◌, ◌-◌, ◌*◌, ◌%◌, ◌^◌, ◌<◌, ◌≡◌, ◌∙◌, true, false, ◌||◌, List, [], ◌∷◌, ◌++◌, ok, leb, ◌==◌,
  arith, ==_same,
}
use zalloc.Nvmalloc.{base_size}
use zalloc.Nvmalloc.Header.{crc_compute}
use zalloc.Nvmalloc.Header.Fields.{crc_compute-Carries}
use zalloc.Nvmalloc.Free.{Nvm}
use zalloc.Nvmalloc.Heap.{header_size, put_in_dna_list, increment_time, nvfree}
use zalloc.Nvmalloc.Tiles.{Tile, live, held, total}
use zalloc.Nvmalloc.Blocks.{blocks}
use zalloc.Nvmalloc.Service.{IsHeap}
use zalloc.Nvmalloc.Service.Wake.{Woken, increment_time-Woken}
use zalloc.Nvmalloc.Service.Link.{inside, word_here}
use zalloc.Nvmalloc.Service.Queue.{first_stamp, head_inside, put_in_dna_list-Queued}

module _ (crc : ℕ → ℕ → ℕ) (now : ℕ) (st : Nvm) (before : List Tile) (n : ℕ) (after : List Tile)
    (queue : List ℕ) (heap : IsHeap crc st (before ++ (live n ∷ after)) queue) where
  nvfree-ok :
      (now' : ℕ) (st' st'' : Nvm)
      → put_in_dna_list crc now st (base_size * total before) (base_size * n) ≡ ok st'
      → increment_time crc now' st' ≡ ok st''
      → nvfree crc now now' st (base_size * total before + header_size) ≡ ok st''
  unfolding nvfree
  nvfree-ok now' st' st'' queued woken =
      let laid = heap.laid_out in
      let (pos, low) = inside crc st before n after laid in
      let place : (base_size * total before + header_size + 2 ^ 64 - header_size) % 2 ^ 64
          ≡ base_size * total before =
        omega (arith, low, laid.small) in
      let c =
        (crc_compute-Carries crc (base_size * total before) (base_size * n) (omega arith)
          (omega (arith, low, laid.small))).0 in
      let hd = word_here crc st before n after laid in
      let v = crc_compute crc (base_size * total before) (base_size * n) in
      let in_use : (crc_compute crc (base_size * total before) (base_size * n) == 0
            || leb (2 ^ 63) (crc_compute crc (base_size * total before) (base_size * n)))
          ≡ false =
        sign (crc_compute crc (base_size * total before) (base_size * n)) c.positive c.below in
      let same : (crc_compute crc (base_size * total before) (base_size * n)
            == crc_compute crc (base_size * total before) (base_size * n))
          ≡ true =
        ==_same (crc_compute crc (base_size * total before) (base_size * n)) in
      rw (place, head_inside crc now st before n after queue heap, hd, c.read, in_use, same, queued)
        woken
    where
      sign : (v : ℕ) → 0 < v → v < 2 ^ 63 → (v == 0 || leb (2 ^ 63) v) ≡ false
      sign v pos low = ground arith

-- On a heap with a block in use of `n` units after the row `before`, `nvfree` at the address 8 bytes
-- after its start ends without a fault: the block waits last in the list, all other blocks stay,
-- but that the first that waits becomes free where its time has come, and only there, and the state
-- is a heap of the blocks left.
pub nvfree-Woken :
    (crc : ℕ → ℕ → ℕ) (now now' : ℕ) (st : Nvm) (before : List Tile) (n : ℕ) (after : List Tile)
    (queue : List ℕ)
    → IsHeap crc st (before ++ (live n ∷ after)) queue
    → Woken crc st.wait
        (leb ((first_stamp st now + st.wait) % 2 ^ 64) now' ≡ true)
        (blocks 0 (before ++ (held n ∷ after)))
        (queue ++ (total before ∷ []))
        (nvfree crc now now' st (base_size * total before + header_size))
nvfree-Woken crc now now' st before n after queue heap =
    let queued = put_in_dna_list-Queued crc now st before n after queue heap in
    let woken =
      increment_time-Woken crc now' queued.state (before ++ (held n ∷ after))
        (queue ++ (total before ∷ [])) queued.heap in
    record {
      state = woken.state;
      row = woken.row;
      left = woken.left;
      result =
          nvfree-ok crc now st before n after queue heap now' queued.state woken.state queued.result
            woken.result;
      heap = woken.heap;
      wakes = woken.wakes;
      wait_kept = woken.wait_kept ∙ queued.wait_kept;
      progress = λ due. woken.progress (rw (queued.stamp, queued.wait_kept) due);
      early = λ no. woken.early (λ due. no (rw (queued.stamp, queued.wait_kept) at due));
    }
