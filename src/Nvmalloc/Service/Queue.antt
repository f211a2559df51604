-- ===== src/Nvmalloc/Service/Queue.antt =====
-- `putInDNAList`: a block in use waits last.
use zalloc.Base.{
  ℕ, ◌+◌, ◌*◌, ◌%◌, ◌^◌, ◌≤◌, ◌≡◌, refl, sym, ap, ◌∙◌, true, false, List, [], ◌∷◌, ◌++◌, Run, ok,
  leb, ◌==◌, if◌then◌else◌, arith, Bool-cases, inl, inr,
}
use zalloc.Nvmalloc.{base_size}
use zalloc.Nvmalloc.Header.{negate, crc_compute}
use zalloc.Nvmalloc.Free.{nil, Nvm, put}
use zalloc.Nvmalloc.Heap.{put_in_dna_list}
use zalloc.Nvmalloc.Marks.{is_clear}
use zalloc.Nvmalloc.Tiles.Closed.{IsClosed, IsClosed-append_cons, IsClosed-rest, IsClosed-swap}
use zalloc.Nvmalloc.Tiles.{Tile, live, held, total}
use zalloc.Nvmalloc.Blocks.{blocks, times, times-append, waits, waits-le}
use zalloc.Nvmalloc.Service.{Linked, IsHeap, Chain-last}
use zalloc.Nvmalloc.Service.Link.{
  Chain-append, waiting_word, waiting-Tiles, same_total, inside, one_more, blocks-live, blocks-held,
}
use zalloc.Nvmalloc.Release.Words.{put_own}

-- The outcome of a new last block.
pub record Queued (crc : ℕ → ℕ → ℕ) (wait first : ℕ) (l : List Tile) (queue : List ℕ) (r : Run Nvm)
    : Type 0 where
  pub state : Nvm
  pub result : r ≡ ok state
  pub heap : IsHeap crc state l queue
  pub wait_kept : state.wait ≡ wait
  pub stamp : state.time state.head ≡ first

put_in_dna_list-ok :
    (crc : ℕ → ℕ → ℕ) (now : ℕ) (st : Nvm) (location size head tail : ℕ) (next : ℕ → ℕ)
    → leb (location + 8) st.top ≡ true
    → (size + 1) % 2 ^ 32 ≡ size + 1
    → (if st.tail == nil
        then ok (record st {
          word = put st.word location (negate (crc_compute crc location (size + 1)));
          time = put st.time location now;
          head = location;
          tail = location;
        })
        else ok (record st {
          word = put st.word location (negate (crc_compute crc location (size + 1)));
          time = put st.time location now;
          next = put st.next st.tail location;
          tail = location;
        }))
      ≡ ok (record st {
        word = put st.word location (negate (crc_compute crc location (size + 1)));
        time = put st.time location now;
        next = next;
        head = head;
        tail = tail;
      })
    → put_in_dna_list crc now st location size
      ≡ ok (record st {
        word = put st.word location (negate (crc_compute crc location (size + 1)));
        time = put st.time location now;
        next = next;
        head = head;
        tail = tail;
      })
unfolding put_in_dna_list
put_in_dna_list-ok crc now st location size head tail next inside small e = rw (inside, small) e

-- When the first block began to wait, once a block does so now.
abbrev pub first_stamp : Nvm → ℕ → ℕ
first_stamp st now = if st.tail == nil then now else st.time st.head

module _ (crc : ℕ → ℕ → ℕ) (now : ℕ) (st : Nvm) (before : List Tile) (n : ℕ) (after : List Tile)
    (queue : List ℕ) (heap : IsHeap crc st (before ++ (live n ∷ after)) queue) where
  abbrev pub QueuedHere : Type 0
  QueuedHere =
      Queued crc st.wait (first_stamp st now) (before ++ (held n ∷ after))
        (queue ++ (total before ∷ []))
        (put_in_dna_list crc now st (base_size * total before) (base_size * n))

  -- The heap with other links.
  Linked-IsHeap :
      (head tail : ℕ) (next : ℕ → ℕ)
      → Linked next head tail (queue ++ (total before ∷ []))
      → IsHeap crc
          (record st {
            word =
                put st.word
                  (base_size * total before)
                  (negate (crc_compute crc (base_size * total before) (base_size * n + 1)));
            time = put st.time (base_size * total before) now;
            next = next;
            head = head;
            tail = tail;
          })
          (before ++ (held n ∷ after))
          (queue ++ (total before ∷ []))
  Linked-IsHeap head tail next linked =
      let laid = heap.laid_out in
      record {
        laid_out = record {
          bitmap = laid.bitmap;
          aligned = laid.aligned;
          zone = laid.zone ∙ ap (◌*◌ base_size) (sym (same_total crc st before n after laid));
          within = laid.within;
          small = laid.small;
          tiles = waiting-Tiles crc st before n after laid;
          places = laid.places;
        };
        linked = linked;
        waiting = λ x. waiting_count x (heap.waiting x);
        closed = closed_tail (IsClosed-rest before (live n ∷ after) heap.closed);
      }
    where
      closed_tail : IsClosed (live n ∷ after) → IsClosed (before ++ (held n ∷ after))
      closed_tail c =
          IsClosed-append_cons before (held n) after (IsClosed-swap (live n) (held n) after refl c)

      waiting_count :
          (x : ℕ)
          → times x queue ≡ waits x (blocks 0 (before ++ (live n ∷ after)))
          → times x (queue ++ (total before ∷ [])) ≡ waits x (blocks 0 (before ++ (held n ∷ after)))
      waiting_count x same =
          one_more before n after queue x (same ∙ ap (waits x) (blocks-live before n after))
          ∙ ap (waits x) (sym (blocks-held before n after))

  once : (x : ℕ) → times x queue ≤ 1
  once x = omega (
    arith,
    heap.waiting x,
    waits-le crc (is_clear st.bitmap) st.word x 0 (before ++ (live n ∷ after)) heap.laid_out.tiles,
  )

  size_kept : (base_size * n + 1) % 2 ^ 32 ≡ base_size * n + 1
  size_kept =
      let (pos, low) = inside crc st before n after heap.laid_out in
      omega (arith, low, heap.laid_out.small)

  pub head_inside : leb (base_size * total before + 8) st.top ≡ true
  head_inside =
      let (pos, low) = inside crc st before n after heap.laid_out in ground (arith, pos, low)

-- A block in use is not the first that waits.
not_first :
    (crc : ℕ → ℕ → ℕ) (now : ℕ) (st : Nvm) (before : List Tile) (n : ℕ) (after : List Tile) (v : ℕ)
    (rest : List ℕ)
    → IsHeap crc st (before ++ (live n ∷ after)) (v ∷ rest)
    → (base_size * total before == st.head) ≡ false
unfolding times
not_first crc now st before n after v rest heap = elim (Bool-cases (v == total before)) [
  | inr other ↦ let at = heap.linked.0 in ground (arith, at)
  | inl same ↦
      let own : (total before == total before) ≡ true = ground arith in
      let first : times (total before) (v ∷ rest) ≡ 1 + times (total before) rest = rw same refl in
      let last : times (total before) (total before ∷ []) ≡ 1 = rw own refl in
      let two =
        one_more before n after (v ∷ rest) (total before)
          (heap.waiting (total before) ∙ ap (waits (total before)) (blocks-live before n after)) in
      let tiles = waiting-Tiles crc st before n after heap.laid_out in
      absurd (
        omega (
          arith,
          first,
          last,
          two,
          times-append (total before) (v ∷ rest) (total before ∷ []),
          ap (waits (total before)) (blocks-held before n after),
          waits-le crc (is_clear st.bitmap) (waiting_word crc st before n after heap.laid_out)
              (total before) 0 (before ++ (held n ∷ after)) tiles,
        ))
]

pub put_in_dna_list-Queued :
    (crc : ℕ → ℕ → ℕ) (now : ℕ) (st : Nvm) (before : List Tile) (n : ℕ) (after : List Tile)
    (queue : List ℕ)
    → (heap : IsHeap crc st (before ++ (live n ∷ after)) queue)
    → QueuedHere crc now st before n after queue heap
put_in_dna_list-Queued crc now st before n after [] heap =
    let location = base_size * total before in
    let first : (st.tail == nil) ≡ true = ground (arith, heap.linked.1) in
    record {
      state = record st {
        word =
            put st.word (base_size * total before)
              (negate (crc_compute crc (base_size * total before) (base_size * n + 1)));
        time = put st.time (base_size * total before) now;
        head = base_size * total before;
        tail = base_size * total before;
      };
      result =
          put_in_dna_list-ok crc now st (base_size * total before) (base_size * n)
            (base_size * total before) (base_size * total before) st.next
            (head_inside crc now st before n after [] heap)
            (size_kept crc now st before n after [] heap) (rw first refl);
      heap =
          Linked-IsHeap crc now st before n after [] heap (base_size * total before)
            (base_size * total before) st.next (refl, refl);
      wait_kept = refl;
      stamp = rw first (put_own st.time (base_size * total before) now);
    }
put_in_dna_list-Queued crc now st before n after (v ∷ rest) heap =
    let (at, chain) = heap.linked in
    let (w, end, h) = Chain-last st.next st.tail v rest chain in
    let some_wait : (st.tail == nil) ≡ false = ground (arith, end) in
    let next = put st.next st.tail (base_size * total before) in
    record {
      state = record st {
        word =
            put st.word (base_size * total before)
              (negate (crc_compute crc (base_size * total before) (base_size * n + 1)));
        time = put st.time (base_size * total before) now;
        next = next;
        tail = base_size * total before;
      };
      result =
          put_in_dna_list-ok crc now st (base_size * total before) (base_size * n) st.head
            (base_size * total before) next (head_inside crc now st before n after (v ∷ rest) heap)
            (size_kept crc now st before n after (v ∷ rest) heap) (rw some_wait refl);
      heap =
          Linked-IsHeap crc now st before n after (v ∷ rest) heap st.head (base_size * total before)
            next
            (
              at,
              Chain-append st.next st.tail v (total before) rest chain
                  (once crc now st before n after (v ∷ rest) heap),
            );
      wait_kept = refl;
      stamp =
          let other : (base_size * total before == st.head) ≡ false =
            not_first crc now st before n after v rest heap in
          rw (some_wait, other) refl;
    }
