-- ===== src/Wrappers/Reclaim.antt =====
-- inc/nv_alloc.c, whose blocks wait for no time: sequences of its calls, and what they leave.
use mathlib.Core.Path.{subst}
use zalloc.Base.{
  ℕ, ◌+◌, ◌*◌, ◌/◌, ◌%◌, ◌^◌, ◌≤◌, ◌<◌, ◌≡◌, refl, sym, ap, ◌∙◌, Bool, true, ◌&&◌, List, [], ◌∷◌,
  ◌++◌, none, some, ok, leb, ◌==◌, if◌then◌else◌, arith,
}
use zalloc.Nvmalloc.{base_size}
use zalloc.Nvmalloc.Free.{nil, Nvm}
use zalloc.Nvmalloc.Heap.{header_size, nvmalloc}
use zalloc.Nvmalloc.Tiles.{Tile, live, held, vacant, total}
use zalloc.Nvmalloc.Tiles.Edges.{AllVacant, done, more}
use zalloc.Nvmalloc.Tiles.Closed.{AllVacant-IsClosed}
use zalloc.Nvmalloc.Block.{units_for}
use zalloc.Nvmalloc.Blocks.{blocks, times, waits}
use zalloc.Nvmalloc.Lives.{lives, copies}
use zalloc.Nvmalloc.Service.{Linked, IsHeap}
use zalloc.Nvmalloc.Service.Queue.{first_stamp}
use zalloc.Nvmalloc.Service.Follows.{Serves, same_ok, gets-Follows, fails-Follows, frees-Follows}
use zalloc.Nvmalloc.Service.Start.{nvmalloc_init-Begun}
use zalloc.Wrappers.{nv_malloc, nv_free, nv_handler_init}

-- A row without a block in use or waiting is free.
waits-AllVacant :
    (p : ℕ) (l : List Tile)
    → ((x k : ℕ) → lives x k (blocks p l) ≡ 0)
    → ((x : ℕ) → waits x (blocks p l) ≡ 0)
    → AllVacant l
unfolding lives waits blocks
waits-AllVacant p [] none_live none_wait = done
waits-AllVacant p (vacant n ∷ l) none_live none_wait =
    more (waits-AllVacant (p + n) l none_live none_wait)
waits-AllVacant p (live n ∷ l) none_live none_wait =
    let same : (p == p && n == n) ≡ true = ground arith in
    absurd (counted (p == p && n == n) (lives p n (blocks (p + n) l)) same (none_live p n))
  where
    counted : (b : Bool) (t : ℕ) → b ≡ true → (if b then 1 else 0) + t ≡ 0 → ⊥
    counted b t e h = omega (arith, rw e at h)
waits-AllVacant p (held n ∷ l) none_live none_wait =
    let same : (p == p) ≡ true = ground arith in
    absurd (counted (p == p) (waits p (blocks (p + n) l)) same (none_wait p))
  where
    counted : (b : Bool) (t : ℕ) → b ≡ true → (if b then 1 else 0) + t ≡ 0 → ⊥
    counted b t e h = omega (arith, rw e at h)

-- The states that calls of the handler lead to, on a clock that does not go back during a call. The
-- client notes the unit of each block that it gets, and its units.
pub data NvSession (crc : ℕ → ℕ → ℕ) : Nvm → List (ℕ × ℕ) → Type 0 where
  begin : (old st : Nvm) → nv_handler_init true old ≡ ok st → NvSession crc st []
  gets :
      {st : Nvm} {owned : List (ℕ × ℕ)}
      → NvSession crc st owned
      → (mapped : Bool) (now size unit : ℕ) (st' : Nvm)
      → st.top + size + 2 ^ 24 + header_size < 2 ^ 32
      → nv_malloc crc mapped true now st size ≡ ok (some (base_size * unit + header_size), st')
      → NvSession crc st' ((unit, units_for (size + header_size)) ∷ owned)
  fails :
      {st : Nvm} {owned : List (ℕ × ℕ)}
      → NvSession crc st owned
      → (mapped : Bool) (now size : ℕ) (st' : Nvm) → st.top + size + 2 ^ 24 + header_size < 2 ^ 32
      → nv_malloc crc mapped true now st size ≡ ok (none, st')
      → NvSession crc st' owned
  frees :
      {st : Nvm} (front back : List (ℕ × ℕ)) (unit k : ℕ)
      → NvSession crc st (front ++ ((unit, k) ∷ back))
      → (now later : ℕ) (st' : Nvm) → now ≤ later
      → later < 2 ^ 64
      → nv_free crc now later st (base_size * unit + header_size) ≡ ok st'
      → NvSession crc st' (front ++ back)

-- A heap where no block waits.
record IsIdle (crc : ℕ → ℕ → ℕ) (st : Nvm) (owned : List (ℕ × ℕ)) : Type 0 where
  pub serves : Serves crc st owned
  pub none_wait : serves.queue ≡ []
  pub no_time : st.wait ≡ 0

-- The links of an empty list.
empty_links :
    (crc : ℕ → ℕ → ℕ) (st : Nvm) (l : List Tile) (queue : List ℕ)
    → IsHeap crc st l queue
    → queue ≡ []
    → (st.head ≡ nil) × (st.tail ≡ nil)
empty_links crc st l queue heap none_wait =
    subst (Linked st.next st.head st.tail) none_wait heap.linked

-- The cut to 32 bits loses nothing here.
same_size : (size top : ℕ) → top + size + 2 ^ 24 + header_size < 2 ^ 32 → size % 2 ^ 32 ≡ size
same_size size top small = omega arith

NvSession-IsIdle :
    (crc : ℕ → ℕ → ℕ) (st : Nvm) (owned : List (ℕ × ℕ))
    → NvSession crc st owned
    → IsIdle crc st owned
unfolding nv_handler_init nv_malloc nv_free blocks lives copies
NvSession-IsIdle crc st owned (begin old st' e) =
    let b = nvmalloc_init-Begun crc (64 * 1024 * 1024 / 4096) 0 old (omega arith) in
    subst (λ t. IsIdle crc t []) (same_ok b.result e)
      (record {
        serves = record { row = []; queue = []; heap = b.heap; same = λ x k. refl };
        none_wait = refl;
        no_time = b.wait_is;
      })
NvSession-IsIdle crc st owned
      (gets {st = before} {owned = had} s mapped now size unit st' small e) =
    let i = NvSession-IsIdle crc before had s in
    let f =
      gets-Follows crc before had mapped now size unit st i.serves small
        (ap (nvmalloc crc mapped true now before) (sym (same_size size before.top small)) ∙ e) in
    record {
      serves = f.serves;
      none_wait = f.idle_kept i.none_wait;
      no_time = f.wait_kept ∙ i.no_time;
    }
NvSession-IsIdle crc st owned (fails {st = before} s mapped now size st' small e) =
    let i = NvSession-IsIdle crc before owned s in
    let f =
      fails-Follows crc before owned mapped now size st i.serves small
        (ap (nvmalloc crc mapped true now before) (sym (same_size size before.top small)) ∙ e) in
    record {
      serves = f.serves;
      none_wait = f.idle_kept i.none_wait;
      no_time = f.wait_kept ∙ i.no_time;
    }
NvSession-IsIdle crc st owned (frees {st = before} front back unit k s now later st' order low e) =
    let i = NvSession-IsIdle crc before (front ++ ((unit, k) ∷ back)) s in
    let f = frees-Follows crc before front back unit k now later st i.serves e in
    record {
      serves = f.serves;
      none_wait = f.idle_kept (i.none_wait, due before i.serves i.none_wait i.no_time);
      no_time = f.wait_kept ∙ i.no_time;
    }
  where
    due :
        (before : Nvm) (s : Serves crc before (front ++ ((unit, k) ∷ back)))
        → s.queue ≡ []
        → before.wait ≡ 0
        → leb ((first_stamp before now + before.wait) % 2 ^ 64) later ≡ true
    due before s none_wait no_time =
        let ends = (empty_links crc before s.row s.queue s.heap none_wait).1 in
        let first : (before.tail == nil) ≡ true = ground (arith, ends) in
        rw (first, no_time) (ground arith)

-- Whatever the order of the calls of `nv_malloc` and `nv_free` from the constructor on, where the clock
-- does not go back during a call, the client frees only what it holds, the bitmap gets its memory and
-- the requests are below 2^32 bytes with the memory and 2^24 + 8 bytes: once the client has freed all
-- that it got, no block waits and the zone of used memory is empty.
pub NvSession-reclaimed :
    (crc : ℕ → ℕ → ℕ) (st : Nvm)
    → NvSession crc st []
    → (st.zone ≡ 0) × (st.head ≡ nil) × (st.tail ≡ nil)
unfolding copies times total
NvSession-reclaimed crc st session =
    let i = NvSession-IsIdle crc st [] session in
    let s = i.serves in
    let heap = s.heap in
    let free =
      waits-AllVacant 0 s.row (λ x k. s.same x k)
        (λ x. sym (heap.waiting x) ∙ ap (times x) i.none_wait) in
    let empty = AllVacant-IsClosed s.row free heap.closed in
    (
      omega (arith, heap.laid_out.zone, ap total empty),
      (empty_links crc st s.row s.queue heap i.none_wait).0,
      (empty_links crc st s.row s.queue heap i.none_wait).1,
    )
