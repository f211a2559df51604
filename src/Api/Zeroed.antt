-- ===== src/Api/Zeroed.antt =====
-- `calloc`: the bytes of the block are zero, and NULL is not tested.
use zalloc.Base.{
  Bool, true, false, ℕ, zero, suc, ◌+◌, ◌*◌, ◌%◌, ◌^◌, ◌≤◌, ◌<◌, ◌≡◌, ◌≢◌, refl, none, some, Run,
  ok, fault, arith, leb, ◌==◌, if◌then◌else◌, ◌⊎◌,
}
use zalloc.Buddy.Size.{page_size, block_pages}
use zalloc.Buddy.Tree.{Block, lookup}
use zalloc.Buddy.Tree.Largest.{largest}
use zalloc.Mapped.{World, deinit}
use zalloc.Mapped.Service.{Ready, buddy_xmalloc-Granted}
use zalloc.Mapped.Start.{deinit-xmalloc}
use zalloc.Api.{Process, in_map, is_within, memset, calloc}
use zalloc.Api.Moved.{in_map-block, is_within-add, is_within-outside}

-- The bytes after `n` of them are set to `v`.
pub record Filled (dst v n : ℕ) (old new : ℕ → ℕ) : Type 0 where
  pub inside : (i : ℕ) → i < n → new (dst + i) ≡ v
  pub outside : (a : ℕ) → (a < dst) ⊎ (dst + n ≤ a) → new a ≡ old a

record Fills (dst v n : ℕ) (old : ℕ → ℕ) (r : Run (ℕ → ℕ)) : Type 0 where
  bytes : ℕ → ℕ
  result : r ≡ ok bytes
  filled : Filled dst v n old bytes

memset-Fills :
    (base dst v n : ℕ) (old : ℕ → ℕ)
    → in_map base dst n ≡ true
    → Fills dst v n old (memset base dst v n old)
unfolding memset
memset-Fills base dst v zero old hd = record {
  bytes = old;
  result = refl;
  filled = record { inside = λ i h. absurd (omega arith); outside = λ a h. refl };
}
memset-Fills base dst v (suc n) old hd =
    let some_bytes : (suc n == 0) ≡ false = ground arith in
    record {
      bytes = λ a. if is_within dst (suc n) a then v else old a;
      result = rw (some_bytes, hd) refl;
      filled = record {
        inside = λ i h. rw (is_within-add dst (suc n) i h) refl;
        outside = λ a h. rw (is_within-outside dst (suc n) a h) refl;
      };
    }

module _ (lib : Bool) (w : World) (fuel : ℕ) (p : Process) where
  module _ (t : Block) (ready : Ready p.heap t) where
    abbrev pub base : ℕ
    base = p.heap.memblock

    -- The outcome of a request of `n` bytes: page `o`, where no allocation began, a block inside the
    -- map, its bytes zero and the others as before.
    pub record Zeroed (n e o : ℕ) (t' : Block) (r : Run (ℕ × Process)) : Type 0 where
      pub after : Process
      pub result : r ≡ ok (base + page_size * o, after)
      pub still : Ready after.heap t'
      pub inside : o + 2 ^ e ≤ 2 ^ 19
      pub fresh : lookup 19 o t ≡ none
      pub filled : Filled (base + page_size * o) 0 n p.memory after.memory
      pub map : (q : ℕ) → lookup 19 q t' ≡ (if q == o then some (n, e) else lookup 19 q t)

    -- Where the product does not overflow and fits `2 ^ e` pages, and the tree has a free block of so
    -- many pages or more, `calloc` with enough fuel returns a new block whose bytes are zero, and
    -- changes no other byte.
    pub calloc-Zeroed :
        (num size k e : ℕ)
        → num * size < 2 ^ 64
        → block_pages (num * size) ≡ 2 ^ e
        → num * size ≤ page_size * 2 ^ e
        → 19 ≡ k + e
        → 3 * 2 ^ k ≤ fuel
        → 2 ^ e ≤ largest 19 t
        → (o : ℕ) × (t' : Block) × Zeroed (num * size) e o t' (calloc lib w fuel p num size)
    unfolding calloc
    calloc-Zeroed num size k e small pages fits height enough room =
        let whole : num * size % 2 ^ 64 ≡ num * size = omega arith in
        let (o, t', got) =
          buddy_xmalloc-Granted lib w p.heap t ready (num * size) k e fuel pages height enough
            room in
        let fill =
          memset-Fills base (base + page_size * o) 0 (num * size) p.memory
            (in_map-block base o (num * size) e got.inside fits) in
        (
          o,
          t',
          record {
            after = record { heap = got.after; memory = fill.bytes };
            result = rw (whole, got.result, got.kept, fill.result) refl;
            still = got.still;
            inside = got.inside;
            fresh = got.fresh;
            filled = fill.filled;
            map = got.map;
          },
        )

  -- After the destructor of a mapped file, `calloc` of one byte or more writes to NULL.
  pub calloc-fault :
      (num size : ℕ)
      → p.heap.is_init ≡ true
      → p.heap.is_deinit ≡ false
      → 0 < p.heap.memblock
      → num * size % 2 ^ 64 ≢ 0
      → calloc lib w fuel (record p { heap = deinit p.heap }) num size ≡ fault
  unfolding calloc memset deinit
  calloc-fault num size init alive pos some_bytes =
      let none_left = deinit-xmalloc lib w p.heap fuel (num * size % 2 ^ 64) 0 init alive in
      let more : (num * size % 2 ^ 64 == 0) ≡ false = ground arith in
      let out : leb p.heap.memblock 0 ≡ false = ground arith in
      rw (none_left.0, more, alive, out) refl
