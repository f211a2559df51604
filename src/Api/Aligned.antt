-- ===== src/Api/Aligned.antt =====
-- `posix_memalign` and `memalign`: the alignment is not read, and up to a page it holds.
use zalloc.Base.{
  Bool, ℕ, zero, suc, ◌+◌, ◌*◌, ◌%◌, ◌^◌, ◌≤◌, ◌≡◌, refl, Option, none, some, Run, ok, arith, ◌==◌,
  if◌then◌else◌,
}
use zalloc.Buddy.Size.{page_size, block_pages}
use zalloc.Buddy.Tree.{Block, lookup}
use zalloc.Buddy.Tree.Largest.{largest}
use zalloc.Mapped.{World}
use zalloc.Mapped.Service.{Ready, buddy_xmalloc-Granted}
use zalloc.Api.{Process, malloc, posix_memalign, memalign}
use zalloc.Api.Moved.{positive}

page-aligned : (base o j : ℕ) → base % page_size ≡ 0 → j ≤ 12 → (base + page_size * o) % 2 ^ j ≡ 0
page-aligned base o zero h small = omega arith
page-aligned base o (suc zero) h small = omega arith
page-aligned base o (suc (suc zero)) h small = omega arith
page-aligned base o (suc (suc (suc zero))) h small = omega arith
page-aligned base o (suc (suc (suc (suc zero)))) h small = omega arith
page-aligned base o (suc (suc (suc (suc (suc zero))))) h small = omega arith
page-aligned base o (suc (suc (suc (suc (suc (suc zero)))))) h small = omega arith
page-aligned base o (suc (suc (suc (suc (suc (suc (suc zero))))))) h small = omega arith
page-aligned base o (suc (suc (suc (suc (suc (suc (suc (suc zero)))))))) h small = omega arith
page-aligned base o (suc (suc (suc (suc (suc (suc (suc (suc (suc zero))))))))) h small = omega arith
page-aligned base o (suc (suc (suc (suc (suc (suc (suc (suc (suc (suc zero)))))))))) h small =
    omega arith
page-aligned base o (suc (suc (suc (suc (suc (suc (suc (suc (suc (suc (suc zero))))))))))) h small =
    omega arith
page-aligned base o (suc (suc (suc (suc (suc (suc (suc (suc (suc (suc (suc (suc zero)))))))))))) h
      small =
    omega arith
page-aligned base o (suc (suc (suc (suc (suc (suc (suc (suc (suc (suc (suc (suc (suc j)))))))))))))
      h small =
    absurd (omega arith)

module _ (lib : Bool) (w : World) (fuel : ℕ) (p : Process) (t : Block)
    (ready : Ready p.heap t) where
  -- The outcome of both calls: the same pointer, to a page where no allocation began, a multiple of the
  -- alignment, and the same state.
  pub record Aligned (align len e : ℕ) (r : Run (ℕ × Option ℕ × Process))
      (m : Run (ℕ × Option ℕ × Process)) : Type 0 where
    pub mem : ℕ
    pub after : Process
    pub stored : r ≡ ok (0, some mem, after)
    pub returned : m ≡ ok (mem, none, after)
    pub aligned : mem % align ≡ 0
    pub page : ℕ
    pub place : mem ≡ p.heap.memblock + page_size * page
    pub inside : page + 2 ^ e ≤ 2 ^ 19
    pub fresh : lookup 19 page t ≡ none
    pub tree : Block
    pub still : Ready after.heap tree
    pub map : (q : ℕ) → lookup 19 q tree ≡ (if q == page then some (len, e) else lookup 19 q t)

  -- Where the map begins at a multiple of 4096, the alignment is a power of two up to 4096, and the
  -- tree has a free block of `2 ^ e` pages or more, `posix_memalign` and `memalign` with enough
  -- fuel give the same new block, at a multiple of the alignment.
  pub posix_memalign-Aligned :
      (j len k e : ℕ)
      → p.heap.memblock % page_size ≡ 0
      → j ≤ 12
      → block_pages len ≡ 2 ^ e
      → 19 ≡ k + e
      → 3 * 2 ^ k ≤ fuel
      → 2 ^ e ≤ largest 19 t
      → Aligned
          (2 ^ j)
          len
          e
          (posix_memalign lib w fuel p (2 ^ j) len)
          (memalign lib w fuel p (2 ^ j) len)
  unfolding posix_memalign memalign malloc
  posix_memalign-Aligned j len k e at small pages height enough room =
      let (o, t', got) =
        buddy_xmalloc-Granted lib w p.heap t ready len k e fuel pages height enough room in
      let found = positive p.heap.memblock (page_size * o) ready.base in
      record {
        mem = p.heap.memblock + page_size * o;
        after = record p { heap = got.after };
        stored = rw (got.result, found) refl;
        returned = rw (got.result, found) refl;
        aligned = page-aligned p.heap.memblock o j at small;
        page = o;
        place = refl;
        inside = got.inside;
        fresh = got.fresh;
        tree = t';
        still = got.still;
        map = got.map;
      }
