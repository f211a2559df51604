-- ===== src/Api.antt =====
-- src/zalloc.c: the functions that take the place of the C library's.
pub mod Moved
pub mod Restored
pub mod Zeroed
pub mod Aligned
pub mod Main
mod Tests
use zalloc.Base.{
  ℕ, ◌+◌, ◌*◌, ◌%◌, ◌^◌, ◌-◌, Bool, ◌&&◌, Option, none, some, Run, ok, fault, ◌>>=◌, ltb, leb, ◌==◌,
  if◌then◌else◌,
}
use zalloc.Mapped.{World, Mapped, buddy_xmalloc, buddy_xfree, buddy_get_size}

-- The allocator's variables, and the bytes of memory.
pub record Process : Type 0 where
  pub heap : Mapped
  pub memory : ℕ → ℕ

-- The `n` bytes from `p` on lie within the map at `base`.
abbrev pub in_map : ℕ → ℕ → ℕ → Bool
in_map base p n = leb base p && leb (p + n) (base + 2 ^ 31)

abbrev pub is_within : ℕ → ℕ → ℕ → Bool
is_within p n a = leb p a && ltb a (p + n)

-- The C library's two functions, which may touch the map only.
unfoldable pub memcpy : ℕ → (dst src n : ℕ) → (ℕ → ℕ) → Run (ℕ → ℕ)
memcpy base dst src n memory =
    if n == 0
    then ok memory
    else if in_map base dst n && in_map base src n
    then ok (λ a. if is_within dst n a then memory (src + (a - dst)) else memory a)
    else fault

unfoldable pub memset : ℕ → (dst v n : ℕ) → (ℕ → ℕ) → Run (ℕ → ℕ)
memset base dst v n memory =
    if n == 0
    then ok memory
    else if in_map base dst n
    then ok (λ a. if is_within dst n a then v else memory a)
    else fault

abbrev pub min : ℕ → ℕ → ℕ
min x y = if ltb x y then x else y

module _ (lib : Bool) (w : World) (fuel : ℕ) where
  -- The part of `realloc` that copies the old block and frees it.
  unfoldable pub move : Process → (new_ptr ptr size : ℕ) → Run (ℕ × Process)
  unfolding memcpy
  move p new_ptr ptr size = do
    (old_size, heap) ← buddy_get_size lib w p.heap ptr
    memory ← memcpy heap.memblock new_ptr ptr (min size old_size) p.memory
    heap ← buddy_xfree lib w heap ptr
    ok (new_ptr, record { heap = heap; memory = memory })

  unfoldable pub realloc : Process → (ptr size : ℕ) → Run (ℕ × Process)
  unfolding move
  realloc p ptr size = do
    (new_ptr, heap) ← buddy_xmalloc lib w fuel p.heap size
    let p = record p { heap = heap }
    let moved = move p new_ptr ptr size
    if new_ptr == 0 then ok (new_ptr, p) else if ptr == 0 then ok (new_ptr, p) else moved

  unfoldable pub malloc : Process → ℕ → Run (ℕ × Process)
  malloc p size = do
    (ptr, heap) ← buddy_xmalloc lib w fuel p.heap size
    ok (ptr, record p { heap = heap })

  unfoldable pub free : Process → ℕ → Run Process
  free p ptr =
      let freed = buddy_xfree lib w p.heap ptr >>= λ heap. ok (record p { heap = heap }) in
      if ptr == 0 then ok p else freed

  -- The product is not tested for overflow, nor the pointer for NULL.
  unfoldable pub calloc : Process → (num size : ℕ) → Run (ℕ × Process)
  unfolding memset
  calloc p num size = do
    let total = num * size % 2 ^ 64
    (ptr, heap) ← buddy_xmalloc lib w fuel p.heap total
    memory ← memset heap.memblock ptr 0 total p.memory
    ok (ptr, record { heap = heap; memory = memory })

  -- The return value, and what is stored in `*res`.
  unfoldable pub posix_memalign : Process → (align len : ℕ) → Run (ℕ × Option ℕ × Process)
  unfolding malloc
  posix_memalign p align len = do
    (ptr, p) ← malloc p len
    if ptr == 0 then ok (1, none, p) else ok (0, some ptr, p)

  -- The pointer, the value of `errno` where it is set, and the state.
  unfoldable pub memalign : Process → (align len : ℕ) → Run (ℕ × Option ℕ × Process)
  unfolding posix_memalign
  memalign p align len = do
    (ret, res, p) ← posix_memalign p align len
    elim res [ none ↦ ok (0, some ret, p) | some mem ↦ ok (mem, none, p) ]

  unfoldable pub aligned_alloc : Process → (align len : ℕ) → Run (ℕ × Process)
  aligned_alloc p align len = ok (0, p)
