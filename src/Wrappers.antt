-- ===== src/Wrappers.antt =====
-- inc/ram_alloc.c, inc/slab_alloc.c and inc/nv_alloc.c: handlers that pass calls on.
pub mod Reclaim
mod Tests
use zalloc.Base.{ℕ, ◌/◌, ◌*◌, ◌%◌, ◌^◌, Bool, Option, Run, ok, ltb, if◌then◌else◌}
use zalloc.Nvmalloc.Free.{Nvm}
use zalloc.Nvmalloc.Heap.{nvmalloc_init, nvmalloc, nvfree}

-- The C library's two functions are parameters, and so is `slab_alloc`.
module _ {S : Type 0} (libc_malloc : S → ℕ → Run (ℕ × S)) (libc_free : S → ℕ → Run S) where
  abbrev pub ram_malloc : S → ℕ → Run (ℕ × S)
  ram_malloc st size = libc_malloc st size

  abbrev pub ram_free : S → ℕ → Run S
  ram_free st ptr = libc_free st ptr

abbrev pub slab_size : ℕ
slab_size = 128

module _ {S : Type 0} (slab_alloc : S → Run (ℕ × S)) (slab_free : S → ℕ → Run S) where
  unfoldable pub slab_xmalloc : S → ℕ → Run (ℕ × S)
  slab_xmalloc st size =
      let found = slab_alloc st in if ltb slab_size size then ok (0, st) else found

  abbrev pub slab_xfree : S → ℕ → Run S
  slab_xfree st ptr = slab_free st ptr

-- The size is a `size_t` here and a `uint32_t` in `nvmalloc`.
module _ (crc : ℕ → ℕ → ℕ) where
  unfoldable pub nv_malloc : (mapped got : Bool) → (now : ℕ) → Nvm → ℕ → Run (Option ℕ × Nvm)
  nv_malloc mapped got now st size = nvmalloc crc mapped got now st (size % 2 ^ 32)

  unfoldable pub nv_free : (now later : ℕ) → Nvm → ℕ → Run Nvm
  nv_free now later st ptr = nvfree crc now later st ptr

-- The constructor: a region of 64 MiB, and blocks that wait for no time.
unfoldable pub nv_handler_init : (got : Bool) → Nvm → Run Nvm
nv_handler_init got old = nvmalloc_init got (64 * 1024 * 1024 / 4096) 0 old
