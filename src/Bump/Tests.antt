-- ===== src/Bump/Tests.antt =====
-- The theorem on inc/mmap_alloc.c at a map of 100 bytes at 2^40.
use zalloc.Base.{◌+◌, ◌^◌, ◌≤◌, ◌≡◌, [], ◌∷◌, arith}
use zalloc.Bump.{bump_init, mmap_malloc, mmap_calls}
use zalloc.Bump.Apart.{mmap_malloc-apart}

rest : 30 ≤ (mmap_calls (20 ∷ 90 ∷ 10 ∷ []) (bump_init (2 ^ 40) 100)).remain
unfolding mmap_calls mmap_malloc
rest = omega arith

mmap_malloc-apart_example :
    let r = mmap_malloc (mmap_calls (20 ∷ 90 ∷ 10 ∷ []) (bump_init (2 ^ 40) 100)) 30 in
    (2 ^ 40 + 0 ≤ r.0) × (r.0 + 30 ≤ 2 ^ 40 + 0 + 100) × (r.1.memblock + r.1.pos ≡ r.0 + 30)
mmap_malloc-apart_example =
    mmap_malloc-apart (bump_init (2 ^ 40) 100) (20 ∷ 90 ∷ 10 ∷ []) 30 (omega arith) rest
