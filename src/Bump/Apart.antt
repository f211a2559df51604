-- ===== src/Bump/Apart.antt =====
-- The blocks of inc/mmap_alloc.c lie one after the other within the map.
use zalloc.Base.{
  ℕ, ◌+◌, ◌%◌, ◌^◌, ◌≤◌, ◌<◌, ◌≡◌, refl, List, [], ◌∷◌, false, arith, ltb, Bool-cases, inl, inr,
}
use zalloc.Bump.{Bump, mmap_malloc, mmap_free, mmap_calls}

-- The map ends before the address space does.
abbrev pub Fits : Bump → Type 0
Fits st = st.memblock + st.pos + st.remain < 2 ^ 64

-- What is kept from one state to a later one.
pub record Later (st st' : Bump) : Type 0 where
  pub memblock : st'.memblock ≡ st.memblock
  pub total : st'.pos + st'.remain ≡ st.pos + st.remain
  pub onward : st.pos ≤ st'.pos

mmap_malloc-Later : (st : Bump) (size : ℕ) → Fits st → Later st (mmap_malloc st size).1
unfolding mmap_malloc
mmap_malloc-Later st size fits = elim (Bool-cases (ltb st.remain size)) [
  | inl over ↦ rw over (record { memblock = refl; total = refl; onward = omega arith })
  | inr within ↦
      let le : size ≤ st.remain = ground arith in
      let next : (st.pos + size) % 2 ^ 64 ≡ st.pos + size = omega arith in
      rw within (record { memblock = refl; total = omega arith; onward = omega arith })
]

Later-Fits : (st st' : Bump) → Later st st' → Fits st → Fits st'
Later-Fits st st' later fits = omega (arith, later.memblock, later.total)

pub mmap_calls-Later : (sizes : List ℕ) (st : Bump) → Fits st → Later st (mmap_calls sizes st)
unfolding mmap_calls mmap_free
mmap_calls-Later [] st fits = record { memblock = refl; total = refl; onward = omega arith }
mmap_calls-Later (size ∷ sizes) st fits =
    let first = mmap_malloc-Later st size fits in
    let rest =
      mmap_calls-Later sizes (mmap_malloc st size).1
        (Later-Fits st (mmap_malloc st size).1 first fits) in
    record {
      memblock = omega (arith, first.memblock, rest.memblock);
      total = omega (arith, first.total, rest.total);
      onward = omega (arith, first.onward, rest.onward);
    }

-- Where the map ends before the address space, a request that fits what remains after any calls
-- gets a block that begins at or after what was handed out before the calls and ends within the
-- map, and the next block begins where it ends.
pub mmap_malloc-apart :
    (st : Bump) (sizes : List ℕ) (size : ℕ)
    → Fits st
    → size ≤ (mmap_calls sizes st).remain
    → let r = mmap_malloc (mmap_calls sizes st) size in
      (st.memblock + st.pos ≤ r.0)
      × (r.0 + size ≤ st.memblock + st.pos + st.remain)
      × (r.1.memblock + r.1.pos ≡ r.0 + size)
unfolding mmap_malloc
mmap_malloc-apart st sizes size fits room =
    let st' = mmap_calls sizes st in
    let later = mmap_calls-Later sizes st fits in
    let within : ltb st'.remain size ≡ false = ground arith in
    let at : (st'.memblock + st'.pos) % 2 ^ 64 ≡ st'.memblock + st'.pos =
      omega (arith, later.memblock, later.total) in
    let next : (st'.pos + size) % 2 ^ 64 ≡ st'.pos + size =
      omega (arith, later.memblock, later.total) in
    rw (within, at, next)
      (
        omega (arith, later.memblock, later.onward),
        omega (arith, later.memblock, later.total),
        omega arith,
      )
