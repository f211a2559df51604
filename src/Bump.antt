-- ===== src/Bump.antt =====
-- inc/mmap_alloc.c: an allocator that only moves on through a mapped file.
pub mod Apart
mod Tests
use zalloc.Base.{ℕ, ◌+◌, ◌-◌, ◌%◌, ◌^◌, List, [], ◌∷◌, Run, ok, fault, ltb, ◌==◌, if◌then◌else◌}
use zalloc.Handler.{Clist, handler_register}

-- `memblock`, `pos_` and `remain_`
pub record Bump : Type 0 where
  pub memblock : ℕ
  pub pos : ℕ
  pub remain : ℕ

-- The variables that the constructor sets: `mapped` is the result of `mmap`, which is not tested.
abbrev pub bump_init : (mapped st_size : ℕ) → Bump
bump_init mapped st_size = record { memblock = mapped; pos = 0; remain = st_size }

-- "last_pos: 4", a line feed and the NUL that ends it
abbrev pub last_pos : List ℕ
last_pos = 108 ∷ 97 ∷ 115 ∷ 116 ∷ 95 ∷ 112 ∷ 111 ∷ 115 ∷ 58 ∷ 32 ∷ 52 ∷ 10 ∷ 0 ∷ []

-- The bytes of memory with some written from `p` on.
unfoldable pub write : ℕ → List ℕ → (ℕ → ℕ) → ℕ → ℕ
write p [] memory = memory
write p (b ∷ bs) memory = let rest = write (p + 1) bs memory in λ a. if a == p then b else rest a

-- The constructor, with the results of `fstat` and `mmap`, and the address of `mmap_handler`. A
-- failed `mmap` is not the end of it, and its write is then outside of any map, as in a file of
-- less than 20 bytes.
module _ {L Name : Type 0} (clist : Clist L) (name : ℕ → Name) (strcmp : Name → Name → ℕ) where
  unfoldable pub mmap_handler_init :
      (mmap_handler st_size mapped : ℕ) → L → (ℕ → ℕ) → Run (L × Bump × (ℕ → ℕ))
  unfolding write
  mmap_handler_init mmap_handler st_size mapped handlers memory =
      let handlers = handler_register clist name strcmp handlers mmap_handler in
      let last_rc = (mapped + st_size + 2 ^ 64 - 20) % 2 ^ 64 in
      if mapped == 2 ^ 64 - 1
      then fault
      else if ltb st_size 20
      then fault
      else ok (handlers, bump_init mapped st_size, write last_rc last_pos memory)

unfoldable pub mmap_malloc : Bump → ℕ → ℕ × Bump
mmap_malloc st size = if ltb st.remain size then (0, st) else (
  (st.memblock + st.pos) % 2 ^ 64,
  record st { pos = (st.pos + size) % 2 ^ 64; remain = st.remain - size },
)

-- `free` is empty.
unfoldable pub mmap_free : Bump → ℕ → Bump
mmap_free st ptr = st

-- The state after requests of the given sizes, each block then freed.
unfoldable pub mmap_calls : List ℕ → Bump → Bump
unfolding mmap_malloc mmap_free
mmap_calls [] st = st
mmap_calls (size ∷ sizes) st =
    let (ptr, st') = mmap_malloc st size in mmap_calls sizes (mmap_free st' ptr)
