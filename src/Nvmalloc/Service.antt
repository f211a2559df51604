-- ===== src/Nvmalloc/Service.antt =====
-- The whole state of inc/nvmalloc/nvmalloc.c: a row of blocks, and the list of those that wait.
pub mod First
pub mod Wake
pub mod Alloc
pub mod Link
pub mod Queue
pub mod Free
pub mod Start
pub mod Follows
pub mod Session
mod Tests
use zalloc.Base.{
  ℕ, zero, suc, ◌+◌, ◌*◌, ◌≤◌, ◌<◌, ◌≡◌, refl, Bool, true, false, ◌⊎◌, inl, inr, List, [], ◌∷◌,
  ◌++◌, ◌==◌, if◌then◌else◌, arith, Bool-cases,
}
use zalloc.Nvmalloc.{base_size}
use zalloc.Nvmalloc.Free.{nil, Nvm}
use zalloc.Nvmalloc.Tiles.{Tile, held}
use zalloc.Nvmalloc.Tiles.Closed.{IsClosed}
use zalloc.Nvmalloc.Block.{IsLaidOut}
use zalloc.Nvmalloc.Blocks.{blocks, Gains, times, waits}

-- The links from the block at unit `u` to the last one.
abbrev pub Chain : (ℕ → ℕ) → ℕ → ℕ → List ℕ → Type 0
Chain next tail u [] = tail ≡ base_size * u
Chain next tail u (v ∷ rest) = (next (base_size * u) ≡ base_size * v) × Chain next tail v rest

abbrev pub Linked : (ℕ → ℕ) → ℕ → ℕ → List ℕ → Type 0
Linked next head tail [] = (head ≡ nil) × (tail ≡ nil)
Linked next head tail (u ∷ rest) = (head ≡ base_size * u) × Chain next tail u rest

-- The list of waiting blocks has each block of the row that waits, once, and the row does not end in
-- a free block.
pub record IsHeap (crc : ℕ → ℕ → ℕ) (st : Nvm) (l : List Tile) (queue : List ℕ) : Type 0 where
  pub laid_out : IsLaidOut crc st l
  pub linked : Linked st.next st.head st.tail queue
  pub waiting : (x : ℕ) → times x queue ≡ waits x (blocks 0 l)
  pub closed : IsClosed l

-- Nothing changes, or the first block that waits becomes free.
abbrev pub Wakes : (old new : List (ℕ × Tile)) → (queue queue' : List ℕ) → Type 0
Wakes old new queue queue' =
    ((new ≡ old) × (queue' ≡ queue))
    ⊎ ((v : ℕ) × (m : ℕ) × (queue ≡ v ∷ queue') × Gains new old (v, held m))

-- The last block of the list is one of it.
pub Chain-last :
    (next : ℕ → ℕ) (tail u : ℕ) (rest : List ℕ)
    → Chain next tail u rest
    → (w : ℕ) × (tail ≡ base_size * w) × (0 < times w (u ∷ rest))
unfolding times
Chain-last next tail u [] e =
    let same : (u == u) ≡ true = ground arith in (u, e, rw same (omega arith))
Chain-last next tail u (v ∷ rest) (link, c) =
    let (w, e, h) = Chain-last next tail v rest c in (w, e, omega (arith, h))
