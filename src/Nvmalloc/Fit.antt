-- ===== src/Nvmalloc/Fit.antt =====
-- `getBestFit`: from a size to the index of a list of free blocks.
use zalloc.Base.{
  ℕ, ◌+◌, ◌-◌, ◌*◌, ◌/◌, ◌%◌, ◌^◌, ◌≤◌, ◌<◌, ◌≡◌, true, false, arith, ltb, ◌==◌, Bool-cases, inl,
  inr,
}
use zalloc.Nvmalloc.{base_size, nr_sizes, get_best_fit}

-- The index that the code computes before it looks at the remainder.
below : (size : ℕ) → 64 ≤ size → size ≤ 4096 → (size / 64 + 2 ^ 32 - 1) % 2 ^ 32 ≡ size / 64 - 1
below size h top = omega arith

wrapped : (size : ℕ) → size < 64 → ((size / 64 + 2 ^ 32 - 1) % 2 ^ 32 + 1) % 2 ^ 32 ≡ 0
wrapped size h = omega arith

-- For 1 to 4096 bytes, `getBestFit` gives the index of the list whose blocks are the smallest
-- multiple of 64 bytes that holds the size: with one unit less they would not.
pub get_best_fit-least :
    (size : ℕ)
    → 0 < size
    → size ≤ nr_sizes * base_size
    → (get_best_fit size < nr_sizes)
      × (size ≤ base_size * (get_best_fit size + 1))
      × (base_size * get_best_fit size < size)
unfolding get_best_fit
get_best_fit-least size pos top =
    let small : ltb 4096 size ≡ false = ground arith in
    elim (Bool-cases (size % 64 == 0)) [
      | inl whole ↦
          let rest : size % 64 ≡ 0 = ground arith in
          rw (small, whole, below size (omega arith) top) (omega arith, omega arith, omega arith)
      | inr part ↦
          let rest : 0 < size % 64 = ground arith in
          elim (Bool-cases (ltb size 64)) [
            | inl tiny ↦
                let lt : size < 64 = ground arith in
                rw (small, part, wrapped size lt) (omega arith, omega arith, omega arith)
            | inr more ↦
                let ge : 64 ≤ size = ground arith in
                rw (small, part, below size ge top) (omega arith, omega arith, omega arith)
          ]
    ]

-- No size but 0 leads past the last list.
pub get_best_fit-le : (size : ℕ) → 0 < size → get_best_fit size ≤ nr_sizes
get_best_fit-le size pos = elim (Bool-cases (ltb (nr_sizes * base_size) size)) [
  | inl large ↦ large_le size large
  | inr small ↦
      let le : size ≤ nr_sizes * base_size = ground arith in
      omega (arith, (get_best_fit-least size pos le).0)
]
  where
    large_le : (size : ℕ) → ltb (nr_sizes * base_size) size ≡ true → get_best_fit size ≤ nr_sizes
    large_le size large = unfold get_best_fit in rw large (omega arith)
