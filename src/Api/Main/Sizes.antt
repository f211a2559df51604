-- ===== src/Api/Main/Sizes.antt =====
-- The sizes that the loop of `main` asks for.
use zalloc.Base.{
  ℕ, zero, suc, ◌-◌, ◌*◌, ◌^◌, ◌≤◌, ◌<◌, ◌≡◌, refl, Bool, true, ◌&&◌, leb, ◌==◌, arith, Bool-cases,
  inl, inr, ==_true,
}
use zalloc.Buddy.Size.{page_size, block_pages}

all_below : ℕ → (ℕ → Bool) → Bool
all_below zero f = true
all_below (suc n) f = f n && all_below n f

all_below-at : (n : ℕ) (f : ℕ → Bool) (i : ℕ) → all_below n f ≡ true → i < n → f i ≡ true
unfolding all_below
all_below-at zero f i all low = absurd (omega arith)
all_below-at (suc n) f i all low = elim (Bool-cases (i == n)) [
  | inl last ↦ rw (==_true i n last) (both (f n) (all_below n f) all).0
  | inr before ↦ all_below-at n f i (both (f n) (all_below n f) all).1 (ground arith)
]
  where
    both : (a b : Bool) → (a && b) ≡ true → (a ≡ true) × (b ≡ true)
    both a b h = ground arith

-- The sizes of the loop are powers of two, of a whole number of pages from 2^12 on.
pub pages_of : (i : ℕ) → i < 26 → block_pages (2 ^ i) ≡ 2 ^ (i - 12)
unfolding block_pages all_below
pages_of i low =
    ==_true (block_pages (2 ^ i)) (2 ^ (i - 12))
      (all_below-at 26 (λ i. block_pages (2 ^ i) == 2 ^ (i - 12)) i refl low)

pub fits_pages : (i : ℕ) → i < 26 → 2 ^ i ≤ page_size * 2 ^ (i - 12)
unfolding all_below
fits_pages i low =
    let fit : leb (2 ^ i) (page_size * 2 ^ (i - 12)) ≡ true =
      all_below-at 26 (λ i. leb (2 ^ i) (page_size * 2 ^ (i - 12))) i refl low in
    ground arith
