-- ===== src/Nvmalloc/Release/Words.antt =====
-- The words of memory once one is written.
use zalloc.Base.{ℕ, ◌*◌, ◌<◌, ◌≡◌, refl, false, ◌⊎◌, ◌==◌, arith, ==_same}
use zalloc.Nvmalloc.{base_size}
use zalloc.Nvmalloc.Free.{put}

pub put_other :
    (word : ℕ → ℕ) (u v x : ℕ)
    → (x < u) ⊎ (u < x)
    → put word (base_size * u) v (base_size * x) ≡ word (base_size * x)
put_other word u v x h =
    let apart : (base_size * u == base_size * x) ≡ false = ground arith in rw apart refl

pub put_own : (word : ℕ → ℕ) (p v : ℕ) → put word p v p ≡ v
put_own word p v = rw (==_same p) refl
