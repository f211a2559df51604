-- ===== src/Timing/Rounds.antt =====
-- A round of the loop of `timeit`.
use zalloc.Base.{ℕ, suc, ◌+◌, ◌≡◌, refl, Bool, true, false, some, Run, ok, ◌>>=◌, ◌==◌}
use zalloc.Bump.{write}
use zalloc.Timing.{alloc_size, digits, strcpy, timeit_loop}

module _ {S : Type 0} (is_valid : ℕ → Bool) (h_malloc : S → ℕ → Run (ℕ × S)) (st st' : S) (ret : ℕ)
    (memory : ℕ → ℕ) (i n : ℕ) (got : h_malloc st alloc_size ≡ ok (ret, st')) where
  pub timeit_loop-suc :
      (ret == 0) ≡ false
      → is_valid ret ≡ true
      → timeit_loop is_valid h_malloc st memory i (suc n)
        ≡ timeit_loop is_valid h_malloc st' (write ret digits memory) (i + 1) n
  unfolding timeit_loop strcpy
  timeit_loop-suc given valid = rw (got, ◌>>=◌, given, valid) refl

  pub timeit_loop-stop :
      (ret == 0) ≡ true
      → timeit_loop is_valid h_malloc st memory i (suc n) ≡ ok (some i, st', memory)
  unfolding timeit_loop
  timeit_loop-stop over = rw (got, ◌>>=◌, over) refl
