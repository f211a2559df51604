-- ===== src/Api/Main.antt =====
-- src/zalloc.c: `limit_config` and `main`, which a build without LIB has, with a token for each line
-- that they print. `main` is modelled with the one block that `if (1)` selects.
pub mod Sizes
pub mod Loop
pub mod Ending
mod Tests
use zalloc.Base.{
  ℕ, zero, suc, ◌+◌, ◌-◌, ◌*◌, ◌/◌, ◌^◌, Bool, true, false, not, List, [], ◌∷◌, ◌++◌, Option, none,
  some, Run, ok, fault, ◌>>=◌, ◌>>◌, check, ltb, ◌==◌, if◌then◌else◌,
}
use zalloc.Handler.{Clist, handler_get}
use zalloc.Mapped.{World}
use zalloc.Api.{Process, realloc}

-- `limit_failed` is "get limit fail", `failed` the message of `log_err`.
pub data Line : Type 0 where
  limit_failed : Line
  limit : ℕ → Line
  attempt : ℕ → Line
  failed : Line
  done : Line

-- `(int)(1 << rlim_max) / (1024 * 1024)`, as a bit pattern: `1 << 31` is the `int` -2^31.
unfoldable pub megabytes : ℕ → Run ℕ
megabytes rlim_max =
    if ltb rlim_max 31
    then ok (2 ^ rlim_max / (1024 * 1024))
    else if rlim_max == 31
    then ok (2 ^ 32 - 2 ^ 31 / (1024 * 1024))
    else fault

-- The arguments are the results of `setrlimit` and `getrlimit`, and the limit that the latter gives.
unfoldable pub limit_config : (set_result get_result rlim_max : ℕ) → Run (List Line)
unfolding megabytes
limit_config set_result get_result rlim_max =
    let shown = megabytes rlim_max >>= λ m. ok (limit m ∷ []) in
    if not (set_result == 0)
    then ok (limit_failed ∷ [])
    else if not (get_result == 0)
    then ok (limit_failed ∷ [])
    else shown

abbrev pub max_pow : ℕ
max_pow = 26

module _ (w : World) (fuel : ℕ) where
  -- The last `n` rounds of the loop, from round `i` on.
  unfoldable pub realloc_loop : Process → (mem i n : ℕ) → Run (List Line × ℕ × Process)
  realloc_loop p mem i zero = ok ([], mem, p)
  realloc_loop p mem i (suc n) = do
    let size = 2 ^ i
    (new_mem, p) ← realloc false w fuel p mem size
    (lines, last, p) ← realloc_loop p new_mem (i + 1) n
    ok (attempt size ∷ ((if new_mem == 0 then failed ∷ [] else []) ++ lines), last, p)

-- The lines, the pointer that the loop ends with, and the state. `buddy_name` is "buddy".
module _ {L Name : Type 0} (clist : Clist L) (name : ℕ → Name) (strcmp : Name → Name → ℕ)
    (buddy_name : Name) where
  unfoldable pub main :
      World
      → (fuel set_result get_result rlim_max : ℕ) → L
      → Process
      → Run (List Line × ℕ × Process)
  unfolding limit_config realloc_loop
  main w fuel set_result get_result rlim_max handlers p = do
    limits ← limit_config set_result get_result rlim_max
    check
        (elim (handler_get clist name strcmp handlers buddy_name) [ none ↦ false | some h ↦ true ])
    (lines, mem, p) ← realloc_loop w fuel p 0 0 max_pow
    ok (limits ++ (lines ++ (done ∷ [])), mem, p)
