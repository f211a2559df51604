-- ===== src/Timing.antt =====
-- src/zalloc.c: `timeit` and `test_all`, with a token for each line that they print. IS_FREE is 0, so
-- no block is freed.
pub mod Text
pub mod Rounds
pub mod Served
pub mod Each
mod Tests
use zalloc.Base.{
  ℕ, zero, suc, ◌+◌, ◌-◌, ◌*◌, ◌/◌, ◌%◌, ◌^◌, Bool, true, false, List, [], ◌∷◌, ◌++◌, Option, none,
  some, Run, ok, fault, ◌>>=◌, ltb, ◌==◌, if◌then◌else◌,
}
use zalloc.Handler.{Clist}
use zalloc.Bump.{write}

abbrev pub alloc_total : ℕ
alloc_total = 16000

abbrev pub alloc_size : ℕ
alloc_size = 4096

pub data Line (Name : Type 0) : Type 0 where
  heading : (total size : ℕ) → Line Name
  handler : Name → Line Name
  out_of_memory : ℕ → Line Name
  spent : (ns ms : ℕ) → Line Name

-- `struct timespec`
pub record Timespec : Type 0 where
  pub tv_sec : ℕ
  pub tv_nsec : ℕ

-- `span`, a `long`, as a bit pattern
unfoldable pub span_of : (start end : Timespec) → ℕ
span_of start end =
    ((end.tv_sec + 2 ^ 64 - start.tv_sec) * 1000000000 + (end.tv_nsec + 2 ^ 64 - start.tv_nsec))
    % 2 ^ 64

-- `span / 1000000`, which rounds towards 0
unfoldable pub milliseconds : ℕ → ℕ
milliseconds span =
    if ltb span (2 ^ 63) then span / 1000000 else (2 ^ 64 - (2 ^ 64 - span) / 1000000) % 2 ^ 64

-- "123456789" and its NUL
abbrev pub digits : List ℕ
digits = 49 ∷ 50 ∷ 51 ∷ 52 ∷ 53 ∷ 54 ∷ 55 ∷ 56 ∷ 57 ∷ 0 ∷ []

-- The lines of one handler.
unfoldable pub report : {Name : Type 0} → Option ℕ → (span : ℕ) → List (Line Name)
unfolding milliseconds
report none span = spent span (milliseconds span) ∷ []
report (some i) span = out_of_memory i ∷ (spent span (milliseconds span) ∷ [])

-- `h_malloc` is the field of the handler; `is_valid` tells where ten bytes may be written.
module _ {S : Type 0} (is_valid : ℕ → Bool) (h_malloc : S → ℕ → Run (ℕ × S)) where
  unfoldable pub strcpy : ℕ → (ℕ → ℕ) → Run (ℕ → ℕ)
  unfolding write
  strcpy ret memory = if is_valid ret then ok (write ret digits memory) else fault

  -- The last `n` rounds from round `i` on: the round that got no memory, if any, and the state.
  unfoldable pub timeit_loop : S → (ℕ → ℕ) → (i n : ℕ) → Run (Option ℕ × S × (ℕ → ℕ))
  unfolding strcpy
  timeit_loop st memory i zero = ok (none, st, memory)
  timeit_loop st memory i (suc n) = do
    (ret, st) ← h_malloc st alloc_size
    elim (ret == 0) [
      | true ↦ ok (some i, st, memory)
      | false ↦ strcpy ret memory >>= λ memory. timeit_loop st memory (i + 1) n
    ]

  -- The arguments are the two results of `clock_gettime`.
  unfoldable pub timeit :
      {Name : Type 0} → (start end : Timespec) → S → (ℕ → ℕ) → Run (List (Line Name) × S × (ℕ → ℕ))
  unfolding timeit_loop span_of report
  timeit start end st memory = do
    (stopped, st, memory) ← timeit_loop st memory 0 alloc_total
    let span = span_of start end
    ok (report stopped span, st, memory)

-- `malloc_of` is the field of the handler at an address; `clock` gives the results of
-- `clock_gettime` around the loop of each handler, the first one under 0.
module _ {S L Name : Type 0} (is_valid : ℕ → Bool) (malloc_of : ℕ → S → ℕ → Run (ℕ × S))
    (clist : Clist L) (name : ℕ → Name) (clock : ℕ → Timespec × Timespec) where
  unfoldable pub test_each : ℕ → List ℕ → S → (ℕ → ℕ) → Run (List (Line Name) × S × (ℕ → ℕ))
  unfolding timeit
  test_each k [] st memory = ok ([], st, memory)
  test_each k (h ∷ hs) st memory = do
    (lines, st, memory) ← timeit is_valid (malloc_of h) (clock k).0 (clock k).1 st memory
    (rest, st, memory) ← test_each (k + 1) hs st memory
    ok (handler (name h) ∷ (lines ++ rest), st, memory)

  unfoldable pub test_all : L → S → (ℕ → ℕ) → Run (List (Line Name) × S × (ℕ → ℕ))
  unfolding test_each
  test_all handlers st memory = do
    (lines, st, memory) ← test_each 0 (clist.items handlers) st memory
    ok (heading alloc_total alloc_size ∷ lines, st, memory)
