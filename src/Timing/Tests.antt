-- ===== src/Timing/Tests.antt =====
-- `timeit` and `test_all` of src/zalloc.c on a map of 8200 bytes at 2^40, which has room for two blocks.
use zalloc.Base.{
  ℕ, ◌+◌, ◌-◌, ◌^◌, ◌≡◌, refl, true, List, [], ◌∷◌, Run, ok, ltb, ◌==◌, if◌then◌else◌, arith,
}
use zalloc.Handler.Plain.{plain, compare_names, own_name}
use zalloc.Handler.{without, has, handler_register}
use zalloc.Handler.Calls.{Call, register, unregister, is_legal, registered, run_calls}
use zalloc.Bump.{Bump, mmap_handler_init}
use zalloc.Timing.{Timespec, alloc_total, span_of, milliseconds, timeit_loop, test_all}
use zalloc.Timing.Served.{is_mapped, bump_malloc, Timed, timeit_loop-mmap_handler_init}
use zalloc.Timing.Each.{Answers, Tested, map, test_all-Tested}

-- A clock that goes back by a nanosecond.
back :
    span_of (record { tv_sec = 5; tv_nsec = 7 }) (record { tv_sec = 5; tv_nsec = 6 }) ≡ 2 ^ 64 - 1
unfolding span_of
back = refl

rounded : milliseconds (2 ^ 64 - 1) ≡ 0
unfolding milliseconds
rounded = refl

timeit_loop-mmap_handler_init_example :
    (st : Bump) × (bytes : ℕ → ℕ) × (mmap_handler_init plain own_name compare_names 9 8200
        (2 ^ 40)
        ([], [])
        (λ _. 0)
      ≡ ok (handler_register plain own_name compare_names ([], []) 9, st, bytes))
    × (st.memblock ≡ 2 ^ 40)
    × (st.pos ≡ 0)
    × (st.remain ≡ 8200)
    × Timed st bytes 0 alloc_total
        (timeit_loop (is_mapped (2 ^ 40) (2 ^ 40 + 8200)) bump_malloc st bytes 0 alloc_total)
timeit_loop-mmap_handler_init_example =
    timeit_loop-mmap_handler_init plain own_name compare_names 9 8200 (2 ^ 40) ([], []) (λ _. 0)
      (omega arith) (omega arith) (omega arith)

-- Two handlers that share a counter: one gives three blocks, the other none.
abbrev malloc_of : ℕ → ℕ → ℕ → Run (ℕ × ℕ)
malloc_of h st size = ok (if h == 3 then (if ltb st 3 then 2 ^ 40 + st else 0) else 0, st + 1)

answers : (h : ℕ) → Answers (λ _. true) (malloc_of h)
answers h = record {
  ret = λ st. if h == 3 then (if ltb st 3 then 2 ^ 40 + st else 0) else 0;
  after = λ st. st + 1;
  result = λ st. refl;
  valid = λ st given. refl;
}

abbrev calls : List Call
calls = register 3 ∷ register 4 ∷ register 5 ∷ unregister 4 ∷ []

abbrev still : Timespec
still = record { tv_sec = 1; tv_nsec = 0 }

legal : is_legal [] [] calls ≡ true
unfolding is_legal has without
legal = refl

test_all-Tested_example : Tested (map own_name (registered [] calls)) (
    test_all
      (λ _. true)
      malloc_of
      plain
      own_name
      (λ _. (still, still))
      (run_calls plain own_name compare_names plain.head_init calls)
      0
      (λ _. 0))
test_all-Tested_example =
    test_all-Tested (λ _. true) malloc_of plain own_name (λ _. (still, still)) compare_names answers
      calls 0 (λ _. 0) legal
