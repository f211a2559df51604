-- ===== src/Timing/Served.antt =====
-- `timeit` on the blocks of inc/mmap_alloc.c: how many requests are served, and what is written.
use Prim.Native.Nat.{min}
use mathlib.Core.Path.{subst}
use zalloc.Base.{
  ℕ, zero, suc, ◌+◌, ◌-◌, ◌*◌, ◌/◌, ◌%◌, ◌^◌, ◌≤◌, ◌<◌, ◌≡◌, refl, sym, ap, ◌∙◌, Bool, true, false,
  ◌⊎◌, inl, inr, Option, none, some, Run, ok, ltb, leb, ◌&&◌, ◌==◌, if◌then◌else◌, arith,
  Bool-cases,
}
use zalloc.Handler.{Clist, handler_register}
use zalloc.Bump.{Bump, bump_init, mmap_malloc, last_pos, write, mmap_handler_init}
use zalloc.Timing.{alloc_total, alloc_size, digits, timeit_loop}
use zalloc.Timing.Rounds.{timeit_loop-suc}
use zalloc.Timing.Text.{size_of, byte_at, write-outside, write-inside}

-- `mmap_malloc` as the field of the handler, and the addresses where ten bytes of the map begin.
abbrev pub bump_malloc : Bump → ℕ → Run (ℕ × Bump)
bump_malloc st size = ok (mmap_malloc st size)

abbrev pub is_mapped : (low high : ℕ) → ℕ → Bool
is_mapped low high p = leb low p && leb (p + 10) high

-- What `n` rounds do: one block for each 4096 bytes that remain, as long as there are rounds, its
-- first ten bytes written.
pub record Timed (st : Bump) (memory : ℕ → ℕ) (i n : ℕ) (r : Run (Option ℕ × Bump × (ℕ → ℕ)))
    : Type 0 where
  pub count : ℕ
  pub counted : count ≡ min n (st.remain / alloc_size)
  pub after : Bump
  pub bytes : ℕ → ℕ
  pub result : r ≡ ok (if ltb count n then some (i + count) else none, after, bytes)
  pub memblock : after.memblock ≡ st.memblock
  pub pos : after.pos ≡ st.pos + alloc_size * count
  pub remain : after.remain + alloc_size * count ≡ st.remain
  pub written :
      (k j : ℕ)
      → k < count
      → j < 10
      → bytes (st.memblock + st.pos + alloc_size * k + j) ≡ byte_at digits j
  pub untouched :
      (a : ℕ)
      → ((k : ℕ)
          → k < count
          → (a < st.memblock + st.pos + alloc_size * k)
            ⊎ (st.memblock + st.pos + alloc_size * k + 10 ≤ a))
      → bytes a ≡ memory a

-- A block that is written, and the rounds after it.
module _ (st : Bump) (memory : ℕ → ℕ) (i n : ℕ) where
  abbrev start : ℕ
  start = st.memblock + st.pos

  abbrev next : Bump
  next = record st { pos = st.pos + alloc_size; remain = st.remain - alloc_size }

  step-Timed :
      (r : Run (Option ℕ × Bump × (ℕ → ℕ)))
      → alloc_size ≤ st.remain
      → Timed next (write start digits memory) (i + 1) n r
      → Timed st memory i (suc n) r
  unfolding size_of
  step-Timed r room rest = record {
    count = suc rest.count;
    counted = omega (arith, rest.counted);
    after = rest.after;
    bytes = rest.bytes;
    result = rest.result ∙ rw (same_test, same_round) refl;
    memblock = rest.memblock;
    pos = omega (arith, rest.pos);
    remain = omega (arith, rest.remain);
    written = texts;
    untouched = λ a away.
        rest.untouched a (λ k h. later a k (away (suc k) (omega arith)))
        ∙ write-outside start digits memory a (first a (away 0 (omega arith)));
  }
    where
      same_test : ltb rest.count n ≡ ltb (suc rest.count) (suc n)
      same_test = ground arith

      same_round : i + 1 + rest.count ≡ i + suc rest.count
      same_round = omega arith

      at_start : (j : ℕ) → start + alloc_size * 0 + j ≡ start + j
      at_start j = omega arith

      shifted :
          (k j : ℕ) → start + alloc_size * suc k + j ≡ next.memblock + next.pos + alloc_size * k + j
      shifted k j = omega arith

      later :
          (a k : ℕ)
          → (a < start + alloc_size * suc k) ⊎ (start + alloc_size * suc k + 10 ≤ a)
          → (a < next.memblock + next.pos + alloc_size * k)
            ⊎ (next.memblock + next.pos + alloc_size * k + 10 ≤ a)
      later a k (inl h) = inl (omega arith)
      later a k (inr h) = inr (omega arith)

      texts :
          (k j : ℕ)
          → k < suc rest.count
          → j < 10
          → rest.bytes (start + alloc_size * k + j) ≡ byte_at digits j
      texts zero j low ten =
          rest.untouched (start + alloc_size * 0 + j) (λ k h. inl (omega arith))
          ∙ ap (write start digits memory) (at_start j)
          ∙ write-inside start digits memory j ten
      texts (suc k) j low ten = ap rest.bytes (shifted k j) ∙ rest.written k j (omega arith) ten

      first :
          (a : ℕ)
          → (a < start + alloc_size * 0) ⊎ (start + alloc_size * 0 + 10 ≤ a)
          → (a < start) ⊎ (start + 10 ≤ a)
      first a (inl h) = inl (omega arith)
      first a (inr h) = inr (omega arith)

timeit_loop-next :
    (low high n i : ℕ) (st : Bump) (memory : ℕ → ℕ)
    → alloc_size ≤ st.remain
    → 0 < low
    → low ≤ st.memblock + st.pos
    → st.memblock + st.pos + st.remain ≤ high
    → high < 2 ^ 64
    → timeit_loop (is_mapped low high) bump_malloc st memory i (suc n)
      ≡ timeit_loop
          (is_mapped low high)
          bump_malloc
          (next st memory i n)
          (write (st.memblock + st.pos) digits memory)
          (i + 1)
          n
unfolding mmap_malloc
timeit_loop-next low high n i st memory room pos from to fits =
    let within : ltb st.remain alloc_size ≡ false = ground arith in
    let at : (st.memblock + st.pos) % 2 ^ 64 ≡ st.memblock + st.pos = omega arith in
    let moved : (st.pos + alloc_size) % 2 ^ 64 ≡ st.pos + alloc_size = omega arith in
    let given : (st.memblock + st.pos == 0) ≡ false = ground arith in
    let mapped : is_mapped low high (st.memblock + st.pos) ≡ true = ground arith in
    timeit_loop-suc (is_mapped low high) bump_malloc st (next st memory i n) (st.memblock + st.pos)
      memory i n (rw (within, at, moved) refl) given mapped

timeit_loop-Timed :
    (low high n i : ℕ) (st : Bump) (memory : ℕ → ℕ)
    → 0 < low
    → low ≤ st.memblock + st.pos
    → st.memblock + st.pos + st.remain ≤ high
    → high < 2 ^ 64
    → Timed st memory i n (timeit_loop (is_mapped low high) bump_malloc st memory i n)
unfolding timeit_loop mmap_malloc
timeit_loop-Timed low high zero i st memory pos from to fits = record {
  count = 0;
  counted = omega arith;
  after = st;
  bytes = memory;
  result = refl;
  memblock = refl;
  pos = omega arith;
  remain = omega arith;
  written = λ k j h ten. absurd (omega arith);
  untouched = λ a away. refl;
}
timeit_loop-Timed low high (suc n) i st memory pos from to fits =
    elim (Bool-cases (ltb st.remain alloc_size)) [
      | inl over ↦
          let none_left : st.remain / alloc_size ≡ 0 = ground arith in
          let same : i + 0 ≡ i = omega arith in
          let before : ltb 0 (suc n) ≡ true = ground arith in
          rw over (record {
            count = 0;
            counted = omega (arith, none_left);
            after = st;
            bytes = memory;
            result = rw (before, same) refl;
            memblock = refl;
            pos = omega arith;
            remain = omega arith;
            written = λ k j h ten. absurd (omega arith);
            untouched = λ a away. refl;
          })
      | inr within ↦
          let room : alloc_size ≤ st.remain = ground arith in
          let rest =
            timeit_loop-Timed low high n (i + 1) (next st memory i n)
              (write (st.memblock + st.pos) digits memory) pos (omega arith) (omega arith) fits in
          subst (Timed st memory i (suc n))
            (sym (timeit_loop-next low high n i st memory room pos from to fits))
            (step-Timed st memory i n
              (timeit_loop (is_mapped low high) bump_malloc (next st memory i n)
                (write (st.memblock + st.pos) digits memory) (i + 1) n)
              room rest)
    ]

module _ {L Name : Type 0} (clist : Clist L) (name : ℕ → Name) (strcmp : Name → Name → ℕ) where
  -- Where the file has 20 bytes at least and its map lies within the address space, the constructor
  -- of inc/mmap_alloc.c returns, and the loop of `timeit` over `mmap_malloc` after it ends: it stops
  -- at the first request that the rest of the map is too small for, or after 16000 blocks; the block
  -- of round `k` begins 4096 * k bytes into the map and begins with the ten bytes that were written
  -- to it, and no other byte has changed since the constructor.
  pub timeit_loop-mmap_handler_init :
      (mmap_handler st_size mapped : ℕ) (handlers : L) (memory : ℕ → ℕ)
      → 20 ≤ st_size
      → 0 < mapped
      → mapped + st_size < 2 ^ 64
      → (st : Bump) × (bytes : ℕ → ℕ) × (mmap_handler_init clist name strcmp mmap_handler st_size
            mapped handlers memory
          ≡ ok (handler_register clist name strcmp handlers mmap_handler, st, bytes))
        × (st.memblock ≡ mapped)
        × (st.pos ≡ 0)
        × (st.remain ≡ st_size)
        × Timed st bytes 0 alloc_total
            (timeit_loop (is_mapped mapped (mapped + st_size)) bump_malloc st bytes 0 alloc_total)
  unfolding mmap_handler_init
  timeit_loop-mmap_handler_init mmap_handler st_size mapped handlers memory least pos fits =
      let fine : (mapped == 2 ^ 64 - 1) ≡ false = ground arith in
      let long : ltb st_size 20 ≡ false = ground arith in
      let bytes = write ((mapped + st_size + 2 ^ 64 - 20) % 2 ^ 64) last_pos memory in
      (
        bump_init mapped st_size,
        bytes,
        rw (fine, long) refl,
        refl,
        refl,
        refl,
        timeit_loop-Timed mapped (mapped + st_size) alloc_total 0 (bump_init mapped st_size) bytes
            pos (omega arith) (omega arith) fits,
      )
