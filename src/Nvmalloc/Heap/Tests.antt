-- ===== src/Nvmalloc/Heap/Tests.antt =====
-- Runs of inc/nvmalloc/nvmalloc.c on four pages, with a sum in place of the checksum.
use zalloc.Base.{
  ℕ, ◌+◌, ◌-◌, ◌%◌, ◌^◌, ◌≡◌, refl, true, some, none, [], Run, ok, ◌>>=◌, Option, fault,
}
use zalloc.Nvmalloc.{
  paint, forward, backward, is_free_forward, is_free_backward, make_one, make_zero, get_best_fit,
}
use zalloc.Nvmalloc.Header.{crc_compute, crc_get_size}
use zalloc.Nvmalloc.Free.{Nvm, find_run, try_list, get_more_memory, more_pages}
use zalloc.Nvmalloc.Heap.{
  nvmalloc_init, nvmalloc, nvfree, get_free_location, use_run, check_run, carve, extend_zone,
  insert_free_location, extend_free_location, put_in_dna_list, increment_time,
}

abbrev sum : ℕ → ℕ → ℕ
sum a b = (a + b) % 2 ^ 32

abbrev blank : Nvm
blank = record {
  zone = 0;
  top = 0;
  pages = 0;
  bitmap = record { size = 0; bytes = λ i. 0 };
  lists = λ i. [];
  word = λ p. 0;
  next = λ p. 0;
  time = λ p. 0;
  head = 0;
  tail = 0;
  wait = 0;
}

-- Where the second block of 100 bytes lies once the first is freed: the hints of the lists lead to
-- it again.
abbrev start : Run Nvm
start = nvmalloc_init true 4 0 blank

abbrev location_of : Run (Option ℕ × Nvm) → Run (Option ℕ)
location_of r = r >>= λ (p, st). ok p

abbrev then_malloc : ℕ → Run (Option ℕ × Nvm) → Run (Option ℕ × Nvm)
then_malloc size r = r >>= λ (p, st). nvmalloc sum true true 1 st size

abbrev then_free : ℕ → Run (Option ℕ × Nvm) → Run (Option ℕ × Nvm)
then_free p r = r >>= λ (q, st). nvfree sum 1 1 st p >>= λ st. ok (none, st)

abbrev begin : Run (Option ℕ × Nvm)
begin = start >>= λ st. ok (none, st)

-- Stands for the list of what the runs below compute with.
runs : ℕ
unfolding nvmalloc_init nvmalloc nvfree paint forward backward get_best_fit make_one crc_compute
    crc_get_size make_zero is_free_forward is_free_backward get_free_location find_run try_list
    use_run check_run carve extend_zone get_more_memory more_pages insert_free_location
    extend_free_location put_in_dna_list increment_time
runs = 0

two_blocks : location_of (then_malloc 50 (then_malloc 100 begin)) ≡ ok (some 136)
unfolding runs
two_blocks = refl

reused :
    location_of (then_malloc 110 (then_free 8 (then_malloc 50 (then_malloc 100 begin))))
    ≡ ok (some 8)
unfolding runs
reused = refl

-- A part of a freed block, and then its rest.
carved :
    location_of
      (then_malloc 20 (then_malloc 30 (then_free 8 (then_malloc 50 (then_malloc 100 begin)))))
    ≡ ok (some 72)
unfolding runs
carved = refl

-- The sum wraps to 0.
empty_size : (start >>= λ st. nvmalloc sum true true 1 st (2 ^ 32 - 8)) ≡ fault
unfolding runs
empty_size = refl
