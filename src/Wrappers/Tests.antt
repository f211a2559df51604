-- ===== src/Wrappers/Tests.antt =====
-- A block that is given and freed again, with a sum in place of the checksum.
use zalloc.Base.{ℕ, ◌+◌, ◌*◌, ◌%◌, ◌^◌, ◌<◌, ◌≡◌, refl, true, Option, some, Run, ok, [], arith}
use zalloc.Nvmalloc.{
  base_size, paint, forward, backward, get_best_fit, make_one, make_zero, is_free_forward,
  is_free_backward,
}
use zalloc.Nvmalloc.Header.{crc_compute, crc_get_size}
use zalloc.Nvmalloc.Free.{nil, Nvm, find_run}
use zalloc.Nvmalloc.Heap.{
  header_size, nvmalloc_init, nvmalloc, nvfree, get_free_location, extend_zone, increment_time,
  put_in_dna_list, extend_free_location, insert_free_location,
}
use zalloc.Nvmalloc.Block.{units_for}
use zalloc.Wrappers.{nv_malloc, nv_free, nv_handler_init}
use zalloc.Wrappers.Reclaim.{NvSession, begin, gets, frees, NvSession-reclaimed}

abbrev sum : ℕ → ℕ → ℕ
sum a b = (a + b) % 2 ^ 32

abbrev blank : Nvm
blank = record {
  zone = 0;
  top = 0;
  pages = 0;
  bitmap = record { size = 0; bytes = λ i. 0 };
  lists = λ i. [];
  word = λ p. 0;
  next = λ p. 0;
  time = λ p. 0;
  head = 0;
  tail = 0;
  wait = 0;
}

abbrev state_of : Run Nvm → Nvm
state_of (ok st) = st
state_of r = blank

abbrev given_of : Run (Option ℕ × Nvm) → Nvm
given_of (ok (p, st)) = st
given_of r = blank

abbrev start : Nvm
start = state_of (nv_handler_init true blank)

abbrev one_block : Nvm
one_block = given_of (nv_malloc sum true true 1 start 100)

abbrev returned : Nvm
returned = state_of (nv_free sum 3 4 one_block (base_size * 0 + header_size))

fresh_start : nv_handler_init true blank ≡ ok start
unfolding nv_handler_init nvmalloc_init
fresh_start = refl

gets_block :
    nv_malloc sum true true 1 start 100 ≡ ok (some (base_size * 0 + header_size), one_block)
unfolding nv_handler_init nvmalloc_init nv_malloc nvmalloc paint get_best_fit make_one crc_compute
    get_free_location find_run extend_zone increment_time
gets_block = refl

frees_block : nv_free sum 3 4 one_block (base_size * 0 + header_size) ≡ ok returned
unfolding nv_handler_init nvmalloc_init nv_malloc nvmalloc paint get_best_fit make_one crc_compute
    get_free_location find_run extend_zone increment_time nv_free nvfree crc_get_size
    put_in_dna_list extend_free_location insert_free_location make_zero is_free_forward
    is_free_backward forward backward
frees_block = refl

room : start.top + 100 + 2 ^ 24 + header_size < 2 ^ 32
unfolding nv_handler_init nvmalloc_init
room = omega arith

run : NvSession sum returned []
run =
    frees [] [] 0 (units_for (100 + header_size))
      (gets (begin blank start fresh_start) true 1 100 0 one_block room gets_block) 3 4 returned
      (omega arith) (omega arith) frees_block

NvSession-reclaimed_example : (returned.zone ≡ 0) × (returned.head ≡ nil) × (returned.tail ≡ nil)
NvSession-reclaimed_example = NvSession-reclaimed sum returned run
