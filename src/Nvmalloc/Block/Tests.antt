-- ===== src/Nvmalloc/Block/Tests.antt =====
-- A row of blocks on fresh memory, with a sum in place of the checksum.
use zalloc.Base.{ℕ, ◌+◌, ◌-◌, ◌%◌, ◌^◌, refl, true, ◌⊎◌, [], arith}
use zalloc.Nvmalloc.Free.{Nvm}
use zalloc.Nvmalloc.Heap.{get_free_location}
use zalloc.Nvmalloc.Tiles.{total}
use zalloc.Nvmalloc.Block.{IsLaidOut, units_for}
use zalloc.Nvmalloc.Block.Outcome.{Given, Refused}
use zalloc.Nvmalloc.Block.Given.{get_free_location-Given}

abbrev sum : ℕ → ℕ → ℕ
sum a b = (a + b) % 2 ^ 32

abbrev fresh : Nvm
fresh = record {
  zone = 0;
  top = 16384;
  pages = 4;
  bitmap = record { size = 32; bytes = λ i. 0 };
  lists = λ i. [];
  word = λ p. 0;
  next = λ p. 0;
  time = λ p. 0;
  head = 2 ^ 64 - 1;
  tail = 2 ^ 64 - 1;
  wait = 0;
}

fresh-IsLaidOut : IsLaidOut sum fresh []
unfolding total
fresh-IsLaidOut = record {
  bitmap = record { narrow = λ i. omega arith; small = omega arith };
  aligned = refl;
  zone = refl;
  within = omega arith;
  small = omega arith;
  tiles = tt;
  places = λ i. tt;
}

get_free_location-Given_example :
    Given sum fresh [] (units_for 1000) (get_free_location sum true true fresh 1000)
    ⊎ Refused sum true fresh [] (units_for 1000) (get_free_location sum true true fresh 1000)
get_free_location-Given_example =
    get_free_location-Given sum true fresh [] 1000 fresh-IsLaidOut (omega arith) (omega arith)
