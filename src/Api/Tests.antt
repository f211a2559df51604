-- ===== src/Api/Tests.antt =====
-- The theorems on src/zalloc.c at concrete inputs: a map of 2^31 bytes at 2^40 whose first half is
-- one allocation.
use zalloc.Base.{
  true, false, ℕ, ◌+◌, ◌-◌, ◌*◌, ◌%◌, ◌^◌, ◌≤◌, ◌≡◌, ◌==◌, if◌then◌else◌, refl, some, fault, ◌>>=◌,
  arith,
}
use zalloc.Buddy.Size.{page_size, block_pages}
use zalloc.Buddy.State.{Node}
use zalloc.Buddy.Create.{zero_node}
use zalloc.Buddy.Create.Correct.{HasRoom-of}
use zalloc.Buddy.Tree.{Block, unused, used, split, is_full, lookup}
use zalloc.Buddy.Tree.Largest.{largest}
use zalloc.Buddy.Repr.{IsBuddy, buddy_of}
use zalloc.Mapped.{World, deinit}
use zalloc.Mapped.Service.{Ready}
use zalloc.Api.{Process, realloc, malloc, free, calloc, posix_memalign, memalign}
use zalloc.Api.Moved.{Moved, realloc-Moved}
use zalloc.Api.Restored.{Restored, free-malloc}
use zalloc.Api.Zeroed.{Zeroed, calloc-Zeroed, calloc-fault}
use zalloc.Api.Aligned.{Aligned, posix_memalign-Aligned}

abbrev world : World
world = record { opened = 3; st_size = 2 ^ 31; mapped = 2 ^ 40; got = true; old = λ _. zero_node }

abbrev half_node : ℕ → Node
half_node i =
    if i == 0
    then record { pages = 0; used = 0; state = 2 }
    else if i == 1
    then record { pages = 2 ^ 18; used = 2 ^ 30; state = 1 }
    else zero_node

abbrev half_taken : Block
half_taken = split (used (2 ^ 30)) unused

abbrev running : Process
running = record {
  heap = record {
    is_init = true;
    is_deinit = false;
    buddy = some (buddy_of 19 (2 ^ 20 - 1) half_node);
    memblock = 2 ^ 40;
    fd = 3;
    registered = 1;
  };
  memory = λ a. a % 256;
}

half-IsBuddy : IsBuddy (buddy_of 19 (2 ^ 20 - 1) half_node) half_taken
unfolding is_full
half-IsBuddy = record {
  level = omega arith;
  nodes = omega arith;
  room = HasRoom-of (2 ^ 20 - 1) 0 19 (omega arith);
  block = (refl, (refl, refl, refl), refl);
}

ready : Ready running.heap half_taken
ready = record {
  init = refl;
  alloc = buddy_of 19 (2 ^ 20 - 1) half_node;
  held = refl;
  valid = half-IsBuddy;
  height = refl;
  base = omega arith;
  fits = omega arith;
}

page : block_pages 5 ≡ 2 ^ 0
unfolding block_pages
page = refl

half_free : 2 ^ 0 ≤ largest 19 half_taken
unfolding largest
half_free = omega arith

half-lookup : lookup 19 0 half_taken ≡ some (2 ^ 30, 18)
unfolding lookup
half-lookup = refl

realloc-Moved_example :
    (o' : ℕ) × Moved true world
      (2 ^ 21)
      running
      half_taken
      ready
      5
      0
      (2 ^ 30)
      0
      o'
      (realloc true world (2 ^ 21) running (2 ^ 40 + page_size * 0) 5)
realloc-Moved_example =
    realloc-Moved true world (2 ^ 21) running half_taken ready 5 19 0 (2 ^ 30) 18 0 page refl
      (omega arith) half_free half-lookup (omega arith) (omega arith)

free-malloc_example :
    Restored running half_taken
      (malloc true world (2 ^ 21) running 5 >>= λ (ptr, q). free true world (2 ^ 21) q ptr)
free-malloc_example =
    free-malloc true world (2 ^ 21) running half_taken ready 5 19 0 page refl (omega arith)
      half_free

calloc-Zeroed_example :
    (o : ℕ) × (t' : Block) × Zeroed true world
      (2 ^ 21)
      running
      half_taken
      ready
      (5 * 1)
      0
      o
      t'
      (calloc true world (2 ^ 21) running 5 1)
calloc-Zeroed_example =
    calloc-Zeroed true world (2 ^ 21) running half_taken ready 5 1 19 0 (omega arith) page
      (omega arith) refl (omega arith) half_free

calloc-fault_example :
    calloc true world 9 (record running { heap = deinit running.heap }) 2 8 ≡ fault
calloc-fault_example = calloc-fault true world 9 running 2 8 refl refl (omega arith) (omega arith)

posix_memalign-Aligned_example :
    Aligned true world
      (2 ^ 21)
      running
      half_taken
      ready
      (2 ^ 6)
      5
      0
      (posix_memalign true world (2 ^ 21) running (2 ^ 6) 5)
      (memalign true world (2 ^ 21) running (2 ^ 6) 5)
posix_memalign-Aligned_example =
    posix_memalign-Aligned true world (2 ^ 21) running half_taken ready 6 5 19 0 refl (omega arith)
      page refl (omega arith) half_free
