-- ===== src/Mapped/Tests.antt =====
-- The theorems on inc/buddy_alloc.c at concrete inputs.
use zalloc.Base.{
  ℕ, ◌+◌, ◌-◌, ◌*◌, ◌^◌, ◌≤◌, ◌<◌, ◌≡◌, ◌==◌, if◌then◌else◌, refl, true, false, none, some, ok,
  arith,
}
use zalloc.Buddy.Size.{page_size, block_pages}
use zalloc.Buddy.State.{Node}
use zalloc.Buddy.Create.{zero_node}
use zalloc.Buddy.Tree.{Block, unused, used, release, lookup}
use zalloc.Buddy.Tree.Largest.{largest}
use zalloc.Buddy.Repr.{IsBuddy, buddy_of}
use zalloc.Buddy.Create.Correct.{HasRoom-of}
use zalloc.Mapped.{World, Mapped, init_, buddy_xmalloc, buddy_xfree, buddy_get_size, map_failed}
use zalloc.Mapped.Service.{
  Ready, Granted, Returned, buddy_xmalloc-Granted, buddy_xfree-release, buddy_get_size-lookup,
}
use zalloc.Mapped.Start.{HasFile, Started, init_-Started, buddy_xmalloc-too_large}

-- A file of exactly the size of the map, at address 2^40.
abbrev world : World
world = record { opened = 3; st_size = 2 ^ 31; mapped = 2 ^ 40; got = true; old = λ _. zero_node }

abbrev no_map : World
no_map = record world { mapped = map_failed }

-- The variables before the first call.
abbrev blank : Mapped
blank = record {
  is_init = false;
  is_deinit = false;
  buddy = none;
  memblock = 0;
  fd = 0;
  registered = 0;
}

file : HasFile world
file = record { opened = omega arith; size = omega arith }

no_map_file : HasFile no_map
no_map_file = record { opened = omega arith; size = omega arith }

started : Started true world blank refl file (omega arith) (init_ true world blank)
started = init_-Started true world blank refl file (omega arith) (omega arith) (omega arith)

init_-Started_example : Started true world blank refl file (omega arith) (init_ true world blank)
init_-Started_example =
    init_-Started true world blank refl file (omega arith) (omega arith) (omega arith)

page : block_pages 5 ≡ 2 ^ 0
unfolding block_pages
page = refl

all_free : 2 ^ 0 ≤ largest 19 unused
unfolding largest
all_free = omega arith

granted :
    (o : ℕ) × (t' : Block) × Granted true world started.after unused started.prepared 5 0 o t'
      (buddy_xmalloc true world (2 ^ 21) started.after 5)
granted =
    buddy_xmalloc-Granted true world started.after unused started.prepared 5 19 0 (2 ^ 21) page refl
      (omega arith) all_free

buddy_xmalloc-Granted_example :
    (o : ℕ) × (t' : Block) × Granted true world started.after unused started.prepared 5 0 o t'
      (buddy_xmalloc true world (2 ^ 21) started.after 5)
buddy_xmalloc-Granted_example =
    buddy_xmalloc-Granted true world started.after unused started.prepared 5 19 0 (2 ^ 21) page refl
      (omega arith) all_free

large : 2 ^ 19 < block_pages (2 ^ 32)
unfolding block_pages
large = omega arith

buddy_xmalloc-too_large_example :
    buddy_xmalloc true world 9 started.after (2 ^ 32)
    ≡ ok (started.after.memblock - 1, record started.after { buddy = some started.prepared.alloc })
buddy_xmalloc-too_large_example =
    buddy_xmalloc-too_large true world started.after unused started.prepared (2 ^ 32) 9 large

abbrev mapped_once : Mapped
mapped_once = record blank { is_init = true; memblock = 2 ^ 40; registered = 1 }

-- The region as one allocation.
abbrev taken_node : ℕ → Node
taken_node i = if i == 0 then record { pages = 2 ^ 19; used = 2 ^ 31; state = 1 } else zero_node

abbrev all_taken : Mapped
all_taken = record mapped_once { buddy = some (buddy_of 19 (2 ^ 20 - 1) taken_node) }

taken : IsBuddy (buddy_of 19 (2 ^ 20 - 1) taken_node) (used (2 ^ 31))
taken = record {
  level = omega arith;
  nodes = omega arith;
  room = HasRoom-of (2 ^ 20 - 1) 0 19 (omega arith);
  block = (refl, refl, refl);
}

taken_ready : Ready all_taken (used (2 ^ 31))
taken_ready = record {
  init = refl;
  alloc = buddy_of 19 (2 ^ 20 - 1) taken_node;
  held = refl;
  valid = taken;
  height = refl;
  base = omega arith;
  fits = omega arith;
}

taken_release : release 19 0 (used (2 ^ 31)) ≡ some unused
unfolding release
taken_release = refl

taken_lookup : lookup 19 0 (used (2 ^ 31)) ≡ some (2 ^ 31, 19)
unfolding lookup
taken_lookup = refl

buddy_xfree-release_example :
    Returned true world all_taken
      (used (2 ^ 31))
      taken_ready
      unused
      (buddy_xfree true world all_taken (2 ^ 40 + page_size * 0))
buddy_xfree-release_example =
    buddy_xfree-release true world all_taken (used (2 ^ 31)) taken_ready 0 (omega arith)
      taken_release

buddy_get_size-lookup_example :
    buddy_get_size true world all_taken (2 ^ 40 + page_size * 0) ≡ ok (2 ^ 31, all_taken)
buddy_get_size-lookup_example =
    buddy_get_size-lookup true world all_taken (used (2 ^ 31)) taken_ready 0 (omega arith)
      taken_lookup
