-- ===== src/Buddy/Tests.antt =====
-- Runs of inc/buddy/buddy.c on a region of four pages, and the theorems at concrete inputs.
use zalloc.Base.{
  [], ◌∷◌, ◌++◌, ◌+◌, ◌*◌, ◌/◌, ◌^◌, ◌≤◌, ◌≡◌, ◌==◌, if◌then◌else◌, ℕ, refl, true, false, none,
  some, ok, abort, out_of_fuel, ◌>>=◌, arith, inr, inl, Bool-cases,
}
use zalloc.Buddy.Size.{page_size, block_pages}
use zalloc.Buddy.Size.Rounding.{block_pages-short}
use zalloc.Buddy.State.{Node, Buddy, get_state, set_state, set_used, sibling, parent, shift_one}
use zalloc.Buddy.Create.{buddy_new, zero_node, new_tree}
use zalloc.Buddy.Alloc.{search, split_node, take_node, index_offset, buddy_alloc}
use zalloc.Buddy.Alloc.Correct.{Allocated, buddy_alloc-place}
use zalloc.Buddy.Alloc.Overrun.{buddy_alloc-diverges}
use zalloc.Buddy.Alloc.Beyond.{Given, buddy_alloc-beyond}
use zalloc.Buddy.Free.{
  unmark_loop, combine_loop, combine, walk, find_block, buddy_free, buddy_used_size,
  buddy_page_size,
}
use zalloc.Buddy.Free.Whole.{Released, ReleasedAs, buddy_free-release}
use zalloc.Buddy.Free.Level.{Leveled, buddy_free-level_three}
use zalloc.Buddy.Tree.{
  Block, unused, used, split, is_full, tower, place, release, merge, lookup, is_split,
}
use zalloc.Buddy.Tree.Largest.{largest}
use zalloc.Buddy.Repr.{IsBuddy, buddy_of}
use zalloc.Buddy.Roundtrip.{Served, buddy_alloc-Served, buddy_free-buddy_alloc}
use zalloc.Buddy.Dump.{newline, buddy_dump, dump, half_open, half_close, taken, vacant}
use zalloc.Buddy.Dump.Tokens.{tokens, buddy_dump-tokens}
use zalloc.Buddy.Session
use zalloc.Buddy.Session.Empty.{Session-whole}
use zalloc.Buddy.Session.{
  Live, Session, Agrees, Session-Agrees, Session-disjoint, Session-used_size,
}

-- Four pages.
abbrev small : Buddy
small = new_tree 7 7 2 (λ _. zero_node)

new_small : buddy_new false true (λ _. zero_node) 14 ≡ ok (some small)
unfolding buddy_new
new_small = refl

-- The last request is one byte more than 4096 pages, and gets 4096 pages.
sizes :
    (block_pages 0 ≡ 1)
    × (block_pages 4096 ≡ 1)
    × (block_pages 4097 ≡ 2)
    × (block_pages 16777217 ≡ 4096)
unfolding block_pages
sizes = (refl, refl, refl, refl)

-- Stands for the list of what the runs below compute with.
runs : ℕ
unfolding buddy_alloc shift_one block_pages search get_state split_node set_state take_node set_used
    sibling parent index_offset buddy_free find_block walk combine combine_loop unmark_loop
    buddy_used_size buddy_page_size
runs = 0

two_blocks :
    (buddy_alloc 20 small 5 >>= λ (a, b). buddy_alloc 20 b 5000 >>= λ (c, b). ok (a + c)) ≡ ok 8192
unfolding runs
two_blocks = refl

-- The bytes of a block are found by its byte offset, its pages by its page number.
sizes_of_block :
    (buddy_alloc 20 small 5 >>= λ (a, b). buddy_alloc 20 b 5000 >>= λ (c, b). buddy_used_size b c)
    ≡ ok 5000
unfolding runs
sizes_of_block = refl

-- The byte offset of a block is no page number of the region.
page_size_by_offset :
    (buddy_alloc 20 small 5 >>= λ (a, b). buddy_alloc 20 b 5000 >>= λ (c, b). buddy_page_size b c)
    ≡ abort
unfolding runs
page_size_by_offset = refl

small-IsBuddy : IsBuddy small unused
small-IsBuddy = record {
  level = omega arith;
  nodes = omega arith;
  room = omega arith;
  block = refl;
}

one_page : block_pages 5 ≡ 2 ^ 0
unfolding block_pages
one_page = refl

two_pages : block_pages 5000 ≡ 2 ^ 1
unfolding block_pages
two_pages = refl

abbrev first_tree : Block
first_tree = split (split (used 5) unused) unused

abbrev second_tree : Block
second_tree = split (split (used 5) unused) (used 5000)

first_place : place 2 5 unused ≡ some (0, first_tree)
unfolding place tower
first_place = refl

second_place : place 1 5000 first_tree ≡ some (1, second_tree)
unfolding place tower
second_place = refl

first : Allocated small (0 * 2 ^ 0) first_tree (buddy_alloc 12 small 5)
first =
    buddy_alloc-place small unused 5 2 0 12 small-IsBuddy one_page (omega arith) (omega arith)
      first_place

second : Allocated first.after (1 * 2 ^ 1) second_tree (buddy_alloc 12 first.after 5000)
second =
    buddy_alloc-place first.after first_tree 5000 1 1 12 first.valid two_pages
      (omega (arith, first.level)) (omega arith) second_place

buddy_alloc-place_example : Allocated small (0 * 2 ^ 0) first_tree (buddy_alloc 12 small 5)
buddy_alloc-place_example =
    buddy_alloc-place small unused 5 2 0 12 small-IsBuddy one_page (omega arith) (omega arith)
      first_place

-- Two allocations, one after the other.
abbrev no_live : Live
no_live p = none

abbrev held : Live
held = Session.hold (Session.hold no_live 0 (some (5, 0))) 2 (some (5000, 1))

session : Session 2 second.after second_tree held
session =
    Session.alloc
      (Session.alloc (Session.start small small-IsBuddy refl) 5 2 0 12 _ 0 first_tree first.after
        one_page (omega arith) (omega arith) first_place first.result)
      5000 1 1 12 _ 1 second_tree second.after two_pages (omega (arith, first.level)) (omega arith)
      second_place second.result

Session-Agrees_example : Agrees 2 second.after second_tree held
Session-Agrees_example = Session-Agrees (omega arith) session

Session-disjoint_example : (0 + 2 ^ 0 ≤ 2) × (2 + 2 ^ 1 ≤ 2 ^ 2)
Session-disjoint_example = Session-disjoint (omega arith) session 0 2 refl refl (omega arith)

Session-used_size_example : buddy_used_size second.after 8192 ≡ ok 5000
Session-used_size_example = Session-used_size (omega arith) session 8192 (omega arith) refl

whole_free : 2 ^ 0 ≤ largest small.level unused
unfolding largest
whole_free = omega arith

buddy_alloc-Served_example :
    (o : ℕ) × (t' : Block) × Served small unused 5 2 0 12 small-IsBuddy one_page refl
      (omega arith)
      o
      t'
buddy_alloc-Served_example =
    buddy_alloc-Served small unused 5 2 0 12 small-IsBuddy one_page refl (omega arith) whole_free

buddy_free-buddy_alloc_example : Released first.after unused (buddy_free first.after 0)
buddy_free-buddy_alloc_example =
    buddy_free-buddy_alloc small unused 5 2 0 12 small-IsBuddy one_page (omega arith) (omega arith)
      tt (omega arith) whole_free first.result

first_release : release first.after.level 0 first_tree ≡ some unused
unfolding release merge
first_release = rw first.level refl

-- The first allocation, freed again.
freed : Released first.after unused (buddy_free first.after 0)
freed =
    buddy_free-buddy_alloc small unused 5 2 0 12 small-IsBuddy one_page (omega arith) (omega arith)
      tt (omega arith) whole_free first.result

freed_session :
    Session 2 freed.after unused (Session.hold (Session.hold no_live 0 (some (5, 0))) 0 none)
freed_session =
    Session.free
      (Session.alloc (Session.start small small-IsBuddy refl) 5 2 0 12 _ 0 first_tree first.after
        one_page (omega arith) (omega arith) first_place first.result)
      0 unused freed.after (omega (arith, four)) first_release freed.result
  where
    four : 2 ^ first.after.level ≡ 4
    four = rw first.level refl

nothing_held : (p : ℕ) → Session.hold (Session.hold no_live 0 (some (5, 0))) 0 none p ≡ none
nothing_held p = elim (Bool-cases (p == 0)) [ inl e ↦ rw e refl | inr e ↦ rw e refl ]

whole_region : block_pages 16000 ≡ 2 ^ 2
unfolding block_pages
whole_region = refl

Session-whole_example : Allocated freed.after 0 (tower 0 16000) (buddy_alloc 3 freed.after 16000)
Session-whole_example =
    Session-whole (omega arith) freed_session nothing_held 16000 0 2 3 whole_region refl
      (omega arith)

buddy_free-release_example :
    ReleasedAs first.after (release first.after.level 0 first_tree) (buddy_free first.after 0)
buddy_free-release_example =
    buddy_free-release first.after first_tree first.valid 0 (omega (arith, first.level))
      (omega (arith, three))
  where
    three : 2 ^ first.after.level ≡ 4
    three = rw first.level refl

second-lookup : lookup second.after.level 2 second_tree ≡ some (5000, 1)
unfolding lookup
second-lookup = rw (second.level, first.level) refl

buddy_dump-tokens_example :
    buddy_dump second.after ≡ ok (tokens second.after.level 0 second_tree ++ (newline ∷ []))
buddy_dump-tokens_example = buddy_dump-tokens second.after second_tree second.valid

small_dump :
    (buddy_alloc 20 small 5 >>= λ (a, b). buddy_dump b)
    ≡ ok (
        half_open
        ∷ half_open
        ∷ taken 0 1
        ∷ vacant 4096 1
        ∷ half_close
        ∷ vacant 8192 2
        ∷ half_close
        ∷ newline
        ∷ [])
unfolding runs buddy_dump dump
small_dump = refl

-- A region whose only block is taken as a whole.
four_taken : block_pages 16384 ≡ 2 ^ 2
unfolding block_pages
four_taken = refl

full_place : place 0 16384 unused ≡ some (0, used 16384)
unfolding place tower
full_place = refl

full : Allocated small (0 * 2 ^ 2) (used 16384) (buddy_alloc 12 small 16384)
full =
    buddy_alloc-place small unused 16384 0 2 12 small-IsBuddy four_taken (omega arith) (omega arith)
      full_place

full-is_full : is_full (used 16384) ≡ true
unfolding is_full
full-is_full = refl

full_pages : 2 ^ full.after.level ≡ 4
full_pages = rw full.level refl

buddy_alloc-diverges_example : buddy_alloc 1000 full.after 5 ≡ out_of_fuel
buddy_alloc-diverges_example =
    buddy_alloc-diverges full.after (used 16384) 5 1000 full.valid full-is_full
      (omega (arith, one_page, full_pages))

eight : block_pages 20000 ≡ 8
unfolding block_pages
eight = refl

buddy_alloc-beyond_example : Given (2 * 2 ^ first.after.level) (buddy_alloc 12 first.after 16384)
buddy_alloc-beyond_example =
    buddy_alloc-beyond first.after (split (used 5) unused) 16384 12 first.valid
      (is_split (used 5) unused) (rw (first.level, four_taken) refl) (omega arith)

-- Eight pages that are one allocation.
abbrev taken_node : ℕ → Node
taken_node i = if i == 0 then record { pages = 8; used = 32768; state = 1 } else zero_node

eight_taken : IsBuddy (buddy_of 3 15 taken_node) (used 32768)
eight_taken = record {
  level = omega arith;
  nodes = omega arith;
  room = omega arith;
  block = (refl, refl, refl);
}

eight_release : release 3 (0 / page_size) (used 32768) ≡ some unused
unfolding release
eight_release = refl

buddy_free-level_three_example : Leveled 2 (buddy_free (buddy_of 3 15 taken_node) 0)
buddy_free-level_three_example =
    buddy_free-level_three 15 taken_node (used 32768) eight_taken 0 (omega arith) eight_release
      (inr refl)

block_pages-short_example : block_pages (2 ^ (24 + 2) + 3) * page_size ≡ 2 ^ (24 + 2)
block_pages-short_example = block_pages-short 2 3 (omega arith) (omega arith) (omega arith)
