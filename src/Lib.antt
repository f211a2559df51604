-- ===== src/Lib.antt =====
-- Verification of zalloc.
--
-- zalloc is a memory allocator for programs that are started with it in place of the C library's:
-- its `malloc`, `free`, `realloc` and `calloc` (src/zalloc.c) serve from a file that is mapped
-- into memory (inc/buddy_alloc.c), whose pages a buddy allocator hands out (inc/buddy/buddy.c).
--
-- The buddy allocator: Buddy and the modules below it.
-- Buddy/Size: `next_pow_of_2`, `is_pow_of_2`, and the way from bytes to pages through a `float`,
--   whose rounding is written out.
-- Buddy/State: `struct node` and `struct buddy`. The array `tree` is a function with the number
--   of nodes that the object holds; an access past it is the outcome `fault`. The element before
--   the first overlaps the byte `level`, and its state is that byte.
-- Buddy/Create: `buddy_new`, in both configurations of the macro LIB.
-- Buddy/Alloc: `buddy_alloc`, with `_mark_parent` and `_index_offset`. Its two nested loops are
--   one function with two points of entry, on fuel.
-- Buddy/Free: `buddy_free`, `_combine`, `buddy_page_size` and `buddy_used_size`.
-- Buddy/Tree: the specification. A region is a tree of blocks, each free, one allocation, or two
--   halves; placing a request, releasing one, and looking one up are functions on it.
-- Buddy/Dump: `buddy_dump`, with a token for each thing that it prints.
-- Buddy/Repr: when the array stands for a tree of blocks; Buddy/Repr/Alone: trees with no
--   allocation and with one. Buddy/Session: sequences of calls, with what the client holds;
--   Buddy/Session/Empty: the states where it holds nothing.
--
-- The mapped file: Mapped models inc/buddy_alloc.c, with the results of `open`, `fstat` and
-- `mmap` as an argument of each call, since `init_` runs at the start of each. Mapped/Service is
-- about the calls once the file is mapped, Mapped/Start about `init_` and the calls that get no
-- memory.
--
-- The exported functions: Api models src/zalloc.c over the bytes of memory, where an access
-- outside the map is a fault. Api/Moved is about `realloc`, Api/Restored about `malloc` and
-- `free`, Api/Zeroed about `calloc`, Api/Aligned about `posix_memalign` and `memalign`.
-- `lock_alloc` makes each call one step. Api/Main models `limit_config` and `main`, which a build
-- without LIB has; Api/Main/Loop is about its loop of `realloc`, Api/Main/Ending about `main` as
-- a whole.
--
-- The registry: Handler models src/handler.c, with the lists of inc/common/mini-clist.h as an
-- interface `Clist`, whose laws speak of the calls that the macros allow, and `strcmp` as a
-- parameter. Handler/Calls is about sequences of its calls.
--
-- The simplest handler: Bump models inc/mmap_alloc.c; Bump/Apart is about where its blocks lie.
--
-- The timing of the handlers: Timing models `timeit` and `test_all` of src/zalloc.c, which ask a
-- handler, or each registered one, for up to 16000 blocks. Timing/Rounds is about a round of the
-- loop, Timing/Text about the bytes that are written, Timing/Served about the loop over Bump,
-- Timing/Each about `test_all` over Handler.
--
-- The small handlers: Wrappers models inc/ram_alloc.c, inc/slab_alloc.c and inc/nv_alloc.c, Foot
-- models inc/foot.c, with the results of `dlsym` as an argument. Wrappers/Reclaim is about what
-- calls of inc/nv_alloc.c leave.
--
-- The other allocator: Nvmalloc models the bitmap of inc/nvmalloc/nvmalloc.c, which has a bit for
-- each unit of 64 bytes, and `getBestFit`. Nvmalloc/Bits is about the bits of a byte,
-- Nvmalloc/Marks about `makeOne` and `makeZero`, Nvmalloc/Count and Nvmalloc/Back about
-- `isFreeForward` and `isFreeBackward`, Nvmalloc/Fit about `getBestFit`. Nvmalloc/Header models
-- the headers with their checksums, whose instruction `_mm_crc32_u32` is a parameter;
-- Nvmalloc/Free the state, the free lists and `getMoreMemory`; Nvmalloc/Heap `getFreeLocation`,
-- `insertFreeLocation`, the list of waiting blocks, `nvmalloc` and `nvfree`, with the time stamps
-- as arguments; Nvmalloc/Print `nvmalloc_print`, with a token for each thing that it prints, and
-- Nvmalloc/Print/Row and Nvmalloc/Print/Lists compare that with a row of blocks and the free
-- lists. Nvmalloc/Tiles is the first specification: the memory up to `free_zone` is a row of
-- blocks, each in use, waiting or free, that the bitmap and the headers stand for;
-- Nvmalloc/Tiles/Closed is about rows whose last block is not free. Nvmalloc/Search is about the
-- loops over the free lists, Nvmalloc/Take about the loop over the headers and the rest of a run,
-- Nvmalloc/Block about `getFreeLocation` and `getMoreMemory`, Nvmalloc/Release about
-- `extendFreeLocation` and `insertFreeLocation`. Nvmalloc/Blocks is the abstract view: the blocks
-- in use and those that wait, without the free ones; Nvmalloc/Service is about the calls on it.
--
-- Outcomes: a call returns (`ok`), fails an assertion (`abort`), does what C leaves undefined
-- (`fault`), or runs out of fuel. Integers are natural numbers with the wrap of their width
-- written out.
--
-- Fuel: the loops of `_mark_parent` and `_combine` and the walks halve a 64-bit number in each
-- round, and have fuel of 65 to 100. The search of `buddy_alloc` has its fuel as an argument: it
-- can run forever, and where the tree has room 3 * 2 ^ k rounds are enough. The counts over the
-- bitmap have a round for each unit of 64 bytes, as has the loop over the headers. The search of
-- the free lists has 132 rounds, two for each list, and the loop of `getMoreMemory` one for each
-- page that is asked for. The loops of `main` and `timeit` have the source's 26 and 16000 rounds.
--
-- Not modelled: inc/slab/slab.c, a copy of another project, and inc/common/mini-clist.h, a
-- third-party header; `nvmalloc_exit` and the destructor of inc/mmap_alloc.c, which only unmap;
-- `buddy_delete`; `wait_command`, which reads a line; the blocks of `main` under `if (0)`; what
-- `printf` prints, but for `buddy_dump`, `nvmalloc_print`, `main` and `test_all`; the `double`
-- functions `log2` and `pow`, which are exact at the values used; a `malloc` without memory for a
-- node of a free list; requests of 2 ^ 64 bytes and more, which no `size_t` holds.
mod Base
pub mod Buddy
pub mod Mapped
pub mod Api
pub mod Handler
pub mod Bump
pub mod Foot
pub mod Timing
pub mod Wrappers
pub mod Nvmalloc
