-- ===== src/Mapped.antt =====
-- inc/buddy_alloc.c: the file that is mapped into memory, and the buddy allocator on it.
pub mod Service
pub mod Start
mod Tests
use zalloc.Base.{
  ℕ, ◌+◌, ◌-◌, ◌%◌, ◌^◌, Bool, true, false, Option, none, some, Run, ok, ◌>>=◌, ◌>>◌, check, ltb,
  leb, ◌==◌, if◌then◌else◌,
}
use zalloc.Buddy.State.{Node, Buddy}
use zalloc.Buddy.Create.{buddy_new}
use zalloc.Buddy.Alloc.{buddy_alloc}
use zalloc.Buddy.Free.{buddy_free, buddy_used_size, buddy_page_size}

abbrev pub buddy_level : ℕ
buddy_level = 31

abbrev pub map_failed : ℕ
map_failed = 2 ^ 64 - 1

-- What the system gives: the results of `open`, `fstat` and `mmap`, whether the `malloc` of
-- `buddy_new` has memory, and what that memory held before.
pub record World : Type 0 where
  pub opened : ℕ
  pub st_size : ℕ
  pub mapped : ℕ
  pub got : Bool
  pub old : ℕ → Node

-- The variables of the file. `registered` counts the registrations of `buddy_handler`.
pub record Mapped : Type 0 where
  pub is_init : Bool
  pub is_deinit : Bool
  pub buddy : Option Buddy
  pub memblock : ℕ
  pub fd : ℕ
  pub registered : ℕ

-- `size > sb.st_size` where `size` is the bit pattern of an `int`: a negative one is not larger.
abbrev pub int_exceeds : ℕ → ℕ → Bool
int_exceeds size n = if ltb size (2 ^ 31) then ltb n size else false

-- The end of `init_`, once the file is known to be large enough.
unfoldable pub map_file : World → Mapped → Mapped
map_file w st =
    if w.mapped == map_failed
    then record st { memblock = w.mapped }
    else record st { memblock = w.mapped; registered = st.registered + 1; is_init = true }

-- `1 << 31` is the `int` -2^31, as gcc defines it.
unfoldable pub init_ : Bool → World → Mapped → Run Mapped
unfolding map_file
init_ lib w st =
    let first = buddy_new lib w.got w.old buddy_level >>= λ b.
    let st = record st { buddy = b; fd = w.opened } in
    if w.opened == 0
    then ok st
    else if int_exceeds (2 ^ buddy_level % 2 ^ 32) w.st_size
    then ok st
    else if ltb w.st_size (2 ^ buddy_level)
    then ok st
    else ok (map_file w st) in
    if st.is_init then ok st else first

-- `ptr - memblock` on 64 bits
abbrev pub distance : ℕ → ℕ → ℕ
distance ptr memblock = (ptr + 2 ^ 64 - memblock) % 2 ^ 64

-- `pos` is unsigned, so the test `pos < 0` never holds.
unfoldable pub xmalloc_on : ℕ → Mapped → Option Buddy → ℕ → Run (ℕ × Mapped)
xmalloc_on fuel st none size = ok (0, st)
xmalloc_on fuel st (some b) size = do
  (pos, b) ← buddy_alloc fuel b size
  let st = record st { buddy = some b }
  if ltb pos 0 then ok (0, st) else ok ((st.memblock + pos) % 2 ^ 64, st)

unfoldable pub buddy_xmalloc : Bool → World → ℕ → Mapped → ℕ → Run (ℕ × Mapped)
unfolding init_ xmalloc_on
buddy_xmalloc lib w fuel st size = init_ lib w st >>= λ st. xmalloc_on fuel st st.buddy size

unfoldable pub xfree_on : Mapped → Option Buddy → ℕ → Run Mapped
xfree_on st none ptr = ok st
xfree_on st (some b) ptr =
    check (leb st.memblock ptr)
    >> (buddy_free b (distance ptr st.memblock) >>= λ b. ok (record st { buddy = some b }))

unfoldable pub buddy_xfree : Bool → World → Mapped → ℕ → Run Mapped
unfolding init_ xfree_on
buddy_xfree lib w st ptr = init_ lib w st >>= λ st. xfree_on st st.buddy ptr

-- The two queries differ in what they ask of the allocator.
unfoldable pub query_on : (Buddy → ℕ → Run ℕ) → Mapped → Option Buddy → ℕ → Run (ℕ × Mapped)
query_on ask st none ptr = ok (0, st)
query_on ask st (some b) ptr = ask b (distance ptr st.memblock) >>= λ used. ok (used, st)

unfoldable pub buddy_get_size : Bool → World → Mapped → ℕ → Run (ℕ × Mapped)
unfolding init_ query_on
buddy_get_size lib w st ptr = init_ lib w st >>= λ st. query_on buddy_used_size st st.buddy ptr

-- The argument of `buddy_page_size` is a byte offset here, as in the other calls.
unfoldable pub buddy_get_page_size : Bool → World → Mapped → ℕ → Run (ℕ × Mapped)
unfolding init_ query_on
buddy_get_page_size lib w st ptr = init_ lib w st >>= λ st. query_on buddy_page_size st st.buddy ptr

-- The destructor: `munmap` and `close` give their results to nobody.
unfoldable pub deinit : Mapped → Mapped
deinit st = if st.is_deinit then st else record st { is_deinit = true; buddy = none }
