-- ===== src/Buddy/Alloc.antt =====
-- inc/buddy/buddy.c: `buddy_alloc`, its search and the marking of full parents.
pub mod Correct
pub mod Overrun
pub mod Beyond
pub mod Fail
pub mod Find
pub mod Mark
use zalloc.Base.{
  ℕ, zero, suc, ◌+◌, ◌-◌, ◌*◌, ◌/◌, ◌%◌, ◌^◌, Bool, ◌&&◌, ◌||◌, Run, ok, fault, out_of_fuel, ◌>>=◌,
  ltb, leb, ◌==◌, if◌then◌else◌,
}
use zalloc.Buddy.Size.{page_size, block_pages}
use zalloc.Buddy.State.{
  node_unused, node_used, node_split, node_full, Buddy, minus_one, get_state, set_state, set_used,
  parent, sibling, shift_one,
}

-- The shift is undefined where its count is negative or reaches the width.
unfoldable pub index_offset : ℕ → ℕ → ℕ → Run ℕ
index_offset index level max_level = do
  first ← shift_one level
  let block = (index + 1 + 2 ^ 64 - first) % 2 ^ 64
  let shift = max_level - level
  if leb level max_level && ltb shift 64
      then ok (page_size * (block * 2 ^ shift % 2 ^ 64) % 2 ^ 64)
      else fault

abbrev pub is_full_state : ℕ → Bool
is_full_state st = st == node_used || st == node_full

-- The index halves in each round, so sixty-five rounds reach its end.
unfoldable pub mark_loop : ℕ → Buddy → ℕ → Run Buddy
mark_loop zero b index = out_of_fuel
mark_loop (suc k) b index =
    let buddy = sibling index in
    let rise = set_state b (parent index) node_full >>= λ b'. mark_loop k b' (parent index) in
    let look = get_state b buddy >>= λ st. if is_full_state st then rise else ok b in
    if ltb 0 buddy && ltb buddy (2 ^ 31) then look else ok b

unfoldable pub mark_parent : Buddy → ℕ → Run Buddy
unfolding mark_loop
mark_parent b index = mark_loop 65 b index

-- What is done at a free node of the right size.
unfoldable pub take_node : ℕ → ℕ → Buddy → ℕ → ℕ → Run (ℕ × Buddy)
unfolding mark_parent
take_node s size b index level = do
  b ← set_used b index s size
  b ← mark_parent b index
  offset ← index_offset index level b.level
  ok (offset, b)

-- NODE_UNUSED is split first; any other state that lets the search in is left as it is.
unfoldable pub split_node : Buddy → ℕ → ℕ → Run Buddy
split_node b index st =
    if st == node_unused
    then (do
      b ← set_state b index node_split
      b ← set_state b ((index * 2 + 1) % 2 ^ 64) node_unused
      set_state b ((index * 2 + 2) % 2 ^ 64) node_unused)
    else ok b

-- The two places where a round of the search can begin: the head of the outer `while` and the
-- head of the inner `for`.
pub data Point : Type 0 where
  visit climb : Point

-- `index` is unsigned, so the tests `index >= 0` and `index < 0` never end the search. `level` is
-- the bit pattern of an `int`.
unfoldable pub search : ℕ → ℕ → ℕ → Point → Buddy → ℕ → ℕ → ℕ → Run (ℕ × Buddy)
search zero s size point b index length level = out_of_fuel
search (suc k) s size visit b index length level =
    let right = search k s size visit b ((index + 1) % 2 ^ 64) length level in
    let up = search k s size climb b index length level in
    let next = if index % 2 == 1 then right else up in
    let round = get_state b index >>= λ st.
    let taken = take_node s size b index level in
    let down = split_node b index st >>= λ b'.
    search k s size visit b' ((index * 2 + 1) % 2 ^ 64) (length / 2) ((level + 1) % 2 ^ 32) in
    if size == length
    then (if st == node_unused then taken else next)
    else if is_full_state st
    then next
    else down in
    round
search (suc k) s size climb b index length level =
    let level' = (level + 2 ^ 32 - 1) % 2 ^ 32 in
    let length' = length * 2 % 2 ^ 64 in
    let right = search k s size visit b ((parent index + 1) % 2 ^ 64) length' level' in
    let up = search k s size climb b (parent index) length' level' in
    if parent index % 2 == 1 then right else up

-- `fuel` bounds the rounds of the search.
unfoldable pub buddy_alloc : ℕ → Buddy → ℕ → Run (ℕ × Buddy)
buddy_alloc fuel b s = do
  let size = block_pages s
  length ← shift_one b.level
  if ltb length size then ok (minus_one, b) else search fuel s size visit b 0 length 0
