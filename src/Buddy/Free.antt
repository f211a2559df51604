-- ===== src/Buddy/Free.antt =====
-- inc/buddy/buddy.c: `buddy_free`, its merging, and the two queries, which walk the same way.
pub mod Walk
pub mod Level
pub mod Whole
pub mod Correct
pub mod Halves
pub mod Merge
use zalloc.Base.{
  ℕ, zero, suc, ◌+◌, ◌*◌, ◌/◌, ◌%◌, ◌^◌, Run, ok, abort, out_of_fuel, ◌>>=◌, ◌>>◌, check, ltb, leb,
  ◌==◌, if◌then◌else◌,
}
use zalloc.Buddy.Size.{page_size}
use zalloc.Buddy.State.{
  node_unused, node_used, node_split, node_full, Buddy, get_state, set_state, parent, sibling,
  shift_one,
}

-- The inner `while` of `_combine`: `index` is unsigned, so its test `index >= 0` never fails.
unfoldable pub unmark_loop : ℕ → Buddy → ℕ → Run Buddy
unmark_loop zero b index = out_of_fuel
unmark_loop (suc k) b index =
    let clear = set_state b (parent index) node_split >>= λ b'. unmark_loop k b' (parent index) in
    get_state b (parent index) >>= λ st. if st == node_full then clear else ok b

unfoldable pub combine_loop : ℕ → Buddy → ℕ → Run Buddy
combine_loop zero b index = out_of_fuel
combine_loop (suc k) b index =
    let buddy = sibling index in
    let settle = set_state b index node_unused >>= λ b'. unmark_loop k b' index in
    let rise = combine_loop k b (parent index) in
    let look = get_state b buddy >>= λ st. if st == node_unused then rise else settle in
    if leb (2 ^ 31) buddy then settle else look

-- The index halves in each round, so a hundred rounds are more than both loops take.
unfoldable pub combine : Buddy → ℕ → Run Buddy
combine b index = combine_loop 100 b index

-- The walk from the root to the block at page `offset`, and what is done there with the block's
-- index and length. The length halves in each round.
unfoldable pub walk {ℓ} :
    {A : Type ℓ} → ℕ → Buddy → ℕ → (ℕ → ℕ → Run A) → (left length index : ℕ) → Run A
walk zero b offset hit left length index = out_of_fuel
walk (suc k) b offset hit left length index =
    let half = length / 2 in
    let lower = walk k b offset hit left half ((index * 2 + 1) % 2 ^ 64) in
    let upper = walk k b offset hit ((left + half) % 2 ^ 64) half ((index * 2 + 2) % 2 ^ 64) in
    get_state b index >>= λ st.
    if st == node_used
    then check (offset == left) >> hit index length
    else if st == node_unused
    then abort
    else if ltb offset ((left + half) % 2 ^ 64)
    then lower
    else upper

-- What the three functions do alike: the range check, and the walk from the root.
unfoldable pub find_block {ℓ} : {A : Type ℓ} → Buddy → ℕ → (ℕ → ℕ → Run A) → Run A
find_block b offset hit =
    shift_one b.level >>= λ length. check (ltb offset length) >> walk 65 b offset hit 0 length 0

unfoldable pub buddy_free : Buddy → ℕ → Run Buddy
buddy_free b offset = find_block b (offset / page_size) (λ index length. combine b index)

-- The argument is a page number here, and a byte offset in the other two.
unfoldable pub buddy_page_size : Buddy → ℕ → Run ℕ
buddy_page_size b offset = find_block b offset (λ index length. ok length)

unfoldable pub buddy_used_size : Buddy → ℕ → Run ℕ
buddy_used_size b offset =
    find_block b (offset / page_size) (λ index length. ok (b.tree index).used)
