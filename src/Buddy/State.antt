-- ===== src/Buddy/State.antt =====
-- inc/buddy/buddy.c: the nodes of the tree and the accesses to them.
use zalloc.Base.{ℕ, ◌+◌, ◌-◌, ◌*◌, ◌/◌, ◌%◌, ◌^◌, Run, ok, fault, ltb, ◌==◌, if◌then◌else◌}

abbrev pub node_unused : ℕ
node_unused = 0

abbrev pub node_used : ℕ
node_used = 1

abbrev pub node_split : ℕ
node_split = 2

abbrev pub node_full : ℕ
node_full = 3

pub record Node : Type 0 where
  pub pages : ℕ
  pub used : ℕ
  pub state : ℕ

-- `nodes` is how many elements of `tree` the object holds.
pub record Buddy : Type 0 where
  pub level : ℕ
  pub nodes : ℕ
  pub tree : ℕ → Node

abbrev pub update : (ℕ → Node) → ℕ → Node → ℕ → Node
update f i n j = if i == j then n else f j

-- The index that the unsigned expression `0 - 1` gives.
abbrev pub minus_one : ℕ
minus_one = 2 ^ 64 - 1

-- `self->tree[i].state`. A node is packed into 13 bytes, its state the last of them, and `tree`
-- follows the byte `level`: so the state of the element before the first is that byte.
unfoldable pub get_state : Buddy → ℕ → Run ℕ
get_state b i =
    if ltb i b.nodes then ok (b.tree i).state else if i == minus_one then ok b.level else fault

-- `self->tree[i].state = v`
unfoldable pub set_state : Buddy → ℕ → ℕ → Run Buddy
set_state b i v =
    if ltb i b.nodes
    then ok (record b { tree = update b.tree i (record (b.tree i) { state = v }) })
    else if i == minus_one
    then ok (record b { level = v })
    else fault

-- The three writes of `buddy_alloc` to the node that it takes.
unfoldable pub set_used : Buddy → ℕ → ℕ → ℕ → Run Buddy
set_used b i s size =
    if ltb i b.nodes
    then ok (record b {
      tree = update b.tree i (record { pages = size % 2 ^ 32; used = s; state = node_used });
    })
    else fault

-- `(index + 1) / 2 - 1` on a `uint64_t`
unfoldable pub parent : ℕ → ℕ
parent i = ((i + 1) % 2 ^ 64 / 2 + 2 ^ 64 - 1) % 2 ^ 64

-- `int buddy = index - 1 + (index & 1) * 2`, as the bit pattern of the `int`
unfoldable pub sibling : ℕ → ℕ
sibling i = (i + 2 ^ 64 - 1 + i % 2 * 2) % 2 ^ 64 % 2 ^ 32

-- `1 << n` on an `int`: undefined where the result does not fit.
unfoldable pub shift_one : ℕ → Run ℕ
shift_one n = if ltb n 31 then ok (2 ^ n) else fault
