-- ===== src/Buddy/Create.antt =====
-- inc/buddy/buddy.c: `buddy_new`.
pub mod Correct
use zalloc.Base.{
  ℕ, ◌+◌, ◌-◌, ◌%◌, ◌^◌, Bool, Option, none, some, not, Run, ok, fault, ◌>>=◌, ltb, if◌then◌else◌,
}
use zalloc.Buddy.Size.{page_size, is_pow_of_2}
use zalloc.Buddy.State.{node_unused, Node, Buddy, shift_one}

abbrev pub max_node : ℕ
max_node = 1048575

abbrev pub zero_node : Node
zero_node = record { pages = 0; used = 0; state = node_unused }

-- `memset(tree, NODE_UNUSED, sizeof (struct node) * n)`
abbrev pub clear_nodes : ℕ → (ℕ → Node) → ℕ → Node
clear_nodes n old i = if ltb i n then zero_node else old i

-- The object with room for `nodes` nodes, once its level is set and its first nodes are cleared.
abbrev pub new_tree : ℕ → ℕ → ℕ → (ℕ → Node) → Buddy
new_tree nodes size_node page_level old = record {
  level = page_level % 2 ^ 8;
  nodes = nodes;
  tree = clear_nodes size_node old;
}

-- `lib` is the macro LIB; `got` says whether `malloc` returned memory, which the code does not
-- test; `old` is what the tree's memory held before. A level is not negative here.
unfoldable pub buddy_new : Bool → Bool → (ℕ → Node) → ℕ → Run (Option Buddy)
unfolding is_pow_of_2 shift_one
buddy_new lib got old level =
    if not (is_pow_of_2 page_size)
    then ok none
    else if ltb 63 level
    then fault
    else if ltb (2 ^ level) page_size
    then ok none
    else do
      let page_level = level - 12
      page_total ← shift_one page_level
      double ← shift_one (page_level + 1)
      let size_node = double - 1
      let fixed = new_tree max_node size_node page_level old
      let allocated = new_tree size_node size_node page_level old
      if lib
          then (if ltb max_node size_node then ok none else ok (some fixed))
          else if got
          then ok (some allocated)
          else fault
