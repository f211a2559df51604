-- ===== src/Buddy/Repr.antt =====
-- How the array of nodes stands for a tree of blocks.
pub mod Alone
use zalloc.Base.{ℕ, zero, suc, ◌+◌, ◌*◌, ◌%◌, ◌^◌, ◌≤◌, ◌<◌, ◌≡◌, ◌&&◌, ok, if◌then◌else◌, arith}
use zalloc.Buddy.State.{
  node_unused, node_used, node_split, node_full, Node, Buddy, update, get_state, set_state,
  set_used, parent, sibling,
}
use zalloc.Buddy.Alloc.{is_full_state}
use zalloc.Buddy.Tree.{Block, unused, used, split, is_full}
use zalloc.Buddy.Inside.{Inside, here, Inside-left, Inside-right}

-- The node at `i` and those below it hold a block of `2 ^ d` pages.
abbrev pub IsBlock : (ℕ → Node) → ℕ → ℕ → Block → Type 0
IsBlock f i d unused = (f i).state ≡ node_unused
IsBlock f i d (used s) = ((f i).state ≡ node_used) × ((f i).used ≡ s) × ((f i).pages ≡ 2 ^ d)
IsBlock f i zero (split l r) = ⊥
IsBlock f i (suc d) (split l r) =
    ((f i).state ≡ (if is_full l && is_full r then node_full else node_split))
    × IsBlock f (i * 2 + 1) d l
    × IsBlock f (i * 2 + 2) d r

-- The array has room for the `d` levels below `i`.
abbrev pub HasRoom : ℕ → ℕ → ℕ → Type 0
HasRoom n i zero = i < n
HasRoom n i (suc d) = (i < n) × HasRoom n (i * 2 + 1) d × HasRoom n (i * 2 + 2) d

abbrev pub buddy_of : ℕ → ℕ → (ℕ → Node) → Buddy
buddy_of level nodes tree = record { level = level; nodes = nodes; tree = tree }

pub HasRoom-lt : (n i d : ℕ) → HasRoom n i d → i < n
HasRoom-lt n i zero h = h
HasRoom-lt n i (suc d) h = h.0

-- The state of a node tells whether its block is full, and whether it is free.
pub IsBlock-is_full :
    (f : ℕ → Node) (i d : ℕ) (t : Block) → IsBlock f i d t → is_full_state (f i).state ≡ is_full t
unfolding is_full
IsBlock-is_full f i d unused h = ground arith
IsBlock-is_full f i d (used s) h = ground arith
IsBlock-is_full f i zero (split l r) h = elim h [ ]
IsBlock-is_full f i (suc d) (split l r) h = ground arith

pub IsBlock-frame :
    (f g : ℕ → Node) (i d : ℕ) (t : Block)
    → ((x : ℕ) → Inside i x → g x ≡ f x)
    → IsBlock f i d t
    → IsBlock g i d t
IsBlock-frame f g i d unused same h = rw (same i here) h
IsBlock-frame f g i d (used s) same h = rw (same i here) h
IsBlock-frame f g i zero (split l r) same h = elim h [ ]
IsBlock-frame f g i (suc d) (split l r) same h = (
  rw (same i here) h.0,
  IsBlock-frame f g (i * 2 + 1) d l (λ x p. same x (Inside-left p)) h.1,
  IsBlock-frame f g (i * 2 + 2) d r (λ x p. same x (Inside-right p)) h.2,
)

-- The accesses within the array.
module _ (lv n : ℕ) (f : ℕ → Node) (i : ℕ) (h : i < n) where
  pub get_state-ok : get_state (buddy_of lv n f) i ≡ ok (f i).state
  unfolding get_state
  get_state-ok = ground arith

  pub set_state-ok :
      (v : ℕ)
      → set_state (buddy_of lv n f) i v
        ≡ ok (buddy_of lv n (update f i (record (f i) { state = v })))
  unfolding set_state
  set_state-ok v = ground arith

  pub set_used-ok :
      (s size : ℕ)
      → set_used (buddy_of lv n f) i s size
        ≡ ok (
            buddy_of lv n
              (update f i (record { pages = size % 2 ^ 32; used = s; state = node_used })))
  unfolding set_used
  set_used-ok s size = ground arith

-- The walks between a node and its neighbours, where no index wraps.
module _ (i : ℕ) (h : i < 2 ^ 30) where
  pub parent-left : parent (i * 2 + 1) ≡ i
  unfolding parent
  parent-left = omega arith

  pub parent-right : parent (i * 2 + 2) ≡ i
  unfolding parent
  parent-right = omega arith

  pub sibling-left : sibling (i * 2 + 1) ≡ i * 2 + 2
  unfolding sibling
  sibling-left = omega arith

  pub sibling-right : sibling (i * 2 + 2) ≡ i * 2 + 1
  unfolding sibling
  sibling-right = omega arith

-- The state stands for the tree of blocks `t`. The tests on the level are those under which the
-- shifts by it are defined.
pub record IsBuddy (b : Buddy) (t : Block) : Type 0 where
  pub level : b.level < 30
  pub nodes : b.nodes ≤ 2 ^ 30
  pub room : HasRoom b.nodes 0 b.level
  pub block : IsBlock b.tree 0 b.level t
