-- ===== src/Buddy/Alloc/Overrun.antt =====
-- `buddy_alloc` where the tree has no room. `index` is unsigned, so the climb from the root wraps
-- to the root again instead of ending the search.
use zalloc.Base.{
  ℕ, zero, suc, ◌+◌, ◌-◌, ◌*◌, ◌%◌, ◌^◌, ◌≤◌, ◌<◌, ◌≡◌, refl, ◌∙◌, true, false, ok, out_of_fuel,
  arith, ltb,
}
use zalloc.Buddy.Size.{block_pages}
use zalloc.Buddy.State.{Node, Buddy, minus_one, parent}
use zalloc.Buddy.Tree.{Block, is_full}
use zalloc.Buddy.Repr.{HasRoom-lt, IsBlock-is_full, buddy_of, get_state-ok, IsBuddy}
use zalloc.Buddy.Alloc.{visit, climb, search, buddy_alloc, is_full_state}
use zalloc.Buddy.Alloc.Correct.{shift_one-ok}

-- At a full root the search goes round: up, and back to the root.
module _ (s size lv n : ℕ) (f : ℕ → Node) (pos : 0 < n)
    (full : is_full_state (f 0).state ≡ true) where
  abbrev Round : ℕ → Type 0
  Round fuel =
      (length level : ℕ)
      → (search fuel s size visit (buddy_of lv n f) 0 length level ≡ out_of_fuel)
        × (search fuel s size climb (buddy_of lv n f) 0 length level ≡ out_of_fuel)

  search-Round : (fuel : ℕ) → Round fuel
  unfolding search parent
  search-Round zero length level = (refl, refl)
  search-Round (suc k) length level = (
    rw (get_state-ok lv n f 0 pos) (ground (arith, (search-Round k length level).1)),
    (search-Round k (length * 2 % 2 ^ 64) ((level + 2 ^ 32 - 1) % 2 ^ 32)).0,
  )

-- On a full tree, a request that is not larger than the region runs out of every fuel.
pub buddy_alloc-diverges :
    (b : Buddy) (t : Block) (s fuel : ℕ)
    → IsBuddy b t
    → is_full t ≡ true
    → block_pages s ≤ 2 ^ b.level
    → buddy_alloc fuel b s ≡ out_of_fuel
unfolding buddy_alloc
buddy_alloc-diverges b t s fuel valid full fits =
    let within : ltb (2 ^ b.level) (block_pages s) ≡ false = ground arith in
    rw (shift_one-ok b.level (omega (arith, valid.level)), within)
      (search-Round s (block_pages s) b.level b.nodes b.tree
        (HasRoom-lt b.nodes 0 b.level valid.room)
        (IsBlock-is_full b.tree 0 b.level t valid.block ∙ full) fuel (2 ^ b.level) 0).0

-- At a level below 31, a request larger than the region gives -1 and changes nothing.
pub buddy_alloc-too_large :
    (b : Buddy) (s fuel : ℕ)
    → b.level < 31
    → 2 ^ b.level < block_pages s
    → buddy_alloc fuel b s ≡ ok (minus_one, b)
unfolding buddy_alloc
buddy_alloc-too_large b s fuel small over =
    let beyond : ltb (2 ^ b.level) (block_pages s) ≡ true = ground arith in
    rw (shift_one-ok b.level small, beyond) refl
