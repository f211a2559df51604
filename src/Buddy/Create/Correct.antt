-- ===== src/Buddy/Create/Correct.antt =====
-- `buddy_new` makes one free block of the whole region, or refuses.
use zalloc.Base.{
  ℕ, zero, suc, ◌+◌, ◌-◌, ◌*◌, ◌%◌, ◌^◌, ◌≤◌, ◌<◌, ◌≡◌, refl, ap, Bool, true, false, Option, none,
  some, Run, ok, arith, ltb, two_pow_suc, two_pow_pos, two_pow_mono, two_pow_lt, two_pow_add, ◌⊎◌,
  inl, inr,
}
use native.Mathlib.Nat.{mul-le-mul_left}
use zalloc.Buddy.Size.{page_size}
use zalloc.Buddy.State.{Node, Buddy}
use zalloc.Buddy.Tree.{unused}
use zalloc.Buddy.Repr.{HasRoom, IsBuddy}
use zalloc.Buddy.Alloc.Correct.{shift_one-ok}
use zalloc.Buddy.Create.{max_node, new_tree, buddy_new}

pub HasRoom-of : (n i d : ℕ) → (i + 2) * 2 ^ d ≤ n + 1 → HasRoom n i d
HasRoom-of n i zero h = omega arith
HasRoom-of n i (suc d) h =
    let twice = ap (λ (t : ℕ). i * t) (two_pow_suc d) in
    let own : (i + 2) * 1 ≤ (i + 2) * 2 ^ d = mul-le-mul_left (i + 2) (two_pow_pos d) in
    (
      omega (arith, two_pow_suc d),
      HasRoom-of n (i * 2 + 1) d (omega (arith, two_pow_suc d, two_pow_pos d)),
      HasRoom-of n (i * 2 + 2) d (omega (arith, two_pow_suc d)),
    )

-- The configurations in which a level is served: LIB holds 2^20 - 1 nodes, and otherwise `malloc`
-- has to return memory.
abbrev pub IsServed : Bool → Bool → ℕ → Type 0
IsServed true got level = level ≤ 31
IsServed false got level = (got ≡ true) × (level ≤ 41)

-- The outcome that stands for one free block of `2 ^ level` bytes.
pub record Created (level : ℕ) (r : Run (Option Buddy)) : Type 0 where
  pub buddy : Buddy
  pub result : r ≡ ok (some buddy)
  pub valid : IsBuddy buddy unused
  pub height : buddy.level ≡ level - 12

new_tree-IsBuddy :
    (nodes pl : ℕ) (old : ℕ → Node)
    → pl < 30
    → 2 ^ (pl + 1) ≤ nodes + 1
    → nodes ≤ 2 ^ 30
    → IsBuddy (new_tree nodes (2 ^ (pl + 1) - 1) pl old) unused
new_tree-IsBuddy nodes pl old small fits top =
    let byte : pl % 2 ^ 8 ≡ pl = omega arith in
    let some_node : 1 < 2 ^ (pl + 1) = omega (arith, two_pow_add pl 1, two_pow_pos pl) in
    record {
      level = omega arith;
      nodes = top;
      room = rw byte (HasRoom-of nodes 0 pl (omega (arith, two_pow_add pl 1)));
      block = ground arith;
    }

module _ (got : Bool) (old : ℕ → Node) (level : ℕ) (low : 12 ≤ level) (high : level ≤ 41) where
  created :
      (lib : Bool) (nodes : ℕ)
      → 2 ^ (level - 12 + 1) ≤ nodes + 1
      → nodes ≤ 2 ^ 30
      → buddy_new lib got old level
        ≡ ok (some (new_tree nodes (2 ^ (level - 12 + 1) - 1) (level - 12) old))
      → Created level (buddy_new lib got old level)
  created lib nodes fits top e = record {
    buddy = new_tree nodes (2 ^ (level - 12 + 1) - 1) (level - 12) old;
    result = e;
    valid = new_tree-IsBuddy nodes (level - 12) old (omega arith) fits top;
    height = omega arith;
  }

  -- The two tests before the shifts pass.
  is_big : ltb (2 ^ level) page_size ≡ false
  is_big = let p = two_pow_mono 12 level low in ground arith

  -- At a level from 12 to 41 that the configuration serves, `buddy_new` gives one free block of the
  -- whole region, whose level is less by 12.
  pub buddy_new-Created :
      (lib : Bool) → IsServed lib got level → Created level (buddy_new lib got old level)
  unfolding buddy_new
  buddy_new-Created true served =
      created true max_node (two_pow_mono (level - 12 + 1) 20 (omega arith)) (omega arith) (
        let fits : ltb max_node (2 ^ (level - 12 + 1) - 1) ≡ false =
          (let p = two_pow_mono (level - 12 + 1) 20 (omega arith) in ground arith) in
        let narrow : ltb 63 level ≡ false = ground arith in
        rw
          (
            narrow,
            is_big,
            shift_one-ok (level - 12) (omega arith),
            shift_one-ok (level - 12 + 1) (omega arith),
            fits,
          )
          refl)
  buddy_new-Created false served =
      created false (2 ^ (level - 12 + 1) - 1) (omega arith)
        (omega (arith, two_pow_mono (level - 12 + 1) 30 (omega arith)))
        (let narrow : ltb 63 level ≡ false = ground arith in
          rw
            (
              narrow,
              is_big,
              shift_one-ok (level - 12) (omega arith),
              shift_one-ok (level - 12 + 1) (omega arith),
              served.0,
            )
            refl)

-- `buddy_new` returns NULL for a region smaller than a page, and in LIB for the levels 32 to 41,
-- which need more nodes than the array holds.
pub buddy_new-none :
    (lib got : Bool) (old : ℕ → Node) (level : ℕ)
    → (level < 12) ⊎ ((lib ≡ true) × (32 ≤ level) × (level ≤ 41))
    → buddy_new lib got old level ≡ ok none
unfolding buddy_new
buddy_new-none lib got old level (inl h) =
    let small : ltb (2 ^ level) page_size ≡ true =
      (let p = two_pow_lt level 12 h in ground arith) in
    let narrow : ltb 63 level ≡ false = ground arith in rw (narrow, small) refl
buddy_new-none lib got old level (inr (is_lib, low, high)) =
    let over : ltb max_node (2 ^ (level - 12 + 1) - 1) ≡ true =
      (let p = two_pow_mono 21 (level - 12 + 1) (omega arith) in ground arith) in
    let big : ltb (2 ^ level) page_size ≡ false =
      (let p = two_pow_mono 12 level (omega arith) in ground arith) in
    let narrow : ltb 63 level ≡ false = ground arith in
    rw
      (
        narrow,
        big,
        shift_one-ok (level - 12) (omega arith),
        shift_one-ok (level - 12 + 1) (omega arith),
        is_lib,
        over,
      )
      refl
