-- ===== src/Buddy/Alloc/Correct.antt =====
-- `buddy_alloc` against the first fit on the tree of blocks.
use mathlib.Core.Path.{subst}
use native.Mathlib.Nat.{mul-le-mul_right}
use zalloc.Base.{
  ℕ, suc, ◌+◌, ◌-◌, ◌*◌, ◌%◌, ◌^◌, ◌≤◌, ◌<◌, ◌≡◌, refl, ap, ◌∙◌, false, some, Run, ok, arith, ltb,
  Bool-cases, inl, inr, plus, plus-eq-add, two_pow_pos, two_pow_lt, two_pow_add, two_pow_mono,
}
use zalloc.Buddy.Size.{page_size, block_pages}
use zalloc.Buddy.State.{Node, Buddy, update, shift_one}
use zalloc.Buddy.Tree.{Block, is_full, place, place-lt}
use zalloc.Buddy.Repr.{buddy_of, set_used-ok, IsBuddy}
use zalloc.Buddy.Alloc.{visit, search, take_node, mark_loop, index_offset, buddy_alloc}
use zalloc.Buddy.Alloc.Mark.{Marked, mark_root}
use zalloc.Buddy.Alloc.Find.{Found, FoundAs, search_find, used_node}

pub shift_one-ok : (n : ℕ) → n < 31 → shift_one n ≡ ok (2 ^ n)
unfolding shift_one
shift_one-ok n h = ground arith

-- The `o`-th block of `2 ^ e` pages ends within the tree.
pub block-le : (k e o : ℕ) → o < 2 ^ k → (o + 1) * 2 ^ e ≤ 2 ^ (k + e)
block-le k e o h = rw (two_pow_add k e) (mul-le-mul_right {m = o + 1} (2 ^ e) (omega arith))

pub index_offset-ok :
    (k e o j : ℕ)
    → k + e < 31
    → o < 2 ^ k
    → j + 1 ≡ 2 ^ k + o
    → index_offset j k (k + e) ≡ ok (page_size * (o * 2 ^ e))
unfolding index_offset shift_one
index_offset-ok k e o j h small pos =
    let first : (j + 1 + 2 ^ 64 - 2 ^ k) % 2 ^ 64 ≡ o =
      omega (arith, two_pow_lt k 31 (omega arith)) in
    let shift : k + e - k ≡ e = omega arith in
    let top : (o + 1) * 2 ^ e ≤ 2 ^ 31 =
      omega (arith, block-le k e o small, two_pow_lt (k + e) 31 h) in
    let fits : o * 2 ^ e < 2 ^ 31 = omega (arith, two_pow_pos e) in
    rw (shift_one-ok k (omega arith), first, shift) (ground arith)

-- The marking that ends within the tree has enough rounds.
mark_whole :
    (lv n : ℕ) (f g : ℕ → Node) (k d j : ℕ) (t : Block)
    → k < 60
    → (m : Marked lv n f k 0 d t j g)
    → mark_loop 65 (buddy_of lv n g) j ≡ ok (buddy_of lv n m.nodes)
mark_whole lv n f g k d j t small m =
    let left = 64 - m.rounds in
    let enough : 65 ≡ plus m.rounds (suc left) =
      omega (arith, plus-eq-add m.rounds (suc left), m.cost) in
    ap (λ q. mark_loop q (buddy_of lv n g) j) enough
    ∙ m.run (suc left)
    ∙ elim (Bool-cases (is_full t)) [
      | inl e ↦ rw e (mark_root left lv n m.nodes)
      | inr e ↦ rw e refl
    ]

-- The outcome that the tree of blocks `t` stands for, with a block from page `o` on.
pub record Allocated (b : Buddy) (o : ℕ) (t : Block) (r : Run (ℕ × Buddy)) : Type 0 where
  pub after : Buddy
  pub result : r ≡ ok (page_size * o, after)
  pub valid : IsBuddy after t
  pub level : after.level ≡ b.level

take_node-ok :
    (lv n s e k j o level : ℕ) (f g : ℕ → Node) (t : Block)
    → lv ≡ k + e
    → level ≡ k
    → lv < 30
    → j < n
    → o < 2 ^ k
    → j + 1 ≡ 2 ^ k + o
    → (m : Marked lv n f k 0 lv t j (update g j (used_node s (2 ^ e))))
    → take_node s (2 ^ e) (buddy_of lv n g) j level
      ≡ ok (page_size * (o * 2 ^ e), buddy_of lv n m.nodes)
unfolding take_node
take_node-ok lv n s e k j o level f g t el ek small hj ho pos m = rw (
  set_used-ok lv n g j hj s (2 ^ e),
  mark_whole lv n f _ k lv j t (omega arith) m,
  el,
  ek,
  index_offset-ok k e o j (omega arith) ho pos,
)

module _ (b : Buddy) (t : Block) (s k e fuel : ℕ) (valid : IsBuddy b t)
    (size : block_pages s ≡ 2 ^ e) (height : b.level ≡ k + e) (enough : 3 * 2 ^ k ≤ fuel) where
  taken :
      (o : ℕ) (t' : Block)
      → o < 2 ^ k
      → Found b.level b.nodes s e b.tree k 0 b.level 0 o t'
      → Allocated b (o * 2 ^ e) t' (buddy_alloc fuel b s)
  unfolding buddy_alloc
  taken o t' ho m = record {
    after = buddy_of b.level b.nodes m.marks.nodes;
    result =
        rw (shift_one-ok b.level (omega (arith, valid.level)), size, fits)
          (ap (λ q. search q s (2 ^ e) visit b 0 (2 ^ b.level) 0) split_fuel
            ∙ m.run (fuel - m.rounds)
            ∙ take_node-ok b.level b.nodes s e k m.index o (0 + k) b.tree m.nodes t' height
                (omega arith) valid.level m.inside ho (omega (arith, m.position)) m.marks);
    valid = record {
      level = valid.level;
      nodes = valid.nodes;
      room = valid.room;
      block = m.marks.block;
    };
    level = refl;
  }
    where
      fits : ltb (2 ^ b.level) (2 ^ e) ≡ false
      fits = let le = two_pow_mono e b.level (omega arith) in ground arith

      split_fuel : fuel ≡ plus m.rounds (fuel - m.rounds)
      split_fuel = omega (arith, plus-eq-add m.rounds (fuel - m.rounds), m.cost)

  -- With fuel of 3 * 2 ^ k, where the tree places a request of `2 ^ e` pages, `buddy_alloc` returns
  -- the page of that place, and leaves the tree of blocks with the request placed.
  pub buddy_alloc-place :
      {o : ℕ} {t' : Block}
      → place k s t ≡ some (o, t')
      → Allocated b (o * 2 ^ e) t' (buddy_alloc fuel b s)
  buddy_alloc-place {o} {t'} p = taken o t' (place-lt k s t p) (
      subst (FoundAs b.level b.nodes s e b.tree k 0 b.level 0) p (
        search_find b.level b.nodes s e b.tree k b.level 0 0 t
          (record { nodes = valid.nodes; height = height; depth = omega (arith, valid.level) })
          valid.room valid.block))
