-- ===== src/Buddy/Alloc/Beyond.antt =====
-- `buddy_alloc` where only the right half is free and the whole region is asked for: the search
-- wraps at the root with its length doubled, and takes the right half for the whole.
use zalloc.Base.{
  ℕ, zero, suc, ◌-◌, ◌*◌, ◌/◌, ◌%◌, ◌^◌, ◌≤◌, ◌<◌, ◌≡◌, refl, ◌∙◌, Bool, true, false, Run, ok,
  arith, ltb, ◌==◌, &&-false, two_pow_pos, two_pow_lt,
}
use zalloc.Buddy.Size.{page_size, block_pages}
use zalloc.Buddy.State.{node_unused, node_full, node_split, Node, Buddy, update, parent}
use zalloc.Buddy.Tree.{Block, unused, split, is_full, IsTaken}
use zalloc.Buddy.Repr.{IsBlock, HasRoom, HasRoom-lt, buddy_of, get_state-ok, set_used-ok, IsBuddy}
use zalloc.Buddy.Alloc.{
  visit, climb, search, split_node, take_node, mark_parent, index_offset, buddy_alloc,
  is_full_state,
}
use zalloc.Buddy.Alloc.Mark.{with_state, marked, mark_right, mark_root}
use zalloc.Buddy.Alloc.Find.{used_node}
use zalloc.Buddy.Alloc.Fail.{search_taken}
use zalloc.Buddy.Alloc.Correct.{shift_one-ok}
use zalloc.Buddy.Free.Halves.{IsTaken-state}

-- The outcome is a block from page `o` on.
pub record Given (o : ℕ) (r : Run (ℕ × Buddy)) : Type 0 where
  pub after : Buddy
  pub result : r ≡ ok (page_size * o, after)

module _ (lv n : ℕ) (f : ℕ → Node) (hn : n ≤ 2 ^ 30) (room : 2 < n) where
  mark_two : (b : Bool) → (after : Buddy) × (marked 64 lv n f 0 b ≡ ok after) × (after.level ≡ lv)
  mark_two true = (buddy_of lv n (with_state f 0 node_full), mark_root 63 lv n _, refl)
  mark_two false = (buddy_of lv n f, refl, refl)

  marked_two : (after : Buddy) × (mark_parent (buddy_of lv n f) 2 ≡ ok after) × (after.level ≡ lv)
  unfolding mark_parent
  marked_two =
      let (after, e, same) = mark_two (is_full_state (f 1).state) in
      (after, mark_right 64 lv n f 0 room hn ∙ e, same)

module _ (s size lv n : ℕ) (f : ℕ → Node) (room : 2 < n) (hlv : lv < 30) (hs : size ≡ 2 ^ lv)
    (root : (f 0).state ≡ node_split) (one : ((f 1).state == node_unused) ≡ false)
    (two : (f 2).state ≡ node_unused) where
  double : 2 ^ lv * 2 % 2 ^ 64 ≡ 2 ^ lv * 2
  double = omega (arith, two_pow_lt lv 30 hlv)

  climb_root :
      (fuel : ℕ)
      → search (suc fuel) s size climb (buddy_of lv n f) 0 (2 ^ lv) 0
        ≡ search fuel s size visit (buddy_of lv n f) 0 (2 ^ lv * 2) (2 ^ 32 - 1)
  unfolding search parent
  climb_root fuel = rw double refl

  down_root :
      (fuel : ℕ)
      → search (suc fuel) s size visit (buddy_of lv n f) 0 (2 ^ lv * 2) (2 ^ 32 - 1)
        ≡ search fuel s size visit (buddy_of lv n f) 1 (2 ^ lv) 0
  unfolding search split_node
  down_root fuel =
      let half : 2 ^ lv * 2 / 2 ≡ 2 ^ lv = omega arith in
      let ne : (size == 2 ^ lv * 2) ≡ false = (let p = two_pow_pos lv in ground arith) in
      rw (get_state-ok lv n f 0 (omega arith), root, half, ne) refl

  take_right :
      (fuel : ℕ)
      → search (suc fuel) s size visit (buddy_of lv n f) 2 (2 ^ lv) 0
        ≡ take_node s size (buddy_of lv n f) 2 0
  unfolding search
  take_right fuel =
      let eq : (size == 2 ^ lv) ≡ true = ground arith in
      rw (get_state-ok lv n f 2 room, two, eq) refl

  go_round :
      (fuel : ℕ)
      → search (suc (suc (suc (suc (suc fuel))))) s size visit (buddy_of lv n f) 0 (2 ^ lv) 0
        ≡ take_node s size (buddy_of lv n f) 2 0
  go_round fuel =
      search_taken lv n s size f _ 0 (2 ^ lv) 0 (omega arith) hs (λ e. cc)
      ∙ climb_root _
      ∙ down_root _
      ∙ search_taken lv n s size f _ 1 (2 ^ lv) 0 (omega arith) hs (λ e. ground arith)
      ∙ take_right fuel

index_offset_two : (lv : ℕ) → lv < 30 → index_offset 2 0 lv ≡ ok (page_size * (2 * 2 ^ lv))
unfolding index_offset
index_offset_two lv h =
    let small = two_pow_lt lv 30 h in
    let count : lv - 0 ≡ lv = omega arith in rw (shift_one-ok 0 (omega arith), count) (ground arith)

take_two :
    (lv n s size : ℕ) (f : ℕ → Node)
    → n ≤ 2 ^ 30
    → 2 < n
    → lv < 30
    → (after : Buddy) × (take_node s size (buddy_of lv n f) 2 0
        ≡ ok (page_size * (2 * 2 ^ lv), after))
unfolding take_node
take_two lv n s size f hn room h =
    let (after, e, same) = marked_two lv n (update f 2 (used_node s size)) hn room in
    (after, rw (set_used-ok lv n f 2 room s size, e, same, index_offset_two lv h) refl)

-- The halves that a split root has.
halves :
    (n d : ℕ) (f : ℕ → Node) (l : Block)
    → HasRoom n 0 d
    → IsBlock f 0 d (split l unused)
    → IsTaken l
    → (2 < n)
      × ((f 0).state ≡ node_split)
      × (((f 1).state == node_unused) ≡ false)
      × ((f 2).state ≡ node_unused)
unfolding is_full
halves n zero f l room h taken = elim h [ ]
halves n (suc d) f l room h taken =
    (HasRoom-lt n 2 d room.2, rw (&&-false (is_full l)) at h.0, IsTaken-state f 1 d taken h.1, h.2)

beyond :
    (b : Buddy) (l : Block) (s fuel : ℕ)
    → IsBuddy b (split l unused)
    → IsTaken l
    → block_pages s ≡ 2 ^ b.level
    → Given (2 * 2 ^ b.level) (buddy_alloc (suc (suc (suc (suc (suc fuel))))) b s)
unfolding buddy_alloc
beyond b l s fuel valid taken size =
    let (room, root, one, two) = halves b.nodes b.level b.tree l valid.room valid.block taken in
    let within : ltb (2 ^ b.level) (block_pages s) ≡ false = ground arith in
    let out = take_two b.level b.nodes s (block_pages s) b.tree valid.nodes room valid.level in
    record {
      after = out.0;
      result =
          rw (shift_one-ok b.level (omega (arith, valid.level)), within)
            (go_round s (block_pages s) b.level b.nodes b.tree room valid.level size root one two
                fuel
              ∙ out.1);
    }

-- Where the left half is taken in part or whole and the right half is free, a request for the whole
-- region gives the offset twice the size of the region, past its end.
pub buddy_alloc-beyond :
    (b : Buddy) (l : Block) (s fuel : ℕ)
    → IsBuddy b (split l unused)
    → IsTaken l
    → block_pages s ≡ 2 ^ b.level
    → 5 ≤ fuel
    → Given (2 * 2 ^ b.level) (buddy_alloc fuel b s)
buddy_alloc-beyond b l s (suc (suc (suc (suc (suc fuel))))) valid taken size enough =
    beyond b l s fuel valid taken size
buddy_alloc-beyond b l s fuel valid taken size enough = absurd (omega arith)
