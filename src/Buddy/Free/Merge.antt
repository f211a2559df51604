-- ===== src/Buddy/Free/Merge.antt =====
-- The merging of free halves, seen from the block that is freed.
use zalloc.Base.{
  ℕ, suc, ◌+◌, ◌*◌, ◌^◌, ◌≤◌, ◌<◌, ◌≡◌, refl, ◌∙◌, Bool, true, false, ◌&&◌, Run, ok, arith, ◌==◌,
  if◌then◌else◌, ◌⊎◌, plus,
}
use zalloc.Buddy.State.{node_unused, node_split, node_full, Node, Buddy, parent}
use zalloc.Buddy.Tree.{Block, unused, split, is_full, merge}
use zalloc.Buddy.Inside.{Inside}
use zalloc.Buddy.Repr.{
  IsBlock, buddy_of, get_state-ok, set_state-ok, parent-left, parent-right, sibling-left,
  sibling-right,
}
use zalloc.Buddy.Alloc.Mark.{with_state, with_state_ne, ne_of_not-Inside, halves_kept}
use zalloc.Buddy.Free.{unmark_loop, combine_loop}

-- A round of the inner loop, whose parent is `i`.
abbrev pub unmarked : ℕ → ℕ → ℕ → (ℕ → Node) → ℕ → Bool → Run Buddy
unmarked fuel lv n f i full =
    if full
    then unmark_loop fuel (buddy_of lv n (with_state f i node_split)) i
    else ok (buddy_of lv n f)

pub unmark_step :
    (fuel lv n : ℕ) (f : ℕ → Node) (i c : ℕ)
    → i < n
    → parent c ≡ i
    → unmark_loop (suc fuel) (buddy_of lv n f) c ≡ unmarked fuel lv n f i ((f i).state == node_full)
unfolding unmark_loop
unmark_step fuel lv n f i c hi e =
    rw (e, get_state-ok lv n f i hi, set_state-ok lv n f i hi node_split) refl

-- What the merging loop does above a half that is free as a whole.
module _ (fuel lv n : ℕ) (f : ℕ → Node) (i : ℕ) (h : i * 2 + 2 < n) (hn : n ≤ 2 ^ 30) where
  abbrev pub combined : ℕ → Bool → Run Buddy
  combined c free =
      if free
      then combine_loop fuel (buddy_of lv n f) i
      else unmark_loop fuel (buddy_of lv n (with_state f c node_unused)) c

  pub combine_left :
      combine_loop (suc fuel) (buddy_of lv n f) (i * 2 + 1)
      ≡ combined (i * 2 + 1) ((f (i * 2 + 2)).state == node_unused)
  unfolding combine_loop
  combine_left =
      rw
        (
          sibling-left i (omega arith),
          parent-left i (omega arith),
          get_state-ok lv n f (i * 2 + 2) h,
          set_state-ok lv n f (i * 2 + 1) (omega arith),
        )
        (ground arith)

  pub combine_right :
      combine_loop (suc fuel) (buddy_of lv n f) (i * 2 + 2)
      ≡ combined (i * 2 + 2) ((f (i * 2 + 1)).state == node_unused)
  unfolding combine_loop
  combine_right =
      rw
        (
          sibling-right i (omega arith),
          parent-right i (omega arith),
          get_state-ok lv n f (i * 2 + 1) (omega arith),
          set_state-ok lv n f (i * 2 + 2) h,
        )
        (ground arith)

module _ (lv n : ℕ) (f : ℕ → Node) where
  -- The loops, begun at `j`, have turned the block at `i`, full or not, into `t`; they go on above
  -- `i` exactly if it was full.
  pub record Settled (full : Bool) (m i d : ℕ) (t : Block) (j : ℕ) : Type 0 where
    pub nodes : ℕ → Node
    pub rounds : ℕ
    pub cost : rounds ≤ m
    pub run :
        (fuel : ℕ)
        → combine_loop (plus rounds fuel) (buddy_of lv n f) j
          ≡ (if full then unmark_loop fuel (buddy_of lv n nodes) i else ok (buddy_of lv n nodes))
    pub block : IsBlock nodes i d t
    pub same : (x : ℕ) → ¬ Inside i x → nodes x ≡ f x
    pub open_left : (r : Block) → merge t r ≡ split t r
    pub open_right : (l : Block) → merge l t ≡ split l t
    pub not_full : is_full t ≡ false

  -- The loop, begun at `j`, has come to `i`, all of which is free, and has written nothing.
  pub record Rising (m i : ℕ) (t : Block) (j : ℕ) : Type 0 where
    pub rounds : ℕ
    pub cost : rounds ≤ m
    pub run :
        (fuel : ℕ)
        → combine_loop (plus rounds fuel) (buddy_of lv n f) j
          ≡ combine_loop fuel (buddy_of lv n f) i
    pub free : t ≡ unused

  abbrev pub Freed : Bool → ℕ → ℕ → ℕ → Block → ℕ → Type 0
  Freed full m i d t j = Rising m i t j ⊎ Settled full m i d t j

  module _ (i : ℕ) (hi : i * 2 + 2 < n) (hn : n ≤ 2 ^ 30) where
    -- What the inner loop makes of a node, both of whose halves were full or not, above a change
    -- that left one of them not full.
    pub Settled-join :
        (full : Bool) (m d : ℕ) (l r : Block) (j c : ℕ) (h : ℕ → Node) (rounds : ℕ)
        → rounds ≤ m
        → ((fuel : ℕ)
            → combine_loop (plus rounds fuel) (buddy_of lv n f) j ≡ unmarked fuel lv n h i full)
        → (h i).state ≡ (if full then node_full else node_split)
        → IsBlock h (i * 2 + 1) d l
        → IsBlock h (i * 2 + 2) d r
        → ((x : ℕ) → ¬ Inside i x → h x ≡ f x)
        → merge l r ≡ split l r
        → is_full l && is_full r ≡ false
        → Settled full m i (suc d) (split l r) j
    unfolding is_full merge
    Settled-join true m d l r j c h rounds cost run st hl hr same open_half partly =
        let (hl', hr') = halves_kept h i node_split d l r hl hr in
        record {
          nodes = with_state h i node_split;
          rounds = rounds;
          cost = cost;
          run = run;
          block = (rw partly (ground arith), hl', hr');
          same = λ x p. with_state_ne h i node_split x (ne_of_not-Inside p) ∙ same x p;
          open_left = λ r'. refl;
          open_right = λ l'. ground arith;
          not_full = partly;
        }
    Settled-join false m d l r j c h rounds cost run st hl hr same open_half partly = record {
      nodes = h;
      rounds = rounds;
      cost = cost;
      run = run;
      block = (rw partly st, hl, hr);
      same = same;
      open_left = λ r'. refl;
      open_right = λ l'. ground arith;
      not_full = partly;
    }

    -- One round of the inner loop above a half that may have been full.
    pub unmark_climb :
        (fuel : ℕ) (h : ℕ → Node) (c : ℕ) (half other : Bool)
        → parent c ≡ i
        → (h i).state ≡ (if half && other then node_full else node_split)
        → (if half then unmark_loop (suc fuel) (buddy_of lv n h) c else ok (buddy_of lv n h))
          ≡ unmarked fuel lv n h i (half && other)
    unmark_climb fuel h c true true pc st =
        unmark_step fuel lv n h i c (omega arith) pc ∙ rw st refl
    unmark_climb fuel h c true false pc st =
        unmark_step fuel lv n h i c (omega arith) pc ∙ rw st refl
    unmark_climb fuel h c false other pc st = refl
