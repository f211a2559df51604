-- ===== src/Buddy/Free/Whole.antt =====
-- `buddy_free` on the whole tree: the release of an allocation, and the byte `level`.
use mathlib.Core.Path.{subst}
use zalloc.Base.{
  ℕ, zero, suc, ◌-◌, ◌/◌, ◌^◌, ◌≤◌, ◌<◌, ◌≡◌, ◌≢◌, refl, sym, ap, ◌∙◌, Option, none, some, Run, ok,
  abort, arith, Bool-cases, Option-cases, inl, inr, plus, plus-eq-add,
}
use zalloc.Buddy.Size.{page_size}
use zalloc.Buddy.State.{
  node_unused, node_split, node_full, Node, Buddy, parent, sibling, get_state, set_state,
}
use zalloc.Buddy.Tree.{Block, unused, used, split, is_full, release, lookup, index_at}
use zalloc.Buddy.Repr.{IsBlock, HasRoom-lt, buddy_of, IsBuddy, set_state-ok}
use zalloc.Buddy.Alloc.Mark.{with_state}
use zalloc.Buddy.Free.{unmark_loop, combine_loop, combine, buddy_free}
use zalloc.Buddy.Free.Merge.{Freed}
use zalloc.Buddy.Free.Correct.{double, double_lem, FreedAs, free_block}
use zalloc.Buddy.Free.Walk.{find_block-lookup}

-- A release fails exactly where no allocation begins.
pub release-lookup : (d o : ℕ) (t : Block) → lookup d o t ≡ none → release d o t ≡ none
unfolding lookup release
release-lookup d o unused h = refl
release-lookup d o (used s) h = ground arith
release-lookup zero o (split l r) h = refl
release-lookup (suc d) o (split l r) h =
    ground (arith, release-lookup d o l, release-lookup d (o - 2 ^ d) r)

pub lookup-release : (d o : ℕ) (t : Block) → release d o t ≡ none → lookup d o t ≡ none
unfolding lookup release
lookup-release d o unused h = refl
lookup-release d o (used s) h = ground arith
lookup-release zero o (split l r) h = refl
lookup-release (suc d) o (split l r) h =
    ground (arith, lookup-release d o l, lookup-release d (o - 2 ^ d) r)

module _ (lv n : ℕ) (f : ℕ → Node) (pos : 0 < n) (hn : n ≤ 2 ^ 30) where
  pub combine_root :
      (fuel : ℕ)
      → combine_loop (suc fuel) (buddy_of lv n f) 0
        ≡ unmark_loop fuel (buddy_of lv n (with_state f 0 node_unused)) 0
  unfolding combine_loop sibling
  combine_root fuel = rw (set_state-ok lv n f 0 pos node_unused) refl

-- The parent of the root is the element before the array, whose state is the byte `level`.
unmark_root :
    (fuel lv n : ℕ) (f : ℕ → Node)
    → n ≤ 2 ^ 30
    → lv ≢ node_full
    → unmark_loop (suc fuel) (buddy_of lv n f) 0 ≡ ok (buddy_of lv n f)
unfolding unmark_loop parent get_state
unmark_root fuel lv n f hn ne = ground arith

pub unmark_root_three :
    (fuel n : ℕ) (f : ℕ → Node)
    → n ≤ 2 ^ 30
    → unmark_loop (suc (suc fuel)) (buddy_of node_full n f) 0 ≡ ok (buddy_of node_split n f)
unfolding unmark_loop parent get_state set_state
unmark_root_three fuel n f hn = ground arith

-- The outcome of a release that leaves the tree of blocks `t`.
pub record Released (b : Buddy) (t : Block) (r : Run Buddy) : Type 0 where
  pub after : Buddy
  pub result : r ≡ ok after
  pub valid : IsBuddy after t
  pub level : after.level ≡ b.level

-- The outcome that the tree gives for a release: a failed assertion if there is none.
abbrev pub ReleasedAs : Buddy → Option Block → Run Buddy → Type 0
ReleasedAs b none r = r ≡ abort
ReleasedAs b (some t) r = Released b t r

module _ (b : Buddy) (t : Block) (valid : IsBuddy b t) where
  enough : (p : ℕ) → p ≤ double b.level → 100 ≡ plus p (suc (suc (98 - p)))
  enough p h = omega (arith, h, double_lem b.level, valid.level, plus-eq-add p (suc (suc (98 - p))))

  rebuilt :
      (f : ℕ → Node) (t' : Block) → IsBlock f 0 b.level t' → IsBuddy (buddy_of b.level b.nodes f) t'
  rebuilt f t' h = record { level = valid.level; nodes = valid.nodes; room = valid.room; block = h }

  combine_whole :
      (t' : Block) (j : ℕ)
      → b.level ≢ node_full
      → Freed b.level b.nodes b.tree (is_full t) (double b.level) 0 b.level t' j
      → Released b t' (combine b j)
  unfolding combine
  combine_whole t' j ne (inl p) = record {
    after = buddy_of b.level b.nodes (with_state b.tree 0 node_unused);
    result =
        ap (λ q. combine_loop q b j) (enough p.rounds p.cost)
        ∙ p.run (suc (suc (98 - p.rounds)))
        ∙ combine_root b.level b.nodes b.tree (HasRoom-lt b.nodes 0 b.level valid.room) valid.nodes
            _
        ∙ unmark_root _ b.level b.nodes _ valid.nodes ne;
    valid = rebuilt _ t' (subst (IsBlock _ 0 b.level) (sym p.free) (ground arith));
    level = refl;
  }
  combine_whole t' j ne (inr p) = record {
    after = buddy_of b.level b.nodes p.nodes;
    result =
        ap (λ q. combine_loop q b j) (enough p.rounds p.cost)
        ∙ p.run (suc (suc (98 - p.rounds)))
        ∙ elim (Bool-cases (is_full t)) [
          | inl e ↦ rw e (unmark_root _ b.level b.nodes _ valid.nodes ne)
          | inr e ↦ rw e refl
        ];
    valid = rebuilt _ t' p.block;
    level = refl;
  }

  released :
      (j : ℕ) (r : Run Buddy) (x : Option Block)
      → b.level ≢ node_full
      → x ≢ none
      → r ≡ combine b j
      → FreedAs b.level b.nodes b.tree (is_full t) (double b.level) 0 b.level j x
      → ReleasedAs b x r
  released j r none ne known e p = absurd (known refl)
  released j r (some t') ne known e p = subst (Released b t') (sym e) (combine_whole t' j ne p)

  -- At a page within the region, and where the level is not 3, `buddy_free` leaves the tree of
  -- blocks that the release gives, or fails an assertion where no allocation begins.
  pub buddy_free-release :
      (pos : ℕ)
      → b.level ≢ node_full
      → pos / page_size < 2 ^ b.level
      → ReleasedAs b (release b.level (pos / page_size) t) (buddy_free b pos)
  unfolding buddy_free
  buddy_free-release pos ne h =
      let o = pos / page_size in
      elim (Option-cases (lookup b.level o t)) [
        | inl e ↦
            rw (release-lookup b.level o t e)
              (find_block-lookup b t valid o (λ index length. combine b index) h ∙ rw e refl)
        | inr ((s, k), e) ↦
            released (index_at b.level o 0 t) (buddy_free b pos) (release b.level o t) ne
              (λ w. cc (lookup-release b.level o t w))
              (find_block-lookup b t valid o (λ index length. combine b index) h ∙ rw e refl)
              (free_block b.level b.nodes b.tree valid.nodes b.level 0 o t valid.room valid.block)
      ]
