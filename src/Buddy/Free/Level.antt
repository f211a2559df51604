-- ===== src/Buddy/Free/Level.antt =====
-- `buddy_free` on a region of eight pages: the byte `level` is taken for a full node.
use zalloc.Base.{
  ℕ, suc, ◌-◌, ◌/◌, ◌≤◌, ◌<◌, ◌≡◌, refl, sym, ap, Option-cases, ◌∙◌, true, some, ok, arith, inl,
  inr, ◌⊎◌, Run, plus, plus-eq-add, Option,
}
use mathlib.Core.Path.{subst}
use zalloc.Buddy.Size.{page_size}
use zalloc.Buddy.State.{node_split, Node, Buddy}
use zalloc.Buddy.Tree.{Block, unused, split, is_full, merge, release, lookup, index_at}
use zalloc.Buddy.Repr.{HasRoom-lt, buddy_of, IsBuddy}
use zalloc.Buddy.Free.{combine_loop, combine, buddy_free}
use zalloc.Buddy.Free.Merge.{Freed}
use zalloc.Buddy.Free.Correct.{double, FreedAs, free_block}
use zalloc.Buddy.Free.Whole.{combine_root, unmark_root_three, release-lookup}
use zalloc.Buddy.Free.Walk.{walked, find_block-lookup}

-- The outcome is a state whose level is `level`.
pub record Leveled (level : ℕ) (r : Run Buddy) : Type 0 where
  pub after : Buddy
  pub result : r ≡ ok after
  pub height : after.level ≡ level

module _ (n : ℕ) (f : ℕ → Node) (t : Block) (valid : IsBuddy (buddy_of 3 n f) t) where
  combine_three :
      (t' : Block) (j : ℕ)
      → (is_full t ≡ true) ⊎ (t' ≡ unused)
      → Freed 3 n f (is_full t) (double 3) 0 3 t' j
      → Leveled 2 (combine (buddy_of 3 n f) j)
  unfolding combine merge
  combine_three t' j why (inl p) = record {
    after = _;
    result =
        ap (λ q. combine_loop q (buddy_of 3 n f) j) (enough p.rounds p.cost)
        ∙ p.run (suc (suc (suc (97 - p.rounds))))
        ∙ combine_root 3 n f (HasRoom-lt n 0 3 valid.room) valid.nodes _
        ∙ unmark_root_three _ n _ valid.nodes;
    height = refl;
  }
    where
      enough : (p : ℕ) → p ≤ 6 → 100 ≡ plus p (suc (suc (suc (97 - p))))
      enough p h = omega (arith, plus-eq-add p (suc (suc (suc (97 - p)))))
  combine_three t' j (inl full) (inr p) = record {
    after = buddy_of node_split n p.nodes;
    result =
        ap (λ q. combine_loop q (buddy_of 3 n f) j) (enough p.rounds p.cost)
        ∙ p.run (suc (suc (98 - p.rounds)))
        ∙ rw full (unmark_root_three _ n _ valid.nodes);
    height = refl;
  }
    where
      enough : (p : ℕ) → p ≤ 6 → 100 ≡ plus p (suc (suc (98 - p)))
      enough p h = omega (arith, plus-eq-add p (suc (suc (98 - p))))
  combine_three t' j (inr gone) (inr p) =
      absurd (cc (subst (λ x. merge x unused ≡ split x unused) gone (p.open_left unused)))

  -- On a region of 8 pages, a release after which the region is one free block, or before which
  -- the tree was full, leaves the level 2.
  pub buddy_free-level_three :
      (pos : ℕ) {t' : Block}
      → pos / page_size < 8
      → release 3 (pos / page_size) t ≡ some t'
      → (is_full t ≡ true) ⊎ (t' ≡ unused)
      → Leveled 2 (buddy_free (buddy_of 3 n f) pos)
  unfolding buddy_free
  buddy_free-level_three pos {t'} h e why =
      let o = pos / page_size in
      elim (Option-cases (lookup 3 o t)) [
        | inl w ↦ absurd (cc (release-lookup 3 o t w))
        | inr ((s, k), w) ↦
            subst (Leveled 2)
              (sym (
                find_block-lookup (buddy_of 3 n f) t valid o
                  (λ index length. combine (buddy_of 3 n f) index) h
                ∙ found w))
              (combine_three t' (index_at 3 o 0 t) why (
                subst (FreedAs 3 n f (is_full t) (double 3) 0 3 (index_at 3 o 0 t)) e
                  (free_block 3 n f valid.nodes 3 0 o t valid.room valid.block)))
      ]
    where
      found :
          {x : Option (ℕ × ℕ)} {s k : ℕ}
          → x ≡ some (s, k)
          → walked 3 n f valid.nodes
              (λ index length. combine (buddy_of 3 n f) index)
              0
              3
              (pos / page_size)
              t
              x
            ≡ combine (buddy_of 3 n f) (index_at 3 (pos / page_size) 0 t)
      found w = rw w refl
