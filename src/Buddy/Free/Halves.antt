-- ===== src/Buddy/Free/Halves.antt =====
-- Freeing a half: what the merging loop makes of the whole.
use mathlib.Core.Path.{subst}
use zalloc.Base.{
  ℕ, zero, suc, ◌+◌, ◌*◌, ◌^◌, ◌≤◌, ◌<◌, ◌≡◌, ◌≢◌, refl, sym, ap, ◌∙◌, Bool, true, false, ◌&&◌,
  arith, ◌==◌, if◌then◌else◌, &&-false, plus, plus-suc,
}
use zalloc.Buddy.State.{node_unused, node_split, node_full, Node, parent}
use zalloc.Buddy.Tree.{
  Block, unused, split, is_full, merge, IsTaken, is_used, is_split, merge-IsTaken_left,
  merge-IsTaken_right,
}
use zalloc.Buddy.Inside.{Inside, here, left, right, Inside-le, Inside-apart}
use zalloc.Buddy.Repr.{IsBlock, buddy_of, IsBlock-frame, parent-left, parent-right}
use zalloc.Buddy.Alloc.Mark.{with_state, with_state_ne}
use zalloc.Buddy.Free.{unmark_loop, combine_loop}
use zalloc.Buddy.Free.Merge.{
  unmarked, unmark_step, combine_left, combine_right, Settled, Rising, Settled-join,
}

pub IsTaken-state :
    (f : ℕ → Node) (i d : ℕ) {t : Block}
    → IsTaken t
    → IsBlock f i d t
    → ((f i).state == node_unused) ≡ false
IsTaken-state f i d (is_used s) h = ground arith
IsTaken-state f i zero (is_split l r) h = elim h [ ]
IsTaken-state f i (suc d) (is_split l r) h = ground arith

module _ (lv n : ℕ) (f : ℕ → Node) (i : ℕ) (hi : i * 2 + 2 < n) (hn : n ≤ 2 ^ 30) where
  -- The fuel of a run whose last rounds are made above a half.
  pub last_round :
      (p fuel j : ℕ)
      → combine_loop (suc (plus p fuel)) (buddy_of lv n f) j
        ≡ combine_loop (plus p (suc fuel)) (buddy_of lv n f) j
  last_round p fuel j = ap (λ q. combine_loop q (buddy_of lv n f) j) (sym (plus-suc p fuel))

  last_rounds :
      (p fuel j : ℕ)
      → combine_loop (suc (suc (plus p fuel))) (buddy_of lv n f) j
        ≡ combine_loop (plus p (suc (suc fuel))) (buddy_of lv n f) j
  last_rounds p fuel j =
      ap (λ q. combine_loop q (buddy_of lv n f) j)
        (sym (plus-suc p (suc fuel) ∙ ap suc (plus-suc p fuel)))

  module _ (m d : ℕ) (full : Bool) (j : ℕ)
      (st : (f i).state ≡ (if full then node_full else node_split)) where
    -- The half at `c` is freed as a whole, and its sibling is taken.
    settle :
        (c : ℕ) (p : ℕ) (l r : Block)
        → p ≤ m
        → parent c ≡ i
        → i ≢ c
        → Inside i c
        → ((fuel : ℕ)
            → combine_loop (plus p (suc fuel)) (buddy_of lv n f) j
              ≡ unmark_loop fuel (buddy_of lv n (with_state f c node_unused)) c)
        → IsBlock (with_state f c node_unused) (i * 2 + 1) d l
        → IsBlock (with_state f c node_unused) (i * 2 + 2) d r
        → merge l r ≡ split l r
        → is_full l && is_full r ≡ false
        → Settled lv n f full (m + 2) i (suc d) (split l r) j
    settle c p l r cost pc ne below run hl hr open_half partly =
        Settled-join lv n f i hi hn full (m + 2) d l r j c (with_state f c node_unused)
          (suc (suc p)) (omega arith)
          (λ fuel.
            last_rounds p fuel j
            ∙ run (suc fuel)
            ∙ unmark_step fuel lv n (with_state f c node_unused) i c (omega arith) pc
            ∙ ap (unmarked fuel lv n (with_state f c node_unused) i) (full_test full st'))
          st' hl hr (λ x q. with_state_ne f c node_unused x (λ e. q (subst (Inside i) e below)))
          open_half partly
      where
        st' : (with_state f c node_unused i).state ≡ (if full then node_full else node_split)
        st' = rw (with_state_ne f c node_unused i (λ e. ne (sym e))) st

        full_test :
            (b : Bool)
            → (with_state f c node_unused i).state ≡ (if b then node_full else node_split)
            → ((with_state f c node_unused i).state == node_full) ≡ b
        full_test true e = rw e refl
        full_test false e = rw e refl

    module _ (l r : Block) (hl : IsBlock f (i * 2 + 1) d l) (hr : IsBlock f (i * 2 + 2) d r) where
      -- The left half is free as a whole: its sibling decides.
      pub rise_left :
          (p : Rising lv n f m (i * 2 + 1) unused j)
          → ((f (i * 2 + 2)).state == node_unused) ≡ true
          → Rising lv n f (m + 2) i unused j
      rise_left p free = record {
        rounds = suc p.rounds;
        cost = omega (arith, p.cost);
        run = λ fuel.
            last_round p.rounds fuel j
            ∙ p.run (suc fuel)
            ∙ combine_left fuel lv n f i hi hn
            ∙ rw free refl;
        free = refl;
      }

      pub rise_right :
          (p : Rising lv n f m (i * 2 + 2) unused j)
          → ((f (i * 2 + 1)).state == node_unused) ≡ true
          → Rising lv n f (m + 2) i unused j
      rise_right p free = record {
        rounds = suc p.rounds;
        cost = omega (arith, p.cost);
        run = λ fuel.
            last_round p.rounds fuel j
            ∙ p.run (suc fuel)
            ∙ combine_right fuel lv n f i hi hn
            ∙ rw free refl;
        free = refl;
      }

      pub settle_left :
          (p : Rising lv n f m (i * 2 + 1) unused j)
          → IsTaken r
          → Settled lv n f full (m + 2) i (suc d) (split unused r) j
      unfolding is_full
      settle_left p taken =
          settle (i * 2 + 1) p.rounds unused r p.cost (parent-left i (omega arith)) (omega arith)
            (left here refl)
            (λ fuel.
              p.run (suc fuel)
              ∙ combine_left fuel lv n f i hi hn
              ∙ rw (IsTaken-state f (i * 2 + 2) d taken hr) refl)
            (ground arith)
            (IsBlock-frame f _ (i * 2 + 2) d r
              (λ x q. with_state_ne f (i * 2 + 1) node_unused x (omega (arith, Inside-le q))) hr)
            (merge-IsTaken_right taken unused) refl

      pub settle_right :
          (p : Rising lv n f m (i * 2 + 2) unused j)
          → IsTaken l
          → Settled lv n f full (m + 2) i (suc d) (split l unused) j
      unfolding is_full
      settle_right p taken =
          settle (i * 2 + 2) p.rounds l unused p.cost (parent-right i (omega arith)) (omega arith)
            (right here refl)
            (λ fuel.
              p.run (suc fuel)
              ∙ combine_right fuel lv n f i hi hn
              ∙ rw (IsTaken-state f (i * 2 + 1) d taken hl) refl)
            (IsBlock-frame f _ (i * 2 + 1) d l
              (λ x q.
                with_state_ne f (i * 2 + 2) node_unused x
                  (λ e. Inside-apart i q (subst (Inside (i * 2 + 2)) e here)))
              hl)
            (ground arith) (merge-IsTaken_left taken unused) (&&-false (is_full l))
