-- ===== src/Buddy/Alloc/Mark.antt =====
-- The marking of full parents, seen from a block that has just changed.
use zalloc.Base.{
  ℕ, suc, ◌+◌, ◌*◌, ◌^◌, ◌≤◌, ◌<◌, ◌≡◌, ◌≢◌, refl, sym, ap, ◌∙◌, Bool, true, ◌&&◌, Run, ok, arith,
  if◌then◌else◌, Bool-cases, inl, inr, plus, plus-suc, &&-true, &&-false,
}
use mathlib.Core.Path.{subst}
use zalloc.Buddy.State.{node_split, node_full, Node, Buddy, update}
use zalloc.Buddy.Tree.{Block, split, is_full}
use zalloc.Buddy.Inside.{Inside, here, Inside-le, Inside-left, Inside-right, Inside-apart}
use zalloc.Buddy.Repr.{
  IsBlock, buddy_of, IsBlock-is_full, IsBlock-frame, get_state-ok, set_state-ok, parent-left,
  parent-right, sibling-left, sibling-right,
}
use zalloc.Buddy.Alloc.{mark_loop, is_full_state}

abbrev pub with_state : (ℕ → Node) → ℕ → ℕ → ℕ → Node
with_state f i v = update f i (record (f i) { state = v })

-- A round of the loop at a child whose sibling has state `st`.
abbrev pub marked : ℕ → ℕ → ℕ → (ℕ → Node) → ℕ → Bool → Run Buddy
marked fuel lv n f i both =
    if both
    then mark_loop fuel (buddy_of lv n (with_state f i node_full)) i
    else ok (buddy_of lv n f)

module _ (fuel lv n : ℕ) (f : ℕ → Node) (i : ℕ) (h : i * 2 + 2 < n) (hn : n ≤ 2 ^ 30) where
  pub mark_left :
      mark_loop (suc fuel) (buddy_of lv n f) (i * 2 + 1)
      ≡ marked fuel lv n f i (is_full_state (f (i * 2 + 2)).state)
  unfolding mark_loop
  mark_left =
      rw
        (
          sibling-left i (omega arith),
          parent-left i (omega arith),
          get_state-ok lv n f (i * 2 + 2) h,
          set_state-ok lv n f i (omega arith),
        )
        (ground arith)

  pub mark_right :
      mark_loop (suc fuel) (buddy_of lv n f) (i * 2 + 2)
      ≡ marked fuel lv n f i (is_full_state (f (i * 2 + 1)).state)
  unfolding mark_loop
  mark_right =
      rw
        (
          sibling-right i (omega arith),
          parent-right i (omega arith),
          get_state-ok lv n f (i * 2 + 1) (omega arith),
          set_state-ok lv n f i (omega arith),
        )
        (ground arith)

pub mark_root :
    (fuel lv n : ℕ) (f : ℕ → Node) → mark_loop (suc fuel) (buddy_of lv n f) 0 ≡ ok (buddy_of lv n f)
unfolding mark_loop zalloc.Buddy.State.sibling
mark_root fuel lv n f = refl

pub ne_of_not-Inside : {i x : ℕ} → ¬ Inside i x → i ≢ x
ne_of_not-Inside {i} p e = p (subst (Inside i) e here)

pub with_state_ne : (f : ℕ → Node) (i v x : ℕ) → i ≢ x → with_state f i v x ≡ f x
with_state_ne f i v x h = ground arith

-- A write at a node leaves the blocks of both halves.
pub halves_kept :
    (f : ℕ → Node) (i v d : ℕ) (l r : Block)
    → IsBlock f (i * 2 + 1) d l
    → IsBlock f (i * 2 + 2) d r
    → IsBlock (with_state f i v) (i * 2 + 1) d l × IsBlock (with_state f i v) (i * 2 + 2) d r
halves_kept f i v d l r hl hr = (
  IsBlock-frame f _ _ d l (λ x p. with_state_ne f i v x (omega (arith, Inside-le p))) hl,
  IsBlock-frame f _ _ d r (λ x p. with_state_ne f i v x (omega (arith, Inside-le p))) hr,
)

join_full :
    (f : ℕ → Node) (i d : ℕ) (l r : Block)
    → is_full l && is_full r ≡ true
    → IsBlock f (i * 2 + 1) d l
    → IsBlock f (i * 2 + 2) d r
    → IsBlock (with_state f i node_full) i (suc d) (split l r)
join_full f i d l r both hl hr =
    let (hl', hr') = halves_kept f i node_full d l r hl hr in (rw both (ground arith), hl', hr')

-- One round of the loop above a half that may be full.
climbed_left :
    (fuel lv n : ℕ) (f : ℕ → Node) (i d : ℕ) (l r : Block)
    → i * 2 + 2 < n
    → n ≤ 2 ^ 30
    → IsBlock f (i * 2 + 2) d r
    → (if is_full l
        then mark_loop (suc fuel) (buddy_of lv n f) (i * 2 + 1)
        else ok (buddy_of lv n f))
      ≡ marked fuel lv n f i (is_full l && is_full r)
climbed_left fuel lv n f i d l r hi hn hr = elim (Bool-cases (is_full l)) [
  | inl e ↦ rw e (
      mark_left fuel lv n f i hi hn
      ∙ ap (marked fuel lv n f i) (IsBlock-is_full f (i * 2 + 2) d r hr))
  | inr e ↦ rw e refl
]

climbed_right :
    (fuel lv n : ℕ) (f : ℕ → Node) (i d : ℕ) (l r : Block)
    → i * 2 + 2 < n
    → n ≤ 2 ^ 30
    → IsBlock f (i * 2 + 1) d l
    → (if is_full r
        then mark_loop (suc fuel) (buddy_of lv n f) (i * 2 + 2)
        else ok (buddy_of lv n f))
      ≡ marked fuel lv n f i (is_full l && is_full r)
climbed_right fuel lv n f i d l r hi hn hl = elim (Bool-cases (is_full r)) [
  | inl e ↦ rw e (
      mark_right fuel lv n f i hi hn
      ∙ ap (marked fuel lv n f i)
          (IsBlock-is_full f (i * 2 + 1) d l hl ∙ sym (&&-true (is_full l))))
  | inr e ↦ rw e (ap (marked fuel lv n f i) (sym (&&-false (is_full l))))
]

module _ (lv n : ℕ) (f : ℕ → Node) where
  -- The loop, begun at `j` with the nodes `g`, turns the block at `i` into `t`; it goes on above
  -- `i` exactly if that block is full.
  pub record Marked (k i d : ℕ) (t : Block) (j : ℕ) (g : ℕ → Node) : Type 0 where
    pub nodes : ℕ → Node
    pub rounds : ℕ
    pub cost : rounds ≤ k
    pub run :
        (fuel : ℕ)
        → mark_loop (plus rounds fuel) (buddy_of lv n g) j
          ≡ (if is_full t then mark_loop fuel (buddy_of lv n nodes) i else ok (buddy_of lv n nodes))
    pub block : IsBlock nodes i d t
    pub same : (x : ℕ) → ¬ Inside i x → nodes x ≡ f x

  module _ (i : ℕ) (hi : i * 2 + 2 < n) (hn : n ≤ 2 ^ 30) where
    -- What one round above a half makes of what was done within that half.
    Marked-join :
        (k d : ℕ) (l r : Block) (j c : ℕ) (half : Bool) (g h : ℕ → Node) (rounds : ℕ)
        → rounds ≤ k
        → ((fuel : ℕ)
            → mark_loop (plus rounds fuel) (buddy_of lv n g) j
              ≡ (if half then mark_loop fuel (buddy_of lv n h) c else ok (buddy_of lv n h)))
        → ((fuel : ℕ)
            → (if half then mark_loop (suc fuel) (buddy_of lv n h) c else ok (buddy_of lv n h))
              ≡ marked fuel lv n h i (is_full l && is_full r))
        → (h i).state ≡ node_split
        → IsBlock h (i * 2 + 1) d l
        → IsBlock h (i * 2 + 2) d r
        → ((x : ℕ) → ¬ Inside i x → h x ≡ f x)
        → Marked (suc k) i (suc d) (split l r) j g
    unfolding is_full
    Marked-join k d l r j c half g h rounds cost run climb st hl hr same =
        elim (Bool-cases (is_full l && is_full r)) [
          | inl both ↦ record {
            nodes = with_state h i node_full;
            rounds = suc rounds;
            cost = omega arith;
            run = λ fuel. joined fuel ∙ rw both refl;
            block = join_full h i d l r both hl hr;
            same = λ x p. with_state_ne h i node_full x (ne_of_not-Inside p) ∙ same x p;
          }
          | inr partly ↦ record {
            nodes = h;
            rounds = suc rounds;
            cost = omega arith;
            run = λ fuel. joined fuel ∙ rw partly refl;
            block = (rw partly st, hl, hr);
            same = same;
          }
        ]
      where
        joined :
            (fuel : ℕ)
            → mark_loop (suc (plus rounds fuel)) (buddy_of lv n g) j
              ≡ marked fuel lv n h i (is_full l && is_full r)
        joined fuel =
            ap (λ m. mark_loop m (buddy_of lv n g) j) (sym (plus-suc rounds fuel))
            ∙ run (suc fuel)
            ∙ climb fuel

    pub Marked-left :
        (k d : ℕ) (l r : Block) (j : ℕ) (g : ℕ → Node)
        → (f i).state ≡ node_split
        → IsBlock f (i * 2 + 2) d r
        → Marked k (i * 2 + 1) d l j g
        → Marked (suc k) i (suc d) (split l r) j g
    Marked-left k d l r j g st hr m =
        let hr' =
          IsBlock-frame f m.nodes (i * 2 + 2) d r (λ x p. m.same x (λ q. Inside-apart i q p)) hr in
        Marked-join k d l r j (i * 2 + 1) (is_full l) g m.nodes m.rounds m.cost m.run
          (λ fuel. climbed_left fuel lv n m.nodes i d l r hi hn hr')
          (rw (m.same i (λ q. absurd (omega (arith, Inside-le q)))) st) m.block hr'
          (λ x p. m.same x (λ q. p (Inside-left q)))

    pub Marked-right :
        (k d : ℕ) (l r : Block) (j : ℕ) (g : ℕ → Node)
        → (f i).state ≡ node_split
        → IsBlock f (i * 2 + 1) d l
        → Marked k (i * 2 + 2) d r j g
        → Marked (suc k) i (suc d) (split l r) j g
    Marked-right k d l r j g st hl m =
        let hl' = IsBlock-frame f m.nodes (i * 2 + 1) d l (λ x p. m.same x (Inside-apart i p)) hl in
        Marked-join k d l r j (i * 2 + 2) (is_full r) g m.nodes m.rounds m.cost m.run
          (λ fuel. climbed_right fuel lv n m.nodes i d l r hi hn hl')
          (rw (m.same i (λ q. absurd (omega (arith, Inside-le q)))) st) hl' m.block
          (λ x p. m.same x (λ q. p (Inside-right q)))
