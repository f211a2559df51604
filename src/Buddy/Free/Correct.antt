-- ===== src/Buddy/Free/Correct.antt =====
-- `buddy_free` against the release of a block of the tree.
use mathlib.Core.Path.{subst}
use zalloc.Base.{
  ℕ, zero, suc, ◌+◌, ◌-◌, ◌*◌, ◌^◌, ◌≤◌, ◌<◌, ◌≡◌, refl, sym, ap, ◌∙◌, Bool, ◌&&◌, Option, none,
  some, arith, ltb, ◌==◌, if◌then◌else◌, Bool-cases, &&-false, &&_comm, inl, inr,
}
use zalloc.Buddy.State.{node_split, node_full, Node}
use zalloc.Buddy.Tree.{
  Block, unused, used, split, is_full, merge, release, in_lower, in_upper, index_at, IsTaken,
  is_used, is_split,
}
use zalloc.Buddy.Inside.{Inside-le, Inside-left, Inside-right, Inside-apart}
use zalloc.Buddy.Repr.{IsBlock, HasRoom, HasRoom-lt, IsBlock-frame, parent-left, parent-right}
use zalloc.Buddy.Free.Merge.{Rising, Freed, Settled-join, unmark_climb, unmarked}
use zalloc.Buddy.Free.Halves.{last_round, rise_left, rise_right, settle_left, settle_right}

abbrev pub double : ℕ → ℕ
double zero = 0
double (suc d) = double d + 2

pub double_lem : (d : ℕ) → double d ≡ d + d
double_lem zero = refl
double_lem (suc d) = omega (arith, double_lem d)

module _ (lv n : ℕ) (f : ℕ → Node) (i : ℕ) (hi : i * 2 + 2 < n) (hn : n ≤ 2 ^ 30) (m d : ℕ)
    (l r : Block) (j : ℕ)
    (st : (f i).state ≡ (if is_full l && is_full r then node_full else node_split))
    (hl : IsBlock f (i * 2 + 1) d l) (hr : IsBlock f (i * 2 + 2) d r) where
  abbrev Whole : Block → Type 0
  Whole t = Freed lv n f (is_full l && is_full r) (m + 2) i (suc d) t j

  -- The left half is freed as a whole.
  risen_left : (x : Block) → x ≡ r → Rising lv n f m (i * 2 + 1) unused j → Whole (merge unused x)
  unfolding merge
  risen_left unused e p = inl (
      rise_left lv n f i hi hn m d (is_full l && is_full r) j st l r hl hr p (
        let free : IsBlock f (i * 2 + 2) d unused = subst (IsBlock f (i * 2 + 2) d) (sym e) hr in
        ground arith))
  risen_left (used s) e p =
      subst (λ y. Whole (split unused y)) (sym e)
        (inr (
          settle_left lv n f i hi hn m d (is_full l && is_full r) j st l r hl hr p
            (subst IsTaken e (is_used s))))
  risen_left (split a b) e p =
      subst (λ y. Whole (split unused y)) (sym e)
        (inr (
          settle_left lv n f i hi hn m d (is_full l && is_full r) j st l r hl hr p
            (subst IsTaken e (is_split a b))))

  -- The right half is freed as a whole.
  risen_right : (x : Block) → x ≡ l → Rising lv n f m (i * 2 + 2) unused j → Whole (merge x unused)
  unfolding merge
  risen_right unused e p = inl (
      rise_right lv n f i hi hn m d (is_full l && is_full r) j st l r hl hr p (
        let free : IsBlock f (i * 2 + 1) d unused = subst (IsBlock f (i * 2 + 1) d) (sym e) hl in
        ground arith))
  risen_right (used s) e p =
      subst (λ y. Whole (split y unused)) (sym e)
        (inr (
          settle_right lv n f i hi hn m d (is_full l && is_full r) j st l r hl hr p
            (subst IsTaken e (is_used s))))
  risen_right (split a b) e p =
      subst (λ y. Whole (split y unused)) (sym e)
        (inr (
          settle_right lv n f i hi hn m d (is_full l && is_full r) j st l r hl hr p
            (subst IsTaken e (is_split a b))))

  -- The left half is freed, as a whole or in part.
  Freed-left : (l' : Block) → Freed lv n f (is_full l) m (i * 2 + 1) d l' j → Whole (merge l' r)
  Freed-left l' (inl p) =
      subst (λ x. Whole (merge x r)) (sym p.free)
        (risen_left r refl (record { rounds = p.rounds; cost = p.cost; run = p.run; free = refl }))
  Freed-left l' (inr p) = subst Whole (sym (p.open_left r)) (
      inr (
        Settled-join lv n f i hi hn (is_full l && is_full r) (m + 2) d l' r j (i * 2 + 1) p.nodes
          (suc p.rounds) (omega (arith, p.cost))
          (λ fuel.
            last_round lv n f i hi hn p.rounds fuel j
            ∙ p.run (suc fuel)
            ∙ unmark_climb lv n f i hi hn fuel p.nodes (i * 2 + 1) (is_full l) (is_full r)
                (parent-left i (omega arith)) st')
          st' p.block
          (IsBlock-frame f p.nodes (i * 2 + 2) d r (λ x q. p.same x (λ w. Inside-apart i w q)) hr)
          (λ x q. p.same x (λ w. q (Inside-left w))) (p.open_left r) (rw p.not_full refl)))
    where
      st' : (p.nodes i).state ≡ (if is_full l && is_full r then node_full else node_split)
      st' = rw (p.same i (λ q. absurd (omega (arith, Inside-le q)))) st

  -- The right half is freed, as a whole or in part.
  Freed-right : (r' : Block) → Freed lv n f (is_full r) m (i * 2 + 2) d r' j → Whole (merge l r')
  Freed-right r' (inl p) =
      subst (λ x. Whole (merge l x)) (sym p.free)
        (risen_right l refl (record { rounds = p.rounds; cost = p.cost; run = p.run; free = refl }))
  Freed-right r' (inr p) = subst Whole (sym (p.open_right l)) (
      inr (
        Settled-join lv n f i hi hn (is_full l && is_full r) (m + 2) d l r' j (i * 2 + 2) p.nodes
          (suc p.rounds) (omega (arith, p.cost))
          (λ fuel.
            last_round lv n f i hi hn p.rounds fuel j
            ∙ p.run (suc fuel)
            ∙ unmark_climb lv n f i hi hn fuel p.nodes (i * 2 + 2) (is_full r) (is_full l)
                (parent-right i (omega arith)) (rw (&&_comm (is_full r) (is_full l)) st')
            ∙ ap (unmarked fuel lv n p.nodes i) (&&_comm (is_full r) (is_full l)))
          st' (IsBlock-frame f p.nodes (i * 2 + 1) d l (λ x q. p.same x (Inside-apart i q)) hl)
          p.block (λ x q. p.same x (λ w. q (Inside-right w))) (p.open_right l)
          (rw p.not_full (&&-false (is_full l)))))
    where
      st' : (p.nodes i).state ≡ (if is_full l && is_full r then node_full else node_split)
      st' = rw (p.same i (λ q. absurd (omega (arith, Inside-le q)))) st

abbrev pub FreedAs : ℕ → ℕ → (ℕ → Node) → Bool → ℕ → ℕ → ℕ → ℕ → Option Block → Type 0
FreedAs lv n f full m i d j none = Unit
FreedAs lv n f full m i d j (some t) = Freed lv n f full m i d t j

module _ (lv n : ℕ) (f : ℕ → Node) (hn : n ≤ 2 ^ 30) where
  -- The loops of `_combine`, begun at the block that starts at page `o`, release it.
  pub free_block :
      (d i o : ℕ) (t : Block)
      → HasRoom n i d
      → IsBlock f i d t
      → FreedAs lv n f (is_full t) (double d) i d (index_at d o i t) (release d o t)
  unfolding is_full release index_at
  free_block d i o unused room h = tt
  free_block d i o (used s) room h = elim (Bool-cases (o == 0)) [
    | inl first ↦
        rw first (inl (record { rounds = 0; cost = omega arith; run = λ fuel. refl; free = refl }))
    | inr later ↦ rw later tt
  ]
  free_block zero i o (split l r) room h = tt
  free_block (suc d) i o (split l r) room h = elim (Bool-cases (ltb o (2 ^ d))) [
    | inl low ↦ rw low (lower (release d o l) (free_block d (i * 2 + 1) o l room.1 h.1))
    | inr high ↦
        rw high
          (upper (release d (o - 2 ^ d) r) (free_block d (i * 2 + 2) (o - 2 ^ d) r room.2 h.2))
  ]
    where
      hi : i * 2 + 2 < n
      hi = HasRoom-lt n (i * 2 + 2) d room.2

      lower :
          (x : Option Block)
          → FreedAs lv n f (is_full l) (double d) (i * 2 + 1) d (index_at d o (i * 2 + 1) l) x
          → FreedAs lv n f
              (is_full l && is_full r)
              (double (suc d))
              i
              (suc d)
              (index_at d o (i * 2 + 1) l)
              (in_lower r x)
      lower none p = tt
      lower (some l') p = Freed-left lv n f i hi hn (double d) d l r _ h.0 h.1 h.2 l' p

      upper :
          (x : Option Block)
          → FreedAs lv n f
              (is_full r)
              (double d)
              (i * 2 + 2)
              d
              (index_at d (o - 2 ^ d) (i * 2 + 2) r)
              x
          → FreedAs lv n f
              (is_full l && is_full r)
              (double (suc d))
              i
              (suc d)
              (index_at d (o - 2 ^ d) (i * 2 + 2) r)
              (in_upper l x)
      upper none p = tt
      upper (some r') p = Freed-right lv n f i hi hn (double d) d l r _ h.0 h.1 h.2 r' p
