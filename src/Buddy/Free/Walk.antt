-- ===== src/Buddy/Free/Walk.antt =====
-- The walk from the root to the block at a page, and the two queries.
use native.Mathlib.Nat.{zero-add}
use zalloc.Base.{
  ℕ, zero, suc, ◌+◌, ◌-◌, ◌*◌, ◌/◌, ◌%◌, ◌^◌, ◌≤◌, ◌<◌, ◌≡◌, ◌≢◌, refl, sym, ap, ◌∙◌, true, false,
  Option, none, some, Run, ok, abort, arith, ltb, ◌==◌, if◌then◌else◌, Bool-cases, inl, inr,
  Option-cases, two_pow_suc, two_pow_half, two_pow_lt,
}
use zalloc.Buddy.Size.{page_size}
use zalloc.Buddy.State.{node_unused, node_used, Node, Buddy}
use zalloc.Buddy.Tree.{Block, unused, used, split, lookup, index_at}
use zalloc.Buddy.Repr.{IsBlock, HasRoom, HasRoom-lt, buddy_of, get_state-ok, IsBuddy}
use zalloc.Buddy.Alloc.Correct.{shift_one-ok}
use zalloc.Buddy.Free.{walk, find_block, buddy_page_size, buddy_used_size}

module _ {ℓ} {A : Type ℓ} (lv n : ℕ) (f : ℕ → Node) (hn : n ≤ 2 ^ 30) (hit : ℕ → ℕ → Run A) where
  -- What the walk to page `o` of the block at `i` ends in.
  abbrev pub walked : ℕ → ℕ → ℕ → Block → Option (ℕ × ℕ) → Run A
  walked i d o t none = abort
  walked i d o t (some (s, h)) = hit (index_at d o i t) (2 ^ h)

  walked_low :
      (i d o : ℕ) (l r : Block) (x : Option (ℕ × ℕ))
      → ltb o (2 ^ d) ≡ true
      → walked i (suc d) o (split l r) x ≡ walked (i * 2 + 1) d o l x
  unfolding index_at
  walked_low i d o l r none low = refl
  walked_low i d o l r (some _) low = rw low refl

  walked_high :
      (i d o : ℕ) (l r : Block) (x : Option (ℕ × ℕ))
      → ltb o (2 ^ d) ≡ false
      → walked i (suc d) o (split l r) x ≡ walked (i * 2 + 2) d (o - 2 ^ d) r x
  unfolding index_at
  walked_high i d o l r none high = refl
  walked_high i d o l r (some _) high = rw high refl

  walk_down :
      (fuel i d page base : ℕ)
      → i < n
      → base + 2 ^ suc d ≤ 2 ^ 40
      → (f i).state ≢ node_used
      → (f i).state ≢ node_unused
      → walk (suc fuel) (buddy_of lv n f) page hit base (2 ^ suc d) i ≡ (
          if ltb page (base + 2 ^ d)
          then walk fuel (buddy_of lv n f) page hit base (2 ^ d) (i * 2 + 1)
          else walk fuel (buddy_of lv n f) page hit (base + 2 ^ d) (2 ^ d) (i * 2 + 2))
  unfolding walk
  walk_down fuel i d page base hi top nu nf =
      let lower : (i * 2 + 1) % 2 ^ 64 ≡ i * 2 + 1 = omega arith in
      let upper : (i * 2 + 2) % 2 ^ 64 ≡ i * 2 + 2 = omega arith in
      let middle : (base + 2 ^ d) % 2 ^ 64 ≡ base + 2 ^ d = omega (arith, two_pow_suc d) in
      rw (get_state-ok lv n f i hi, two_pow_half d, lower, upper, middle) (ground arith)

  -- The walk finds the allocation that begins at the page, and fails an assertion elsewhere.
  pub walk-lookup :
      (fuel d i base o : ℕ) (t : Block)
      → d ≤ fuel
      → HasRoom n i d
      → IsBlock f i d t
      → base + 2 ^ d ≤ 2 ^ 40
      → walk (suc fuel) (buddy_of lv n f) (base + o) hit base (2 ^ d) i
        ≡ walked i d o t (lookup d o t)
  unfolding walk index_at lookup
  walk-lookup fuel d i base o unused enough room h top =
      rw (get_state-ok lv n f i (HasRoom-lt n i d room), h) refl
  walk-lookup fuel d i base o (used s) enough room h top = elim (Bool-cases (o == 0)) [
    | inl first ↦
        let at : (base + o == base) ≡ true = ground arith in
        rw (get_state-ok lv n f i (HasRoom-lt n i d room), h.0, at, first) refl
    | inr later ↦
        let at : (base + o == base) ≡ false = ground arith in
        rw (get_state-ok lv n f i (HasRoom-lt n i d room), h.0, at, later) refl
  ]
  walk-lookup fuel zero i base o (split l r) enough room h top = elim h [ ]
  walk-lookup zero (suc d) i base o (split l r) enough room h top = absurd (omega arith)
  walk-lookup (suc fuel) (suc d) i base o (split l r) enough room h top =
      walk_down (suc fuel) i d (base + o) base room.0 top (ground arith) (ground arith)
      ∙ elim (Bool-cases (ltb o (2 ^ d))) [
        | inl low ↦
            let low' : ltb (base + o) (base + 2 ^ d) ≡ true = ground arith in
            rw (low', low)
              (walk-lookup fuel d (i * 2 + 1) base o l (omega arith) room.1 h.1
                  (omega (arith, two_pow_suc d))
                ∙ sym (walked_low i d o l r (lookup d o l) low))
        | inr high ↦
            let high' : ltb (base + o) (base + 2 ^ d) ≡ false = ground arith in
            let over : base + o ≡ base + 2 ^ d + (o - 2 ^ d) = ground arith in
            rw (high', high)
              (ap
                  (λ page.
                    walk (suc fuel) (buddy_of lv n f) page hit (base + 2 ^ d) (2 ^ d) (i * 2 + 2))
                  over
                ∙ walk-lookup fuel d (i * 2 + 2) (base + 2 ^ d) (o - 2 ^ d) r (omega arith) room.2
                    h.2 (omega (arith, two_pow_suc d))
                ∙ sym (walked_high i d o l r (lookup d (o - 2 ^ d) r) high))
      ]

pub index_at-bytes :
    (f : ℕ → Node) (d o i : ℕ) (t : Block) {s h : ℕ}
    → IsBlock f i d t
    → lookup d o t ≡ some (s, h)
    → ((f (index_at d o i t)).used ≡ s) × ((f (index_at d o i t)).pages ≡ 2 ^ h)
unfolding lookup index_at
index_at-bytes f d o i unused b e = cc
index_at-bytes f d o i (used s) b e = ground arith
index_at-bytes f zero o i (split l r) b e = elim b [ ]
index_at-bytes f (suc d) o i (split l r) b e = elim (Bool-cases (ltb o (2 ^ d))) [
  | inl low ↦ rw low (index_at-bytes f d o (i * 2 + 1) l b.1 (rw low at e))
  | inr high ↦ rw high (index_at-bytes f d (o - 2 ^ d) (i * 2 + 2) r b.2 (rw high at e))
]

-- What `found` makes of an allocation, and a failed assertion where there is none.
abbrev pub or_abort : Option (ℕ × ℕ) → (ℕ → ℕ → Run ℕ) → Run ℕ
or_abort none found = abort
or_abort (some (s, h)) found = found s h

module _ (b : Buddy) (t : Block) (valid : IsBuddy b t) where
  pub find_block-lookup {ℓ} :
      {A : Type ℓ} (o : ℕ) (hit : ℕ → ℕ → Run A)
      → o < 2 ^ b.level
      → find_block b o hit
        ≡ walked b.level b.nodes b.tree valid.nodes hit 0 b.level o t (lookup b.level o t)
  unfolding find_block
  find_block-lookup o hit h =
      let inside : ltb o (2 ^ b.level) ≡ true = ground arith in
      rw (shift_one-ok b.level (omega (arith, valid.level)), inside)
        (ap (λ page. walk 65 b page hit 0 (2 ^ b.level) 0) (sym (zero-add o))
          ∙ walk-lookup b.level b.nodes b.tree valid.nodes hit 64 b.level 0 0 o t
              (omega (arith, valid.level)) valid.room valid.block
              (omega (arith, two_pow_lt b.level 31 (omega (arith, valid.level)))))

  -- At a position within the region, `buddy_used_size` gives the bytes of the allocation that
  -- begins at its page, and fails an assertion where none does.
  pub buddy_used_size-lookup :
      (pos : ℕ)
      → pos / page_size < 2 ^ b.level
      → buddy_used_size b pos ≡ or_abort (lookup b.level (pos / page_size) t) (λ s h. ok s)
  unfolding buddy_used_size
  buddy_used_size-lookup pos h =
      find_block-lookup (pos / page_size) _ h
      ∙ elim (Option-cases (lookup b.level (pos / page_size) t)) [
        | inl e ↦ rw e refl
        | inr ((s, k), e) ↦
            rw e (ap ok (index_at-bytes b.tree b.level (pos / page_size) 0 t valid.block e).0)
      ]

  -- At a page within the region, `buddy_page_size` gives the pages of the allocation that begins
  -- there, and fails an assertion where none does.
  pub buddy_page_size-lookup :
      (o : ℕ)
      → o < 2 ^ b.level
      → buddy_page_size b o ≡ or_abort (lookup b.level o t) (λ s h. ok (2 ^ h))
  unfolding buddy_page_size
  buddy_page_size-lookup o h =
      find_block-lookup o _ h
      ∙ elim (Option-cases (lookup b.level o t)) [ inl e ↦ rw e refl | inr ((s, k), e) ↦ rw e refl ]
