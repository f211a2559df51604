-- ===== src/Buddy/Repr/Alone.antt =====
-- Trees of blocks with no allocation, and with one.
use zalloc.Base.{
  ℕ, zero, suc, ◌+◌, ◌-◌, ◌*◌, ◌^◌, ◌≤◌, ◌<◌, ◌≡◌, refl, sym, ◌∙◌, true, false, none, some, ltb,
  ◌==◌, if◌then◌else◌, arith, ==_same, two_pow_pos, two_pow_suc, Bool-cases, inl, inr,
}
use zalloc.Buddy.State.{Node}
use zalloc.Buddy.Tree.{Block, unused, used, split, merge, lookup, IsMerged}
use zalloc.Buddy.Tree.Largest.{largest}
use zalloc.Buddy.Repr.{IsBlock}

lookup-left : (d p : ℕ) (l r : Block) → p < 2 ^ d → lookup (suc d) p (split l r) ≡ lookup d p l
unfolding lookup
lookup-left d p l r low = let lt : ltb p (2 ^ d) ≡ true = ground arith in rw lt refl

lookup-right : (d p : ℕ) (l r : Block) → lookup (suc d) (2 ^ d + p) (split l r) ≡ lookup d p r
unfolding lookup
lookup-right d p l r =
    let ge : ltb (2 ^ d + p) (2 ^ d) ≡ false = ground arith in
    let back : 2 ^ d + p - 2 ^ d ≡ p = omega arith in rw (ge, back) refl

-- A tree without allocations whose free halves are merged is one free block.
pub lookup-none :
    (f : ℕ → Node) (i d : ℕ) (t : Block)
    → IsBlock f i d t
    → IsMerged t
    → ((p : ℕ) → p < 2 ^ d → lookup d p t ≡ none)
    → t ≡ unused
unfolding lookup merge
lookup-none f i d unused b m empty = refl
lookup-none f i d (used s) b m empty = absurd (cc (empty 0 (two_pow_pos d)))
lookup-none f i zero (split l r) b m empty = elim b [ ]
lookup-none f i (suc d) (split l r) (state, bl, br) (apart, ml, mr) empty =
    let left =
      lookup-none f (i * 2 + 1) d l bl ml
        (λ p low. sym (lookup-left d p l r low) ∙ empty p (omega (arith, two_pow_suc d))) in
    let right =
      lookup-none f (i * 2 + 2) d r br mr
        (λ p low. sym (lookup-right d p l r) ∙ empty (2 ^ d + p) (omega (arith, two_pow_suc d))) in
    absurd (cc (left, right, apart))

-- The tree has one allocation, of `size` bytes on `2 ^ e` pages from page `o` on.
pub record Alone (d size e o : ℕ) (t : Block) : Type 0 where
  pub map : (p : ℕ) → lookup d p t ≡ (if p == o then some (size, e) else none)

pub Alone-at : (d size e o : ℕ) (t : Block) → Alone d size e o t → lookup d o t ≡ some (size, e)
Alone-at d size e o t alone = alone.map o ∙ rw (==_same o) refl

pub Alone-other :
    (d size e o p : ℕ) (t : Block) → Alone d size e o t → (p == o) ≡ false → lookup d p t ≡ none
Alone-other d size e o p t alone away = alone.map p ∙ rw away refl

-- An allocation of the whole tree has the height of the tree.
Alone-used : (d size e o s : ℕ) → Alone d size e o (used s) → d ≡ e
unfolding lookup
Alone-used d size e o s alone = elim (Bool-cases (0 == o)) [
  | inl here ↦ let at : lookup d 0 (used s) ≡ some (size, e) = alone.map 0 ∙ rw here refl in cc at
  | inr away ↦
      let at : lookup d 0 (used s) ≡ none = Alone-other d size e o 0 (used s) alone away in
      absurd (cc at)
]

-- Where the only allocation has at most half of the pages, one half is free.
pub Alone-largest :
    (f : ℕ → Node) (i d size e o : ℕ) (t : Block)
    → IsBlock f i (suc d) t
    → IsMerged t
    → Alone (suc d) size e o t
    → e ≤ d
    → 2 ^ d ≤ largest (suc d) t
unfolding largest lookup
Alone-largest f i d size e o unused b m alone small = omega (arith, two_pow_suc d)
Alone-largest f i d size e o (used s) b m alone small =
    absurd (omega (arith, Alone-used (suc d) size e o s alone))
Alone-largest f i d size e o (split l r) (state, bl, br) (apart, ml, mr) alone small =
    elim (Bool-cases (ltb o (2 ^ d))) [
      | inl low ↦
          let free : r ≡ unused = lookup-none f (i * 2 + 2) d r br mr (λ p lt.
            sym (lookup-right d p l r)
            ∙ Alone-other (suc d) size e o (2 ^ d + p) (split l r) alone (ground arith)) in
          rw free (omega arith)
      | inr high ↦
          let free : l ≡ unused = lookup-none f (i * 2 + 1) d l bl ml (λ p lt.
            sym (lookup-left d p l r lt)
            ∙ Alone-other (suc d) size e o p (split l r) alone (ground arith)) in
          rw free (omega arith)
    ]
