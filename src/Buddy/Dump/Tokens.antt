-- ===== src/Buddy/Dump/Tokens.antt =====
-- `buddy_dump` prints the tree of blocks.
use zalloc.Base.{
  ℕ, zero, suc, ◌+◌, ◌-◌, ◌*◌, ◌%◌, ◌^◌, ◌≤◌, ◌<◌, ◌≡◌, refl, ap, ◌∙◌, ◌&&◌, List, [], ◌∷◌, ◌++◌,
  ok, arith, if◌then◌else◌, Bool-cases, inl, inr, two_pow_suc, two_pow_add,
}
use zalloc.Buddy.Size.{page_size}
use zalloc.Buddy.State.{Node, Buddy}
use zalloc.Buddy.Tree.{Block, unused, used, split, is_full}
use zalloc.Buddy.Repr.{IsBlock, HasRoom, HasRoom-lt, buddy_of, get_state-ok, IsBuddy}
use zalloc.Buddy.Alloc.{index_offset}
use zalloc.Buddy.Alloc.Correct.{shift_one-ok, index_offset-ok}
use zalloc.Buddy.Dump.{
  Token, vacant, taken, full_open, full_close, half_open, half_close, newline, show, dump,
  buddy_dump,
}

-- The tokens of a tree of `2 ^ d` pages that begins at page `o`.
unfoldable pub tokens : ℕ → ℕ → Block → List Token
tokens d o unused = vacant (page_size * o) (2 ^ d) ∷ []
tokens d o (used s) = taken (page_size * o) (2 ^ d) ∷ []
tokens zero o (split l r) = []
tokens (suc d) o (split l r) =
    let inner =
      tokens d o l
      ++ (tokens d (o + 2 ^ d) r
          ++ ((if is_full l && is_full r then full_close else half_close) ∷ [])) in
    (if is_full l && is_full r then full_open else half_open) ∷ inner

module _ (lv n : ℕ) (f : ℕ → Node) (hn : n ≤ 2 ^ 30) (small : lv < 31) where
  show_lem :
      (token : ℕ → ℕ → Token) (k e x j : ℕ)
      → lv ≡ k + e
      → x < 2 ^ k
      → j + 1 ≡ 2 ^ k + x
      → show token (buddy_of lv n f) j k ≡ ok (token (page_size * (x * 2 ^ e)) (2 ^ e) ∷ [])
  show_lem token k e x j height within at =
      let offset : index_offset j k lv ≡ ok (page_size * (x * 2 ^ e)) =
        rw height (index_offset-ok k e x j (omega arith) within at) in
      let left : lv - k ≡ e = omega arith in rw (offset, left, shift_one-ok e (omega arith)) refl

  dump-tokens :
      (fuel e k x j : ℕ) (t : Block)
      → e ≤ fuel
      → lv ≡ k + e
      → x < 2 ^ k
      → j + 1 ≡ 2 ^ k + x
      → HasRoom n j e
      → IsBlock f j e t
      → dump (suc fuel) (buddy_of lv n f) j k ≡ ok (tokens e (x * 2 ^ e) t)
  unfolding dump tokens
  dump-tokens fuel e k x j unused enough height within at room h =
      rw (get_state-ok lv n f j (HasRoom-lt n j e room), h)
        (show_lem vacant k e x j height within at)
  dump-tokens fuel e k x j (used s) enough height within at room h =
      rw (get_state-ok lv n f j (HasRoom-lt n j e room), h.0)
        (show_lem taken k e x j height within at)
  dump-tokens fuel zero k x j (split l r) enough height within at room h = elim h [ ]
  dump-tokens zero (suc e) k x j (split l r) enough height within at room h = absurd (omega arith)
  dump-tokens (suc fuel) (suc e) k x j (split l r) enough height within at room h =
      let twice = ap (λ (t : ℕ). x * t) (two_pow_suc e) in
      let first : x * 2 * 2 ^ e ≡ x * 2 ^ suc e = omega arith in
      let second : (x * 2 + 1) * 2 ^ e ≡ x * 2 ^ suc e + 2 ^ e = omega arith in
      let lower : (j * 2 + 1) % 2 ^ 64 ≡ j * 2 + 1 = omega (arith, HasRoom-lt n j (suc e) room) in
      let upper : (j * 2 + 2) % 2 ^ 64 ≡ j * 2 + 2 = omega (arith, HasRoom-lt n j (suc e) room) in
      let left =
        dump-tokens fuel e (k + 1) (x * 2) (j * 2 + 1) l (omega arith) (omega arith)
          (omega (arith, two_pow_add k 1)) (omega (arith, two_pow_add k 1)) room.1 h.1 in
      let right =
        dump-tokens fuel e (k + 1) (x * 2 + 1) (j * 2 + 2) r (omega arith) (omega arith)
          (omega (arith, two_pow_add k 1)) (omega (arith, two_pow_add k 1)) room.2 h.2 in
      rw (get_state-ok lv n f j (HasRoom-lt n j (suc e) room), h.0, lower, upper)
        (elim (Bool-cases (is_full l && is_full r)) [
          | inl full ↦ rw (full, left, right, first, second) refl
          | inr half ↦ rw (half, left, right, first, second) refl
        ])

-- `buddy_dump` on an array that stands for a tree of blocks ends, and what it prints are the tokens
-- of the tree, the blocks in order, each with its offset and pages, in nested brackets, and a line
-- feed.
pub buddy_dump-tokens :
    (b : Buddy) (t : Block) → IsBuddy b t → buddy_dump b ≡ ok (tokens b.level 0 t ++ (newline ∷ []))
unfolding buddy_dump
buddy_dump-tokens b t valid =
    let all : dump 257 b 0 0 ≡ ok (tokens b.level 0 t) =
      dump-tokens b.level b.nodes b.tree valid.nodes (omega (arith, valid.level)) 256 b.level 0 0 0
        t (omega (arith, valid.level)) (omega arith) (omega arith) refl valid.room valid.block
      ∙ ap (λ o. ok (tokens b.level o t)) (first (2 ^ b.level)) in
    rw all refl
  where
    first : (m : ℕ) → 0 * m ≡ 0
    first m = omega arith
