-- ===== src/Buddy/Tree/Largest.antt =====
-- The first fit fails only where every free block is too small.
use Prim.Native.Nat.{max}
use zalloc.Base.{
  ℕ, zero, suc, ◌+◌, ◌^◌, ◌≤◌, ◌≡◌, ◌≢◌, ◌↔◌, refl, none, arith, Option-cases, inl, inr,
  two_pow_pos, two_pow_suc, two_pow_mono, two_pow_lt,
}
use native.Mathlib.Decide.{dec_le}
use zalloc.Buddy.Tree.{Block, unused, used, split, place, place-none}

-- The pages of the largest free block of a block of `2 ^ d` pages.
unfoldable pub largest : ℕ → Block → ℕ
largest d unused = 2 ^ d
largest d (used s) = 0
largest zero (split l r) = 0
largest (suc d) (split l r) = max (largest d l) (largest d r)

largest-le : (d : ℕ) (t : Block) → largest d t ≤ 2 ^ d
unfolding largest
largest-le d unused = omega arith
largest-le d (used s) = omega arith
largest-le zero (split l r) = omega arith
largest-le (suc d) (split l r) = omega (arith, largest-le d l, largest-le d r, two_pow_suc d)

-- The first fit finds a block exactly if some free block is large enough.
pub place-largest :
    (k e d s : ℕ) (t : Block) → d ≡ k + e → (place k s t ≢ none) ↔ (2 ^ e ≤ largest d t)
unfolding place largest
place-largest k e d s unused h = ((λ n. two_pow_mono e d (omega arith)), λ le p. cc)
place-largest k e d s (used u) h =
    ((λ n. absurd (n refl)), λ le. absurd (omega (arith, two_pow_pos e)))
place-largest zero e zero s (split l r) h =
    ((λ n. absurd (n refl)), λ le. absurd (omega (arith, two_pow_pos e)))
place-largest zero e (suc d) s (split l r) h = (
  (λ n. absurd (n refl)),
  λ le. absurd (omega (arith, largest-le d l, largest-le d r, two_pow_lt d e (omega arith))),
)
place-largest (suc k) e zero s (split l r) h = absurd (omega arith)
place-largest (suc k) e (suc d) s (split l r) h =
    let (fl, gl) = place-largest k e d s l (omega arith) in
    let (fr, gr) = place-largest k e d s r (omega arith) in
    (
      (λ n. elim (Option-cases (place k s l)) [
        | inl el ↦ let le = fr (λ er. n (rw (el, er) refl)) in omega arith
        | inr (x, el) ↦ let le = fl (λ q. cc) in omega arith
      ]),
      λ le p.
          let (el, er) = place-none k s l r p in
          elim (dec_le (2 ^ e) (largest d l)) [ yes q ↦ gl q el | no q ↦ gr (omega arith) er ],
    )
