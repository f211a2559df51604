-- ===== src/Buddy/Session/Empty.antt =====
-- What a session leaves once the client holds nothing.
use mathlib.Core.Path.{subst}
use zalloc.Base.{ℕ, ◌+◌, ◌*◌, ◌^◌, ◌≤◌, ◌≡◌, ◌≢◌, ◌∙◌, none, arith}
use zalloc.Buddy.Size.{block_pages}
use zalloc.Buddy.State.{node_full, Buddy}
use zalloc.Buddy.Tree.{Block, unused, tower, place-unused}
use zalloc.Buddy.Repr.{IsBuddy}
use zalloc.Buddy.Repr.Alone.{lookup-none}
use zalloc.Buddy.Alloc.{buddy_alloc}
use zalloc.Buddy.Alloc.Correct.{Allocated, buddy_alloc-place}
use zalloc.Buddy.Session.{Live, Session, Session-Agrees}

-- On a region whose level is not 3, after requests that a free block is large enough for and releases
-- of allocations in any order, once the client holds nothing, a request of up to the whole region is
-- served from the start of the region: with fuel of 3 * 2 ^ k, `k` the levels above its block, the
-- call returns and takes that block alone.
pub Session-whole :
    {level : ℕ} {b : Buddy} {t : Block} {live : Live}
    → level ≢ node_full
    → Session level b t live
    → ((p : ℕ) → live p ≡ none)
    → (s k e fuel : ℕ) → block_pages s ≡ 2 ^ e
    → level ≡ k + e
    → 3 * 2 ^ k ≤ fuel
    → Allocated b 0 (tower k s) (buddy_alloc fuel b s)
Session-whole {b = b} {t = t} ne r empty s k e fuel size height enough =
    let a = Session-Agrees ne r in
    let all : t ≡ unused =
      lookup-none b.tree 0 b.level t a.valid.block a.merged (λ p low. a.map p ∙ empty p) in
    let none_before : 0 * 2 ^ e ≡ 0 = omega arith in
    subst (λ o. Allocated b o (tower k s) (buddy_alloc fuel b s)) none_before
      (buddy_alloc-place b unused s k e fuel (subst (IsBuddy b) all a.valid) size
        (a.height ∙ height) enough (place-unused k s))
