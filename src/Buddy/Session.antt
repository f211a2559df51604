-- ===== src/Buddy/Session.antt =====
-- Sequences of calls of `buddy_alloc` and `buddy_free`, with what the client holds.
pub mod Empty
use mathlib.Core.Path.{subst}
use zalloc.Base.{
  ℕ, ◌+◌, ◌*◌, ◌/◌, ◌^◌, ◌≤◌, ◌<◌, ◌≡◌, ◌≢◌, refl, sym, ◌∙◌, Option, none, some, ok, arith, ◌==◌,
  if◌then◌else◌,
}
use zalloc.Buddy.Size.{page_size, block_pages}
use zalloc.Buddy.State.{node_full, Buddy}
use zalloc.Buddy.Tree.{Block, unused, place, release, lookup, IsMerged}
use zalloc.Buddy.Tree.Lookup.{lookup-place, lookup-release_map, lookup-le, lookup_disjoint}
use zalloc.Buddy.Tree.Merged.{place-IsMerged, release-IsMerged}
use zalloc.Buddy.Repr.{IsBuddy}
use zalloc.Buddy.Alloc.{buddy_alloc}
use zalloc.Buddy.Alloc.Correct.{buddy_alloc-place}
use zalloc.Buddy.Free.{buddy_free, buddy_used_size}
use zalloc.Buddy.Free.Walk.{buddy_used_size-lookup}
use zalloc.Buddy.Free.Whole.{Released, ReleasedAs, buddy_free-release}

-- What the client holds: for the page where an allocation begins, its bytes and the exponent of
-- its pages.
abbrev pub Live : Type 0
Live = ℕ → Option (ℕ × ℕ)

abbrev pub hold : Live → ℕ → Option (ℕ × ℕ) → Live
hold live o x p = if p == o then x else live p

-- The states that calls of the code lead to, on a region of 2 ^ `level` pages that is free at first:
-- requests that a free block of the tree is large enough for, and releases of allocations. The
-- code's results alone decide what the client holds.
pub data Session (level : ℕ) : Buddy → Block → Live → Type 0 where
  start : (b : Buddy) → IsBuddy b unused → b.level ≡ level → Session level b unused (λ p. none)
  alloc :
      {b : Buddy} {t : Block} {live : Live}
      → Session level b t live
      → (s k e fuel pos : ℕ) (o : ℕ) (t' : Block) (b' : Buddy) → block_pages s ≡ 2 ^ e
      → b.level ≡ k + e
      → 3 * 2 ^ k ≤ fuel
      → place k s t ≡ some (o, t')
      → buddy_alloc fuel b s ≡ ok (pos, b')
      → Session level b' t' (hold live (pos / page_size) (some (s, e)))
  free :
      {b : Buddy} {t : Block} {live : Live}
      → Session level b t live
      → (pos : ℕ) (t' : Block) (b' : Buddy) → pos / page_size < 2 ^ b.level
      → release b.level (pos / page_size) t ≡ some t'
      → buddy_free b pos ≡ ok b'
      → Session level b' t' (hold live (pos / page_size) none)

-- The array stands for the tree, the level is kept, no free halves stand side by side, and the
-- client's view agrees.
pub record Agrees (level : ℕ) (b : Buddy) (t : Block) (live : Live) : Type 0 where
  pub valid : IsBuddy b t
  pub height : b.level ≡ level
  pub merged : IsMerged t
  pub map : (p : ℕ) → lookup b.level p t ≡ live p

page_of : (pos page : ℕ) → pos ≡ page_size * page → pos / page_size ≡ page
page_of pos page h = omega arith

Agrees-alloc :
    (level : ℕ) (b : Buddy) (t : Block) (live : Live) (s k e fuel pos o : ℕ) (t' : Block)
    (b' : Buddy)
    → Agrees level b t live
    → block_pages s ≡ 2 ^ e
    → b.level ≡ k + e
    → 3 * 2 ^ k ≤ fuel
    → place k s t ≡ some (o, t')
    → buddy_alloc fuel b s ≡ ok (pos, b')
    → Agrees level b' t' (hold live (pos / page_size) (some (s, e)))
Agrees-alloc level b t live s k e fuel pos o t' b' a size height enough placed run =
    let done = buddy_alloc-place b t s k e fuel a.valid size height enough placed in
    let same : ok (page_size * (o * 2 ^ e), done.after) ≡ ok (pos, b') = sym done.result ∙ run in
    let at : pos ≡ page_size * (o * 2 ^ e) = cc same in
    let after : done.after ≡ b' = cc same in
    let page : pos / page_size ≡ o * 2 ^ e = page_of pos (o * 2 ^ e) at in
    subst (λ x. Agrees level x t' (hold live (pos / page_size) (some (s, e)))) after
      (record {
        valid = done.valid;
        height = done.level ∙ a.height;
        merged = place-IsMerged k s t placed a.merged;
        map = λ p.
            rw (done.level, page)
              (lookup-place k e b.level s p t height placed ∙ rw (a.map p) refl);
      })

Agrees-free :
    (level : ℕ) (b : Buddy) (t : Block) (live : Live) (pos : ℕ) (t' : Block) (b' : Buddy)
    → level ≢ node_full
    → Agrees level b t live
    → pos / page_size < 2 ^ b.level
    → release b.level (pos / page_size) t ≡ some t'
    → buddy_free b pos ≡ ok b'
    → Agrees level b' t' (hold live (pos / page_size) none)
Agrees-free level b t live pos t' b' ne a within freed run =
    let done : Released b t' (buddy_free b pos) =
      subst (λ x. ReleasedAs b x (buddy_free b pos)) freed
        (buddy_free-release b t a.valid pos (rw a.height ne) within) in
    let same : ok done.after ≡ ok b' = sym done.result ∙ run in
    let after : done.after ≡ b' = cc same in
    subst (λ x. Agrees level x t' (hold live (pos / page_size) none)) after
      (record {
        valid = done.valid;
        height = done.level ∙ a.height;
        merged = release-IsMerged b.level (pos / page_size) t freed a.merged;
        map = λ p.
            rw done.level
              (lookup-release_map b.level (pos / page_size) p t freed ∙ rw (a.map p) refl);
      })

-- On a region whose level is not 3, in every state that requests which a free block is large enough
-- for and releases of allocations lead to, from a free region on, the level is the same, the array
-- of nodes stands for the tree of blocks, no two free halves stand side by side, and the allocations
-- of the tree are those that the client holds.
pub Session-Agrees :
    {level : ℕ} {b : Buddy} {t : Block} {live : Live}
    → level ≢ node_full
    → Session level b t live
    → Agrees level b t live
unfolding lookup
Session-Agrees ne (start b valid height) = record {
  valid = valid;
  height = height;
  merged = tt;
  map = λ p. refl;
}
Session-Agrees {level} ne
      (alloc {b} {t} {live} r s k e fuel pos o t' b' size height enough placed run) =
    Agrees-alloc level b t live s k e fuel pos o t' b' (Session-Agrees ne r) size height enough
      placed run
Session-Agrees {level} ne (free {b} {t} {live} r pos t' b' within freed run) =
    Agrees-free level b t live pos t' b' ne (Session-Agrees ne r) within freed run

module _ {level : ℕ} {b : Buddy} {t : Block} {live : Live} (ne : level ≢ node_full)
    (r : Session level b t live) where
  -- On a region whose level is not 3, after requests that a free block is large enough for and
  -- releases of allocations in any order, of two allocations that the client holds the first ends
  -- before the second begins, and the second ends within the region.
  pub Session-disjoint :
      (p q : ℕ) {s h s' h' : ℕ}
      → live p ≡ some (s, h)
      → live q ≡ some (s', h')
      → p < q
      → (p + 2 ^ h ≤ q) × (q + 2 ^ h' ≤ 2 ^ level)
  Session-disjoint p q {s} {h} {s'} {h'} ep eq lt =
      let a = Session-Agrees ne r in
      (
        lookup_disjoint b.level p q t {s = s} {h = h} {s' = s'} {h' = h'} (a.map p ∙ ep)
            (a.map q ∙ eq) lt,
        rw a.height at (lookup-le b.level q t {s = s'} {h = h'} (a.map q ∙ eq)),
      )

  -- On a region whose level is not 3, after requests that a free block is large enough for and
  -- releases of allocations in any order, `buddy_used_size` at a position within the region where
  -- the client holds an allocation gives the bytes that were asked for.
  pub Session-used_size :
      (pos : ℕ) {s h : ℕ}
      → pos / page_size < 2 ^ level
      → live (pos / page_size) ≡ some (s, h)
      → buddy_used_size b pos ≡ ok s
  Session-used_size pos within held =
      let a = Session-Agrees ne r in
      buddy_used_size-lookup b t a.valid pos (rw a.height within)
      ∙ rw (a.map (pos / page_size), held) refl
