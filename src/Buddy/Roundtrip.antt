-- ===== src/Buddy/Roundtrip.antt =====
-- `buddy_alloc` succeeds where there is room, and `buddy_free` undoes it.
use mathlib.Core.Path.{subst}
use zalloc.Base.{
  ℕ, ◌+◌, ◌*◌, ◌/◌, ◌^◌, ◌≤◌, ◌≡◌, ◌≢◌, sym, ap, ◌∙◌, none, some, Option-cases, inl, inr, ok, arith,
  ◌==◌, if◌then◌else◌,
}
use zalloc.Buddy.Size.{page_size, block_pages}
use zalloc.Buddy.State.{node_full, Buddy}
use zalloc.Buddy.Tree.{Block, place, release, lookup, IsMerged}
use zalloc.Buddy.Tree.Largest.{largest, place-largest}
use zalloc.Buddy.Tree.Lookup.{lookup-place_fresh, lookup-le, lookup-place}
use zalloc.Buddy.Tree.Places.{place-Places, Places-lt, offset_low}
use zalloc.Buddy.Tree.Merged.{place-IsMerged, release-place}
use zalloc.Buddy.Repr.{IsBuddy}
use zalloc.Buddy.Alloc.{buddy_alloc}
use zalloc.Buddy.Alloc.Correct.{Allocated, buddy_alloc-place}
use zalloc.Buddy.Free.{buddy_free}
use zalloc.Buddy.Free.Whole.{Released, ReleasedAs, buddy_free-release}

module _ (b : Buddy) (t : Block) (s k e fuel : ℕ) (valid : IsBuddy b t)
    (size : block_pages s ≡ 2 ^ e) (height : b.level ≡ k + e) (enough : 3 * 2 ^ k ≤ fuel) where
  -- The call returns page `o`, which began no allocation, and after it the tree is `t'`.
  pub record Served (o : ℕ) (t' : Block) : Type 0 where
    pub result : Allocated b o t' (buddy_alloc fuel b s)
    pub inside : o + 2 ^ e ≤ 2 ^ b.level
    pub fresh : lookup b.level o t ≡ none
    pub map : (p : ℕ) → lookup b.level p t' ≡ (if p == o then some (s, e) else lookup b.level p t)
    pub merged : IsMerged t → IsMerged t'

  -- Where the tree has a free block of `2 ^ e` pages or more, `buddy_alloc` with fuel of
  -- 3 * 2 ^ k, `k` the levels above blocks of that size, returns within the region a page where
  -- no allocation began, and adds that one allocation to those of the tree.
  pub buddy_alloc-Served : 2 ^ e ≤ largest b.level t → (o : ℕ) × (t' : Block) × Served o t'
  buddy_alloc-Served room = elim (Option-cases (place k s t)) [
    | inl failed ↦ absurd ((place-largest k e b.level s t height).1 room failed)
    | inr ((o, t'), placed) ↦ (
      o * 2 ^ e,
      t',
      record {
        result = buddy_alloc-place b t s k e fuel valid size height enough placed;
        inside = lookup-le b.level (o * 2 ^ e) t' {s = s} {h = e} (own o t' placed);
        fresh = lookup-place_fresh k e b.level s t height placed;
        map = λ p. lookup-place k e b.level s p t height placed;
        merged = place-IsMerged k s t placed;
      },
    )
  ]
    where
      own :
          (o : ℕ) (t' : Block)
          → place k s t ≡ some (o, t')
          → lookup b.level (o * 2 ^ e) t' ≡ some (s, e)
      own o t' placed = ground (arith, lookup-place k e b.level s (o * 2 ^ e) t height placed)

  -- On a tree without free halves side by side, whose level is not 3 and that has a free block of
  -- `2 ^ e` pages or more, freeing what `buddy_alloc` returned leads back to the tree of blocks
  -- from before.
  pub buddy_free-buddy_alloc :
      {pos : ℕ} {b' : Buddy}
      → IsMerged t
      → b.level ≢ node_full
      → 2 ^ e ≤ largest b.level t
      → buddy_alloc fuel b s ≡ ok (pos, b')
      → Released b' t (buddy_free b' pos)
  buddy_free-buddy_alloc {pos} {b'} merged ne room run = elim (Option-cases (place k s t)) [
    | inl failed ↦ absurd ((place-largest k e b.level s t height).1 room failed)
    | inr ((o, t'), placed) ↦
        let done = buddy_alloc-place b t s k e fuel valid size height enough placed in
        let same : ok (page_size * (o * 2 ^ e), done.after) ≡ ok (pos, b') =
          sym done.result ∙ run in
        let at : pos ≡ page_size * (o * 2 ^ e) = cc same in
        let after : done.after ≡ b' = cc same in
        undone o t' pos b' placed at (subst (λ x. IsBuddy x t') after done.valid)
          (ap (λ x. x.level) (sym after) ∙ done.level)
  ]
    where
      page_of : (pos page : ℕ) → pos ≡ page_size * page → pos / page_size ≡ page
      page_of pos page h = omega arith

      undone :
          (o : ℕ) (t' : Block) (pos : ℕ) (b' : Buddy)
          → place k s t ≡ some (o, t')
          → pos ≡ page_size * (o * 2 ^ e)
          → IsBuddy b' t'
          → b'.level ≡ b.level
          → Released b' t (buddy_free b' pos)
      undone o t' pos b' placed at valid' same =
          let page = page_of pos (o * 2 ^ e) at in
          let back : release b'.level (pos / page_size) t' ≡ some t =
            rw (page, same) (release-place k e b.level s t height placed merged) in
          subst (λ x. ReleasedAs b' x (buddy_free b' pos)) back
            (buddy_free-release b' t' valid' pos (rw same ne) (
              rw (page, same)
                (offset_low k e b.level o height (Places-lt (place-Places k s t placed)))))
